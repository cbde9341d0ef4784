-- ===== src/Maps/Order.antt =====
-- The order of a `BTreeMap`'s keys: kept by `insert`, and enough for each key to have one entry.
use localx_llama.Prelude.{true, false, ◌≡◌, refl, none, [], ◌∷◌, arith, Bool-cases, inl, inr}
use localx_llama.Text.{Text, ◌=ᵗ◌}
use localx_llama.Text.Case.{=ᵗ_iff}
use localx_llama.Maps.{Map, text_ltb, get, insert, Distinct}

pub text_ltb_irrefl : (a : Text) → text_ltb a a ≡ false
unfolding text_ltb
text_ltb_irrefl [] = refl
text_ltb_irrefl (x ∷ a) = ground (arith, text_ltb_irrefl a)

pub text_ltb_trans :
    (a b c : Text) → text_ltb a b ≡ true → text_ltb b c ≡ true → text_ltb a c ≡ true
unfolding text_ltb
text_ltb_trans (x ∷ a) (y ∷ b) (z ∷ c) h k = ground (arith, text_ltb_trans a b c)
text_ltb_trans [] (y ∷ b) (z ∷ c) h k = refl
text_ltb_trans _ _ _ h k = ground arith

pub text_ltb_total : (a b : Text) → a =ᵗ b ≡ false → text_ltb a b ≡ false → text_ltb b a ≡ true
unfolding text_ltb ◌=ᵗ◌
text_ltb_total (x ∷ a) (y ∷ b) h k = ground (arith, text_ltb_total a b)
text_ltb_total _ _ h k = ground arith

module _ {V : Type 0} where
  -- Every key of the map is above `k`.
  abbrev pub Above : Text → Map V → Type 0
  Above k [] = Unit
  Above k ((j, v) ∷ m) = (text_ltb k j ≡ true) × Above k m

  abbrev pub IsSorted : Map V → Type 0
  IsSorted [] = Unit
  IsSorted ((k, v) ∷ m) = Above k m × IsSorted m

  Above-trans : (i j : Text) (m : Map V) → text_ltb i j ≡ true → Above j m → Above i m
  Above-trans i j [] h a = tt
  Above-trans i j ((k, v) ∷ m) h a = (text_ltb_trans i j k h a.0, Above-trans i j m h a.1)

  Above-insert :
      (i k : Text) (v : V) (m : Map V) → text_ltb i k ≡ true → Above i m → Above i (insert k v m)
  unfolding insert
  Above-insert i k v [] h a = (h, tt)
  Above-insert i k v ((j, w) ∷ m) h a = elim (Bool-cases (k =ᵗ j)) [
    | inl same ↦ rw same (h, a.1)
    | inr other ↦ elim (Bool-cases (text_ltb k j)) [
      | inl lt ↦ rw (other, lt) (h, a)
      | inr ge ↦ rw (other, ge) (a.0, Above-insert i k v m h a.1)
    ]
  ]

  pub insert-IsSorted : (k : Text) (v : V) (m : Map V) → IsSorted m → IsSorted (insert k v m)
  unfolding insert
  insert-IsSorted k v [] s = (tt, tt)
  insert-IsSorted k v ((j, w) ∷ m) s = elim (Bool-cases (k =ᵗ j)) [
    | inl same ↦ rw same (rw (← (=ᵗ_iff k j).0 same) at s)
    | inr other ↦ elim (Bool-cases (text_ltb k j)) [
      | inl lt ↦ rw (other, lt) ((lt, Above-trans k j m lt s.0), s)
      | inr ge ↦
          rw (other, ge)
            (Above-insert j k v m (text_ltb_total k j other ge) s.0, insert-IsSorted k v m s.1)
    ]
  ]

  Above-get : (k : Text) (m : Map V) → Above k m → get k m ≡ none
  unfolding get
  Above-get k [] a = refl
  Above-get k ((j, v) ∷ m) a = ground (arith, =ᵗ_iff j k, text_ltb_irrefl k, Above-get k m)

  pub IsSorted-Distinct : (m : Map V) → IsSorted m → Distinct m
  IsSorted-Distinct [] s = tt
  IsSorted-Distinct ((k, v) ∷ m) s = (Above-get k m s.0, IsSorted-Distinct m s.1)
