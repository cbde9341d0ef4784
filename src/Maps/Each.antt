-- ===== src/Maps/Each.antt =====
-- What holds of every entry of a map.
use localx_llama.Prelude.{◌≡◌, inl, inr, some, [], ◌∷◌, Bool-cases, All}
use mathlib.Core.Path.{subst}
use localx_llama.Text.{Text, ◌=ᵗ◌}
use localx_llama.Text.Case.{=ᵗ_iff}
use localx_llama.Maps.{Map, get, insert, text_ltb}

-- Every entry of a map has a property.
abbrev pub Each : {V : Type 0} → (Text → V → Type 0) → Map V → Type 0
Each P m = All (λ e. P e.0 e.1) m

module _ {V : Type 0} (P : Text → V → Type 0) where
  pub Each-get : (k : Text) (m : Map V) (v : V) → Each P m → get k m ≡ some v → P k v
  unfolding get
  Each-get k [] v h e = cc
  Each-get k ((j, w) ∷ m) v (here, later) e = elim (Bool-cases (j =ᵗ k)) [
    | inl same ↦
        let found : some w ≡ some v = rw same at e in
        subst (λ i. P i v) ((=ᵗ_iff j k).0 same) (subst (λ x. P j x) (some-inj found) here)
    | inr other ↦ Each-get k m v later (rw other at e)
  ]
    where
      some-inj : {x y : V} → some x ≡ some y → x ≡ y
      some-inj h = cc

  pub Each-insert : (k : Text) (v : V) (m : Map V) → P k v → Each P m → Each P (insert k v m)
  unfolding insert
  Each-insert k v [] h hs = (h, tt)
  Each-insert k v ((j, w) ∷ m) h (here, later) = elim (Bool-cases (k =ᵗ j)) [
    | inl same ↦ rw (same, insert) (h, later)
    | inr other ↦ elim (Bool-cases (text_ltb k j)) [
      | inl before ↦ rw (other, insert) (rw (before, insert) (h, (here, later)))
      | inr behind ↦ rw (other, insert) (rw (behind, insert) (here, Each-insert k v m h later))
    ]
  ]
