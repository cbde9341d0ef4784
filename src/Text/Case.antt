-- ===== src/Text/Case.antt =====
-- Equality of texts, and ASCII case.
use localx_llama.Prelude.{
  List, All, ap, ◌∙◌, inl, inr, Bool-cases, ℕ, true, [], ◌∷◌, ◌≡◌, refl, ◌↔◌, arith,
}
use localx_llama.Text.{
  contains_text, trim_cons, is_whitespace, trim, trim_end, trim_start, Text, ◌=ᵗ◌, lower_char,
  lower,
}

pub =ᵗ_iff : (s t : Text) → (s =ᵗ t ≡ true) ↔ (s ≡ t)
unfolding ◌=ᵗ◌
=ᵗ_iff (x ∷ s) (y ∷ t) = ground (arith, =ᵗ_iff s t)
=ᵗ_iff _ _ = ground arith

pub =ᵗ_refl : (s : Text) → s =ᵗ s ≡ true
=ᵗ_refl s = (=ᵗ_iff s s).1 refl

pub lower_char_idem : (c : ℕ) → lower_char (lower_char c) ≡ lower_char c
unfolding lower_char
lower_char_idem c = ground arith

pub lower_idem : (s : Text) → lower (lower s) ≡ lower s
unfolding lower
lower_idem [] = refl
lower_idem (c ∷ s) = cc (lower_char_idem c, lower_idem s)

whitespace-lower_char : (c : ℕ) → is_whitespace (lower_char c) ≡ is_whitespace c
unfolding is_whitespace lower_char
whitespace-lower_char c = ground arith

trim_start-lower : (s : Text) → trim_start (lower s) ≡ lower (trim_start s)
unfolding trim_start lower
trim_start-lower [] = refl
trim_start-lower (c ∷ s) = elim (Bool-cases (is_whitespace c)) [
  | inl w ↦ rw (whitespace-lower_char c, w, trim_start) (trim_start-lower s)
  | inr w ↦ rw (whitespace-lower_char c, w, trim_start)
]

trim_cons-lower : (c : ℕ) (t : Text) → trim_cons (lower_char c) (lower t) ≡ lower (trim_cons c t)
unfolding trim_cons lower
trim_cons-lower c [] = elim (Bool-cases (is_whitespace c)) [
  | inl w ↦ rw (whitespace-lower_char c, w)
  | inr w ↦ rw (whitespace-lower_char c, w)
]
trim_cons-lower c (d ∷ t) = refl

trim_end-lower : (s : Text) → trim_end (lower s) ≡ lower (trim_end s)
unfolding trim_end lower
trim_end-lower [] = refl
trim_end-lower (c ∷ s) = rw (trim_end-lower s) (trim_cons-lower c (trim_end s))

-- Trimming and ASCII case do not meet.
pub trim-lower : (s : Text) → trim (lower s) ≡ lower (trim s)
unfolding trim
trim-lower s = ap trim_end (trim_start-lower s) ∙ trim_end-lower (trim_start s)

pub All-contains_text {ℓ} :
    (P : Text → Type ℓ) (ts : List Text) (t : Text) → All P ts → contains_text ts t ≡ true → P t
All-contains_text P [] t a h = absurd cc
All-contains_text P (x ∷ ts) t a h = elim (Bool-cases (x =ᵗ t)) [
  | inl same ↦ rw ((=ᵗ_iff x t).0 same) at a.0
  | inr other ↦ All-contains_text P ts t a.1 (rw other at h)
]
