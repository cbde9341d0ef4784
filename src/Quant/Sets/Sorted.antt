-- ===== src/Quant/Sets/Sorted.antt =====
-- Sorting keeps the elements of a list.
use localx_llama.Prelude.{
  ℕ, suc, ◌≡◌, refl, ◌⊎◌, true, false, List, [], ◌∷◌, Bool-cases, leb, length, inl, inr,
}
use localx_llama.Quant.Sets.{sort_by, insert_by}

-- The element stands in the list.
abbrev pub Member : {A : Type 0} → A → List A → Type 0
Member x [] = ⊥
Member x (y ∷ ys) = (x ≡ y) ⊎ Member x ys

module _ {A : Type 0} (k : A → ℕ) where
  insert_first :
      (x z : A) (zs : List A) → leb (k x) (k z) ≡ true → insert_by k x (z ∷ zs) ≡ x ∷ (z ∷ zs)
  unfolding insert_by
  insert_first x z zs h = rw (h, insert_by) refl

  insert_later :
      (x z : A) (zs : List A)
      → leb (k x) (k z) ≡ false
      → insert_by k x (z ∷ zs) ≡ z ∷ insert_by k x zs
  unfolding insert_by
  insert_later x z zs h = rw (h, insert_by) refl

  length-insert_by : (x : A) (xs : List A) → length (insert_by k x xs) ≡ suc (length xs)
  length-insert_by x [] = unfold insert_by in refl
  length-insert_by x (y ∷ ys) = elim (Bool-cases (leb (k x) (k y))) [
    | inl le ↦ rw (insert_first x y ys le) refl
    | inr gt ↦ rw (insert_later x y ys gt) (rw (length-insert_by x ys) refl)
  ]

  pub length-sort_by : (xs : List A) → length (sort_by k xs) ≡ length xs
  unfolding sort_by
  length-sort_by [] = refl
  length-sort_by (x ∷ xs) = rw (length-insert_by x (sort_by k xs)) (rw (length-sort_by xs) refl)

  Member-insert_by : (x y : A) (xs : List A) → Member y (insert_by k x xs) → (y ≡ x) ⊎ Member y xs
  Member-insert_by x y [] h = unfold insert_by in h
  Member-insert_by x y (z ∷ zs) h = elim (Bool-cases (leb (k x) (k z))) [
    | inl le ↦ let m : Member y (x ∷ (z ∷ zs)) = rw (insert_first x z zs le) at h in m
    | inr gt ↦
        let m : Member y (z ∷ insert_by k x zs) = rw (insert_later x z zs gt) at h in
        elim m [
          | inl e ↦ inr (inl e)
          | inr rest ↦ elim (Member-insert_by x y zs rest) [ inl e ↦ inl e | inr r ↦ inr (inr r) ]
        ]
  ]

  pub Member-sort_by : (y : A) (xs : List A) → Member y (sort_by k xs) → Member y xs
  unfolding sort_by
  Member-sort_by y [] h = h
  Member-sort_by y (x ∷ xs) h = elim (Member-insert_by x y (sort_by k xs) h) [
    | inl e ↦ inl e
    | inr m ↦ inr (Member-sort_by y xs m)
  ]
