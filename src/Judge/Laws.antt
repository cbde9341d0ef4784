-- ===== src/Judge/Laws.antt =====
-- A blinded verdict points back at the solution that was shown.
use localx_llama.Judge.{
  present, swaps, BlindedPair, Preferred, blind, first, resolve_preference, second,
}
use localx_llama.Prelude.{
  ℕ, Bool, true, false, ◌≡◌, ◌⊎◌, inl, inr, refl, Option, none, some, if◌then◌else◌, Bool-cases,
  ◌==◌,
}
use localx_llama.Text.{Text}

-- The solution of an arm, and the one presented at a position.
abbrev pub solution_of : Text → Text → Preferred → Text
solution_of a b first = a
solution_of a b second = b

abbrev pub presented_at : BlindedPair → ℕ → Option Text
presented_at pair presented =
    if presented == 1
    then some pair.solution_1
    else if presented == 2
    then some pair.solution_2
    else none

unswap :
    (a b : Text) (swap : Bool) (presented : ℕ)
    → ((presented_at (present a b swap) presented ≡ none)
        × (resolve_preference (present a b swap) presented ≡ none))
      ⊎ ((arm : Preferred) × (resolve_preference (present a b swap) presented ≡ some arm)
          × (presented_at (present a b swap) presented ≡ some (solution_of a b arm)))
unfolding resolve_preference present
unswap a b true presented = elim (Bool-cases (presented == 1)) [
  | inl one ↦ inr (second, rw one refl, rw one refl)
  | inr other ↦ elim (Bool-cases (presented == 2)) [
    | inl two ↦ inr (first, rw (other, two) refl, rw (other, two) refl)
    | inr neither ↦ inl (rw (other, neither) refl, rw (other, neither) refl)
  ]
]
unswap a b false presented = elim (Bool-cases (presented == 1)) [
  | inl one ↦ inr (first, rw one refl, rw one refl)
  | inr other ↦ elim (Bool-cases (presented == 2)) [
    | inl two ↦ inr (second, rw (other, two) refl, rw (other, two) refl)
    | inr neither ↦ inl (rw (other, neither) refl, rw (other, neither) refl)
  ]
]

-- Whatever the seed, a verdict on position 1 or 2 names the arm whose solution stood there; any
-- other position names none.
pub resolve_preference-blind :
    (a b : Text) (seed presented : ℕ)
    → ((presented_at (blind a b seed) presented ≡ none)
        × (resolve_preference (blind a b seed) presented ≡ none))
      ⊎ ((arm : Preferred) × (resolve_preference (blind a b seed) presented ≡ some arm)
          × (presented_at (blind a b seed) presented ≡ some (solution_of a b arm)))
unfolding blind
resolve_preference-blind a b seed presented = unswap a b (swaps seed) presented
