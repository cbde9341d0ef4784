-- ===== src/Quant/Select/Chosen.antt =====
-- Which candidate is selected.
use localx_llama.Quant.Sets.Sorted.{Member, Member-sort_by, length-sort_by}
use localx_llama.Prelude.{
  ap, ◌∙◌, not, ◌||◌, ◌==◌, err, ok, ℕ, zero, suc, ◌≡◌, refl, ◌⊎◌, Bool, true, false, none, some,
  List, [], ◌∷◌, arith, Bool-cases, All, find, length, inl, inr, ◌<◌, ◌/◌,
}
use localx_llama.Quant.Select.{
  without_imatrix, nth, select_quant, default_candidate, match_quant, fuzzy, is_named, plain_key,
  only, keys_of, all_sized, size_of,
}
use localx_llama.Quant.{filter_chars, QuantCandidate, unknown, compact}
use localx_llama.Text.{Text, codes, join, ◌=ᵗ◌, lower}
use localx_llama.Text.Case.{=ᵗ_iff}
use localx_llama.Quant.Sets.{sort_by}

-- What a search finds is there and passes the test, and what it does not find is not there.
pub find-cases :
    {A : Type 0} (p : A → Bool) (xs : List A)
    → ((x : A) × (find p xs ≡ some x) × Member x xs × (p x ≡ true))
      ⊎ ((find p xs ≡ none) × All (λ x. p x ≡ false) xs)
find-cases p [] = inr (refl, tt)
find-cases p (y ∷ ys) = elim (Bool-cases (p y)) [
  | inl here ↦ inl (y, rw (here, find) refl, inl refl, here)
  | inr other ↦ elim (find-cases p ys) [
    | inl (x, e, m, h) ↦ inl (x, rw (other, find) e, inr m, h)
    | inr (e, hs) ↦ inr (rw (other, find) e, (other, hs))
  ]
]

nth-some :
    {A : Type 0} (n : ℕ) (xs : List A) → n < length xs → (x : A) × (nth n xs ≡ some x) × Member x xs
nth-some n [] lt = absurd (omega arith)
nth-some zero (x ∷ xs) lt = (x, refl, inl refl)
nth-some (suc n) (x ∷ xs) lt = let (y, e, m) = nth-some n xs (omega arith) in (y, e, inr m)

fuzzy-Member :
    (requested : Text) (candidates : List QuantCandidate) (x : QuantCandidate)
    → Member x (fuzzy requested candidates)
    → Member x candidates × ((plain_key x.key =ᵗ plain_key requested) ≡ true)
unfolding fuzzy
fuzzy-Member requested [] x h = absurd h
fuzzy-Member requested (c ∷ candidates) x h =
    elim (Bool-cases (plain_key c.key =ᵗ plain_key requested)) [
      | inr other ↦
          let m : Member x (fuzzy requested candidates) = rw (other, fuzzy) at h in
          let (there, same) = fuzzy-Member requested candidates x m in (inr there, same)
      | inl same ↦
          let m : Member x (c ∷ fuzzy requested candidates) = rw (same, fuzzy) at h in
          elim m [
            | inl e ↦ (inl e, rw e same)
            | inr rest ↦
                let (there, also) = fuzzy-Member requested candidates x rest in (inr there, also)
          ]
    ]

only-cases :
    (xs : List QuantCandidate)
    → (only xs ≡ none) ⊎ ((x : QuantCandidate) × (only xs ≡ some x) × Member x xs)
only-cases [] = inl refl
only-cases (x ∷ []) = inr (x, refl, inl refl)
only-cases (x ∷ y ∷ ys) = inl refl

or_true : (a b : Bool) → (a || b) ≡ true → (a ≡ true) ⊎ (b ≡ true)
or_true true b h = inl refl
or_true false b h = inr h

plain_key-compact : (a b : Text) → compact a ≡ compact b → (plain_key a =ᵗ plain_key b) ≡ true
unfolding plain_key
plain_key-compact a b e = (=ᵗ_iff _ _).1 (ap without_imatrix e)

compact-lower : (a b : Text) → lower a ≡ lower b → compact a ≡ compact b
unfolding compact
compact-lower a b e = ap (λ t. filter_chars (λ c. not (c == b'_' || c == b'-')) t) e

plain_key-is_named :
    (requested : Text) (c : QuantCandidate)
    → is_named requested c ≡ true
    → (plain_key c.key =ᵗ plain_key requested) ≡ true
unfolding is_named
plain_key-is_named requested c h = elim (or_true _ _ h) [
  | inl case_only ↦
      plain_key-compact c.key requested
        (compact-lower c.key requested ((=ᵗ_iff (lower c.key) (lower requested)).0 case_only))
  | inr same ↦
      plain_key-compact c.key requested ((=ᵗ_iff (compact c.key) (compact requested)).0 same)
]

module _ (all_of : List QuantCandidate) (requested : Text) where
  match_named :
      (x : QuantCandidate)
      → find (λ c. is_named requested c) all_of ≡ some x
      → match_quant all_of requested ≡ some x
  unfolding match_quant
  match_named x h = rw (h, match_quant) refl

  match_fuzzy :
      find (λ c. is_named requested c) all_of ≡ none
      → match_quant all_of requested ≡ only (fuzzy requested all_of)
  unfolding match_quant
  match_fuzzy h = rw (h, match_quant) refl

  match_quant-cases :
      ((x : QuantCandidate) × (match_quant all_of requested ≡ some x)
        × Member x all_of
        × ((plain_key x.key =ᵗ plain_key requested) ≡ true))
      ⊎ ((match_quant all_of requested ≡ none) × All (λ c. is_named requested c ≡ false) all_of)
  match_quant-cases = elim (find-cases (λ c. is_named requested c) all_of) [
    | inl (x, e, m, h) ↦ inl (x, match_named x e, m, plain_key-is_named requested x h)
    | inr (e, others) ↦ elim (only-cases (fuzzy requested all_of)) [
      | inl nothing ↦ inr (match_fuzzy e ∙ nothing, others)
      | inr (x, one, m) ↦
          let (there, same) = fuzzy-Member requested all_of x m in
          inl (x, match_fuzzy e ∙ one, there, same)
    ]
  ]

-- The candidate is not what the request names: its key is not the requested one but for case and
-- separators.
abbrev pub IsUnnamed : Text → QuantCandidate → Type 0
IsUnnamed requested x =
    (is_named requested x ≡ false) × ((compact x.key =ᵗ compact requested) ≡ false)

named-IsUnnamed :
    (requested : Text) (candidates : List QuantCandidate)
    → All (λ x. is_named requested x ≡ false) candidates
    → All (λ x. IsUnnamed requested x) candidates
unfolding is_named
named-IsUnnamed requested [] h = tt
named-IsUnnamed requested (c ∷ candidates) (h, hs) =
    ((h, or_false _ _ h), named-IsUnnamed requested candidates hs)
  where
    or_false : (a b : Bool) → (a || b) ≡ false → b ≡ false
    or_false a b h = ground arith

-- A request is answered with one of the candidates, whose key is the requested one but for case,
-- separators and the imatrix marker, or else is refused, and then no candidate's key is the
-- requested one but for case and separators.
pub select_quant-requested :
    (c : QuantCandidate) (candidates : List QuantCandidate) (requested : Text)
    → ((x : QuantCandidate) × (select_quant (c ∷ candidates) (some requested) ≡ ok x)
        × Member x (c ∷ candidates)
        × ((plain_key x.key =ᵗ plain_key requested) ≡ true))
      ⊎ ((select_quant (c ∷ candidates) (some requested)
            ≡ err (unknown requested (join (codes ", ") (keys_of (c ∷ candidates)))))
          × All (λ x. IsUnnamed requested x) (c ∷ candidates))
unfolding select_quant
select_quant-requested c candidates requested =
    elim (match_quant-cases (c ∷ candidates) requested) [
      | inl (x, e, m, same) ↦ inl (x, rw (e, select_quant) refl, m, same)
      | inr (e, others) ↦
          inr (rw (e, select_quant) refl, named-IsUnnamed requested (c ∷ candidates) others)
    ]

-- A Q4_K_M, imatrix or not.
abbrev pub is_q4km : QuantCandidate → Bool
is_q4km x = plain_key x.key =ᵗ codes "q4km"

module _ (c : QuantCandidate) (candidates : List QuantCandidate) where
  abbrev everyone : List QuantCandidate
  everyone = c ∷ candidates

  default_found :
      (x : QuantCandidate) → find is_q4km everyone ≡ some x → default_candidate everyone ≡ some x
  unfolding default_candidate
  default_found x h = rw (h, default_candidate) refl

  default_sized :
      find is_q4km everyone ≡ none
      → all_sized everyone ≡ true
      → default_candidate everyone ≡ nth (length everyone / 2) (sort_by size_of everyone)
  unfolding default_candidate
  default_sized h k = rw (h, default_candidate) (rw (k, default_candidate) refl)

  default_unsized :
      find is_q4km everyone ≡ none
      → all_sized everyone ≡ false
      → default_candidate everyone ≡ nth (length everyone / 2) everyone
  unfolding default_candidate
  default_unsized h k = rw (h, default_candidate) (rw (k, default_candidate) refl)

  default_candidate-cases :
      (x : QuantCandidate) × (default_candidate everyone ≡ some x)
      × Member x everyone
      × ((is_q4km x ≡ true) ⊎ All (λ y. is_q4km y ≡ false) everyone)
  default_candidate-cases = elim (find-cases is_q4km everyone) [
    | inl (x, e, m, h) ↦ (x, default_found x e, m, inl h)
    | inr (e, others) ↦ elim (Bool-cases (all_sized everyone)) [
      | inr unsized ↦
          let (x, at, m) = nth-some (length everyone / 2) everyone (omega arith) in
          (x, default_unsized e unsized ∙ at, m, inr others)
      | inl sized ↦
          let (x, at, m) =
            nth-some (length everyone / 2) (sort_by size_of everyone)
              (omega (arith, length-sort_by size_of everyone)) in
          (x, default_sized e sized ∙ at, Member-sort_by size_of x everyone m, inr others)
    ]
  ]

  -- Without a request one of the candidates is selected, and it is a Q4_K_M, imatrix or not, if
  -- there is one.
  pub select_quant-default :
      (x : QuantCandidate) × (select_quant everyone none ≡ ok x)
      × Member x everyone
      × ((is_q4km x ≡ true) ⊎ All (λ y. is_q4km y ≡ false) everyone)
  unfolding select_quant
  select_quant-default =
      let (x, e, m, h) = default_candidate-cases in (x, rw (e, select_quant) refl, m, h)
