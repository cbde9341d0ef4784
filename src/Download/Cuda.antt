-- ===== src/Download/Cuda.antt =====
-- The order in which CUDA builds are tried.
use localx_llama.Prelude.{
  sym, ◌∙◌, if◌then◌else◌, ℕ, ◌≤◌, Bool, true, false, ◌||◌, ◌≡◌, ◌⊎◌, inl, inr, refl, List, [], ◌∷◌,
  arith, All, Bool-cases, any, ◌==◌, leb, leb→le, ==_iff,
}
use localx_llama.Download.{cuda_major_order, insert_desc, sort_desc, without}

-- `available.contains(&m)`
abbrev pub has_major : ℕ → List ℕ → Bool
has_major m majors = any (λ n. n == m) majors

abbrev pub IsDescending : List ℕ → Type 0
IsDescending [] = Unit
IsDescending (m ∷ ms) = All (λ n. n ≤ m) ms × IsDescending ms

has-insert_desc :
    (m k : ℕ) (ms : List ℕ) → has_major m (insert_desc k ms) ≡ ((k == m) || has_major m ms)
unfolding insert_desc
has-insert_desc m k [] = refl
has-insert_desc m k (n ∷ ms) = elim (Bool-cases (leb n k)) [
  | inl le ↦ rw le refl
  | inr gt ↦ rw gt (ground (arith, has-insert_desc m k ms))
]

has-sort_desc : (m : ℕ) (ms : List ℕ) → has_major m (sort_desc ms) ≡ has_major m ms
unfolding sort_desc
has-sort_desc m [] = refl
has-sort_desc m (k ∷ ms) = ground (arith, has-insert_desc m k (sort_desc ms), has-sort_desc m ms)

has-without :
    (m d : ℕ) (ms : List ℕ)
    → has_major m (without d ms) ≡ (if m == d then false else has_major m ms)
unfolding without
has-without m d [] = ground arith
has-without m d (k ∷ ms) = elim (Bool-cases (k == d)) [
  | inl same ↦ ground (arith, has-without m d ms)
  | inr other ↦ ground (arith, has-without m d ms)
]

All-insert_desc :
    (b k : ℕ) (ms : List ℕ) → k ≤ b → All (λ n. n ≤ b) ms → All (λ n. n ≤ b) (insert_desc k ms)
unfolding insert_desc
All-insert_desc b k [] le h = (le, tt)
All-insert_desc b k (n ∷ ms) le h = elim (Bool-cases (leb n k)) [
  | inl l ↦ rw l (le, h)
  | inr g ↦ rw g (h.0, All-insert_desc b k ms le h.1)
]

All-trans : (a b : ℕ) (ms : List ℕ) → a ≤ b → All (λ n. n ≤ a) ms → All (λ n. n ≤ b) ms
All-trans a b [] le h = tt
All-trans a b (n ∷ ms) le h = (omega (arith, h.0), All-trans a b ms le h.1)

insert_desc-IsDescending : (k : ℕ) (ms : List ℕ) → IsDescending ms → IsDescending (insert_desc k ms)
unfolding insert_desc
insert_desc-IsDescending k [] h = (tt, tt)
insert_desc-IsDescending k (n ∷ ms) h = elim (Bool-cases (leb n k)) [
  | inl l ↦ rw l ((leb→le n k l, All-trans n k ms (leb→le n k l) h.0), h)
  | inr g ↦ rw g (All-insert_desc n k ms (ground arith) h.0, insert_desc-IsDescending k ms h.1)
]

sort_desc-IsDescending : (ms : List ℕ) → IsDescending (sort_desc ms)
unfolding sort_desc
sort_desc-IsDescending [] = tt
sort_desc-IsDescending (m ∷ ms) =
    insert_desc-IsDescending m (sort_desc ms) (sort_desc-IsDescending ms)

has_no_driver : (d : ℕ) (ms : List ℕ) → has_major d (sort_desc (without d ms)) ≡ false
has_no_driver d ms =
    has-sort_desc d (without d ms) ∙ (has-without d d ms ∙ rw ((==_iff d d).1 refl) refl)

-- The order has the majors that are available, and no other.
pub has-cuda_major_order :
    (m driver_major : ℕ) (available : List ℕ)
    → has_major m (cuda_major_order driver_major available) ≡ has_major m available
unfolding cuda_major_order
has-cuda_major_order m d available = elim (Bool-cases (has_major d available)) [
  | inl h ↦ elim (Bool-cases (m == d)) [
    | inl same ↦ let e : m ≡ d = (==_iff m d).0 same in rw (h, e, (==_iff d d).1 refl, h) refl
    | inr other ↦
        rw h (ground (arith, has-sort_desc m (without d available), has-without m d available))
  ]
  | inr h ↦ elim (Bool-cases (m == d)) [
    | inl same ↦
        let e : m ≡ d = (==_iff m d).0 same in rw (h, e) (has_no_driver d available ∙ sym h)
    | inr other ↦
        rw h (ground (arith, has-sort_desc m (without d available), has-without m d available))
  ]
]

-- The driver's major comes first if it is available, and only there; the rest descends.
pub cuda_major_order_lem :
    (driver_major : ℕ) (available : List ℕ)
    → (rest : List ℕ) × IsDescending rest
      × (has_major driver_major rest ≡ false)
      × (((has_major driver_major available ≡ true)
            × (cuda_major_order driver_major available ≡ driver_major ∷ rest))
          ⊎ ((has_major driver_major available ≡ false)
              × (cuda_major_order driver_major available ≡ rest)))
unfolding cuda_major_order
cuda_major_order_lem d available = (
  sort_desc (without d available),
  sort_desc-IsDescending (without d available),
  has_no_driver d available,
  elim (Bool-cases (has_major d available)) [
    | inl h ↦ inl (h, rw h refl)
    | inr h ↦ inr (h, rw h refl)
  ],
)
