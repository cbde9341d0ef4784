-- ===== src/Text/Find.antt =====
-- Searching a text that grows at its end.
use localx_llama.Prelude.{
  ℕ, ◌+◌, ◌≤◌, none, some, [], ◌∷◌, ◌++◌, ◌≡◌, refl, ap, ◌⊎◌, inl, inr, arith, Option-cases, length,
}
use localx_llama.Text.{Text, utf8_width, byte_len, strip_prefix, split_once}

pub utf8_width_pos : (c : ℕ) → 1 ≤ utf8_width c
unfolding utf8_width
utf8_width_pos c = ground arith

pub byte_len-append : (s t : Text) → byte_len (s ++ t) ≡ byte_len s + byte_len t
unfolding byte_len
byte_len-append [] t = omega arith
byte_len-append (c ∷ s) t = omega (arith, byte_len-append s t)

pub length-le-byte_len : (s : Text) → length s ≤ byte_len s
unfolding byte_len
length-le-byte_len [] = omega arith
length-le-byte_len (c ∷ s) = omega (arith, length-le-byte_len s, utf8_width_pos c)

-- A prefix that is there is still there, with more text behind it.
pub strip_prefix-append :
    (n s r q : Text) → strip_prefix n s ≡ some q → strip_prefix n (s ++ r) ≡ some (q ++ r)
unfolding strip_prefix
strip_prefix-append [] s r q h = ground arith
strip_prefix-append (x ∷ n) [] r q h = cc
strip_prefix-append (x ∷ n) (c ∷ s) r q h = ground (arith, strip_prefix-append n s r q)

-- What a long enough text does not begin with, no text that extends it begins with.
pub strip_prefix-append_none :
    (n s r : Text)
    → strip_prefix n s ≡ none
    → byte_len n ≤ byte_len s
    → strip_prefix n (s ++ r) ≡ none
unfolding strip_prefix byte_len
strip_prefix-append_none [] s r h le = cc
strip_prefix-append_none (x ∷ n) [] r h le = absurd (omega (arith, utf8_width_pos x))
strip_prefix-append_none (x ∷ n) (c ∷ s) r h le = ground (arith, strip_prefix-append_none n s r)

pub strip_prefix-eq : (n s q : Text) → strip_prefix n s ≡ some q → s ≡ n ++ q
unfolding strip_prefix
strip_prefix-eq [] s q h = ground arith
strip_prefix-eq (x ∷ n) [] q h = cc
strip_prefix-eq (x ∷ n) (c ∷ s) q h = ground (arith, strip_prefix-eq n s q)

module _ (n : Text) (c : ℕ) (s : Text) where
  split_once-here :
      (a : Text) → strip_prefix n (c ∷ s) ≡ some a → split_once n (c ∷ s) ≡ some ([], a)
  unfolding split_once
  split_once-here a h = rw (h, split_once)

  pub split_once-later :
      (p q : Text)
      → strip_prefix n (c ∷ s) ≡ none
      → split_once n s ≡ some (p, q)
      → split_once n (c ∷ s) ≡ some (c ∷ p, q)
  unfolding split_once
  split_once-later p q h e = rw (h, e, split_once)

  pub split_once-never :
      strip_prefix n (c ∷ s) ≡ none → split_once n s ≡ none → split_once n (c ∷ s) ≡ none
  unfolding split_once
  split_once-never h e = rw (h, e, split_once)

  -- The first occurrence stands at the head, or in the tail.
  split_once-cases :
      (p q : Text)
      → split_once n (c ∷ s) ≡ some (p, q)
      → ((p ≡ []) × (strip_prefix n (c ∷ s) ≡ some q))
        ⊎ ((p' : Text) × (p ≡ c ∷ p')
            × (strip_prefix n (c ∷ s) ≡ none)
            × (split_once n s ≡ some (p', q)))
  split_once-cases p q h = elim (Option-cases (strip_prefix n (c ∷ s))) [
    | inl e ↦ elim (Option-cases (split_once n s)) [
      | inl f ↦ cc (split_once-never e f)
      | inr ((p', q'), f) ↦
          inr (p', cc (split_once-later p' q' e f), e, cc (split_once-later p' q' e f))
    ]
    | inr (a, e) ↦ inl (cc (split_once-here a e), cc (split_once-here a e))
  ]

  pub split_once-none_cases :
      split_once n (c ∷ s) ≡ none → (strip_prefix n (c ∷ s) ≡ none) × (split_once n s ≡ none)
  split_once-none_cases h = elim (Option-cases (strip_prefix n (c ∷ s))) [
    | inl e ↦ elim (Option-cases (split_once n s)) [
      | inl f ↦ (e, f)
      | inr ((p', q'), f) ↦ cc (split_once-later p' q' e f)
    ]
    | inr (a, e) ↦ cc (split_once-here a e)
  ]

-- The parts and the needle between them are the text.
pub split_once-eq : (n s p q : Text) → split_once n s ≡ some (p, q) → s ≡ p ++ (n ++ q)
split_once-eq n [] p q h = unfold split_once in cc
split_once-eq n (c ∷ s) p q h = elim (split_once-cases n c s p q h) [
  | inl (e, here) ↦ rw e (strip_prefix-eq n (c ∷ s) q here)
  | inr (p', e, _, later) ↦ rw e (ap (◌∷◌ c) (split_once-eq n s p' q later))
]

pub byte_len-split_once :
    (n s p q : Text)
    → split_once n s ≡ some (p, q)
    → byte_len s ≡ byte_len p + byte_len n + byte_len q
byte_len-split_once n s p q h =
    rw (split_once-eq n s p q h) (omega (arith, byte_len-append p (n ++ q), byte_len-append n q))

-- The first occurrence stays the first, whatever text follows.
pub split_once-append :
    (n s r p q : Text) → split_once n s ≡ some (p, q) → split_once n (s ++ r) ≡ some (p, q ++ r)
split_once-append n [] r p q h = unfold split_once in cc
split_once-append n (c ∷ s) r p q h = elim (split_once-cases n c s p q h) [
  | inl (e, here) ↦
      rw e (split_once-here n c (s ++ r) (q ++ r) (strip_prefix-append n (c ∷ s) r q here))
  | inr (p', e, none_here, later) ↦ rw e (
      split_once-later n c (s ++ r) p' (q ++ r)
        (strip_prefix-append_none n (c ∷ s) r none_here
          (omega (arith, byte_len-split_once n s p' q later, byte_len-cons c s)))
        (split_once-append n s r p' q later))
]
  where
    byte_len-cons : (c : ℕ) (s : Text) → byte_len s ≤ byte_len (c ∷ s)
    byte_len-cons c s = unfold byte_len in omega arith

pub strip_prefix-of : (n r : Text) → strip_prefix n (n ++ r) ≡ some r
unfolding strip_prefix
strip_prefix-of [] r = refl
strip_prefix-of (c ∷ n) r = ground (arith, strip_prefix-of n r)
