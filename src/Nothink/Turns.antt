-- ===== src/Nothink/Turns.antt =====
-- The rounds of the loop of `ThinkStripper::push`, one lemma for each branch.
use localx_llama.Prelude.{
  ℕ, zero, suc, ◌-◌, ◌≤◌, ◌<◌, Bool, true, false, none, some, [], ◌∷◌, ◌++◌, ◌≡◌, refl, ap, inl,
  inr, arith, Option-cases, Bool-cases, ltb, ltb→lt,
}
use localx_llama.Text.{Text, utf8_width, byte_len, split_once}
use localx_llama.Text.Find.{
  strip_prefix-append_none, split_once-none_cases, split_once-later, split_once-never,
}
use localx_llama.Nothink.{open_tag, close_tag, holdback, think_bailout}
use localx_llama.Nothink.Stripper.{split_at_byte, holdback_start, emit_safe_prefix, push_loop}

-- The branch that a round takes, with what its tests found.
pub data Turn : Bool → Text → Type 0 where
  closes : {buf : Text} (x a : Text) → split_once close_tag buf ≡ some (x, a) → Turn true buf
  bails :
      {buf : Text} → split_once close_tag buf ≡ none → think_bailout < byte_len buf → Turn true buf
  waits :
      {buf : Text}
      → split_once close_tag buf ≡ none
      → ltb think_bailout (byte_len buf) ≡ false
      → Turn true buf
  opens : {buf : Text} (p a : Text) → split_once open_tag buf ≡ some (p, a) → Turn false buf
  releases : {buf : Text} → split_once open_tag buf ≡ none → Turn false buf

pub turn : (in_think : Bool) (buf : Text) → Turn in_think buf
turn true buf = elim (Option-cases (split_once close_tag buf)) [
  | inl h ↦ elim (Bool-cases (ltb think_bailout (byte_len buf))) [
    | inl over ↦ bails h (ltb→lt _ _ over)
    | inr within ↦ waits h within
  ]
  | inr ((x, a), h) ↦ closes x a h
]
turn false buf = elim (Option-cases (split_once open_tag buf)) [
  | inl h ↦ releases h
  | inr ((p, a), h) ↦ opens p a h
]

over_bailout : (n : ℕ) → think_bailout < n → ltb think_bailout n ≡ true
over_bailout n h = ground arith

module _ (fuel : ℕ) (buf out : Text) where
  pub loop-closes :
      (x a : Text)
      → split_once close_tag buf ≡ some (x, a)
      → push_loop (suc fuel) true buf out ≡ push_loop fuel false a out
  unfolding push_loop
  loop-closes x a h = rw (h, push_loop)

  pub loop-bails :
      split_once close_tag buf ≡ none
      → think_bailout < byte_len buf
      → push_loop (suc fuel) true buf out ≡ push_loop fuel false [] (out ++ buf)
  unfolding push_loop
  loop-bails h over = rw (h, over_bailout (byte_len buf) over, push_loop)

  pub loop-waits :
      split_once close_tag buf ≡ none
      → ltb think_bailout (byte_len buf) ≡ false
      → push_loop (suc fuel) true buf out ≡ some (out, record { buf = buf; in_think = true })
  unfolding push_loop
  loop-waits h within = rw (h, within, push_loop)

  pub loop-opens :
      (p a : Text)
      → split_once open_tag buf ≡ some (p, a)
      → push_loop (suc fuel) false buf out ≡ push_loop fuel true a (out ++ p)
  unfolding push_loop
  loop-opens p a h = rw (h, push_loop)

  pub loop-releases :
      split_once open_tag buf ≡ none
      → push_loop (suc fuel) false buf out
        ≡ some (
          out ++ (emit_safe_prefix buf).0,
          record { buf = (emit_safe_prefix buf).1; in_think = false },
        )
  unfolding push_loop
  loop-releases h = rw (h, push_loop)

-- The two parts of a split are the text.
pub split_at_byte-append : (i : ℕ) (s : Text) → (split_at_byte i s).0 ++ (split_at_byte i s).1 ≡ s
unfolding split_at_byte
split_at_byte-append i [] = refl
split_at_byte-append zero (c ∷ s) = refl
split_at_byte-append (suc i) (c ∷ s) = ap (◌∷◌ c) (split_at_byte-append (suc i - utf8_width c) s)

-- What stays is at most the bytes behind the index.
pub byte_len-split_at_byte :
    (i : ℕ) (s : Text) → i ≤ byte_len s → byte_len (split_at_byte i s).1 ≤ byte_len s - i
unfolding split_at_byte byte_len
byte_len-split_at_byte i [] h = omega arith
byte_len-split_at_byte zero (c ∷ s) h = omega arith
byte_len-split_at_byte (suc i) (c ∷ s) h =
    omega (arith, byte_len-split_at_byte (suc i - utf8_width c) s (omega arith))

-- A needle that does not occur in `s` does not begin in a part that ends as many bytes before the
-- end as the needle has, whatever follows `s`: it is found in what stays, or not at all.
module _ (n r : Text) where
  pub split_once-kept_none :
      (i : ℕ) (s : Text)
      → split_once n s ≡ none
      → i ≤ byte_len s - byte_len n
      → split_once n ((split_at_byte i s).1 ++ r) ≡ none
      → split_once n (s ++ r) ≡ none
  unfolding split_at_byte
  split_once-kept_none i [] h le e = e
  split_once-kept_none zero (c ∷ s) h le e = e
  split_once-kept_none (suc i) (c ∷ s) h le e =
      let (here, later) = split_once-none_cases n c s h in
      split_once-never n c (s ++ r) (strip_prefix-append_none n (c ∷ s) r here (omega arith))
        (split_once-kept_none (suc i - utf8_width c) s later (unfold byte_len in omega arith) e)

  pub split_once-kept :
      (i : ℕ) (s p q : Text)
      → split_once n s ≡ none
      → i ≤ byte_len s - byte_len n
      → split_once n ((split_at_byte i s).1 ++ r) ≡ some (p, q)
      → split_once n (s ++ r) ≡ some ((split_at_byte i s).0 ++ p, q)
  unfolding split_at_byte
  split_once-kept i [] p q h le e = e
  split_once-kept zero (c ∷ s) p q h le e = e
  split_once-kept (suc i) (c ∷ s) p q h le e =
      let (here, later) = split_once-none_cases n c s h in
      let below = split_at_byte (suc i - utf8_width c) s in
      split_once-later n c (s ++ r) (below.0 ++ p) q
        (strip_prefix-append_none n (c ∷ s) r here (omega arith))
        (split_once-kept (suc i - utf8_width c) s p q later (unfold byte_len in omega arith) e)

pub holdback_start-eq : (buf : Text) → holdback_start buf ≡ byte_len buf - holdback
unfolding holdback_start
holdback_start-eq buf = ground arith

-- What does not occur in a text does not occur in the part that stays.
pub split_once-rest :
    (n : Text) (i : ℕ) (s : Text)
    → split_once n s ≡ none
    → split_once n (split_at_byte i s).1 ≡ none
unfolding split_at_byte
split_once-rest n i [] h = h
split_once-rest n zero (c ∷ s) h = h
split_once-rest n (suc i) (c ∷ s) h =
    split_once-rest n (suc i - utf8_width c) s (split_once-none_cases n c s h).1
