-- ===== src/Text/Numbers.antt =====
-- `str::parse` of Rust's integers.
use localx_llama.Prelude.{
  ℕ, zero, suc, Bool, false, ◌&&◌, Option, none, some, [], ◌∷◌, if◌then◌else◌, leb, ltb, ◌==◌, all,
  ◌>>=?◌, ◌+◌, ◌*◌, ◌-◌, ◌^◌, ◌/◌, ◌%◌, ◌<◌, ◌≡◌, sym, ap, ◌∙◌, inl, inr, Bool-cases, arith,
}
use localx_llama.Prelude.Int.{ℤ, pos, negsuc}
use localx_llama.Text.{Text, decimal, decimal_onto}

-- `is_ascii_digit`
unfoldable pub is_digit : ℕ → Bool
is_digit c = leb b'0' c && leb c b'9'

-- The number that digits stand for, behind those read.
abbrev pub number_onto : ℕ → Text → ℕ
number_onto n [] = n
number_onto n (c ∷ s) = number_onto (n * 10 + (c - b'0')) s

abbrev pub digits_only : Text → Bool
digits_only [] = false
digits_only (c ∷ s) = all is_digit (c ∷ s)

-- Digits that stand for a number below the limit.
unfoldable pub parse_digits : ℕ → Text → Option ℕ
unfolding is_digit
parse_digits limit s =
    if digits_only s && ltb (number_onto 0 s) limit then some (number_onto 0 s) else none

-- An unsigned number, which may have a plus sign.
unfoldable pub parse_unsigned : ℕ → Text → Option ℕ
unfolding parse_digits
parse_unsigned limit [] = none
parse_unsigned limit (c ∷ s) =
    if c == b'+' then parse_digits limit s else parse_digits limit (c ∷ s)

-- The integer -n
abbrev pub negated : ℕ → ℤ
negated zero = pos 0
negated (suc n) = negsuc n

-- `parse::<i64>().ok()`
unfoldable pub parse_i64 : Text → Option ℤ
unfolding parse_digits parse_unsigned
parse_i64 [] = none
parse_i64 (c ∷ s) =
    if c == b'-'
    then (parse_digits (2 ^ 63 + 1) s >>=? λ n. some (negated n))
    else (parse_unsigned (2 ^ 63) (c ∷ s) >>=? λ n. some (pos n))

-- The digits of a number stand for it.
number_onto-decimal_onto :
    (fuel n : ℕ) (acc : Text)
    → n < fuel
    → number_onto 0 (decimal_onto fuel n acc) ≡ number_onto n acc
unfolding decimal_onto
number_onto-decimal_onto zero n acc h = ground arith
number_onto-decimal_onto (suc fuel) n acc h = elim (Bool-cases (ltb n 10)) [
  | inl small ↦
      let e : 0 * 10 + (b'0' + n % 10 - b'0') ≡ n = ground arith in
      rw (small, decimal_onto) (ap (λ k. number_onto k acc) e)
  | inr large ↦
      let e : n / 10 * 10 + (b'0' + n % 10 - b'0') ≡ n = omega arith in
      let below : n / 10 < fuel = ground arith in
      rw (large, decimal_onto)
        (number_onto-decimal_onto fuel (n / 10) ((b'0' + n % 10) ∷ acc) below
          ∙ ap (λ k. number_onto k acc) e)
]

pub decimal_inj : (a b : ℕ) → decimal a ≡ decimal b → a ≡ b
unfolding decimal
decimal_inj a b h =
    sym (number_onto-decimal_onto (suc a) a [] (omega arith))
    ∙ ap (number_onto 0) h
    ∙ number_onto-decimal_onto (suc b) b [] (omega arith)

pub number_onto-decimal : (n : ℕ) → number_onto 0 (decimal n) ≡ n
unfolding decimal
number_onto-decimal n = number_onto-decimal_onto (suc n) n [] (omega arith)
