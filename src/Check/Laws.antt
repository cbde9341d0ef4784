-- ===== src/Check/Laws.antt =====
-- What a check runs, and how much it reports.
use localx_llama.Prelude.{
  ℕ, ◌≡◌, refl, ap, ◌⊎◌, [], ◌∷◌, ◌++◌, Bool-cases, leb, leb→le, inl, inr, ◌+◌, ◌-◌, ◌≤◌, ◌<◌,
  arith,
}
use localx_llama.Text.{Text, byte_len, utf8_width}
use localx_llama.Text.Find.{byte_len-append}
use localx_llama.Check.{bound, fitting, max_output_bytes, truncated_mark}

utf8_width_le : (c : ℕ) → utf8_width c ≤ 4
unfolding utf8_width
utf8_width_le c = ground arith

fitting_parts :
    (n : ℕ) (s : Text) → (r : Text) × (s ≡ fitting n s ++ r) × (byte_len (fitting n s) ≤ n)
unfolding fitting byte_len
fitting_parts n [] = ([], refl, omega arith)
fitting_parts n (c ∷ s) = elim (Bool-cases (leb (utf8_width c) n)) [
  | inr over ↦ rw over (c ∷ s, refl, omega arith)
  | inl fits ↦
      let (r, e, le) = fitting_parts (n - utf8_width c) s in
      rw fits (r, ap (λ t. c ∷ t) e, omega (arith, leb→le (utf8_width c) n fits))
]

-- A character boundary is at most three bytes before any place in the text.
fitting-fills : (n : ℕ) (s : Text) → n < byte_len s → n ≤ byte_len (fitting n s) + 3
unfolding fitting byte_len
fitting-fills n [] lt = absurd (omega arith)
fitting-fills n (c ∷ s) lt = elim (Bool-cases (leb (utf8_width c) n)) [
  | inr over ↦ let w = utf8_width_le c in rw over (ground arith)
  | inl fits ↦
      let le = leb→le (utf8_width c) n fits in
      rw fits (omega (arith, le, fitting-fills (n - utf8_width c) s (omega (arith, le))))
]

-- A report of at most `MAX_OUTPUT_BYTES` bytes is kept whole. A longer one is cut to a prefix of at
-- most that many bytes, and at most three bytes short of it, with the mark of a cut behind it.
pub bound_lem :
    (text : Text)
    → ((byte_len text ≤ max_output_bytes) × (bound text ≡ text))
      ⊎ ((max_output_bytes < byte_len text)
          × (prefix : Text) × (rest : Text) × (text ≡ prefix ++ rest)
          × (bound text ≡ prefix ++ truncated_mark)
          × (byte_len prefix ≤ max_output_bytes)
          × (max_output_bytes ≤ byte_len prefix + 3)
          × (byte_len (bound text) ≤ max_output_bytes + 23))
unfolding bound
bound_lem text = elim (Bool-cases (leb (byte_len text) max_output_bytes)) [
  | inl short ↦ inl (leb→le (byte_len text) max_output_bytes short, rw (short, bound) refl)
  | inr long ↦
      let (rest, e, le) = fitting_parts max_output_bytes text in
      let mark : byte_len truncated_mark ≡ 23 = unfold byte_len in refl in
      let over : max_output_bytes < byte_len text = ground arith in
      inr (
        over,
        fitting max_output_bytes text,
        rest,
        e,
        rw (long, bound) refl,
        le,
        fitting-fills max_output_bytes text over,
        rw (long, bound)
            (omega
              (arith, byte_len-append (fitting max_output_bytes text) truncated_mark, mark, le)),
      )
]
