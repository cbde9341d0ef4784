-- ===== src/Fit/Output/Arguments.antt =====
-- Argument lines that are printed with quotes are read back.
use localx_llama.Prelude.{
  ℕ, ◌≡◌, refl, Bool, true, false, not, ◌&&◌, List, [], ◌∷◌, ◌++◌, append-nil, append_assoc,
  Bool-cases, if◌then◌else◌, ◌==◌, All, sym, ap, ◌∙◌, inl, inr,
}
use localx_llama.Text.{Text, trim, trim_start, trim_end, trim_cons, is_whitespace, is_empty}
use localx_llama.Fit.Output.{split_args, split_from, kind_of, quote, gap, plain, push_current}

-- An argument in double quotes.
abbrev pub quoted : Text → Text
quoted t = b'"' ∷ (t ++ (b'"' ∷ []))

-- The arguments, each in quotes, with a space between them.
abbrev pub printed_args : List Text → Text
printed_args [] = []
printed_args (t ∷ []) = quoted t
printed_args (t ∷ u ∷ ts) = quoted t ++ (b' ' ∷ printed_args (u ∷ ts))

-- An argument that is not empty and has no double quote.
abbrev pub IsArgument : Text → Type 0
IsArgument t = (is_empty t ≡ false) × All (λ c. (c == b'"') ≡ false) t

plain_kind : (c : ℕ) → (c == b'"') ≡ false → kind_of true c ≡ plain
unfolding kind_of
plain_kind c h = rw (h, kind_of) (unquoted c)
  where
    unquoted : (c : ℕ) → (if is_whitespace c && not true then gap else plain) ≡ plain
    unquoted c = elim (Bool-cases (is_whitespace c)) [ inl w ↦ rw w refl | inr w ↦ rw w refl ]

quote_kind : (q : Bool) → kind_of q b'"' ≡ quote
unfolding kind_of
quote_kind q = refl

gap_kind : kind_of false b' ' ≡ gap
unfolding kind_of is_whitespace
gap_kind = refl

-- Inside quotes the characters are gathered.
gathered :
    (t cur rest : Text)
    → All (λ c. (c == b'"') ≡ false) t
    → split_from true cur (t ++ rest) ≡ split_from true (cur ++ t) rest
gathered [] cur rest h = ap (λ x. split_from true x rest) (sym (append-nil cur))
gathered (c ∷ t) cur rest (h, hs) =
    gather_one
    ∙ gathered t (cur ++ (c ∷ [])) rest hs
    ∙ ap (λ x. split_from true x rest) (append_assoc cur (c ∷ []) t)
  where
    gather_one :
        split_from true cur (c ∷ (t ++ rest)) ≡ split_from true (cur ++ (c ∷ [])) (t ++ rest)
    gather_one = unfold split_from in rw (plain_kind c h, split_from) refl

step_quote : (q : Bool) (cur s : Text) → split_from q cur (b'"' ∷ s) ≡ split_from (not q) cur s
unfolding split_from kind_of
step_quote q cur s = refl

step_gap :
    (cur s : Text) → split_from false cur (b' ' ∷ s) ≡ push_current cur (split_from false [] s)
unfolding split_from kind_of is_whitespace
step_gap cur s = refl

opened_closed :
    (t rest : Text)
    → All (λ c. (c == b'"') ≡ false) t
    → split_from false [] (quoted t ++ rest) ≡ split_from false t rest
opened_closed t rest h =
    step_quote false [] ((t ++ (b'"' ∷ [])) ++ rest)
    ∙ ap (λ x. split_from true [] x) (append_assoc t (b'"' ∷ []) rest)
    ∙ gathered t [] (b'"' ∷ rest) h
    ∙ step_quote true t rest

pushed : (t : Text) (later : List Text) → is_empty t ≡ false → push_current t later ≡ t ∷ later
pushed [] later h = absurd cc
pushed (c ∷ t) later h = refl

split_from-printed_args :
    (ts : List Text) → All IsArgument ts → split_from false [] (printed_args ts) ≡ ts
split_from-printed_args [] h = unfold split_from in refl
split_from-printed_args (t ∷ []) ((shown, h), _) =
    ap (λ x. split_from false [] x) (sym (append-nil (quoted t)))
    ∙ opened_closed t [] h
    ∙ unfold split_from in pushed t [] shown
split_from-printed_args (t ∷ u ∷ ts) ((shown, h), hs) =
    opened_closed t (b' ' ∷ printed_args (u ∷ ts)) h
    ∙ step_gap t (printed_args (u ∷ ts))
    ∙ pushed t (split_from false [] (printed_args (u ∷ ts))) shown
    ∙ ap (λ x. t ∷ x) (split_from-printed_args (u ∷ ts) hs)

ends_quoted : (t : Text) (ts : List Text) → (s : Text) × (printed_args (t ∷ ts) ≡ s ++ (b'"' ∷ []))
ends_quoted t [] = (b'"' ∷ t, refl)
ends_quoted t (u ∷ ts) =
    let (s, e) = ends_quoted u ts in
    (
      quoted t ++ (b' ' ∷ s),
      ap (λ x. quoted t ++ (b' ' ∷ x)) e ∙ sym (append_assoc (quoted t) (b' ' ∷ s) (b'"' ∷ [])),
    )

trim_end-quoted : (s : Text) → trim_end (s ++ (b'"' ∷ [])) ≡ s ++ (b'"' ∷ [])
unfolding trim_end trim_cons
trim_end-quoted [] = unfold is_whitespace in refl
trim_end-quoted (c ∷ s) = rw (trim_end-quoted s) (kept c s)
  where
    kept : (c : ℕ) (s : Text) → trim_cons c (s ++ (b'"' ∷ [])) ≡ c ∷ (s ++ (b'"' ∷ []))
    kept c [] = refl
    kept c (d ∷ s) = refl

trim_start-printed_args : (ts : List Text) → trim_start (printed_args ts) ≡ printed_args ts
unfolding trim_start is_whitespace
trim_start-printed_args [] = refl
trim_start-printed_args (t ∷ []) = refl
trim_start-printed_args (t ∷ u ∷ ts) = refl

trim-printed_args : (ts : List Text) → trim (printed_args ts) ≡ printed_args ts
unfolding trim
trim-printed_args [] = unfold trim_start trim_end in refl
trim-printed_args (t ∷ ts) =
    let (s, e) = ends_quoted t ts in
    ap trim_end (trim_start-printed_args (t ∷ ts)) ∙ rw e (trim_end-quoted s)

-- Arguments that are not empty and hold no double quote, whatever spaces they hold, are read back
-- from the line that has each of them in double quotes.
pub split_args-printed_args :
    (ts : List Text) → All IsArgument ts → split_args (printed_args ts) ≡ ts
unfolding split_args
split_args-printed_args ts h =
    ap (λ x. split_from false [] x) (trim-printed_args ts) ∙ split_from-printed_args ts h
