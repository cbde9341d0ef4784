-- ===== src/Nothink/Bounds.antt =====
-- How much a `ThinkStripper` holds back, and what it never changes.
use localx_llama.Prelude.{
  ℕ, zero, suc, ◌-◌, ◌≤◌, ◌<◌, Bool, true, false, none, some, List, [], ◌∷◌, ◌++◌, ◌≡◌, refl, sym,
  ap, ◌∙◌, arith, if◌then◌else◌, inl, inr, append-nil, append_assoc, ltb→le, Option-cases,
}
use localx_llama.Text.{Text, byte_len, split_once, concat}
use localx_llama.Text.Find.{split_once-append}
use localx_llama.Nothink.{open_tag, close_tag, holdback, think_bailout}
use localx_llama.Nothink.Stripper.{
  ThinkStripper, new, split_at_byte, holdback_start, emit_safe_prefix, push_loop, push, finish,
  feed, strip_stream,
}
use localx_llama.Nothink.Strips.{byte_len-open_tag, shorter_open, shorter_close}
use localx_llama.Nothink.Turns.{
  Turn, closes, bails, waits, opens, releases, turn, loop-closes, loop-bails, loop-waits,
  loop-opens, loop-releases, split_at_byte-append, byte_len-split_at_byte, split_once-kept,
  holdback_start-eq,
}

-- The bytes that may stay in the buffer.
abbrev pub IsBounded : ThinkStripper → Type 0
IsBounded s = byte_len s.buf ≤ (if s.in_think then think_bailout else holdback)

byte_len-kept-le : (buf : Text) → byte_len (split_at_byte (holdback_start buf) buf).1 ≤ holdback
byte_len-kept-le buf = omega (
  arith,
  byte_len-split_at_byte (holdback_start buf) buf (omega (arith, holdback_start-eq buf)),
  holdback_start-eq buf,
)

push_loop-IsBounded :
    (fuel : ℕ) (b : Bool) (buf out : Text)
    → byte_len buf < fuel
    → Turn b buf
    → (o : Text) × (s : ThinkStripper) × (push_loop fuel b buf out ≡ some (o, s)) × IsBounded s
push_loop-IsBounded zero b buf out lt w = absurd (omega arith)
push_loop-IsBounded (suc fuel) b buf out lt (closes x a h) =
    let (o, s, run, bounded) =
      push_loop-IsBounded fuel false a out (omega (arith, shorter_close buf x a h))
        (turn false a) in
    (o, s, loop-closes fuel buf out x a h ∙ run, bounded)
push_loop-IsBounded (suc fuel) b buf out lt (bails h over) =
    let (o, s, run, bounded) =
      push_loop-IsBounded fuel false [] (out ++ buf) (unfold byte_len in omega arith)
        (turn false []) in
    (o, s, loop-bails fuel buf out h over ∙ run, bounded)
push_loop-IsBounded (suc fuel) b buf out lt (waits h within) = (
  out,
  record { buf = buf; in_think = true },
  loop-waits fuel buf out h within,
  ltb→le think_bailout (byte_len buf) within,
)
push_loop-IsBounded (suc fuel) b buf out lt (opens p a h) =
    let (o, s, run, bounded) =
      push_loop-IsBounded fuel true a (out ++ p) (omega (arith, shorter_open buf p a h))
        (turn true a) in
    (o, s, loop-opens fuel buf out p a h ∙ run, bounded)
push_loop-IsBounded (suc fuel) b buf out lt (releases h) = (
  out ++ (emit_safe_prefix buf).0,
  record { buf = (emit_safe_prefix buf).1; in_think = false },
  loop-releases fuel buf out h,
  unfold emit_safe_prefix in byte_len-kept-le buf,
)

-- A push ends on every chunk and in every state, and then at most `THINK_BAILOUT` bytes are held
-- inside a span and at most `HOLDBACK` bytes outside one.
pub push-IsBounded :
    (chunk : Text) (s : ThinkStripper)
    → (o : Text) × (s' : ThinkStripper) × (push chunk s ≡ some (o, s')) × IsBounded s'
unfolding push
push-IsBounded chunk s =
    push_loop-IsBounded (suc (byte_len (s.buf ++ chunk))) s.in_think (s.buf ++ chunk) []
      (omega arith) (turn s.in_think (s.buf ++ chunk))

bail_loop :
    (fuel : ℕ) (buf : Text)
    → split_once close_tag buf ≡ none
    → think_bailout < byte_len buf
    → push_loop (suc (suc fuel)) true buf [] ≡ some (buf, new)
bail_loop fuel buf h over =
    loop-bails (suc fuel) buf [] h over
    ∙ loop-releases fuel [] buf (unfold split_once in refl)
    ∙ unfold emit_safe_prefix in ap (λ o. some (o, new)) (append-nil buf)

-- A span that outgrows `THINK_BAILOUT` with no closing tag is shown whole at once, and the
-- stripper is as new.
push_bailout :
    (chunk buf : Text)
    → split_once close_tag (buf ++ chunk) ≡ none
    → think_bailout < byte_len (buf ++ chunk)
    → push chunk (record { buf = buf; in_think = true }) ≡ some (buf ++ chunk, new)
unfolding push
push_bailout chunk buf h over = from_loop (byte_len (buf ++ chunk)) over
  where
    from_loop :
        (n : ℕ)
        → think_bailout < n
        → push_loop (suc n) true (buf ++ chunk) [] ≡ some (buf ++ chunk, new)
    from_loop zero lt = absurd (omega arith)
    from_loop (suc n) lt = bail_loop n (buf ++ chunk) h over

-- A text that begins with one in which a needle occurs holds the needle.
none-of-append : (n s r : Text) → split_once n (s ++ r) ≡ none → split_once n s ≡ none
none-of-append n s r h = elim (Option-cases (split_once n s)) [
  | inl e ↦ e
  | inr ((p, q), e) ↦ cc (split_once-append n s r p q e)
]

kept_none :
    (n r : Text) (i : ℕ) (s : Text)
    → split_once n (s ++ r) ≡ none
    → i ≤ byte_len s - byte_len n
    → split_once n ((split_at_byte i s).1 ++ r) ≡ none
kept_none n r i s h le = elim (Option-cases (split_once n ((split_at_byte i s).1 ++ r))) [
  | inl e ↦ e
  | inr ((p, q), e) ↦ cc (split_once-kept n r i s p q (none-of-append n s r h) le e)
]

push-plain :
    (chunk buf : Text)
    → split_once open_tag (buf ++ chunk) ≡ none
    → push chunk (record { buf = buf; in_think = false })
      ≡ some (
        (emit_safe_prefix (buf ++ chunk)).0,
        record { buf = (emit_safe_prefix (buf ++ chunk)).1; in_think = false },
      )
unfolding push
push-plain chunk buf h = loop-releases (byte_len (buf ++ chunk)) (buf ++ chunk) [] h

feed-step :
    (chunk : Text) (chunks : List Text) (s s' s'' : ThinkStripper) (o rest : Text)
    → push chunk s ≡ some (o, s')
    → feed chunks s' ≡ some (rest, s'')
    → feed (chunk ∷ chunks) s ≡ some (o ++ rest, s'')
unfolding feed
feed-step chunk chunks s s' s'' o rest h k = rw (h, k)

feed-plain :
    (chunks : List Text) (buf : Text)
    → split_once open_tag (buf ++ concat chunks) ≡ none
    → (o b : Text) × (feed chunks (record { buf = buf; in_think = false })
        ≡ some (o, record { buf = b; in_think = false }))
      × (o ++ b ≡ buf ++ concat chunks)
feed-plain [] buf h = ([], buf, unfold feed in refl, sym (append-nil buf))
feed-plain (chunk ∷ chunks) buf h =
    let rest = concat chunks in
    let grown = buf ++ chunk in
    let i = holdback_start grown in
    let whole : split_once open_tag (grown ++ rest) ≡ none = rw (append_assoc buf chunk rest) h in
    let step = push-plain chunk buf (none-of-append open_tag grown rest whole) in
    let (o, b, run, e) = feed-plain chunks (split_at_byte i grown).1 (
      kept_none open_tag rest i grown whole
        (omega (arith, holdback_start-eq grown, byte_len-open_tag))) in
    (
      (split_at_byte i grown).0 ++ o,
      b,
      feed-step chunk chunks _ (record { buf = (split_at_byte i grown).1; in_think = false }) _ _ o
          (unfold emit_safe_prefix in step) run,
      append_assoc (split_at_byte i grown).0 o b
          ∙ ap (λ x. (split_at_byte i grown).0 ++ x) e
          ∙ sym (append_assoc (split_at_byte i grown).0 (split_at_byte i grown).1 rest)
          ∙ ap (λ x. x ++ rest) (split_at_byte-append i grown)
          ∙ append_assoc buf chunk rest,
    )

-- A stream of any length in which no opening tag occurs comes out unchanged, however it is cut.
strip_stream_verbatim :
    (chunks : List Text)
    → split_once open_tag (concat chunks) ≡ none
    → strip_stream chunks ≡ some (concat chunks)
unfolding strip_stream finish
strip_stream_verbatim chunks h = let (o, b, run, e) = feed-plain chunks [] h in rw run (ap some e)
