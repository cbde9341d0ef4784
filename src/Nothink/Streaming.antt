-- ===== src/Nothink/Streaming.antt =====
-- The stream filter shows what the one-shot filter shows, wherever the chunks are cut.
use localx_llama.Prelude.{
  ℕ, zero, suc, ◌+◌, ◌-◌, ◌≤◌, ◌<◌, Bool, true, false, none, some, List, [], ◌∷◌, ◌++◌, ◌≡◌, refl,
  sym, ap, ◌∙◌, arith, if◌then◌else◌, append-nil, append_assoc,
}
use mathlib.Core.Path.{subst}
use localx_llama.Text.{Text, byte_len, split_once, concat}
use localx_llama.Text.Find.{byte_len-append, split_once-append}
use localx_llama.Nothink.{open_tag, close_tag, think_bailout}
use localx_llama.Nothink.OneShot.{strip_think}
use localx_llama.Nothink.Stripper.{
  ThinkStripper, new, split_at_byte, holdback_start, emit_safe_prefix, push_loop, push, finish,
  feed, strip_stream,
}
use localx_llama.Nothink.Strips.{
  Strips, plain, opened, closed, unclosed, byte_len-open_tag, shorter_open, shorter_close,
  Strips-strip_think,
}
use localx_llama.Nothink.Turns.{
  Turn, closes, bails, waits, opens, releases, turn, loop-closes, loop-waits, loop-opens,
  loop-releases, split_at_byte-append, split_once-kept, split_once-kept_none, split_once-rest,
  holdback_start-eq,
}

-- Between chunks the buffer holds no tag of the kind that is looked for.
abbrev IsSettled : ThinkStripper → Type 0
IsSettled s = split_once (if s.in_think then close_tag else open_tag) s.buf ≡ none

-- What a push that emits `e` and leaves `s` does to a buffer: whatever follows, the text shown
-- for the whole is `e` and then what is shown from `s`.
record Pushed (in_think : Bool) (buf e : Text) (s : ThinkStripper) : Type 0 where
  settled : IsSettled s
  shorter : byte_len s.buf ≤ byte_len buf
  shows : (r t : Text) → Strips s.in_think (s.buf ++ r) t → Strips in_think (buf ++ r) (e ++ t)

holdback_fits : (buf : Text) → holdback_start buf ≤ byte_len buf - byte_len open_tag
holdback_fits buf = omega (arith, holdback_start-eq buf, byte_len-open_tag)

module _ (buf r : Text) (h : split_once open_tag buf ≡ none) where
  abbrev emitted : Text
  emitted = (split_at_byte (holdback_start buf) buf).0

  abbrev kept : Text
  kept = (split_at_byte (holdback_start buf) buf).1

  released :
      {s t : Text} → s ≡ kept ++ r → Strips false s t → Strips false (buf ++ r) (emitted ++ t)
  released e (plain {s} k) =
      subst (λ o. Strips false (buf ++ r) o)
        (ap (λ b. b ++ r) (sym (split_at_byte-append (holdback_start buf) buf))
          ∙ append_assoc emitted kept r
          ∙ ap (λ x. emitted ++ x) (sym e))
        (plain (
          split_once-kept_none open_tag r (holdback_start buf) buf h (holdback_fits buf)
            (rw e at k)))
  released e (opened {p} {a} {o} k d) =
      subst (λ x. Strips false (buf ++ r) x) (append_assoc emitted p o)
        (opened
          (split_once-kept open_tag r (holdback_start buf) buf p a h (holdback_fits buf)
            (rw e at k))
          d)

byte_len-kept : (buf : Text) → byte_len (split_at_byte (holdback_start buf) buf).1 ≤ byte_len buf
byte_len-kept buf =
    let i = holdback_start buf in
    omega (
      arith,
      ap byte_len (split_at_byte-append i buf),
      byte_len-append (split_at_byte i buf).0 (split_at_byte i buf).1,
    )

module _ (fuel : ℕ) (out : Text) where
  abbrev Runs : Bool → Text → Type 0
  Runs b buf =
      (e : Text) × (s : ThinkStripper) × (push_loop fuel b buf out ≡ some (out ++ e, s))
      × Pushed b buf e s

push_loop-waits :
    (fuel : ℕ) (out buf : Text)
    → split_once close_tag buf ≡ none
    → push_loop (suc fuel) true buf out ≡ some (out, record { buf = buf; in_think = true })
    → Runs (suc fuel) out true buf
push_loop-waits fuel out buf h run = (
  [],
  record { buf = buf; in_think = true },
  run ∙ ap (λ o. some (o, record { buf = buf; in_think = true })) (sym (append-nil out)),
  record { settled = h; shorter = omega arith; shows = λ r t d. d },
)

push_loop-releases :
    (fuel : ℕ) (out buf : Text) → split_once open_tag buf ≡ none → Runs (suc fuel) out false buf
unfolding emit_safe_prefix
push_loop-releases fuel out buf h = (
  (emit_safe_prefix buf).0,
  record { buf = (emit_safe_prefix buf).1; in_think = false },
  loop-releases fuel buf out h,
  record {
    settled = split_once-rest open_tag (holdback_start buf) buf h;
    shorter = byte_len-kept buf;
    shows = λ r t d. released buf r h refl d;
  },
)

-- With fuel for its buffer, and a buffer within the bailout, the loop ends and hides nothing else.
push_loop-Runs :
    (fuel : ℕ) (b : Bool) (buf out : Text)
    → byte_len buf < fuel
    → byte_len buf ≤ think_bailout
    → Turn b buf
    → Runs fuel out b buf
push_loop-Runs zero b buf out lt le w = absurd (omega arith)
push_loop-Runs (suc fuel) b buf out lt le (closes x a h) =
    let (e, s, run, p) =
      push_loop-Runs fuel false a out (omega (arith, shorter_close buf x a h))
        (omega (arith, shorter_close buf x a h)) (turn false a) in
    (
      e,
      s,
      loop-closes fuel buf out x a h ∙ run,
      record {
        settled = p.settled;
        shorter = omega (arith, shorter_close buf x a h, p.shorter);
        shows = λ r t d. closed (split_once-append close_tag buf r x a h) (p.shows r t d);
      },
    )
push_loop-Runs (suc fuel) b buf out lt le (bails h over) = absurd (omega arith)
push_loop-Runs (suc fuel) b buf out lt le (waits h within) =
    push_loop-waits fuel out buf h (loop-waits fuel buf out h within)
push_loop-Runs (suc fuel) b buf out lt le (opens p a h) =
    let (e, s, run, q) =
      push_loop-Runs fuel true a (out ++ p) (omega (arith, shorter_open buf p a h))
        (omega (arith, shorter_open buf p a h)) (turn true a) in
    (
      p ++ e,
      s,
      loop-opens fuel buf out p a h ∙ run ∙ ap (λ o. some (o, s)) (append_assoc out p e),
      record {
        settled = q.settled;
        shorter = omega (arith, shorter_open buf p a h, q.shorter);
        shows = λ r t d.
            subst (λ o. Strips false (buf ++ r) o) (sym (append_assoc p e t))
              (opened (split_once-append open_tag buf r p a h) (q.shows r t d));
      },
    )
push_loop-Runs (suc fuel) b buf out lt le (releases h) = push_loop-releases fuel out buf h

push-Pushed :
    (chunk : Text) (s : ThinkStripper)
    → byte_len (s.buf ++ chunk) ≤ think_bailout
    → (e : Text) × (s' : ThinkStripper) × (push chunk s ≡ some (e, s'))
      × Pushed s.in_think (s.buf ++ chunk) e s'
unfolding push
push-Pushed chunk s le =
    push_loop-Runs (suc (byte_len (s.buf ++ chunk))) s.in_think (s.buf ++ chunk) [] (omega arith) le
      (turn s.in_think (s.buf ++ chunk))

settled-Strips :
    (b : Bool) (buf : Text)
    → IsSettled (record { buf = buf; in_think = b })
    → Strips b (buf ++ []) buf
settled-Strips true buf h = rw append-nil (unclosed h)
settled-Strips false buf h = rw append-nil (plain h)

feed-step :
    (chunk : Text) (chunks : List Text) (s s' s'' : ThinkStripper) (o rest : Text)
    → push chunk s ≡ some (o, s')
    → feed chunks s' ≡ some (rest, s'')
    → feed (chunk ∷ chunks) s ≡ some (o ++ rest, s'')
unfolding feed
feed-step chunk chunks s s' s'' o rest h k = rw (h, k)

feed-Strips :
    (chunks : List Text) (s : ThinkStripper)
    → IsSettled s
    → byte_len s.buf + byte_len (concat chunks) ≤ think_bailout
    → (e : Text) × (s' : ThinkStripper) × (feed chunks s ≡ some (e, s'))
      × Strips s.in_think (s.buf ++ concat chunks) (e ++ s'.buf)
feed-Strips [] s h le = ([], s, unfold feed in refl, settled-Strips s.in_think s.buf h)
feed-Strips (chunk ∷ chunks) s h le =
    let rest = concat chunks in
    let sizes = byte_len-append chunk rest in
    let grown = byte_len-append s.buf chunk in
    let (e, s', run, p) = push-Pushed chunk s (omega (arith, sizes, grown)) in
    let (e', s'', run', d) =
      feed-Strips chunks s' p.settled (omega (arith, sizes, grown, p.shorter)) in
    (
      e ++ e',
      s'',
      feed-step chunk chunks s s' s'' e e' run run',
      subst (λ x. Strips s.in_think x ((e ++ e') ++ s''.buf)) (append_assoc s.buf chunk rest)
          (subst (λ x. Strips s.in_think ((s.buf ++ chunk) ++ rest) x)
            (sym (append_assoc e e' s''.buf)) (p.shows rest (e' ++ s''.buf) d)),
    )

stream-of-feed :
    (chunks : List Text) (e : Text) (s : ThinkStripper)
    → feed chunks new ≡ some (e, s)
    → strip_stream chunks ≡ some (e ++ s.buf)
unfolding strip_stream finish
stream-of-feed chunks e s h = rw h

-- Cut in any chunks, a stream of at most `THINK_BAILOUT` bytes ends and shows what `strip_think`
-- shows for the whole text.
pub strip_stream-strip_think :
    (chunks : List Text)
    → byte_len (concat chunks) ≤ think_bailout
    → strip_stream chunks ≡ strip_think (concat chunks)
strip_stream-strip_think chunks le =
    let (e, s, run, d) =
      feed-Strips chunks new (unfold split_once in refl) (unfold byte_len in omega arith) in
    stream-of-feed chunks e s run ∙ sym (Strips-strip_think d)
