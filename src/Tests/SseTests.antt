-- ===== src/Tests/SseTests.antt =====
-- The SSE filter of nothink.rs on small streams, with a small codec in place of serde_json.
use localx_llama.Json.{insert_field, get_field, Value, as_str}
use localx_llama.Prelude.{
  ◌⊎◌, true, ◌||◌, List, ◌++◌, leb→le, All, ℕ, ◌≡◌, refl, ap, false, Option, none, some, [], ◌∷◌,
  map, arith, if◌then◌else◌, ◌==◌, ◌>>=?◌, ◌-◌, ◌+◌,
}
use localx_llama.Text.{
  Text, codes, concat, trim_start, trim_end, trim_cons, is_whitespace, byte_len,
}
use localx_llama.Text.Lines.{IsOneLine}
use localx_llama.Json.Edit.{follow}
use localx_llama.Nothink.OneShot.{strip_think}
use localx_llama.Nothink.Sse.{
  open_ai_delta, delta_content, data_frame, anthropic_delta, anthropic_text_start_frame,
  event_index, open_block, has_type,
}
use localx_llama.Nothink.Sse.Deltas.{IsCodec, done_event}
use localx_llama.Nothink.Sse.Completion.{frames}
use localx_llama.Nothink.Sse.Bytes.{IsUtf8, completion_stripped}
use localx_llama.Nothink.Sse.Blocks.{open_block_lem, is_opening, is_open}
use localx_llama.Nothink.Sse.Drain.{SseThinkFilter, fresh, push_chunk, push_chunks, take_event}
use localx_llama.Nothink.Sse.Drain.Chunks.{push_chunk-IsDrained, push_chunks-concat, no_event}

-- A brace and the content, far from the characters that are read in another way.
abbrev shifted : Text → Text
shifted t = map (λ c. c + 0x4000) t

abbrev unshifted : Text → Text
unshifted t = map (λ c. c - 0x4000) t

abbrev pub print_delta : Value → Text
print_delta v = elim (follow delta_content v >>=? λ t. as_str t) [
  | none ↦ 123 ∷ []
  | some t ↦ 123 ∷ shifted t
]

abbrev pub parse_delta : Text → Option Value
parse_delta [] = none
parse_delta (c ∷ s) = if c == 123 then some (open_ai_delta (unshifted s)) else none

unshifted-shifted : (t : Text) → unshifted (shifted t) ≡ t
unshifted-shifted [] = refl
unshifted-shifted (c ∷ t) =
    let e : c + 0x4000 - 0x4000 ≡ c = omega arith in rw e (ap (λ x. c ∷ x) (unshifted-shifted t))

printed : (t : Text) → print_delta (open_ai_delta t) ≡ 123 ∷ shifted t
unfolding open_ai_delta follow get_field insert_field
printed t = refl

shifted-IsOneLine : (t : Text) → IsOneLine (shifted t)
shifted-IsOneLine [] = tt
shifted-IsOneLine (c ∷ t) = ((ground arith, ground arith), shifted-IsOneLine t)

shifted_black : (c : ℕ) → is_whitespace (c + 0x4000) ≡ false
unfolding is_whitespace
shifted_black c = ground arith

tight : (t : Text) → trim_end (shifted t) ≡ shifted t
unfolding trim_end trim_cons
tight [] = refl
tight (c ∷ t) = rw (tight t) (cons_tight c t)
  where
    cons_tight : (c : ℕ) (t : Text) → trim_cons (c + 0x4000) (shifted t) ≡ (c + 0x4000) ∷ shifted t
    cons_tight c [] = rw (shifted_black c, trim_cons) refl
    cons_tight c (d ∷ t) = refl

brace_start : (t : Text) → trim_start (123 ∷ shifted t) ≡ 123 ∷ shifted t
unfolding trim_start is_whitespace
brace_start t = refl

brace_end : (t : Text) → trim_end (123 ∷ shifted t) ≡ 123 ∷ shifted t
unfolding trim_end
brace_end t = rw (tight t) (brace_cons t)
  where
    brace_cons : (t : Text) → trim_cons 123 (shifted t) ≡ 123 ∷ shifted t
    brace_cons [] = unfold trim_cons is_whitespace in refl
    brace_cons (c ∷ t) = unfold trim_cons in refl

delta-IsCodec : IsCodec parse_delta print_delta
delta-IsCodec = record {
  round_trip = λ t. rw (printed t) (ap (λ u. some (open_ai_delta u)) (unshifted-shifted t));
  one_line = λ t. rw (printed t) ((refl, refl), shifted-IsOneLine t);
  tight_start = λ t. rw (printed t) (brace_start t);
  tight_end = λ t. rw (printed t) (brace_end t);
  done = refl;
  nothing = refl;
}

-- Texts of single bytes.
no_feed-IsOneLine : (s : Text) → IsOneLine s → All (λ b. (b == 10) ≡ false) s
no_feed-IsOneLine [] h = tt
no_feed-IsOneLine (c ∷ s) ((feed, _), h) = (feed, no_feed-IsOneLine s h)

bytes-IsUtf8 : IsUtf8 (λ s. s) (λ b. b)
bytes-IsUtf8 = record {
  empty = refl;
  append = λ s t. refl;
  feeds = refl;
  no_feed = no_feed-IsOneLine;
  lossless = λ s. refl;
}

abbrev deltas : List Text
deltas = codes "a<thi" ∷ (codes "nk>b</think>" ∷ (codes "c" ∷ []))

-- The server's bytes, cut behind two bytes.
abbrev stream_bytes : List ℕ
stream_bytes = concat (frames parse_delta print_delta deltas) ++ done_event

unfoldable cut_two : List ℕ → List (List ℕ)
cut_two (a ∷ b ∷ rest) = (a ∷ (b ∷ [])) ∷ (rest ∷ [])
cut_two s = s ∷ []

completion_stripped_example :
    (us : List Text) × (f : SseThinkFilter) × (push_chunks parse_delta print_delta
        (λ b. b)
        (cut_two stream_bytes)
        fresh
      ≡ some (concat (frames parse_delta print_delta us) ++ done_event, f))
    × (strip_think (concat deltas) ≡ some (concat us))
unfolding follow get_field insert_field
completion_stripped_example =
    completion_stripped (λ s. s) (λ b. b) bytes-IsUtf8 parse_delta print_delta delta-IsCodec deltas
      (cut_two stream_bytes) (unfold byte_len in leb→le _ _ refl)
      (unfold cut_two data_frame in refl)

push_chunk-IsDrained_example :
    (o : Text) × (f : SseThinkFilter) × (push_chunk parse_delta print_delta
        (λ b. b)
        stream_bytes
        fresh
      ≡ some (o, f))
    × (take_event f.pending ≡ none)
push_chunk-IsDrained_example =
    push_chunk-IsDrained parse_delta print_delta (λ b. b) stream_bytes fresh

push_chunks-concat_example :
    push_chunks parse_delta print_delta (λ b. b) (cut_two stream_bytes) fresh
    ≡ push_chunk parse_delta print_delta (λ b. b) (concat (cut_two stream_bytes)) fresh
push_chunks-concat_example =
    push_chunks-concat parse_delta print_delta (λ b. b) (cut_two stream_bytes) fresh no_event

-- A text delta of a block that the server did not start.
abbrev bare_delta : Option Value
bare_delta = some (anthropic_delta 3 (codes "hi"))

open_block_lem_example :
    ((is_opening parse_delta print_delta bare_delta ≡ true)
      × (is_open
            (event_index bare_delta)
            (open_block parse_delta print_delta bare_delta fresh.events).1
          ≡ true)
      × ((open_block parse_delta print_delta bare_delta fresh.events).0 ≡ (
          if has_type (codes "content_block_start") bare_delta
            || is_open (event_index bare_delta) fresh.events
          then []
          else anthropic_text_start_frame parse_delta print_delta (event_index bare_delta))))
    ⊎ ((is_opening parse_delta print_delta bare_delta ≡ false)
        × (open_block parse_delta print_delta bare_delta fresh.events ≡ ([], fresh.events)))
open_block_lem_example = open_block_lem parse_delta print_delta bare_delta fresh.events
