-- ===== src/Nothink/Sse/Drain.antt =====
-- `SseThinkFilter::push` and `finish`: the events that the bytes so far complete.
pub mod Chunks
use localx_llama.Prelude.{
  ℕ, zero, suc, Option, none, some, List, [], ◌∷◌, ◌++◌, if◌then◌else◌, length, ◌>>=?◌,
}
use localx_llama.Text.{Text, split_once, byte_len, is_empty}
use localx_llama.Json.{Value}
use localx_llama.Nothink.Stripper.{new}
use localx_llama.Nothink.Sse.{EventState, transform_event, tail_frame}

-- The pending bytes, and the other fields.
pub record SseThinkFilter : Type 0 where
  pub pending : List ℕ
  pub events : EventState

-- `SseThinkFilter::new`
abbrev pub fresh : SseThinkFilter
fresh = record { pending = []; events = record { stripper = new; shape = none; open_blocks = [] } }

abbrev pub blank_line : List ℕ
blank_line = 10 ∷ (10 ∷ [])

-- The bytes up to and with the first blank line, and the rest: the two slices at
-- `find_subslice(&pending, b"\n\n")`.
unfoldable pub take_event : List ℕ → Option (List ℕ × List ℕ)
take_event pending = split_once blank_line pending >>=? λ (p, q). some (p ++ blank_line, q)

module _ (parse : Text → Option Value) (print : Value → Text) (decode : List ℕ → Text) where
  -- The loop of `push`; `none` means that the fuel ran out.
  unfoldable pub drain_loop : ℕ → List ℕ → EventState → Option (Text × SseThinkFilter)
  unfolding take_event
  drain_loop zero pending st = none
  drain_loop (suc fuel) pending st = elim (take_event pending) [
    | none ↦ some ([], record { pending = pending; events = st })
    | some (event, rest) ↦
        let (shown, st') = transform_event parse print (decode event) st in
        drain_loop fuel rest st' >>=? λ (later, f). some (shown ++ later, f)
  ]

  -- Every event takes bytes.
  unfoldable pub push_chunk : List ℕ → SseThinkFilter → Option (Text × SseThinkFilter)
  unfolding drain_loop
  push_chunk chunk f =
      let grown : List ℕ = f.pending ++ chunk in drain_loop (suc (length grown)) grown f.events

  -- The end of the stream.
  unfoldable pub finish_stream : SseThinkFilter → Text × SseThinkFilter
  unfolding tail_frame
  finish_stream f =
      let (frame, st) = tail_frame parse print f.events in
      let rest : Text = if is_empty f.pending then [] else decode f.pending in
      (frame ++ rest, record { pending = []; events = st })

  -- A stream: the chunks in order.
  unfoldable pub push_chunks : List (List ℕ) → SseThinkFilter → Option (Text × SseThinkFilter)
  unfolding push_chunk
  push_chunks [] f = some ([], f)
  push_chunks (chunk ∷ chunks) f = push_chunk chunk f >>=? λ (o, f').
      push_chunks chunks f' >>=? λ (rest, f''). some (o ++ rest, f'')
