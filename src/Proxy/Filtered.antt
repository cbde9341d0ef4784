-- ===== src/Proxy/Filtered.antt =====
-- The stream of the proxy with the SSE filter of nothink.rs in it.
use localx_llama.Prelude.{
  append_assoc, ℕ, ◌≡◌, refl, Option, none, some, List, [], ◌∷◌, ◌++◌, Result, err, ok, ap, sym,
  ◌∙◌,
}
use localx_llama.Text.{Text, concat}
use localx_llama.Json.{Value}
use localx_llama.Nothink.Sse.Drain.{SseThinkFilter, fresh, push_chunk, push_chunks, finish_stream}
use localx_llama.Nothink.Sse.Drain.Chunks.{
  push_chunk-IsDrained, push_chunks-concat, chunks-step, no_event,
}
use localx_llama.Proxy.{FilterOps, sse_think_stream}
use localx_llama.Proxy.Laws.{shown, good, failure, sse_think_stream_lem}

-- The chunks up to the upstream's first error.
abbrev pub received : {E : Type 0} → List (Result E Text) → List Text
received [] = []
received (err e ∷ inner) = []
received (ok chunk ∷ inner) = chunk ∷ received inner

module _ (parse : Text → Option Value) (print : Value → Text) (decode : List ℕ → Text) where
  -- `SseThinkFilter` as the filter of `sse_think_stream`; a push is never `none`.
  abbrev pub sse_filter : FilterOps SseThinkFilter
  sse_filter = record {
    fresh = fresh;
    feed = λ chunk f. elim (push_chunk parse print decode chunk f) [ none ↦ ([], f) | some r ↦ r ];
    flush = λ f. finish_stream parse print decode f;
  }

  module _ {E : Type 0} where
    shown-push_chunks :
        (inner : List (Result E Text)) (f : SseThinkFilter)
        → (o : Text) × (f' : SseThinkFilter) × (push_chunks parse print decode (received inner) f
            ≡ some (o, f'))
          × (shown sse_filter inner f ≡ o ++ (finish_stream parse print decode f').0)
    shown-push_chunks [] f = ([], f, unfold push_chunks in refl, refl)
    shown-push_chunks (err e ∷ inner) f = ([], f, unfold push_chunks in refl, refl)
    shown-push_chunks (ok chunk ∷ inner) f =
        let (o, f', run, _) = push_chunk-IsDrained parse print decode chunk f in
        let fed : sse_filter.feed chunk f ≡ (o, f') = rw (run, sse_filter) refl in
        let (o', f'', run', e) = shown-push_chunks inner f' in
        (
          o ++ o',
          f'',
          chunks-step parse print decode chunk (received inner) f f' f'' o o' run run',
          rw fed (
              ap (λ x. o ++ x) e
              ∙ sym (append_assoc o o' (finish_stream parse print decode f'').0)),
        )

    -- However the upstream's bytes are cut into chunks, the client receives the text that the filter
    -- gives for all of them at once, and its tail, and then the upstream's first error, if there is
    -- one.
    pub sse_think_stream-push_chunk :
        (inner : List (Result E Text))
        → (texts : List Text) × (o : Text) × (f : SseThinkFilter) × (sse_think_stream sse_filter
              inner
            ≡ some (good texts ++ failure inner))
          × (push_chunk parse print decode (concat (received inner)) fresh ≡ some (o, f))
          × (concat texts ≡ o ++ (finish_stream parse print decode f).0)
    sse_think_stream-push_chunk inner =
        let (texts, run, e) = sse_think_stream_lem sse_filter inner in
        let (o, f, pushed, e') = shown-push_chunks inner fresh in
        (
          texts,
          o,
          f,
          run,
          sym (push_chunks-concat parse print decode (received inner) fresh no_event) ∙ pushed,
          e ∙ e',
        )
