-- ===== src/Nothink/Sse/Completion.antt =====
-- A whole OpenAI completion through the filter, from the server's bytes to the client's text.
use localx_llama.Prelude.{
  true, append-nil, append_assoc, Bool-cases, ◌≡◌, refl, ◌⊎◌, Option, some, List, [], ◌∷◌, ◌++◌,
  map, sym, ap, ◌∙◌, inl, inr,
}
use localx_llama.Text.{Text, concat, is_empty}
use localx_llama.Json.{Value}
use localx_llama.Nothink.Stripper.{ThinkStripper, new, push, push_text, feed, finish, strip_stream}
use localx_llama.Nothink.Bounds.{push-IsBounded}
use localx_llama.Nothink.Sse.{EventState, data_frame, open_ai, tail_frame, transform_events}
use localx_llama.Nothink.Sse.Deltas.{
  IsCodec, transform_delta, transform_done, done_event, after_delta,
}

empty-nil : (t : Text) → is_empty t ≡ true → t ≡ []
empty-nil [] h = refl
empty-nil (c ∷ t) h = absurd cc

push-push_text : (chunk : Text) (s : ThinkStripper) → push chunk s ≡ some (push_text chunk s)
unfolding push_text
push-push_text chunk s =
    let (o, s', run, _) = push-IsBounded chunk s in
    let same : push_text chunk s ≡ (o, s') = rw (run, push_text) refl in rw same run

feed-step :
    (t : Text) (ts : List Text) (s s' : ThinkStripper) (o : Text)
    → feed ts (push_text t s).1 ≡ some (o, s')
    → feed (t ∷ ts) s ≡ some ((push_text t s).0 ++ o, s')
unfolding feed
feed-step t ts s s' o h = rw (push-push_text t s) (rw h refl)

pub stream-of-feed :
    (ts : List Text) (o : Text) (s : ThinkStripper)
    → feed ts new ≡ some (o, s)
    → strip_stream ts ≡ some (o ++ s.buf)
unfolding strip_stream finish
stream-of-feed ts o s h = rw h refl

-- The frames of deltas.
abbrev pub frames : (Text → Option Value) → (Value → Text) → List Text → List Text
frames parse print ts = map (λ t. data_frame parse print open_ai t) ts

module _ (parse : Text → Option Value) (print : Value → Text) (codec : IsCodec parse print) where
  -- What the client receives for the tail that is held back.
  tail_shown :
      (st : EventState)
      → (st.shape ≡ some open_ai) ⊎ (st.stripper.buf ≡ [])
      → (us : List Text) × (concat us ≡ st.stripper.buf)
        × ((tail_frame parse print st).0 ≡ concat (frames parse print us))
  unfolding tail_frame finish
  tail_shown st (inr h) = ([], sym h, rw (h, tail_frame) refl)
  tail_shown st (inl h) = elim (Bool-cases (is_empty st.stripper.buf)) [
    | inl empty ↦ ([], sym (empty-nil st.stripper.buf empty), rw (empty, tail_frame) refl)
    | inr tail ↦ (
      st.stripper.buf ∷ [],
      append-nil st.stripper.buf,
      rw (tail, tail_frame)
          (rw (h, tail_frame) (sym (append-nil (data_frame parse print open_ai st.stripper.buf)))),
    )
  ]

  -- Between the deltas and in front of the end marker no text is lost and none is added.
  pub completion_events :
      (ts : List Text) (st : EventState)
      → (st.shape ≡ some open_ai) ⊎ (st.stripper.buf ≡ [])
      → (us : List Text) × (o : Text) × (s : ThinkStripper) × (feed ts st.stripper ≡ some (o, s))
        × (concat us ≡ o ++ s.buf)
        × ((transform_events parse print (frames parse print ts ++ (done_event ∷ [])) st).0
            ≡ concat (frames parse print us) ++ done_event)
  unfolding transform_events
  completion_events [] st h =
      let (us, e, shown) = tail_shown st h in
      (
        us,
        [],
        st.stripper,
        unfold feed in refl,
        e,
        rw (transform_done parse print codec st) (
            append-nil ((tail_frame parse print st).0 ++ done_event)
            ∙ ap (λ x. x ++ done_event) shown),
      )
  completion_events (t ∷ ts) st h =
      let (us, o, s, run, e, shown) = completion_events ts (after_delta t st) (inl refl) in
      (
        (push_text t st.stripper).0 ∷ us,
        (push_text t st.stripper).0 ++ o,
        s,
        feed-step t ts st.stripper s o run,
        ap (λ x. (push_text t st.stripper).0 ++ x) e
            ∙ sym (append_assoc (push_text t st.stripper).0 o s.buf),
        rw (transform_delta parse print codec t st) (
            ap (λ x. data_frame parse print open_ai (push_text t st.stripper).0 ++ x) shown
            ∙ sym (
                append_assoc (data_frame parse print open_ai (push_text t st.stripper).0)
                  (concat (frames parse print us)) done_event)),
      )
