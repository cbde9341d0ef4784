-- ===== src/Nothink/Sse/Bytes.antt =====
-- A whole OpenAI completion through the filter, from the server's bytes to the client's text.
use localx_llama.Prelude.{
  ℕ, ◌≤◌, ◌≡◌, refl, false, Option, none, some, List, [], ◌∷◌, ◌++◌, map, append_assoc, ◌==◌, All,
  sym, ap, ◌∙◌, arith, inr,
}
use localx_llama.Text.{Text, codes, concat, byte_len, split_once, strip_prefix}
use localx_llama.Text.Find.{split_once-later}
use localx_llama.Text.Lines.{IsOneLine}
use localx_llama.Json.{Value}
use localx_llama.Nothink.{think_bailout}
use localx_llama.Nothink.OneShot.{strip_think}
use localx_llama.Nothink.Streaming.{strip_stream-strip_think}
use localx_llama.Nothink.Sse.{data_frame, transform_events}
use localx_llama.Nothink.Sse.Deltas.{IsCodec, done_event, frame_line, frame_line-IsOneLine}
use localx_llama.Nothink.Sse.Completion.{frames, completion_events, stream-of-feed}
use localx_llama.Nothink.Sse.Drain.{SseThinkFilter, fresh, push_chunks, blank_line}
use localx_llama.Nothink.Sse.Drain.Chunks.{push_chunks-events, IsEvent, took}

-- What is relied on of UTF-8: texts are encoded character by character, a line feed as itself and
-- no other character with its byte, and `String::from_utf8_lossy` reads an encoded text back.
pub record IsUtf8 (encode : Text → List ℕ) (decode : List ℕ → Text) : Type 0 where
  pub empty : encode [] ≡ []
  pub append : (s t : Text) → encode (s ++ t) ≡ encode s ++ encode t
  pub feeds : encode blank_line ≡ blank_line
  pub no_feed : (s : Text) → IsOneLine s → All (λ b. (b == 10) ≡ false) (encode s)
  pub lossless : (s : Text) → decode (encode s) ≡ s

no_feed_first : (b : ℕ) (s : List ℕ) → (b == 10) ≡ false → strip_prefix blank_line (b ∷ s) ≡ none
unfolding strip_prefix
no_feed_first b s h = ground arith

-- Bytes up to their first blank line.
take_line :
    (s r : List ℕ)
    → All (λ b. (b == 10) ≡ false) s
    → split_once blank_line (s ++ (10 ∷ (10 ∷ r))) ≡ some (s, r)
take_line [] r h = unfold split_once strip_prefix in refl
take_line (b ∷ s) r (other, h) =
    split_once-later blank_line b (s ++ (10 ∷ (10 ∷ r))) s r
      (no_feed_first b (s ++ (10 ∷ (10 ∷ r))) other) (take_line s r h)

concat-append : (xs ys : List Text) → concat (xs ++ ys) ≡ concat xs ++ concat ys
concat-append [] ys = refl
concat-append (x ∷ xs) ys =
    ap (λ t. x ++ t) (concat-append xs ys) ∙ sym (append_assoc x (concat xs) (concat ys))

module _ (encode : Text → List ℕ) (decode : List ℕ → Text) (utf8 : IsUtf8 encode decode) where
  encoded : (es : List Text) → concat (map encode es) ≡ encode (concat es)
  encoded [] = sym utf8.empty
  encoded (e ∷ es) = ap (λ b. encode e ++ b) (encoded es) ∙ sym (utf8.append e (concat es))

  decoded : (es : List Text) → map decode (map encode es) ≡ es
  decoded [] = refl
  decoded (e ∷ es) = rw (utf8.lossless e) (ap (λ x. e ∷ x) (decoded es))

  line-IsEvent : (line : Text) → IsOneLine line → IsEvent (encode (line ++ blank_line))
  line-IsEvent line h r =
      let e : encode (line ++ blank_line) ≡ encode line ++ blank_line =
        utf8.append line blank_line ∙ ap (λ b. encode line ++ b) utf8.feeds in
      rw e (
        took ((encode line ++ blank_line) ++ r) (encode line) r (
          rw (append_assoc (encode line) blank_line r)
            (take_line (encode line) r (utf8.no_feed line h))))

  module _ (parse : Text → Option Value) (print : Value → Text) (codec : IsCodec parse print) where
    events-IsEvent :
        (ts : List Text) → All IsEvent (map encode (frames parse print ts ++ (done_event ∷ [])))
    unfolding data_frame
    events-IsEvent [] =
        let c : (false ≡ false) × (false ≡ false) = (refl, refl) in
        (
          line-IsEvent (codes "data: [DONE]")
              (c, (c, (c, (c, (c, (c, (c, (c, (c, (c, (c, (c, tt)))))))))))),
          tt,
        )
    events-IsEvent (t ∷ ts) = (
      line-IsEvent (frame_line parse print codec t) (frame_line-IsOneLine parse print codec t),
      events-IsEvent ts,
    )

    -- Whatever the server's chunks: for a completion whose deltas hold the texts `ts`, which closes with
    -- the end marker and has at most `THINK_BAILOUT` bytes of text, the client receives the frames of
    -- texts that make up what `strip_think` leaves of the whole text, and then the end marker.
    pub completion_stripped :
        (ts : List Text) (chunks : List (List ℕ))
        → byte_len (concat ts) ≤ think_bailout
        → concat chunks ≡ encode (concat (frames parse print ts) ++ done_event)
        → (us : List Text) × (f : SseThinkFilter) × (push_chunks parse print decode chunks fresh
            ≡ some (concat (frames parse print us) ++ done_event, f))
          × (strip_think (concat ts) ≡ some (concat us))
    completion_stripped ts chunks le same =
        let events : List Text = frames parse print ts ++ (done_event ∷ []) in
        let whole : concat chunks ≡ concat (map encode events) =
          same
          ∙ ap encode (sym (concat-append (frames parse print ts) (done_event ∷ [])))
          ∙ sym (encoded events) in
        let run =
          push_chunks-events parse print decode chunks (map encode events) fresh.events
            (events-IsEvent ts) whole in
        let (us, o, s, fed, e, shown) =
          completion_events parse print codec ts fresh.events (inr refl) in
        (
          us,
          record { pending = []; events = (transform_events parse print events fresh.events).1 },
          run
              ∙ ap
                  (λ es. some (
                    (transform_events parse print es fresh.events).0,
                    record {
                      pending = [];
                      events = (transform_events parse print es fresh.events).1;
                    },
                  ))
                  (decoded events)
              ∙ ap
                  (λ o. some (
                    o,
                    record {
                      pending = [];
                      events = (transform_events parse print events fresh.events).1;
                    },
                  ))
                  shown,
          sym (strip_stream-strip_think ts le) ∙ stream-of-feed ts o s fed ∙ ap some (sym e),
        )
