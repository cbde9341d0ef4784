-- ===== src/Nothink/Sse/Deltas.antt =====
-- An OpenAI stream through the filter: which deltas the client receives.
use localx_llama.Nothink.Sse.Stages.{transform_untyped}
use localx_llama.Prelude.{
  append_assoc, List, true, ◌≡◌, refl, inl, inr, false, Option, none, some, [], ◌∷◌, ◌++◌,
  Bool-cases, ap, ◌∙◌, ◌>>=?◌,
}
use localx_llama.Nothink.Sse.{
  tail_frame, transform_event, data_frame, open_ai, EventState, open_ai_delta, delta_content,
  first_json, line_json, ends_stream, is_terminal_marker, rewrite_line, rewrite_lines, rewrite_data,
  rewrite_value, push_delta, event_type, release_tail,
}
use localx_llama.Json.{insert_field, get_field, Value, as_str, string}
use localx_llama.Text.{
  is_whitespace, Text, codes, trim_start, trim_end, trim, is_empty, strip_prefix, ◌=ᵗ◌,
}
use localx_llama.Json.Edit.{modify_field, modify, follow, replace}
use localx_llama.Text.Case.{=ᵗ_iff}
use localx_llama.Text.Lines.{
  IsOneLine, lines-line, split_inclusive-line, trim_breaks-line, lines, split_inclusive,
  trim_breaks,
}
use localx_llama.Nothink.Stripper.{push_text}

-- What is relied on of `serde_json` for the deltas that the filter prints: a value on one line, which
-- is not padded, and which parses to the value. The end marker and the empty text are no JSON.
pub record IsCodec (parse : Text → Option Value) (print : Value → Text) : Type 0 where
  pub round_trip : (t : Text) → parse (print (open_ai_delta t)) ≡ some (open_ai_delta t)
  pub one_line : (t : Text) → IsOneLine (print (open_ai_delta t))
  pub tight_start : (t : Text) → trim_start (print (open_ai_delta t)) ≡ print (open_ai_delta t)
  pub tight_end : (t : Text) → trim_end (print (open_ai_delta t)) ≡ print (open_ai_delta t)
  pub done : parse (codes "[DONE]") ≡ none
  pub nothing : parse [] ≡ none

delta_content-follow :
    (t : Text) → (follow delta_content (open_ai_delta t) >>=? λ v. as_str v) ≡ some t
unfolding open_ai_delta follow get_field insert_field
delta_content-follow t = refl

delta_content-replace :
    (t u : Text) → replace delta_content (string u) (open_ai_delta t) ≡ open_ai_delta u
unfolding open_ai_delta replace modify insert_field modify_field
delta_content-replace t u = refl

delta_type-none : (t : Text) → event_type (some (open_ai_delta t)) ≡ none
unfolding event_type open_ai_delta get_field insert_field
delta_type-none t = refl

abbrev pub done_event : Text
done_event = codes "data: [DONE]" ++ (10 ∷ (10 ∷ []))

-- The state behind a delta of the text `t`.
abbrev pub after_delta : Text → EventState → EventState
after_delta t st = record {
  stripper = (push_text t st.stripper).1;
  shape = some open_ai;
  open_blocks = st.open_blocks;
}

empty-nil : (t : Text) → is_empty t ≡ true → t ≡ []
empty-nil [] h = refl
empty-nil (c ∷ t) h = absurd cc

module _ (parse : Text → Option Value) (print : Value → Text) (codec : IsCodec parse print) where
  abbrev printed : Text → Text
  printed t = print (open_ai_delta t)

  not_done : (t : Text) → (printed t =ᵗ codes "[DONE]") ≡ false
  not_done t = elim (Bool-cases (printed t =ᵗ codes "[DONE]")) [
    | inl same ↦
        let e : printed t ≡ codes "[DONE]" = (=ᵗ_iff (printed t) (codes "[DONE]")).0 same in
        cc (e, codec.round_trip t, codec.done)
    | inr other ↦ other
  ]

  not_empty : (t : Text) → is_empty (printed t) ≡ false
  not_empty t = elim (Bool-cases (is_empty (printed t))) [
    | inl empty ↦
        let e : printed t ≡ [] = empty-nil (printed t) empty in
        cc (e, codec.round_trip t, codec.nothing)
    | inr other ↦ other
  ]

  trimmed : (t : Text) → trim (32 ∷ printed t) ≡ printed t
  unfolding trim trim_start
  trimmed t = rw (codec.tight_start t) (codec.tight_end t)

  started : (t : Text) → trim_start (32 ∷ printed t) ≡ printed t
  unfolding trim_start is_whitespace
  started t = codec.tight_start t

  abbrev pub frame_line : Text → Text
  frame_line t = codes "data: " ++ printed t

  pub frame_line-IsOneLine : (t : Text) → IsOneLine (frame_line t)
  frame_line-IsOneLine t =
      let clean : (false ≡ false) × (false ≡ false) = (refl, refl) in
      (clean, (clean, (clean, (clean, (clean, (clean, codec.one_line t))))))

  payload : (t : Text) → strip_prefix (codes "data:") (frame_line t) ≡ some (32 ∷ printed t)
  unfolding strip_prefix
  payload t = refl

  lines-frame : (t : Text) → lines (data_frame parse print open_ai t) ≡ frame_line t ∷ ([] ∷ [])
  unfolding data_frame lines
  lines-frame t = lines-line (frame_line t) (10 ∷ []) (frame_line-IsOneLine t)

  split-frame :
      (t : Text)
      → split_inclusive (data_frame parse print open_ai t)
        ≡ (frame_line t ++ (10 ∷ [])) ∷ ((10 ∷ []) ∷ [])
  unfolding data_frame split_inclusive
  split-frame t = split_inclusive-line (frame_line t) (10 ∷ []) (frame_line-IsOneLine t)

  line_payload :
      (t : Text)
      → strip_prefix (codes "data:") (trim_breaks (frame_line t ++ (10 ∷ [])))
        ≡ some (32 ∷ printed t)
  line_payload t = rw (trim_breaks-line (frame_line t) (frame_line-IsOneLine t)) (payload t)

  json_of_line :
      (line p q : Text) (v : Value) (rest : List Text)
      → strip_prefix (codes "data:") line ≡ some p
      → trim p ≡ q
      → parse q ≡ some v
      → first_json parse print (line ∷ rest) ≡ some v
  unfolding first_json line_json
  json_of_line line p q v rest h e k =
      rw (h, first_json) (rw (e, first_json) (rw (k, first_json) refl))

  json_of_frame :
      (t : Text)
      → first_json parse print (lines (data_frame parse print open_ai t)) ≡ some (open_ai_delta t)
  json_of_frame t = rw (lines-frame t) (
      json_of_line (frame_line t) (32 ∷ printed t) (printed t) (open_ai_delta t) ([] ∷ [])
        (payload t) (trimmed t) (codec.round_trip t))

  goes_on :
      (line p q : Text) (v : Value)
      → strip_prefix (codes "data:") (trim_breaks line) ≡ some p
      → trim p ≡ q
      → (q =ᵗ codes "[DONE]") ≡ false
      → parse q ≡ some v
      → event_type (some v) ≡ none
      → ends_stream parse print line ≡ false
  unfolding ends_stream
  goes_on line p q v h e other k untyped =
      rw (h, ends_stream)
        (rw (e, ends_stream)
          (rw (other, ends_stream) (rw (k, ends_stream) (rw (untyped, ends_stream) refl))))

  line_goes_on : (t : Text) → ends_stream parse print (frame_line t ++ (10 ∷ [])) ≡ false
  line_goes_on t =
      goes_on (frame_line t ++ (10 ∷ [])) (32 ∷ printed t) (printed t) (open_ai_delta t)
        (line_payload t) (trimmed t) (not_done t) (codec.round_trip t) (delta_type-none t)

  frame_goes_on :
      (t : Text) → is_terminal_marker parse print (data_frame parse print open_ai t) ≡ false
  unfolding is_terminal_marker strip_prefix trim_breaks
  frame_goes_on t = rw (split-frame t) (rw (line_goes_on t) (unfold ends_stream in refl))

  delta_found :
      (t : Text) (v : Value) (st : EventState)
      → (follow delta_content v >>=? λ w. as_str w) ≡ some t
      → rewrite_value parse print v st ≡ some (push_delta parse print open_ai delta_content t v st)
  unfolding rewrite_value
  delta_found t v st h = rw (h, rewrite_value) refl

  delta_rewritten :
      (t : Text) (st : EventState)
      → rewrite_value parse print (open_ai_delta t) st
        ≡ some (printed (push_text t st.stripper).0, after_delta t st)
  unfolding push_delta
  delta_rewritten t st =
      delta_found t (open_ai_delta t) st (delta_content-follow t)
      ∙ ap (λ v. some (print v, after_delta t st))
          (delta_content-replace t (push_text t st.stripper).0)

  rewritten :
      (line p q r : Text) (v : Value) (st st' : EventState)
      → strip_prefix (codes "data:") (trim_breaks line) ≡ some p
      → trim_start p ≡ q
      → (q =ᵗ codes "[DONE]") ≡ false
      → is_empty q ≡ false
      → parse q ≡ some v
      → rewrite_value parse print v st ≡ some (r, st')
      → rewrite_line parse print line st ≡ (codes "data: " ++ (r ++ (10 ∷ [])), st')
  unfolding rewrite_line rewrite_data
  rewritten line p q r v st st' h e other shown k run =
      rw (h, rewrite_line)
        (rw (e, rewrite_line)
          (rw (other, rewrite_line)
            (rw (shown, rewrite_line) (rw (k, rewrite_line) (rw (run, rewrite_line) refl)))))

  line_rewritten :
      (t : Text) (st : EventState)
      → rewrite_line parse print (frame_line t ++ (10 ∷ [])) st
        ≡ (frame_line (push_text t st.stripper).0 ++ (10 ∷ []), after_delta t st)
  line_rewritten t st =
      rewritten (frame_line t ++ (10 ∷ [])) (32 ∷ printed t) (printed t)
        (printed (push_text t st.stripper).0) (open_ai_delta t) st (after_delta t st)
        (line_payload t) (started t) (not_done t) (not_empty t) (codec.round_trip t)
        (delta_rewritten t st)

  blank_kept : (st : EventState) → rewrite_line parse print (10 ∷ []) st ≡ (10 ∷ [], st)
  unfolding rewrite_line strip_prefix trim_breaks
  blank_kept st = refl

  lines_rewritten :
      (t : Text) (st : EventState)
      → rewrite_lines parse print (split_inclusive (data_frame parse print open_ai t)) st
        ≡ (data_frame parse print open_ai (push_text t st.stripper).0, after_delta t st)
  unfolding rewrite_lines data_frame
  lines_rewritten t st = rw (split-frame t) (
      rw (line_rewritten t st) (
        rw (blank_kept (after_delta t st)) (
          ap (λ x. (x, after_delta t st))
            (append_assoc (frame_line (push_text t st.stripper).0) (10 ∷ []) (10 ∷ [])))))

  -- An OpenAI delta leaves as a frame of the text that the stripper gives for it.
  pub transform_delta :
      (t : Text) (st : EventState)
      → transform_event parse print (data_frame parse print open_ai t) st
        ≡ (data_frame parse print open_ai (push_text t st.stripper).0, after_delta t st)
  unfolding transform_event
  transform_delta t st = rw (json_of_frame t) (
      rw (frame_goes_on t) (
        transform_untyped parse print (some (open_ai_delta t)) false
          (split_inclusive (data_frame parse print open_ai t)) st st (after_delta t st) []
          (data_frame parse print open_ai (push_text t st.stripper).0) (delta_type-none t)
          (unfold release_tail in refl) (lines_rewritten t st)))

  json_of_done : first_json parse print (lines done_event) ≡ none
  unfolding first_json line_json lines strip_prefix trim
  json_of_done = rw codec.done refl

  done_ends : is_terminal_marker parse print done_event ≡ true
  unfolding is_terminal_marker ends_stream split_inclusive strip_prefix trim_breaks ◌=ᵗ◌ trim
  done_ends = refl

  done_kept :
      (st : EventState)
      → rewrite_lines parse print (split_inclusive done_event) st ≡ (done_event, st)
  unfolding rewrite_lines rewrite_line split_inclusive strip_prefix trim_breaks ◌=ᵗ◌ trim_start
      is_whitespace
  done_kept st = refl

  -- The end of the stream leaves behind the tail that was held back.
  pub transform_done :
      (st : EventState)
      → transform_event parse print done_event st
        ≡ ((tail_frame parse print st).0 ++ done_event, (tail_frame parse print st).1)
  unfolding transform_event
  transform_done st = rw json_of_done (
      rw done_ends (
        transform_untyped parse print none true (split_inclusive done_event) st
          (tail_frame parse print st).1 (tail_frame parse print st).1 (tail_frame parse print st).0
          done_event (unfold event_type in refl) (unfold release_tail in refl)
          (done_kept (tail_frame parse print st).1)))
