-- ===== src/Nothink/Sse.antt =====
-- `SseThinkFilter` of nothink.rs: the filter on a stream of server-sent events. Parsing and
-- printing JSON and `String::from_utf8_lossy` are parameters.
pub mod Stages
pub mod Drain
pub mod Deltas
pub mod Completion
pub mod Bytes
pub mod Blocks
use localx_llama.Prelude.{
  ℕ, Bool, true, false, Option, none, some, List, [], ◌∷◌, ◌++◌, if◌then◌else◌, ◌==◌, any,
  unwrap_or, ◌>>=?◌, ◌||◌, ◌&&◌,
}
use localx_llama.Text.{◌=ᵗ◌, Text, codes, is_empty, strip_prefix, trim, trim_start, concat}
use localx_llama.Text.Lines.{lines, split_inclusive, trim_breaks}
use localx_llama.Json.{
  Value, number, unsigned, string, array, cons, nil, object, end, object_of, get_key, as_str,
  as_u64, is_text,
}
use localx_llama.Json.Edit.{Part, key, zeroth, follow, replace}
use localx_llama.Nothink.Stripper.{ThinkStripper, push_text, finish}

pub data DeltaShape : Type 0 where
  open_ai : DeltaShape
  anthropic : ℕ → DeltaShape

-- The fields of `SseThinkFilter` but for the pending bytes. The set of open blocks is a list whose
-- order is not observed.
pub record EventState : Type 0 where
  pub stripper : ThinkStripper
  pub shape : Option DeltaShape
  pub open_blocks : List ℕ

-- `set.insert(index)`, and whether it was new
unfoldable pub insert_block : ℕ → List ℕ → List ℕ × Bool
insert_block i blocks = if any (λ j. j == i) blocks then (blocks, false) else (i ∷ blocks, true)

-- `set.remove(&index)`
unfoldable pub remove_block : ℕ → List ℕ → List ℕ
remove_block i [] = []
remove_block i (j ∷ blocks) =
    let later = remove_block i blocks in if j == i then later else j ∷ later

abbrev pub delta_content : List Part
delta_content =
    key (codes "choices") ∷ (zeroth ∷ (key (codes "delta") ∷ (key (codes "content") ∷ [])))

abbrev pub delta_text : List Part
delta_text = key (codes "delta") ∷ (key (codes "text") ∷ [])

abbrev pub delta_type : List Part
delta_type = key (codes "delta") ∷ (key (codes "type") ∷ [])

-- The values that `data_frame` and `anthropic_text_start_frame` print.
unfoldable pub open_ai_delta : Text → Value
open_ai_delta text =
    let delta : Value = object_of ((codes "content", string text) ∷ []) end in
    let choice : Value = object_of ((codes "delta", delta) ∷ []) end in
    object_of ((codes "choices", array (cons choice nil)) ∷ []) end

unfoldable pub anthropic_delta : ℕ → Text → Value
anthropic_delta index text =
    let delta : Value =
      object_of ((codes "type", string (codes "text_delta")) ∷ ((codes "text", string text) ∷ []))
        end in
    object_of
      ((codes "type", string (codes "content_block_delta"))
        ∷ ((codes "index", number (unsigned index)) ∷ ((codes "delta", delta) ∷ [])))
      end

unfoldable pub anthropic_start : ℕ → Value
anthropic_start index =
    let block : Value =
      object_of ((codes "type", string (codes "text")) ∷ ((codes "text", string []) ∷ [])) end in
    object_of
      ((codes "type", string (codes "content_block_start"))
        ∷ ((codes "index", number (unsigned index)) ∷ ((codes "content_block", block) ∷ [])))
      end

-- `value.and_then(|v| v.get("type")).and_then(Value::as_str)`
unfoldable pub event_type : Option Value → Option Text
event_type json = json >>=? λ v. get_key (codes "type") v >>=? λ t. as_str t

unfoldable pub event_index : Option Value → ℕ
event_index json = unwrap_or (json >>=? λ v. get_key (codes "index") v >>=? λ n. as_u64 n) 0

-- Whether `/delta/type` is `text_delta`.
unfoldable pub is_text_delta : Option Value → Bool
unfolding follow
is_text_delta json =
    is_text (codes "text_delta") (json >>=? λ v. follow delta_type v >>=? λ t. as_str t)

-- `type == Some(name)`
abbrev pub has_type : Text → Option Value → Bool
has_type name json = is_text name (event_type json)

unfoldable pub close_block : Option Value → EventState → EventState
unfolding remove_block
close_block json st =
    if has_type (codes "content_block_stop") json
    then (record {
      stripper = st.stripper;
      shape = elim (st.shape) [
        | none ↦ none
        | some open_ai ↦ some open_ai
        | some (anthropic i) ↦ if i == event_index json then none else some (anthropic i)
      ];
      open_blocks = remove_block (event_index json) st.open_blocks;
    })
    else st

module _ (parse : Text → Option Value) (print : Value → Text) where
  unfoldable pub data_frame : DeltaShape → Text → Text
  unfolding open_ai_delta anthropic_delta
  data_frame open_ai text = codes "data: " ++ (print (open_ai_delta text) ++ (10 ∷ (10 ∷ [])))
  data_frame (anthropic index) text =
      codes "event: content_block_delta"
      ++ (10 ∷ (codes "data: " ++ (print (anthropic_delta index text) ++ (10 ∷ (10 ∷ [])))))

  unfoldable pub anthropic_text_start_frame : ℕ → Text
  unfolding anthropic_start
  anthropic_text_start_frame index =
      codes "event: content_block_start"
      ++ (10 ∷ (codes "data: " ++ (print (anthropic_start index) ++ (10 ∷ (10 ∷ [])))))

  -- A line of `is_terminal_marker`.
  unfoldable pub ends_stream : Text → Bool
  unfolding event_type
  ends_stream line = elim (strip_prefix (codes "data:") (trim_breaks line)) [
    | none ↦ false
    | some payload ↦
        trim payload =ᵗ codes "[DONE]" || has_type (codes "message_stop") (parse (trim payload))
  ]

  unfoldable pub is_terminal_marker : Text → Bool
  unfolding ends_stream
  is_terminal_marker event = any ends_stream (split_inclusive event)

  -- The first data line that is JSON.
  unfoldable pub line_json : Text → Option Value
  line_json line = strip_prefix (codes "data:") line >>=? λ payload. parse (trim payload)

  unfoldable pub first_json : List Text → Option Value
  unfolding line_json
  first_json [] = none
  first_json (line ∷ rest) = elim (line_json line) [ some v ↦ some v | none ↦ first_json rest ]

  -- The text delta is pushed through the stripper, which then has a shape to answer in.
  unfoldable pub push_delta : DeltaShape → List Part → Text → Value → EventState → Text × EventState
  unfolding replace
  push_delta shape part t v st =
      let (stripped, s) = push_text t st.stripper in
      (
        print (replace part (string stripped) v),
        record { stripper = s; shape = some shape; open_blocks = st.open_blocks },
      )

  unfoldable pub rewrite_value : Value → EventState → Option (Text × EventState)
  unfolding push_delta follow is_text_delta event_index
  rewrite_value v st = elim (follow delta_content v >>=? λ t. as_str t) [
    | some t ↦ some (push_delta open_ai delta_content t v st)
    | none ↦
        if is_text_delta (some v)
        then elim (follow delta_text v >>=? λ t. as_str t) [
          | some t ↦ some (push_delta (anthropic (event_index (some v))) delta_text t v st)
          | none ↦ none
        ]
        else none
  ]

  unfoldable pub rewrite_data : Text → EventState → Option (Text × EventState)
  unfolding rewrite_value
  rewrite_data payload st = parse payload >>=? λ v. rewrite_value v st

  -- A line of the event, and what is sent in its place.
  unfoldable pub rewrite_line : Text → EventState → Text × EventState
  unfolding rewrite_data
  rewrite_line line st = elim (strip_prefix (codes "data:") (trim_breaks line)) [
    | none ↦ (line, st)
    | some payload ↦
        if trim_start payload =ᵗ codes "[DONE]" || is_empty (trim_start payload)
        then (line, st)
        else elim (rewrite_data (trim_start payload) st) [
          | none ↦ (line, st)
          | some (rewritten, st') ↦ (codes "data: " ++ (rewritten ++ (10 ∷ [])), st')
        ]
  ]

  unfoldable pub rewrite_lines : List Text → EventState → Text × EventState
  unfolding rewrite_line
  rewrite_lines [] st = ([], st)
  rewrite_lines (line ∷ rest) st =
      let (out, st') = rewrite_line line st in
      let (later, st'') = rewrite_lines rest st' in (out ++ later, st'')

  -- The start of the content block, when the server left it out.
  unfoldable pub open_block : Option Value → EventState → Text × EventState
  unfolding insert_block anthropic_text_start_frame event_index event_type is_text_delta
  open_block json st =
      let index = event_index json in
      let (blocks, new) = insert_block index st.open_blocks in
      let opened : EventState = record {
        stripper = st.stripper;
        shape = st.shape;
        open_blocks = blocks;
      } in
      if has_type (codes "content_block_start") json
      then ([], opened)
      else if has_type (codes "content_block_delta") json && is_text_delta json
      then (if new then anthropic_text_start_frame index else [], opened)
      else ([], st)

  -- The tail that the stripper held back, as a frame of the shape that was seen.
  unfoldable pub tail_frame : EventState → Text × EventState
  unfolding data_frame finish
  tail_frame st =
      let (tail, s) = finish st.stripper in
      let frame : Text =
        if is_empty tail
        then []
        else elim (st.shape) [ none ↦ [] | some shape ↦ data_frame shape tail ] in
      (frame, record { stripper = s; shape = st.shape; open_blocks = st.open_blocks })

  unfoldable pub release_tail : Bool → EventState → Text × EventState
  unfolding tail_frame
  release_tail ends st = if ends then tail_frame st else ([], st)

  -- What is sent for an event of these lines, with this JSON, which ends the stream or not.
  unfoldable pub transform_lines : Option Value → Bool → List Text → EventState → Text × EventState
  transform_lines json terminal body st =
      let (start, st₁) = open_block json st in
      let (tail, st₂) = release_tail (terminal || has_type (codes "content_block_stop") json) st₁ in
      let (rewritten, st₃) = rewrite_lines body st₂ in
      (start ++ (tail ++ rewritten), close_block json st₃)

  unfoldable pub transform_event : Text → EventState → Text × EventState
  unfolding transform_lines
  transform_event event st =
      transform_lines (first_json (lines event)) (is_terminal_marker event) (split_inclusive event)
        st

  -- The events in order.
  unfoldable pub transform_events : List Text → EventState → Text × EventState
  transform_events [] st = ([], st)
  transform_events (event ∷ events) st =
      let (out, st') = transform_event event st in
      let (later, st'') = transform_events events st' in (out ++ later, st'')
