-- ===== src/Nothink/Request.antt =====
-- The transforms of a request, and of a response that is not streamed: nothink.rs on JSON.
pub mod Laws
pub mod Response
pub mod Cleaned
use localx_llama.Prelude.{
  unwrap_or, ◌>>=?◌, Bool, true, false, Option, none, some, List, [], ◌∷◌, ◌++◌, if◌then◌else◌,
}
use localx_llama.Maps.{keys}
use localx_llama.Text.{Text, codes, is_empty, join}
use localx_llama.Json.{
  Value, null, string, array, object, Items, nil, cons, Fields, get_field, insert_field,
  remove_field, get_key, as_str, is_text, items_list, list_items,
}

abbrev pub default_thinking_keys : List Text
default_thinking_keys = codes "thinking" ∷ []

unfoldable pub remove_fields : List Text → Fields → Fields
remove_fields [] fs = fs
remove_fields (k ∷ keys) fs = remove_fields keys (remove_field k fs)

unfoldable pub strip_thinking_keys_root : Value → List Text → Value
unfolding remove_fields
strip_thinking_keys_root (object fs) keys = object (remove_fields keys fs)
strip_thinking_keys_root body keys = body

-- `filter_map(|b| b.get("text").and_then(Value::as_str))`
unfoldable pub texts_of : Items → List Text
texts_of nil = []
texts_of (cons b blocks) =
    let rest = texts_of blocks in
    elim (get_key (codes "text") b >>=? λ t. as_str t) [ none ↦ rest | some t ↦ t ∷ rest ]

unfoldable pub block_text : Value → Text
unfolding texts_of join
block_text (string s) = s
block_text (array blocks) = join (codes "\n") (texts_of blocks)
block_text _ = []

unfoldable pub is_system : Value → Bool
is_system m = is_text (codes "system") (get_key (codes "role") m >>=? λ r. as_str r)

-- `m.get("content").unwrap_or(&Value::Null)`
abbrev pub content_of : Value → Value
content_of m = unwrap_or (get_key (codes "content") m) null

-- `if !text.is_empty() { texts.push(text); }`
abbrev pub push_nonempty : Text → List Text → List Text
push_nonempty text texts = if is_empty text then texts else text ∷ texts

-- The loop over the messages: what is folded, and what is kept.
unfoldable pub fold_messages : Items → List Text × List Value
unfolding block_text is_system
fold_messages nil = ([], [])
fold_messages (cons m messages) =
    let (folded, kept) = fold_messages messages in
    if is_system m
    then (push_nonempty (block_text (content_of m)) folded, kept)
    else (folded, m ∷ kept)

-- The texts of the field `system`, if it says anything.
unfoldable pub system_parts : Fields → List Text
unfolding block_text
system_parts fs = elim (get_field (codes "system") fs) [
  | none ↦ []
  | some existing ↦ push_nonempty (block_text existing) []
]

-- The two writes at the end, if anything was folded.
unfoldable pub write_system : Fields → List Text → List Value → Fields
write_system fs [] kept = fs
write_system fs (text ∷ texts) kept = insert_field (codes "messages") (array (list_items kept)) (
    insert_field (codes "system") (string (join (codes "\n\n") (system_parts fs ++ (text ∷ texts))))
      fs)

abbrev pub as_items : Value → Option Items
as_items (array items) = some items
as_items _ = none

-- `let Some(Value::Array(messages)) = map.get("messages")`
abbrev pub messages_of : Fields → Option Items
messages_of fs = get_field (codes "messages") fs >>=? λ v. as_items v

unfoldable pub merge_system_messages : Value → Value
merge_system_messages (object fs) = elim (messages_of fs) [
  | some messages ↦
      let (folded, kept) = fold_messages messages in object (write_system fs folded kept)
  | none ↦ object fs
]
merge_system_messages body = body

unfoldable pub transform_request : Value → Bool → Value
transform_request body merge_system =
    let stripped = strip_thinking_keys_root body default_thinking_keys in
    if merge_system then merge_system_messages stripped else stripped
