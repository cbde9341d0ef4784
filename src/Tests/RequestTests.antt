-- ===== src/Tests/RequestTests.antt =====
-- The request and response transforms of nothink.rs on small bodies.
use localx_llama.Nothink.Strips.{Strips}
use localx_llama.Nothink.{empty_after_think}
use localx_llama.Nothink.Request.{
  system_parts, write_system, strip_thinking_keys_root, merge_system_messages, transform_request,
  fold_messages,
}
use localx_llama.Json.{
  insert_field, remove_field, Value, Fields, Items, string, array, object, cons, nil, end, field,
  items_list, boolean, get_key, get_field, as_str,
}
use localx_llama.Prelude.{
  ◌≡◌, refl, ◌⊎◌, true, false, none, some, List, [], ◌∷◌, ◌++◌, if◌then◌else◌, ◌>>=?◌,
}
use localx_llama.Text.{Text, codes, is_blank, ◌=ᵗ◌}
use localx_llama.Nothink.Request.Laws.{merge_system_messages_lem, merged_field, said, others}
use localx_llama.Nothink.Request.Response.{clean_block}
use localx_llama.Nothink.Request.Cleaned.{clean_block_lem, type_is_text}

abbrev message_of : Text → Text → Value
message_of role text =
    object (field (codes "content") (string text) (field (codes "role") (string role) end))

abbrev messages : Items
messages =
    cons (message_of (codes "user") (codes "hi"))
      (cons (message_of (codes "system") (codes "be kind")) nil)

abbrev body : Fields
body =
    field (codes "messages") (array messages)
      (field (codes "system") (string (codes "base")) (field (codes "thinking") (boolean true) end))

transform_request_runs :
    transform_request (object body) true
    ≡ object (
        field
          (codes "messages")
          (array (cons (message_of (codes "user") (codes "hi")) nil))
          (field (codes "system") (string (codes "base" ++ (10 ∷ (10 ∷ codes "be kind")))) end))
unfolding transform_request merge_system_messages strip_thinking_keys_root get_field remove_field
    write_system fold_messages insert_field system_parts
transform_request_runs = refl

merge_system_messages_lem_example :
    ((said (items_list messages) ≡ []) × (merge_system_messages (object body) ≡ object body))
    ⊎ ((text : Text) × (texts : List Text) × (said (items_list messages) ≡ text ∷ texts)
        × ((k : Text)
            → get_key k (merge_system_messages (object body))
              ≡ merged_field body (text ∷ texts) (others (items_list messages)) k))
merge_system_messages_lem_example =
    merge_system_messages_lem body messages (unfold get_field in refl)

abbrev block : Fields
block =
    field (codes "text") (string (codes "<think>x</think>"))
      (field (codes "type") (string (codes "text")) end)

clean_block_lem_example :
    ((t : Text) × (o : Text) × Strips false t o
      × (type_is_text (object block) ≡ true)
      × (get_field (codes "text") block ≡ some (string t))
      × ((clean_block (object block)).1 ≡ true)
      × ((k : Text)
          → get_key k (clean_block (object block)).0 ≡ (
              if codes "text" =ᵗ k
              then some (string (if is_blank o then empty_after_think else o))
              else get_field k block)))
    ⊎ (((type_is_text (object block) ≡ false)
          ⊎ ((get_field (codes "text") block >>=? λ t. as_str t) ≡ none))
        × (clean_block (object block) ≡ (object block, false)))
clean_block_lem_example = clean_block_lem block
