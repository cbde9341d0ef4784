-- ===== src/Nothink/Request/Laws.antt =====
-- What a request keeps, and where its system messages go.
use localx_llama.Prelude.{
  filter, map, not, Option, Option-cases, ap, ◌∙◌, ◌⊎◌, some, ◌++◌, false, ◌≡◌, inl, inr, refl,
  none, List, [], ◌∷◌, arith, any, Bool-cases, if◌then◌else◌,
}
use localx_llama.Text.Case.{=ᵗ_refl}
use localx_llama.Json.{
  items_list, boolean, null, number, array, insert_field, string, Value, object, Items, nil, cons,
  Fields, get_field, remove_field, list_items, get_key,
}
use localx_llama.Nothink.Request.{
  block_text, push_nonempty, content_of, messages_of, merge_system_messages, system_parts,
  write_system, remove_fields, strip_thinking_keys_root, fold_messages, is_system,
}
use localx_llama.Text.{is_empty, codes, join, ◌=ᵗ◌, Text, contains_text}
use localx_llama.Json.Laws.{get-insert_field, get-remove_field}
use localx_llama.Maps.{keys}

get-remove_fields :
    (keys : List Text) (fs : Fields) (k : Text)
    → get_field k (remove_fields keys fs) ≡ (if contains_text keys k then none else get_field k fs)
unfolding remove_fields
get-remove_fields [] fs k = refl
get-remove_fields (key ∷ keys) fs k =
    ground (arith, get-remove_fields keys (remove_field key fs) k, get-remove_field key k fs)

-- The keys are gone from the root, and every other field of the root is what it was, to its depth.
pub strip_thinking_keys_root_lem :
    (fs : Fields) (keys : List Text) (k : Text)
    → get_key k (strip_thinking_keys_root (object fs) keys)
      ≡ (if contains_text keys k then none else get_field k fs)
unfolding strip_thinking_keys_root
strip_thinking_keys_root_lem fs keys k = get-remove_fields keys fs k

-- No message of the role `system` is kept.
kept_no_system : (messages : Items) → any is_system (fold_messages messages).1 ≡ false
unfolding fold_messages
kept_no_system nil = refl
kept_no_system (cons m messages) = elim (Bool-cases (is_system m)) [
  | inl s ↦ rw s (kept_no_system messages)
  | inr n ↦ rw n (rw n (kept_no_system messages))
]

-- Messages without a system message are kept as they are, and fold nothing.
fold_no_system :
    (kept : List Value) → any is_system kept ≡ false → fold_messages (list_items kept) ≡ ([], kept)
unfolding fold_messages
fold_no_system [] h = refl
fold_no_system (m ∷ kept) h = elim (Bool-cases (is_system m)) [
  | inl s ↦ absurd (cc (rw s at h))
  | inr n ↦ rw (n, fold_no_system kept (rw n at h)) refl
]

-- What the system messages say, in order.
abbrev pub said : List Value → List Text
said messages =
    filter (λ t. not (is_empty t))
      (map (λ m. block_text (content_of m)) (filter is_system messages))

-- The messages of every other role, in order.
abbrev pub others : List Value → List Value
others messages = filter (λ m. not (is_system m)) messages

-- What the field `system` says.
abbrev pub said_before : Option Value → List Text
said_before none = []
said_before (some existing) = filter (λ t. not (is_empty t)) (block_text existing ∷ [])

push_nonempty-filter :
    (t : Text) (ts : List Text)
    → push_nonempty t (filter (λ u. not (is_empty u)) ts) ≡ filter (λ u. not (is_empty u)) (t ∷ ts)
push_nonempty-filter [] ts = refl
push_nonempty-filter (c ∷ t) ts = refl

fold_messages-eq :
    (messages : Items)
    → fold_messages messages ≡ (said (items_list messages), others (items_list messages))
unfolding fold_messages
fold_messages-eq nil = refl
fold_messages-eq (cons m messages) = elim (Bool-cases (is_system m)) [
  | inr other ↦ rw (fold_messages-eq messages, other, filter) refl
  | inl system ↦
      let list = items_list messages in
      let text = block_text (content_of m) in
      let rest : List Text = map (λ n. block_text (content_of n)) (filter is_system list) in
      let folded : fold_messages (cons m messages) ≡ (push_nonempty text (said list), others list) =
        rw (fold_messages-eq messages, system) refl in
      let f : filter (λ u. not (is_empty u)) (text ∷ rest) ≡ said (m ∷ list) =
        rw (system, filter) refl in
      let g : others list ≡ others (m ∷ list) = rw (system, filter) refl in
      folded
      ∙ ap (λ texts. (texts, others list)) (push_nonempty-filter text rest)
      ∙ (λ i. (f i, g i))
]

system_parts-eq : (fs : Fields) → system_parts fs ≡ said_before (get_field (codes "system") fs)
unfolding system_parts
system_parts-eq fs = elim (Option-cases (get_field (codes "system") fs)) [
  | inl e ↦ rw (e, system_parts) refl
  | inr (v, e) ↦ rw (e, system_parts) (push_nonempty-filter (block_text v) [])
]

-- The fields of a request whose system messages are merged.
abbrev pub merged_field : Fields → List Text → List Value → Text → Option Value
merged_field fs folded kept k =
    if codes "messages" =ᵗ k
    then some (array (list_items kept))
    else if codes "system" =ᵗ k
    then some (string (join (codes "\n\n") (said_before (get_field (codes "system") fs) ++ folded)))
    else get_field k fs

written :
    (fs : Fields) (t : Text) (texts : List Text) (kept : List Value) (k : Text)
    → get_field k (write_system fs (t ∷ texts) kept) ≡ merged_field fs (t ∷ texts) kept k
unfolding write_system
written fs t texts kept k =
    let text : Value = string (join (codes "\n\n") (system_parts fs ++ (t ∷ texts))) in
    get-insert_field (codes "messages") k (array (list_items kept))
      (insert_field (codes "system") text fs)
    ∙ ap (λ r. if codes "messages" =ᵗ k then some (array (list_items kept)) else r)
        (get-insert_field (codes "system") k text fs)
    ∙ ap
        (λ before.
          if codes "messages" =ᵗ k
          then some (array (list_items kept))
          else if codes "system" =ᵗ k
          then some (string (join (codes "\n\n") (before ++ (t ∷ texts))))
          else get_field k fs)
        (system_parts-eq fs)

merged-eq :
    (fs : Fields) (messages : Items)
    → messages_of fs ≡ some messages
    → merge_system_messages (object fs)
      ≡ object (write_system fs (fold_messages messages).0 (fold_messages messages).1)
unfolding merge_system_messages
merged-eq fs messages h = rw (h, merge_system_messages) refl

-- What the merge does to a request with messages: if no system message says anything, nothing.
-- If one does, the messages left are those of no system role, in order, `system` holds what it said
-- before and then what the system messages say, in order and with blank lines between, and every
-- other field is as it was.
pub merge_system_messages_lem :
    (fs : Fields) (messages : Items)
    → messages_of fs ≡ some messages
    → ((said (items_list messages) ≡ []) × (merge_system_messages (object fs) ≡ object fs))
      ⊎ ((text : Text) × (texts : List Text) × (said (items_list messages) ≡ text ∷ texts)
          × ((k : Text)
              → get_key k (merge_system_messages (object fs))
                ≡ merged_field fs (text ∷ texts) (others (items_list messages)) k))
unfolding write_system
merge_system_messages_lem fs messages h =
    rw (merged-eq fs messages h) (rw (fold_messages-eq messages) (by_said (said list) refl))
  where
    list : List Value
    list = items_list messages

    by_said :
        (texts : List Text)
        → said (items_list messages) ≡ texts
        → ((said (items_list messages) ≡ [])
            × (object (write_system fs (said (items_list messages)) (others (items_list messages)))
                ≡ object fs))
          ⊎ ((text : Text) × (texts : List Text) × (said (items_list messages) ≡ text ∷ texts)
              × ((k : Text)
                  → get_key k (
                      object (
                        write_system fs
                          (said (items_list messages))
                          (others (items_list messages))))
                    ≡ merged_field fs (text ∷ texts) (others (items_list messages)) k))
    by_said [] e = inl (e, rw (e, write_system) refl)
    by_said (t ∷ ts) e = inr (t, ts, e, λ k. rw e (written fs t ts (others list) k))

again :
    (fs : Fields) (messages : Items) (folded : List Text) (kept : List Value)
    → messages_of fs ≡ some messages
    → fold_messages messages ≡ (folded, kept)
    → merge_system_messages (object (write_system fs folded kept))
      ≡ object (write_system fs folded kept)
unfolding write_system
again fs messages [] kept h e = merged-eq fs messages h ∙ rw e refl
again fs messages (t ∷ texts) kept h e =
    let kept_messages : get_field (codes "messages") (write_system fs (t ∷ texts) kept)
        ≡ some (array (list_items kept)) =
      written fs t texts kept (codes "messages") ∙ rw (=ᵗ_refl (codes "messages")) refl in
    let no_system : any is_system kept ≡ false = rw e at (kept_no_system messages) in
    merged-eq (write_system fs (t ∷ texts) kept) (list_items kept) (rw kept_messages refl)
    ∙ rw (fold_no_system kept no_system) refl

-- Merging twice is merging once.
pub merge_system_messages_idem :
    (body : Value) → merge_system_messages (merge_system_messages body) ≡ merge_system_messages body
unfolding merge_system_messages
merge_system_messages_idem (object fs) = elim (Option-cases (messages_of fs)) [
  | inl e ↦
      let same : merge_system_messages (object fs) ≡ object fs =
        rw (e, merge_system_messages) refl in
      rw same same
  | inr (messages, e) ↦
      rw (merged-eq fs messages e)
        (again fs messages (fold_messages messages).0 (fold_messages messages).1 e refl)
]
merge_system_messages_idem null = refl
merge_system_messages_idem (boolean b) = refl
merge_system_messages_idem (number n) = refl
merge_system_messages_idem (string s) = refl
merge_system_messages_idem (array items) = refl
