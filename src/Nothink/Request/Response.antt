-- ===== src/Nothink/Request/Response.antt =====
-- `strip_think_json_response` of nothink.rs. Parsing and printing JSON, and the conversions between
-- bytes and text, are parameters.
use localx_llama.Prelude.{
  ◌>>=?◌, ℕ, Bool, true, false, ◌||◌, Option, none, some, List, [], ◌∷◌, if◌then◌else◌,
}
use localx_llama.Json.{Value, string, array, Items, nil, cons, get_key, as_str, is_text}
use localx_llama.Text.{Text, codes}
use localx_llama.Json.Edit.{Part, key, follow, replace}
use localx_llama.Nothink.OneShot.{strip_think_text, fallback_if_empty}
use localx_llama.Nothink.Request.{as_items}

-- `fallback_if_empty(&strip_think(t))`
abbrev pub clean : Text → Text
clean t = fallback_if_empty (strip_think_text t)

-- A block of an Anthropic response, and whether it was touched.
unfoldable pub clean_block : Value → Value × Bool
clean_block b = elim (is_text (codes "text") (get_key (codes "type") b >>=? λ t. as_str t)) [
  | true ↦ elim (get_key (codes "text") b >>=? λ t. as_str t) [
    | some t ↦ (replace (key (codes "text") ∷ []) (string (clean t)) b, true)
    | none ↦ (b, false)
  ]
  | false ↦ (b, false)
]

-- A choice of an OpenAI response: `c.pointer_mut("/message/content")`.
abbrev pub choice_content : List Part
choice_content = key (codes "message") ∷ (key (codes "content") ∷ [])

unfoldable pub clean_choice : Value → Value × Bool
clean_choice c = elim (follow choice_content c >>=? λ t. as_str t) [
  | some t ↦ (replace choice_content (string (clean t)) c, true)
  | none ↦ (c, false)
]

unfoldable pub clean_items : (Value → Value × Bool) → Items → Items × Bool
clean_items f nil = (nil, false)
clean_items f (cons v vs) =
    let (v', here) = f v in let (vs', later) = clean_items f vs in (cons v' vs', here || later)

-- `if let Some(Value::Array(items)) = v.get_mut(k) { for … }`
unfoldable pub clean_array : Text → (Value → Value × Bool) → Value → Value × Bool
unfolding clean_items
clean_array k f v = elim (get_key k v >>=? λ w. as_items w) [
  | some items ↦
      let (items', touched) = clean_items f items in
      (replace (key k ∷ []) (array items') v, touched)
  | none ↦ (v, false)
]

module _ (parse : List ℕ → Option Value) (print : Value → List ℕ) (decode : List ℕ → Text)
    (encode : Text → List ℕ) where
  unfoldable pub strip_think_json_response : List ℕ → List ℕ
  unfolding clean_array clean_block clean_choice
  strip_think_json_response body = elim (parse body) [
    | none ↦ encode (strip_think_text (decode body))
    | some v ↦
        let (v₁, touched₁) = clean_array (codes "content") clean_block v in
        let (v₂, touched₂) = clean_array (codes "choices") clean_choice v₁ in
        if touched₁ || touched₂ then print v₂ else body
  ]
