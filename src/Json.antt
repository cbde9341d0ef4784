-- ===== src/Json.antt =====
-- `serde_json::Value`: what the program reads of a JSON value, and how it writes into one. An object
-- is the ordered map of serde_json's default build. Parsing and printing are parameters of their
-- uses.
pub mod Laws
pub mod Edit
use localx_llama.Prelude.{
  ℕ, Bool, true, false, Option, none, some, List, [], ◌∷◌, if◌then◌else◌, ◌>>=?◌,
}
use localx_llama.Text.{Text, codes, ◌=ᵗ◌}
use localx_llama.Maps.{text_ltb}

-- A float is its bit pattern.
pub data Number : Type 0 where
  unsigned : ℕ → Number
  negative : ℕ → Number
  float : ℕ → Number

mutual
  pub data Value : Type 0 where
    null : Value
    boolean : Bool → Value
    number : Number → Value
    string : Text → Value
    array : Items → Value
    object : Fields → Value

  pub data Items : Type 0 where
    nil : Items
    cons : Value → Items → Items

  pub data Fields : Type 0 where
    end : Fields
    field : Text → Value → Fields → Fields

abbrev pub items_list : Items → List Value
items_list nil = []
items_list (cons v vs) = v ∷ items_list vs

abbrev pub list_items : List Value → Items
list_items [] = nil
list_items (v ∷ vs) = cons v (list_items vs)

-- `map.get(key)`, `map.insert(key, value)` and `map.remove(key)`
unfoldable pub get_field : Text → Fields → Option Value
unfolding ◌=ᵗ◌
get_field k end = none
get_field k (field j v fs) = if j =ᵗ k then some v else get_field k fs

unfoldable pub insert_field : Text → Value → Fields → Fields
unfolding ◌=ᵗ◌ text_ltb
insert_field k v end = field k v end
insert_field k v (field j w fs) =
    let later = insert_field k v fs in
    if k =ᵗ j
    then field k v fs
    else if text_ltb k j
    then field k v (field j w fs)
    else field j w later

unfoldable pub remove_field : Text → Fields → Fields
unfolding ◌=ᵗ◌
remove_field k end = end
remove_field k (field j v fs) =
    let later = remove_field k fs in if j =ᵗ k then later else field j v later

-- `json!({ … })`
abbrev pub object_of : List (Text × Value) → Fields → Value
object_of [] fs = object fs
object_of ((k, v) ∷ entries) fs = object_of entries (insert_field k v fs)

-- `v.get(key)`: the field of an object.
abbrev pub get_key : Text → Value → Option Value
get_key k (object fs) = get_field k fs
get_key k _ = none

-- `v.pointer("/…/0")` at its last part: the field `0` of an object, or the first of an array.
abbrev pub get_first : Value → Option Value
get_first (object fs) = get_field (codes "0") fs
get_first (array (cons v vs)) = some v
get_first _ = none

-- `v.as_str()` and `v.as_u64()`
abbrev pub as_str : Value → Option Text
as_str (string s) = some s
as_str _ = none

abbrev pub as_u64 : Value → Option ℕ
as_u64 (number (unsigned n)) = some n
as_u64 _ = none

-- `o == Some("…")`
abbrev pub is_text : Text → Option Text → Bool
is_text t none = false
is_text t (some s) = s =ᵗ t
