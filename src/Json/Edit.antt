-- ===== src/Json/Edit.antt =====
-- Writing into a JSON value: `get_mut` and `pointer_mut`.
use localx_llama.Prelude.{◌>>=?◌, Option, some, List, [], ◌∷◌, if◌then◌else◌}
use localx_llama.Json.{Fields, Value, array, cons, end, field, get_first, get_key, object}
use localx_llama.Text.{Text, codes, ◌=ᵗ◌}

-- A part of a pointer: a key, or the part `0`, which is a key of an object or a place in an array.
pub data Part : Type 0 where
  key : Text → Part
  zeroth : Part

unfoldable pub modify_field : Text → (Value → Value) → Fields → Fields
unfolding ◌=ᵗ◌
modify_field k f end = end
modify_field k f (field j v fs) =
    let later = modify_field k f fs in if j =ᵗ k then field j (f v) fs else field j v later

unfoldable pub modify : Part → (Value → Value) → Value → Value
modify (key k) f (object fs) = object (modify_field k f fs)
modify zeroth f (object fs) = object (modify_field (codes "0") f fs)
modify zeroth f (array (cons v vs)) = array (cons (f v) vs)
modify _ f v = v

unfoldable pub follow : List Part → Value → Option Value
follow [] v = some v
follow (key k ∷ parts) v = get_key k v >>=? λ w. follow parts w
follow (zeroth ∷ parts) v = get_first v >>=? λ w. follow parts w

-- The value with what the pointer leads to replaced.
unfoldable pub replace : List Part → Value → Value → Value
replace [] new v = new
replace (p ∷ parts) new v = modify p (λ w. replace parts new w) v
