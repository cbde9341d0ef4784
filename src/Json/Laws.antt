-- ===== src/Json/Laws.antt =====
-- The fields of an object after a write.
use localx_llama.Json.Edit.{modify_field}
use localx_llama.Json.{Fields, Value, end, field, get_field, insert_field, remove_field}
use localx_llama.Prelude.{◌≡◌, refl, none, some, arith, if◌then◌else◌}
use localx_llama.Text.{Text, ◌=ᵗ◌}
use localx_llama.Text.Case.{=ᵗ_iff}

pub get-insert_field :
    (k j : Text) (v : Value) (fs : Fields)
    → get_field j (insert_field k v fs) ≡ (if k =ᵗ j then some v else get_field j fs)
unfolding get_field insert_field
get-insert_field k j v end = refl
get-insert_field k j v (field i w fs) =
    ground (arith, =ᵗ_iff k j, =ᵗ_iff i k, =ᵗ_iff k i, =ᵗ_iff i j, get-insert_field k j v fs)

pub get-remove_field :
    (k j : Text) (fs : Fields)
    → get_field j (remove_field k fs) ≡ (if k =ᵗ j then none else get_field j fs)
unfolding get_field remove_field
get-remove_field k j end = ground arith
get-remove_field k j (field i w fs) =
    ground (arith, =ᵗ_iff k j, =ᵗ_iff i k, =ᵗ_iff i j, get-remove_field k j fs)

pub get-modify_field :
    (k : Text) (f : Value → Value) (fs : Fields) (j : Text) (v : Value)
    → get_field k fs ≡ some v
    → get_field j (modify_field k f fs) ≡ (if k =ᵗ j then some (f v) else get_field j fs)
unfolding get_field modify_field
get-modify_field k f end j v h = cc
get-modify_field k f (field i w fs) j v h =
    ground (arith, =ᵗ_iff k j, =ᵗ_iff i k, =ᵗ_iff i j, get-modify_field k f fs j v)
