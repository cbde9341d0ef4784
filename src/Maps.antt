-- ===== src/Maps.antt =====
-- `BTreeMap<String, V>`, and `serde_json::Map`, which is one: the entries in the order of their keys.
pub mod Order
pub mod Each
use localx_llama.Prelude.{
  ℕ, Bool, true, false, ◌≡◌, ◌≢◌, refl, sym, ap, ◌∙◌, Option, none, some, List, [], ◌∷◌, arith, ltb,
  ◌==◌, if◌then◌else◌, or_else, Bool-cases, inl, inr,
}
use localx_llama.Text.{Text, ◌=ᵗ◌}
use localx_llama.Text.Case.{=ᵗ_iff, =ᵗ_refl}

abbrev pub Map {ℓ} : Type ℓ → Type ℓ
Map V = List (Text × V)

-- The order of `String`: by bytes, which is by code points.
unfoldable pub text_ltb : Text → Text → Bool
text_ltb [] [] = false
text_ltb [] (y ∷ ys) = true
text_ltb (x ∷ xs) [] = false
text_ltb (x ∷ xs) (y ∷ ys) = if x == y then text_ltb xs ys else ltb x y

module _ {ℓ} {V : Type ℓ} where
  -- `map.get(key)`
  unfoldable pub get : Text → Map V → Option V
  get k [] = none
  get k ((j, v) ∷ m) = if j =ᵗ k then some v else get k m

  -- `map.insert(key, value)`
  unfoldable pub insert : Text → V → Map V → Map V
  unfolding text_ltb
  insert k v [] = (k, v) ∷ []
  insert k v ((j, w) ∷ m) =
      let later = insert k v m in
      if k =ᵗ j then (k, v) ∷ m else if text_ltb k j then (k, v) ∷ ((j, w) ∷ m) else (j, w) ∷ later

  -- `map.keys()`
  unfoldable pub keys : Map V → List Text
  keys [] = []
  keys ((k, v) ∷ m) = k ∷ keys m

  -- `for (k, v) in src { dst.insert(k.clone(), v.clone()); }`
  unfoldable pub insert_all : Map V → Map V → Map V
  insert_all [] dst = dst
  insert_all ((k, v) ∷ src) dst = insert_all src (insert k v dst)

  -- Each key has one entry.
  abbrev pub Distinct : Map V → Type ℓ
  Distinct [] = Unit
  Distinct ((k, v) ∷ m) = (get k m ≡ none) × Distinct m

  pub get-insert :
      (k j : Text) (v : V) (m : Map V) → get j (insert k v m) ≡ (if k =ᵗ j then some v else get j m)
  unfolding get insert
  get-insert k j v [] = refl
  get-insert k j v ((i, w) ∷ m) =
      ground (arith, =ᵗ_iff k j, =ᵗ_iff i k, =ᵗ_iff k i, =ᵗ_iff i j, get-insert k j v m)

  -- A map written over another hides its entries.
  pub get-insert_all :
      (src dst : Map V) (j : Text)
      → Distinct src
      → get j (insert_all src dst) ≡ or_else (get j src) (get j dst)
  unfolding get insert_all
  get-insert_all [] dst j d = refl
  get-insert_all ((k, v) ∷ src) dst j d =
      get-insert_all src (insert k v dst) j d.1 ∙ elim (Bool-cases (k =ᵗ j)) [
        | inl same ↦
            let e : k ≡ j = (=ᵗ_iff k j).0 same in
            ground (arith, rw e at (d.0), get-insert k j v dst)
        | inr other ↦ ground (arith, get-insert k j v dst)
      ]
