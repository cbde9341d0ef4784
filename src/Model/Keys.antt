-- ===== src/Model/Keys.antt =====
-- What the key resolution of model.rs finds, and when it fails.
use localx_llama.Prelude.{
  List, any, ◌⊎◌, err, ◌≡◌, refl, inl, inr, Bool, true, false, Option, none, some, [], ◌∷◌, arith,
  Bool-cases, Option-cases, find, is_some, ok,
}
use localx_llama.Text.{join, Text, eq_ignore_case, ◌=ᵗ◌}
use localx_llama.Error.{CoreError, unknown_context, unknown_quant}
use localx_llama.Model.{
  QuantEntry, available_contexts, canonical_context, resolve_quant_key, separator, ModelDef,
  context_value, find_key, resolve_alias, resolve_context_key,
}
use localx_llama.Prelude.Int.{ℤ}
use localx_llama.Text.Case.{=ᵗ_iff}
use localx_llama.Maps.{Map, get, keys}

module _ {V : Type 0} where
  -- the first key that passes a test is a key of the map
  find-keys :
      (p : Text → Bool) (m : Map V) (k : Text)
      → find p (keys m) ≡ some k
      → (v : V) × (get k m ≡ some v) × (p k ≡ true)
  unfolding keys get
  find-keys p [] k h = cc
  find-keys p ((j, w) ∷ m) k h = elim (Bool-cases (p j)) [
    | inl hit ↦ let e : j ≡ k = ground arith in (w, ground (arith, =ᵗ_iff j k), rw (← e) hit)
    | inr miss ↦
        let (v, g, t) = find-keys p m k (ground arith) in
        elim (Bool-cases (j =ᵗ k)) [
          | inl same ↦ (w, rw same refl, t)
          | inr other ↦ (v, rw other g, t)
        ]
  ]

  pub find_key-get :
      (key : Text) (m : Map V) (k : Text)
      → find_key key m ≡ some k
      → (v : V) × (get k m ≡ some v) × (eq_ignore_case k key ≡ true)
  unfolding find_key
  find_key-get key m k h = find-keys (λ existing. eq_ignore_case existing key) m k h

  -- No key of the map passes the test.
  find-keys-none :
      (p : Text → Bool) (m : Map V) (k : Text) (v : V)
      → find p (keys m) ≡ none
      → get k m ≡ some v
      → p k ≡ false
  unfolding keys get
  find-keys-none p [] k v h g = cc
  find-keys-none p ((j, w) ∷ m) k v h g = elim (Bool-cases (p j)) [
    | inl hit ↦ absurd (ground arith)
    | inr miss ↦ elim (Bool-cases (j =ᵗ k)) [
      | inl same ↦ rw (← (=ᵗ_iff j k).0 same) miss
      | inr other ↦ find-keys-none p m k v (ground arith) (ground arith)
    ]
  ]

  pub find_key-none :
      (key : Text) (m : Map V) (k : Text) (v : V)
      → find_key key m ≡ none
      → get k m ≡ some v
      → eq_ignore_case k key ≡ false
  unfolding find_key
  find_key-none key m k v h g = find-keys-none (λ existing. eq_ignore_case existing key) m k v h g

some-of-is_some {ℓ} : {A : Type ℓ} (o : Option A) → is_some o ≡ true → (a : A) × (o ≡ some a)
some-of-is_some none h = cc
some-of-is_some (some a) h = (a, refl)

resolve_alias-get :
    (contexts : Map ℤ) (key k : Text)
    → resolve_alias contexts key ≡ ok k
    → (v : ℤ) × (get k contexts ≡ some v)
unfolding resolve_alias
resolve_alias-get contexts key k h = some-of-is_some (get k contexts) (ground arith)

pub any-of-find-none {ℓ} :
    {A : Type ℓ} (p : A → Bool) (xs : List A) → find p xs ≡ none → any p xs ≡ false
any-of-find-none p [] h = refl
any-of-find-none p (x ∷ xs) h = ground (arith, any-of-find-none p xs)

find_key-any :
    {V : Type 0} (key : Text) (m : Map V)
    → find_key key m ≡ none
    → any (λ k. eq_ignore_case k key) (keys m) ≡ false
unfolding find_key
find_key-any key m e = any-of-find-none (λ k. eq_ignore_case k key) (keys m) e

module _ {F : Type 0} (def : ModelDef F) where
  resolve_context_key-get :
      (context_key k : Text)
      → resolve_context_key def context_key ≡ ok k
      → (v : ℤ) × (get k def.contexts ≡ some v)
  unfolding resolve_context_key
  resolve_context_key-get context_key k h =
      let key = canonical_context context_key in
      elim (Option-cases (get key def.contexts)) [
        | inr (v, e) ↦ (v, ground arith)
        | inl e ↦ elim (Option-cases (find_key key def.contexts)) [
          | inr (existing, f) ↦
              let (v, g, _) = find_key-get key def.contexts existing f in (v, ground arith)
          | inl f ↦ resolve_alias-get def.contexts key k (ground arith)
        ]
      ]

  -- A context key that resolves has a value: a launch never meets a key without one.
  pub context_value-get :
      (context_key k : Text)
      → resolve_context_key def context_key ≡ ok k
      → (v : ℤ) × (get k def.contexts ≡ some v) × (context_value def context_key ≡ ok (some v))
  unfolding context_value
  context_value-get context_key k h =
      let (v, g) = resolve_context_key-get context_key k h in (v, g, rw (h, g))

  -- A key is refused only if no key of the model is spelled like it but for ASCII case, and the
  -- error names the key that was looked for.
  pub resolve_context_key_err :
      (context_key : Text) (e : CoreError) (k : Text) (v : ℤ)
      → resolve_context_key def context_key ≡ err e
      → get k def.contexts ≡ some v
      → (eq_ignore_case k (canonical_context context_key) ≡ false)
        × (e ≡ unknown_context (canonical_context context_key) (available_contexts def.contexts))
  unfolding resolve_context_key
  resolve_context_key_err context_key e k v h g =
      let key = canonical_context context_key in
      (find_key-none key def.contexts k v (ground arith) g, unfold resolve_alias in ground arith)

  -- A quant key resolves to a key of the model that is spelled like it but for ASCII case; it is
  -- refused, with the keys listed, only if the model has no such key.
  pub resolve_quant_key_lem :
      (quant : Text)
      → ((k : Text) × (entry : QuantEntry F) × (resolve_quant_key def quant ≡ ok k)
          × (get k def.quants ≡ some entry)
          × (eq_ignore_case k quant ≡ true))
        ⊎ ((resolve_quant_key def quant
              ≡ err (unknown_quant quant (join separator (keys def.quants))))
            × (any (λ k. eq_ignore_case k quant) (keys def.quants) ≡ false))
  unfolding resolve_quant_key
  resolve_quant_key_lem quant = elim (Option-cases (find_key quant def.quants)) [
    | inl e ↦ inr (rw (e, resolve_quant_key), find_key-any quant def.quants e)
    | inr (k, e) ↦
        let (entry, g, same) = find_key-get quant def.quants k e in
        inl (k, entry, rw (e, resolve_quant_key), g, same)
  ]
