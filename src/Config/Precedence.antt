-- ===== src/Config/Precedence.antt =====
-- Which layer a configuration value comes from.
use localx_llama.Prelude.{
  refl, List, true, false, ◌≡◌, ◌⊎◌, ◌∙◌, none, some, [], ◌∷◌, arith, if◌then◌else◌, or_else,
  Bool-cases, Option-cases, inl, inr, ok, err,
}
use localx_llama.Text.{contains_text, Text, ◌=ᵗ◌}
use localx_llama.Text.Case.{=ᵗ_iff}
use localx_llama.Error.{catalog_only}
use localx_llama.Maps.{Map, get, insert, insert_all, Distinct, get-insert, get-insert_all}
use localx_llama.Maps.Order.{IsSorted, insert-IsSorted, IsSorted-Distinct}
use localx_llama.Config.{
  catalog_only_keys, is_catalog_only, insert_locked, insert_settings, assemble_config, set_setting,
}

module _ {V : Type 0} where
  -- one locked key
  get-insert-some :
      (k locked : Text) (catalog cfg : Map V)
      → get k (elim (get locked catalog) [ none ↦ cfg | some v ↦ insert locked v cfg ])
        ≡ (if locked =ᵗ k then or_else (get k catalog) (get k cfg) else get k cfg)
  get-insert-some k locked catalog cfg = elim (Option-cases (get locked catalog)) [
    | inl e ↦ rw e (ground (arith, =ᵗ_iff locked k, e))
    | inr (v, e) ↦ rw e (ground (arith, =ᵗ_iff locked k, get-insert locked k v cfg, e))
  ]

  get-insert_settings :
      (settings cfg : Map V) (k : Text)
      → Distinct settings
      → get k (insert_settings settings cfg)
        ≡ (if is_catalog_only k then get k cfg else or_else (get k settings) (get k cfg))
  unfolding insert_settings get
  get-insert_settings [] cfg k d = ground arith
  get-insert_settings ((j, v) ∷ settings) cfg k d =
      get-insert_settings settings (if is_catalog_only j then cfg else insert j v cfg) k d.1
      ∙ elim (Bool-cases (j =ᵗ k)) [
        | inl same ↦
            let e : j ≡ k = (=ᵗ_iff j k).0 same in
            ground (arith, rw e at (d.0), get-insert j k v cfg, e)
        | inr other ↦ ground (arith, get-insert j k v cfg)
      ]

  get-insert_locked :
      (locked : List Text) (catalog cfg : Map V) (k : Text)
      → get k (insert_locked locked catalog cfg)
        ≡ (if contains_text locked k then or_else (get k catalog) (get k cfg) else get k cfg)
  unfolding insert_locked
  get-insert_locked [] catalog cfg k = refl
  get-insert_locked (j ∷ locked) catalog cfg k =
      let with_one : Map V = elim (get j catalog) [ none ↦ cfg | some v ↦ insert j v cfg ] in
      get-insert_locked locked catalog with_one k ∙ ground (arith, get-insert-some k j catalog cfg)

  -- Where the entries of the legacy scalars and of the settings are in the order of their keys: a
  -- key that the catalog owns comes from the catalog, and every other key from the settings; where
  -- that layer does not have it, from the legacy scalars, and then from the defaults.
  pub get-assemble_config :
      (defaults legacy_scalars catalog settings : Map V) (k : Text)
      → IsSorted legacy_scalars
      → IsSorted settings
      → get k (assemble_config defaults legacy_scalars catalog settings) ≡ (
          if is_catalog_only k
          then or_else (get k catalog) (or_else (get k legacy_scalars) (get k defaults))
          else or_else (get k settings) (or_else (get k legacy_scalars) (get k defaults)))
  unfolding assemble_config
  get-assemble_config defaults legacy_scalars catalog settings k l s =
      let base : Map V = insert_all legacy_scalars defaults in
      let locked : (get k (insert_locked catalog_only_keys catalog base))
          ≡ (if is_catalog_only k then or_else (get k catalog) (get k base) else get k base) =
        unfold is_catalog_only in get-insert_locked catalog_only_keys catalog base k in
      get-insert_settings settings (insert_locked catalog_only_keys catalog base) k
        (IsSorted-Distinct settings s)
      ∙ ground (
        arith,
        locked,
        get-insert_all legacy_scalars defaults k (IsSorted-Distinct legacy_scalars l),
      )

  -- Where the entries of the legacy scalars and of the settings are in the order of their keys: a
  -- setting whose key the catalog owns is refused. Any other is accepted, the settings keep their
  -- order, and it is the value of its key in the assembled configuration, no other key changed.
  pub set_setting-assemble_config :
      (defaults legacy_scalars catalog settings : Map V) (key : Text) (value : V)
      → IsSorted legacy_scalars
      → IsSorted settings
      → ((is_catalog_only key ≡ true) × (set_setting settings key value ≡ err (catalog_only key)))
        ⊎ ((is_catalog_only key ≡ false)
            × (settings' : Map V) × (set_setting settings key value ≡ ok settings')
            × IsSorted settings'
            × ((k : Text)
                → get k (assemble_config defaults legacy_scalars catalog settings') ≡ (
                    if key =ᵗ k
                    then some value
                    else get k (assemble_config defaults legacy_scalars catalog settings))))
  unfolding set_setting
  set_setting-assemble_config defaults legacy_scalars catalog settings key value l s =
      elim (Bool-cases (is_catalog_only key)) [
        | inl h ↦ inl (h, rw h)
        | inr h ↦ inr (
          h,
          insert key value settings,
          rw h,
          insert-IsSorted key value settings s,
          λ k. ground (
            arith,
            get-assemble_config defaults legacy_scalars catalog (insert key value settings) k l
                (insert-IsSorted key value settings s),
            get-assemble_config defaults legacy_scalars catalog settings k l s,
            get-insert key k value settings,
            =ᵗ_iff key k,
          ),
        )
      ]
