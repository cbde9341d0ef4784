-- ===== src/Config.antt =====
-- The layered configuration, crates/localx-llama-core/src/config.rs. `V` is `serde_json::Value`, which
-- these functions only copy.
pub mod Precedence
use localx_llama.Prelude.{
  ℕ, Bool, Option, none, some, List, [], ◌∷◌, if◌then◌else◌, Result, ok, err,
}
use localx_llama.Text.{Text, codes, ◌=ᵗ◌, contains_text}
use localx_llama.Error.{CoreError, catalog_only}
use localx_llama.Maps.{Map, get, insert, insert_all}

abbrev pub catalog_only_keys : List Text
catalog_only_keys = codes "Models" ∷ codes "CommandAliases" ∷ []

unfoldable pub is_catalog_only : Text → Bool
unfolding ◌=ᵗ◌
is_catalog_only key = contains_text catalog_only_keys key

module _ {ℓ} {V : Type ℓ} where
  -- `for locked in CATALOG_ONLY_KEYS { if let Some(v) = catalog.get(*locked) { … } }`
  unfoldable pub insert_locked : List Text → Map V → Map V → Map V
  insert_locked [] catalog cfg = cfg
  insert_locked (locked ∷ more) catalog cfg =
      insert_locked more catalog
        (elim (get locked catalog) [ none ↦ cfg | some v ↦ insert locked v cfg ])

  -- `for (k, v) in settings { if is_catalog_only(k) { continue; } … }`
  unfoldable pub insert_settings : Map V → Map V → Map V
  insert_settings [] cfg = cfg
  insert_settings ((k, v) ∷ settings) cfg =
      insert_settings settings (if is_catalog_only k then cfg else insert k v cfg)

  unfoldable pub assemble_config : Map V → Map V → Map V → Map V → Map V
  assemble_config defaults legacy_scalars catalog settings =
      let with_legacy = insert_all legacy_scalars defaults in
      let with_catalog = insert_locked catalog_only_keys catalog with_legacy in
      insert_settings settings with_catalog

  -- The settings after the call.
  unfoldable pub set_setting : Map V → Text → V → Result CoreError (Map V)
  set_setting settings key value =
      if is_catalog_only key then err (catalog_only key) else ok (insert key value settings)
