-- ===== src/Tests/ConfigTests.antt =====
-- The theorems about config.rs at concrete inputs.
use localx_llama.Maps.{insert_all, insert, Map, get, text_ltb}
use localx_llama.Config.{
  insert_locked, insert_settings, assemble_config, set_setting, is_catalog_only,
}
use localx_llama.Prelude.{
  ◌⊎◌, ℕ, true, false, some, [], ◌∷◌, ◌≡◌, refl, if◌then◌else◌, or_else, ok, err,
}
use localx_llama.Text.{Text, codes, ◌=ᵗ◌}
use localx_llama.Maps.Order.{IsSorted}
use localx_llama.Error.{catalog_only}
use localx_llama.Config.Precedence.{get-assemble_config, set_setting-assemble_config}

abbrev defaults : Map ℕ
defaults = (codes "A", 1) ∷ (codes "Models", 2) ∷ []

abbrev legacy_scalars : Map ℕ
legacy_scalars = (codes "A", 3) ∷ []

abbrev catalog : Map ℕ
catalog = (codes "Models", 4) ∷ []

abbrev settings : Map ℕ
settings = (codes "A", 5) ∷ (codes "Models", 6) ∷ []

assemble_config_runs :
    (get (codes "A") (assemble_config defaults legacy_scalars catalog settings) ≡ some 5)
    × (get (codes "Models") (assemble_config defaults legacy_scalars catalog settings) ≡ some 4)
unfolding assemble_config get insert_settings is_catalog_only insert insert_locked insert_all
assemble_config_runs = (refl, refl)

legacy-IsSorted : IsSorted legacy_scalars
legacy-IsSorted = (tt, tt)

settings_order : text_ltb (codes "A") (codes "Models") ≡ true
unfolding text_ltb
settings_order = refl

settings-IsSorted : IsSorted settings
settings-IsSorted = ((settings_order, tt), (tt, tt))

get-assemble_config_example :
    get (codes "A") (assemble_config defaults legacy_scalars catalog settings) ≡ (
      if is_catalog_only (codes "A")
      then or_else
          (get (codes "A") catalog)
          (or_else (get (codes "A") legacy_scalars) (get (codes "A") defaults))
      else or_else
          (get (codes "A") settings)
          (or_else (get (codes "A") legacy_scalars) (get (codes "A") defaults)))
get-assemble_config_example =
    get-assemble_config defaults legacy_scalars catalog settings (codes "A") legacy-IsSorted
      settings-IsSorted

set_setting-assemble_config_example :
    ((is_catalog_only (codes "B") ≡ true)
      × (set_setting settings (codes "B") 7 ≡ err (catalog_only (codes "B"))))
    ⊎ ((is_catalog_only (codes "B") ≡ false)
        × (settings' : Map ℕ) × (set_setting settings (codes "B") 7 ≡ ok settings')
        × IsSorted settings'
        × ((k : Text)
            → get k (assemble_config defaults legacy_scalars catalog settings') ≡ (
                if codes "B" =ᵗ k
                then some 7
                else get k (assemble_config defaults legacy_scalars catalog settings))))
set_setting-assemble_config_example =
    set_setting-assemble_config defaults legacy_scalars catalog settings (codes "B") 7
      legacy-IsSorted settings-IsSorted
