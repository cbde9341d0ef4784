-- ===== src/Download/Assets.antt =====
-- Which asset of a release is selected.
use localx_llama.Prelude.{
  ◌∙◌, Bool, true, false, ◌≡◌, ◌⊎◌, inl, inr, refl, List, [], ◌∷◌, arith, some, none, Bool-cases,
  any, find,
}
use localx_llama.Download.{
  AssetArch, arm64, asset_arch_matches, broadly_cpu, cpu_tokens, has_token, is_arm64_asset,
  is_x64_asset, select_by_token, select_cpu_asset, x64,
}
use localx_llama.Text.{Text, codes, contains_text}
use localx_llama.Text.Case.{=ᵗ_refl}

find_lem :
    (p : Text → Bool) (names : List Text)
    → ((find p names ≡ none) × (any p names ≡ false))
      ⊎ ((name : Text) × (find p names ≡ some name)
          × (p name ≡ true)
          × (contains_text names name ≡ true))
find_lem p [] = inl (refl, refl)
find_lem p (n ∷ names) = elim (Bool-cases (p n)) [
  | inl hit ↦ inr (n, rw (hit, find) refl, hit, rw (=ᵗ_refl n) refl)
  | inr miss ↦ elim (find_lem p names) [
    | inl (e, f) ↦ inl (rw (miss, find) e, rw miss f)
    | inr (name, e, f, g) ↦ inr (name, rw (miss, find) e, f, ground arith)
  ]
]

matches-of-token :
    (token : Text) (arch : AssetArch) (name : Text)
    → has_token token arch name ≡ true
    → asset_arch_matches name arch ≡ true
unfolding has_token
matches-of-token token arch name h = ground arith

matches-of-broad :
    (arch : AssetArch) (name : Text)
    → broadly_cpu arch name ≡ true
    → asset_arch_matches name arch ≡ true
unfolding broadly_cpu
matches-of-broad arch name h = ground arith

by_token :
    (tokens names : List Text) (arch : AssetArch)
    → ((select_by_token tokens names arch ≡ none)
        × (any (λ token. any (has_token token arch) names) tokens ≡ false))
      ⊎ ((name : Text) × (select_by_token tokens names arch ≡ some name)
          × (asset_arch_matches name arch ≡ true)
          × (contains_text names name ≡ true))
unfolding select_by_token
by_token [] names arch = inl (refl, refl)
by_token (token ∷ tokens) names arch = elim (find_lem (has_token token arch) names) [
  | inr (name, e, f, g) ↦ inr (name, rw e refl, matches-of-token token arch name f, g)
  | inl (e, f) ↦ elim (by_token tokens names arch) [
    | inl (h, i) ↦ inl (rw e h, rw f i)
    | inr (name, h, i, j) ↦ inr (name, rw e h, i, j)
  ]
]

-- The selected asset is one of the names and eligible for the architecture; if none is selected,
-- then no name is eligible and carries one of the tokens, or `cpu` or `avx2` at all.
pub select_cpu_asset_lem :
    (names : List Text) (arch : AssetArch)
    → ((name : Text) × (select_cpu_asset names arch ≡ some name)
        × (asset_arch_matches name arch ≡ true)
        × (contains_text names name ≡ true))
      ⊎ ((select_cpu_asset names arch ≡ none)
          × (any (λ token. any (has_token token arch) names) cpu_tokens ≡ false)
          × (any (broadly_cpu arch) names ≡ false))
unfolding select_cpu_asset
select_cpu_asset_lem names arch = elim (by_token cpu_tokens names arch) [
  | inr (name, h, i, j) ↦ inl (name, rw h refl, i, j)
  | inl (h, i) ↦ elim (find_lem (broadly_cpu arch) names) [
    | inl (e, f) ↦ inr (rw h e, i, f)
    | inr (name, e, f, g) ↦ inl (name, rw h e, matches-of-broad arch name f, g)
  ]
]

-- Whatever the order of the names, an eligible AVX2 build is preferred to all others.
pub select_cpu_asset-avx2 :
    (names : List Text) (arch : AssetArch)
    → any (has_token (codes "-avx2-") arch) names ≡ true
    → (name : Text) × (select_cpu_asset names arch ≡ some name)
      × (has_token (codes "-avx2-") arch name ≡ true)
unfolding select_cpu_asset select_by_token
select_cpu_asset-avx2 names arch h = elim (find_lem (has_token (codes "-avx2-") arch) names) [
  | inl (e, f) ↦ absurd (cc f)
  | inr (name, e, f, g) ↦ (name, rw e refl, f)
]

arch_lem :
    (name : Text) (arch : AssetArch)
    → asset_arch_matches name arch ≡ true
    → ((arch ≡ x64) × (is_arm64_asset name ≡ false))
      ⊎ ((arch ≡ arm64) × (is_arm64_asset name ≡ true))
unfolding asset_arch_matches is_x64_asset
arch_lem name x64 h = inl (refl, ground arith)
arch_lem name arm64 h = inr (refl, h)

-- On an x64 host no asset of the ARM kind is selected, and on an ARM host no other.
pub select_cpu_asset-arch :
    (names : List Text) (arch : AssetArch) (name : Text)
    → select_cpu_asset names arch ≡ some name
    → ((arch ≡ x64) × (is_arm64_asset name ≡ false))
      ⊎ ((arch ≡ arm64) × (is_arm64_asset name ≡ true))
select_cpu_asset-arch names arch name h = elim (select_cpu_asset_lem names arch) [
  | inl (n, e, f, g) ↦ let same : n ≡ name = cc in arch_lem name arch (rw same at f)
  | inr (e, f, g) ↦ absurd (cc (e ∙ refl))
]
