-- ===== src/Tests/RuntimeTests.antt =====
-- The theorems about health.rs, server.rs, download.rs and proxy.rs at concrete inputs.
use localx_llama.Prelude.{
  Result, ◌++◌, ltb→lt, ℕ, ◌%◌, true, false, none, some, List, [], ◌∷◌, ◌≡◌, ◌⊎◌, refl, any, ok,
  err, if◌then◌else◌,
}
use localx_llama.Proxy.{FilterOps, sse_think_stream}
use localx_llama.Proxy.Laws.{sse_think_stream_lem, good, failure, shown}
use localx_llama.Text.{concat, strip_prefix, split_once, Text, codes, lower, trim, ◌=ᵗ◌}
use localx_llama.Download.{
  is_x64_asset, select_by_token, insert_desc, without, sort_desc, sha256_hex, check_download_pin,
  verified, sha_mismatch, x64, select_cpu_asset, asset_arch_matches, has_token, is_arm64_asset,
  cuda_major_order,
}
use localx_llama.Health.{Target, plan_proxy_lifecycle, refuse_foreign_listener, start}
use localx_llama.Health.Laws.{only_verified_ended, ends_process, refuses}
use localx_llama.Download.Pins.{check_download_pin-pinned}

abbrev here : Target
here = (codes "127.0.0.1", 8080)

only_verified_ended_example :
    ((false ≡ true) × (refuses (plan_proxy_lifecycle true false true none here) ≡ false))
    ⊎ ((false ≡ false)
        × (ends_process (plan_proxy_lifecycle true false true none here) ≡ false)
        × (plan_proxy_lifecycle true false true none here
            ≡ (if true then refuse_foreign_listener else start)))
only_verified_ended_example = only_verified_ended true false true none here

-- A digest of two bytes.
abbrev toy_digest : List ℕ → List ℕ
toy_digest [] = 0xab ∷ (0x01 ∷ [])
toy_digest (b ∷ bs) = (b % 256) ∷ (0xff ∷ [])

check_download_pin-pinned_example :
    (((sha256_hex toy_digest [] =ᵗ lower (trim (codes " AB01 "))) ≡ true)
      × (check_download_pin toy_digest [] (some (codes " AB01 ")) true ≡ ok verified))
    ⊎ (((sha256_hex toy_digest [] =ᵗ lower (trim (codes " AB01 "))) ≡ false)
        × (check_download_pin toy_digest [] (some (codes " AB01 ")) true
            ≡ err (sha_mismatch (lower (trim (codes " AB01 "))) (sha256_hex toy_digest []))))
check_download_pin-pinned_example =
    check_download_pin-pinned toy_digest [] (ltb→lt 0xab 256 refl, (ltb→lt 1 256 refl, tt))
      (codes " AB01 ") true

abbrev assets : List Text
assets =
    codes "llama-cpu-x64.zip" ∷ (codes "llama-avx2-arm64.zip" ∷ (codes "llama-AVX2-x64.zip" ∷ []))

assets_run : select_cpu_asset assets x64 ≡ some (codes "llama-AVX2-x64.zip")
unfolding select_cpu_asset select_by_token has_token split_once strip_prefix asset_arch_matches
    is_x64_asset is_arm64_asset
assets_run = refl

avx2_listed : any (has_token (codes "-avx2-") x64) (codes "llama-AVX2-x64.zip" ∷ []) ≡ true
unfolding has_token split_once strip_prefix asset_arch_matches is_x64_asset is_arm64_asset
avx2_listed = refl

cuda_runs : cuda_major_order 12 (11 ∷ (13 ∷ (12 ∷ []))) ≡ 12 ∷ (13 ∷ (11 ∷ []))
unfolding cuda_major_order sort_desc without insert_desc
cuda_runs = refl

-- A filter that holds each chunk back until the next.
abbrev delay : FilterOps Text
delay = record { fresh = []; feed = λ chunk s. (s, chunk); flush = λ s. (s, []) }

-- An upstream that fails behind its second chunk, and would go on.
abbrev broken : List (Result ℕ Text)
broken = ok (codes "ab") ∷ (ok (codes "c") ∷ (err 7 ∷ (ok (codes "d") ∷ [])))

sse_think_stream_runs :
    sse_think_stream delay broken
    ≡ some (ok [] ∷ (ok (codes "ab") ∷ (ok (codes "c") ∷ (err 7 ∷ []))))
unfolding sse_think_stream
sse_think_stream_runs = refl

sse_think_stream_lem_example :
    (texts : List Text) × (sse_think_stream delay broken ≡ some (good texts ++ failure broken))
    × (concat texts ≡ shown delay broken [])
sse_think_stream_lem_example = sse_think_stream_lem delay broken
