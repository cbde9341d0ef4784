-- ===== src/Download.antt =====
-- Pins, release assets and build stamps: crates/localx-llama-runtime/src/download.rs, and
-- `RuntimeError` of error.rs. The digest of `sha2` is a parameter.
pub mod Pins
pub mod Assets
pub mod Cuda
use localx_llama.Prelude.{
  ◌/◌, ◌%◌, ℕ, zero, suc, ◌+◌, Bool, true, false, not, ◌||◌, ◌&&◌, Option, none, some, List, [],
  ◌∷◌, ◌++◌, ltb, leb, ◌==◌, if◌then◌else◌, find, any, or_else, Result, ok, err, ◌>>=◌,
}
use localx_llama.Text.{Text, codes, contains, eq_ignore_case, lower, trim, ◌=ᵗ◌}

pub data RuntimeError : Type 0 where
  -- expected, got
  sha_mismatch : Text → Text → RuntimeError
  pin_required : Text → RuntimeError
  no_server_binary : RuntimeError

-- A hexadecimal digit in lower case, and a byte as `{b:02x}` prints it.
unfoldable pub hex_digit : ℕ → ℕ
hex_digit n = if ltb n 10 then 48 + n else 87 + n

unfoldable pub byte_hex : ℕ → Text
byte_hex b = hex_digit (b / 16) ∷ (hex_digit (b % 16) ∷ [])

unfoldable pub bytes_hex : List ℕ → Text
bytes_hex [] = []
bytes_hex (b ∷ bytes) = byte_hex b ++ bytes_hex bytes

pub data PinOutcome : Type 0 where
  verified : PinOutcome
  -- computed
  unpinned : Text → PinOutcome

module _ (digest : List ℕ → List ℕ) where
  unfoldable pub sha256_hex : List ℕ → Text
  sha256_hex data_bytes = bytes_hex (digest data_bytes)

  unfoldable pub verify_sha256 : List ℕ → Text → Result RuntimeError (Unit {0})
  unfolding lower trim ◌=ᵗ◌
  verify_sha256 data_bytes expected_hex =
      let got : Text = sha256_hex data_bytes in
      if eq_ignore_case got (trim expected_hex)
      then ok tt
      else err (sha_mismatch (lower (trim expected_hex)) got)

  unfoldable pub check_download_pin : List ℕ → Option Text → Bool → Result RuntimeError PinOutcome
  check_download_pin data_bytes (some p) require_pins =
      verify_sha256 data_bytes p >>= λ _. ok verified
  check_download_pin data_bytes none require_pins =
      let computed : Text = sha256_hex data_bytes in
      if require_pins then err (pin_required computed) else ok (unpinned computed)

unfoldable pub is_arm64_asset : Text → Bool
unfolding lower
is_arm64_asset name =
    contains (codes "arm64") (lower name) || contains (codes "aarch64") (lower name)

unfoldable pub is_x64_asset : Text → Bool
unfolding lower
is_x64_asset name =
    (contains (codes "x64") (lower name)
      || contains (codes "x86_64") (lower name)
      || contains (codes "win64") (lower name))
    && not (is_arm64_asset name)

pub data AssetArch : Type 0 where
  x64 arm64 : AssetArch

unfoldable pub asset_arch_matches : Text → AssetArch → Bool
asset_arch_matches name x64 = is_x64_asset name || not (is_arm64_asset name)
asset_arch_matches name arm64 = is_arm64_asset name

-- The tokens of `select_cpu_asset`, the broad build first.
abbrev pub cpu_tokens : List Text
cpu_tokens =
    codes "-avx2-" ∷ (codes "-avx512-" ∷ (codes "-avx-" ∷ (codes "-noavx-" ∷ (codes "-cpu-" ∷ []))))

-- An eligible name with the token.
unfoldable pub has_token : Text → AssetArch → Text → Bool
unfolding lower
has_token token arch name = contains token (lower name) && asset_arch_matches name arch

-- The loop over the tokens.
unfoldable pub select_by_token : List Text → List Text → AssetArch → Option Text
select_by_token [] names arch = none
select_by_token (token ∷ tokens) names arch =
    or_else (find (has_token token arch) names) (select_by_token tokens names arch)

unfoldable pub broadly_cpu : AssetArch → Text → Bool
unfolding lower
broadly_cpu arch name =
    (contains (codes "cpu") (lower name) || contains (codes "avx2") (lower name))
    && asset_arch_matches name arch

unfoldable pub select_cpu_asset : List Text → AssetArch → Option Text
select_cpu_asset names arch =
    or_else (select_by_token cpu_tokens names arch) (find (broadly_cpu arch) names)

-- `sort_unstable_by(|a, b| b.cmp(a))`: equal numbers are the same, so stability does not matter.
unfoldable pub insert_desc : ℕ → List ℕ → List ℕ
insert_desc m [] = m ∷ []
insert_desc m (n ∷ ns) = let later = insert_desc m ns in if leb n m then m ∷ (n ∷ ns) else n ∷ later

unfoldable pub sort_desc : List ℕ → List ℕ
sort_desc [] = []
sort_desc (m ∷ ms) = insert_desc m (sort_desc ms)

-- `filter(|m| *m != driver_major)`
unfoldable pub without : ℕ → List ℕ → List ℕ
without driver_major [] = []
without driver_major (m ∷ ms) =
    let rest = without driver_major ms in if m == driver_major then rest else m ∷ rest

unfoldable pub cuda_major_order : ℕ → List ℕ → List ℕ
cuda_major_order driver_major available =
    let rest = sort_desc (without driver_major available) in
    if any (λ m. m == driver_major) available then driver_major ∷ rest else rest

unfoldable pub build_stamp_is_stale : Text → Text → Bool
unfolding trim ◌=ᵗ◌
build_stamp_is_stale stamp resolved_tag = not (trim stamp =ᵗ trim resolved_tag)
