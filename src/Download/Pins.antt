-- ===== src/Download/Pins.antt =====
-- What a pin admits, and that the hash that a first download shows is a pin that admits it.
use localx_llama.Prelude.{
  ◌/◌, ◌%◌, ℕ, ◌<◌, Bool, true, false, ◌≡◌, ◌⊎◌, inl, inr, refl, ap, ◌∙◌, List, [], ◌∷◌, arith, All,
  some, none, ok, err, Bool-cases, if◌then◌else◌,
}
use localx_llama.Download.{
  byte_hex, bytes_hex, check_download_pin, hex_digit, pin_required, sha256_hex, sha_mismatch,
  unpinned, verified, verify_sha256,
}
use localx_llama.Text.{
  Text, is_whitespace, lower_char, lower, trim, trim_start, trim_end, trim_cons, ◌=ᵗ◌,
}
use localx_llama.Text.Case.{=ᵗ_refl}

-- A character that neither `trim` nor `to_ascii_lowercase` changes.
abbrev Stays : ℕ → Type 0
Stays c = (is_whitespace c ≡ false) × (lower_char c ≡ c)

trim_start-Stays : (s : Text) → All Stays s → trim_start s ≡ s
unfolding trim_start
trim_start-Stays [] h = refl
trim_start-Stays (c ∷ s) h = rw (h.0.0, trim_start)

trim_end-Stays : (s : Text) → All Stays s → trim_end s ≡ s
unfolding trim_end trim_cons
trim_end-Stays [] h = refl
trim_end-Stays (c ∷ []) h = rw h.0.0
trim_end-Stays (c ∷ (d ∷ s)) h = rw (trim_end-Stays (d ∷ s) h.1, trim_cons) refl

trim-Stays : (s : Text) → All Stays s → trim s ≡ s
unfolding trim
trim-Stays s h = ap trim_end (trim_start-Stays s h) ∙ trim_end-Stays s h

lower-Stays : (s : Text) → All Stays s → lower s ≡ s
unfolding lower
lower-Stays [] h = refl
lower-Stays (c ∷ s) h = cc (h.0.1, lower-Stays s h.1)

hex_digit-Stays : (n : ℕ) → n < 16 → Stays (hex_digit n)
unfolding hex_digit is_whitespace lower_char
hex_digit-Stays n lt = (ground arith, ground arith)

bytes_hex-Stays : (bytes : List ℕ) → All (λ b. b < 256) bytes → All Stays (bytes_hex bytes)
unfolding bytes_hex byte_hex
bytes_hex-Stays [] h = tt
bytes_hex-Stays (b ∷ bytes) h = (
  hex_digit-Stays (b / 16) (omega arith),
  (hex_digit-Stays (b % 16) (omega arith), bytes_hex-Stays bytes h.1),
)

-- The digest of the download, which is a list of bytes.
module _ (digest : List ℕ → List ℕ) (data_bytes : List ℕ)
    (bytes : All (λ b. b < 256) (digest data_bytes)) where
  hex-Stays : All Stays (sha256_hex digest data_bytes)
  unfolding sha256_hex
  hex-Stays = bytes_hex-Stays (digest data_bytes) bytes

  -- Where the digest is a list of bytes: a download with a pin is used exactly if the pin, trimmed
  -- and in lower case, is the hash of the bytes; otherwise the error names both. That pins are
  -- required makes no difference.
  pub check_download_pin-pinned :
      (p : Text) (require_pins : Bool)
      → (((sha256_hex digest data_bytes =ᵗ lower (trim p)) ≡ true)
          × (check_download_pin digest data_bytes (some p) require_pins ≡ ok verified))
        ⊎ (((sha256_hex digest data_bytes =ᵗ lower (trim p)) ≡ false)
            × (check_download_pin digest data_bytes (some p) require_pins
                ≡ err (sha_mismatch (lower (trim p)) (sha256_hex digest data_bytes))))
  unfolding check_download_pin verify_sha256
  check_download_pin-pinned p require_pins =
      let hex : Text = sha256_hex digest data_bytes in
      let low : lower hex ≡ hex = lower-Stays hex hex-Stays in
      elim (Bool-cases (hex =ᵗ lower (trim p))) [
        | inl same ↦ inl (same, rw (low, same) refl)
        | inr other ↦ inr (other, rw (low, other) refl)
      ]

  -- Where the digest is a list of bytes: without a pin, the hash is shown, in the error if pins are
  -- required, and with the download if not. As a pin, what is shown admits the same bytes.
  pub check_download_pin-first_use :
      (require_pins later : Bool)
      → (check_download_pin digest data_bytes none require_pins ≡ (
          if require_pins
          then err (pin_required (sha256_hex digest data_bytes))
          else ok (unpinned (sha256_hex digest data_bytes))))
        × (check_download_pin digest data_bytes (some (sha256_hex digest data_bytes)) later
            ≡ ok verified)
  unfolding check_download_pin verify_sha256
  check_download_pin-first_use require_pins later = (
    refl,
    rw
        (
          trim-Stays (sha256_hex digest data_bytes) hex-Stays,
          =ᵗ_refl (lower (sha256_hex digest data_bytes)),
        )
        refl,
  )
