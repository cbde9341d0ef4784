-- ===== src/Quant.antt =====
-- crates/localx-llama-core/src/quant.rs: the quants of a repository's listing.
pub mod Names
pub mod Sets
pub mod Select
pub mod Shards
pub mod Notes
use localx_llama.Text.Numbers.{is_digit}
use localx_llama.Prelude.{
  ℕ, ◌-◌, Bool, true, false, not, ◌&&◌, ◌||◌, Option, none, some, List, [], ◌∷◌, map, if◌then◌else◌,
  leb, ◌==◌, or_else, unwrap_or,
}
use localx_llama.Text.{Text, codes, lower, strip_prefix, join, concat, ◌=ᵗ◌}

pub record QuantFile : Type 0 where
  pub name : Text
  pub size : Option ℕ

pub record QuantCandidate : Type 0 where
  pub key : Text
  pub files : List Text
  pub total_size : Option ℕ

pub data QuantSelectError : Type 0 where
  none_available : QuantSelectError
  unknown : Text → Text → QuantSelectError

-- `chars().filter(p).collect()`
abbrev pub filter_chars : (ℕ → Bool) → Text → Text
filter_chars p [] = []
filter_chars p (c ∷ s) = if p c then c ∷ filter_chars p s else filter_chars p s

unfoldable pub compact : Text → Text
unfolding lower
compact token = filter_chars (λ c. not (c == b'_' || c == b'-')) (lower token)

-- `char::is_ascii_alphanumeric` of a character in lower case
unfoldable pub is_alphanumeric : ℕ → Bool
unfolding is_digit
is_alphanumeric c = is_digit c || leb b'a' c && leb c b'z' || leb b'A' c && leb c b'Z'

-- `char::to_ascii_uppercase`
unfoldable pub upper_char : ℕ → ℕ
upper_char c = if leb b'a' c && leb c b'z' then c - 32 else c

-- The name without the imatrix marker.
unfoldable pub unmarked : Text → Text
unmarked lowered =
    unwrap_or
      (or_else (strip_prefix (codes "i1-") lowered)
        (or_else (strip_prefix (codes "imat-") lowered) (strip_prefix (codes "imatrix-") lowered)))
      lowered

unfoldable pub comparable : Text → Text
unfolding unmarked is_alphanumeric upper_char lower
comparable code = map upper_char (filter_chars is_alphanumeric (unmarked (lower code)))

-- `segment.starts_with(|c| c.is_ascii_digit())`
abbrev pub starts_with_digit : Text → Bool
starts_with_digit [] = false
starts_with_digit (c ∷ s) = is_digit c

unfoldable pub is_quant_token : Text → Bool
unfolding lower ◌=ᵗ◌ strip_prefix is_digit
is_quant_token segment =
    let low = lower segment in
    if low =ᵗ codes "f16" || low =ᵗ codes "f32" || low =ᵗ codes "bf16"
    then true
    else elim (strip_prefix (codes "iq") low) [
      | some rest ↦ starts_with_digit rest
      | none ↦ elim (strip_prefix (codes "q") low) [
        | some rest ↦ starts_with_digit rest
        | none ↦ false
      ]
    ]
