-- ===== src/Capabilities.antt =====
-- What a server build accepts: crates/localx-llama-core/src/capabilities.rs. `LoadFlags` stands
-- with the launch parameters.
pub mod Laws
use localx_llama.Text.Lines.{lines, onto_first}
use localx_llama.Prelude.{
  ℕ, Bool, true, false, ◌||◌, ◌&&◌, not, List, [], ◌∷◌, ltb, ◌==◌, if◌then◌else◌, any,
}
use localx_llama.Text.{
  Text, codes, byte_len, contains_text, is_empty, is_whitespace, starts_with, strip_prefix, ◌=ᵗ◌,
}
use localx_llama.Args.Params.{LoadFlags, legacy, load_mode}

pub record ServerCapabilities : Type 0 where
  pub load_mode_listed : Bool
  pub fit : Bool
  pub lazy_mode : Bool

-- `|c| c == ',' || c.is_whitespace()`
unfoldable pub separates : ℕ → Bool
unfolding is_whitespace
separates c = (c == 44) || is_whitespace c

-- `str::split`: one piece more than there are separators.
unfoldable pub split_tokens : Text → List Text
unfolding separates onto_first
split_tokens [] = [] ∷ []
split_tokens (c ∷ s) =
    let rest = split_tokens s in if separates c then [] ∷ rest else onto_first c rest

-- `token.len() > 1 && token.starts_with('-')`
unfoldable pub is_option : Text → Bool
unfolding byte_len strip_prefix
is_option token = ltb 1 (byte_len token) && starts_with (codes "-") token

-- `filter(|token| !token.is_empty())` and then `take_while`
unfoldable pub leading_options : List Text → List Text
unfolding is_option
leading_options [] = []
leading_options (t ∷ tokens) =
    let rest = leading_options tokens in
    if is_empty t then rest else if is_option t then t ∷ rest else []

unfoldable pub entry_options : Text → List Text
unfolding split_tokens leading_options
entry_options line = leading_options (split_tokens line)

unfoldable pub lists_option : Text → Text → Bool
unfolding lines ◌=ᵗ◌
lists_option help option = any (λ line. contains_text (entry_options line) option) (lines help)

-- `ServerCapabilities::from_help`
unfoldable pub from_help : Text → ServerCapabilities
from_help help = record {
  load_mode_listed = lists_option help (codes "--load-mode");
  fit = lists_option help (codes "--fit");
  lazy_mode = lists_option help (codes "--lazy-mode");
}

-- `ServerCapabilities::load_flags`
unfoldable pub load_flags : ServerCapabilities → LoadFlags
load_flags caps = if caps.load_mode_listed then load_mode else legacy
