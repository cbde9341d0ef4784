-- ===== src/Launcher.antt =====
-- The version gate of the launcher contract: crates/localx-llama-core/src/launcher.rs.
pub mod Laws
use localx_llama.Prelude.{
  ℕ, Bool, true, false, not, ◌&&◌, List, ◌++◌, ltb, if◌then◌else◌, Result, ok, err,
}
use localx_llama.Text.{Text, codes, contains_text, decimal, is_empty, join}
use localx_llama.Model.{separator}

pub record LauncherVersion : Type 0 where
  pub version : Text
  pub api_version : ℕ
  pub launcher_export_version : ℕ
  pub supported_targets : List Text
  pub supported_runtimes : List Text

pub data LauncherError : Type 0 where
  incompatible : Text → LauncherError
  unknown_model : Text → LauncherError
  unavailable : Text → LauncherError

-- `!name.is_empty() && !supported.iter().any(|t| t == name)`
unfoldable pub undeclared : List Text → Text → Bool
undeclared supported name = not (is_empty name) && not (contains_text supported name)

unfoldable pub assert_compatible : LauncherVersion → Text → Text → Result LauncherError (Unit {0})
unfolding undeclared decimal join
assert_compatible version target runtime =
    if ltb version.api_version 1
    then err (
        incompatible
          (codes "API version " ++ (decimal version.api_version ++ codes " is below required 1")))
    else if ltb version.launcher_export_version 1
    then err (
        incompatible (
          codes "launcher export version "
          ++ (decimal version.launcher_export_version ++ codes " is below required 1")))
    else if undeclared version.supported_targets target
    then err (
        incompatible (
          codes "target '"
          ++ (target
              ++ (codes "' is not supported (supported: "
                  ++ (join separator version.supported_targets ++ codes ")")))))
    else if undeclared version.supported_runtimes runtime
    then err (
        incompatible (
          codes "runtime '"
          ++ (runtime
              ++ (codes "' is not supported (supported: "
                  ++ (join separator version.supported_runtimes ++ codes ")")))))
    else ok tt
