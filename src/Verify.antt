-- ===== src/Verify.antt =====
-- crates/localx-eval-core/src/verify.rs: which command verifies a workspace. The file system, as
-- the tests and the listing of the root, and the platform are parameters.
pub mod Laws
use localx_llama.Prelude.{
  Bool, true, false, ◌&&◌, ◌||◌, Option, none, some, List, [], ◌∷◌, if◌then◌else◌, any, or_else,
}
use localx_llama.Text.{Text, codes, lower, starts_with, ◌=ᵗ◌}
use localx_llama.Maps.{text_ltb}
use localx_llama.Check.{CheckCommand, from_command_line}

-- `s.ends_with(suffix)`
abbrev pub ends_with : Text → Text → Bool
ends_with suffix [] = suffix =ᵗ []
ends_with suffix (c ∷ s) = (c ∷ s) =ᵗ suffix || ends_with suffix s

-- `sort`
unfoldable pub insert_text : Text → List Text → List Text
unfolding text_ltb
insert_text t [] = t ∷ []
insert_text t (u ∷ us) =
    let later = insert_text t us in if text_ltb u t then u ∷ later else t ∷ (u ∷ us)

unfoldable pub sort_texts : List Text → List Text
unfolding insert_text
sort_texts [] = []
sort_texts (t ∷ ts) = insert_text t (sort_texts ts)

unfoldable pub is_cpp_name : Text → Bool
unfolding lower ◌=ᵗ◌
is_cpp_name name =
    ends_with (codes ".cpp") (lower name)
    || ends_with (codes ".cc") (lower name)
    || ends_with (codes ".cxx") (lower name)

unfoldable pub cpp_names : List Text → List Text
unfolding is_cpp_name
cpp_names [] = []
cpp_names (name ∷ names) = if is_cpp_name name then name ∷ cpp_names names else cpp_names names

-- `cpp_sources` of the names in a listing
unfoldable pub cpp_sources : Option (List Text) → Option (List Text)
unfolding cpp_names sort_texts
cpp_sources none = none
cpp_sources (some names) = elim (cpp_names names) [
  | [] ↦ none
  | n ∷ ns ↦ some (sort_texts (n ∷ ns))
]

abbrev pub python_markers : List Text
python_markers =
    codes "pyproject.toml"
    ∷ (codes "setup.py"
        ∷ (codes "setup.cfg"
            ∷ (codes "requirements.txt"
                ∷ (codes "tox.ini" ∷ (codes "pytest.ini" ∷ (codes "conftest.py" ∷ []))))))

unfoldable pub is_python_test : Text → Bool
unfolding ◌=ᵗ◌
is_python_test name =
    ends_with (codes ".py") name
    && (starts_with (codes "test_") name || ends_with (codes "_test.py") name)

abbrev command : Text → List Text → CheckCommand
command program args = record { program = program; args = args }

-- `has_file` and the names of the root's entries that are texts, if it can be read; a Windows
-- build or not.
module _ (has_file : Text → Bool) (entries : Option (List Text)) (windows : Bool) where
  unfoldable pub is_python : Bool
  unfolding is_python_test
  is_python =
      if any has_file python_markers
      then true
      else elim entries [ none ↦ false | some names ↦ any is_python_test names ]

  abbrev pub npm : Text
  npm = if windows then codes "npm.cmd" else codes "npm"

  abbrev pub maven : Text
  maven = if windows then codes "mvn.cmd" else codes "mvn"

  abbrev pub gradle : Text
  gradle = if windows then codes "gradle.bat" else codes "gradle"

  abbrev pub python : Text
  python = if windows then codes "python" else codes "python3"

  unfoldable pub detect_verify_command : Option CheckCommand
  unfolding is_python cpp_sources
  detect_verify_command =
      if has_file (codes "Cargo.toml")
      then some (command (codes "cargo") (codes "test" ∷ []))
      else if has_file (codes "go.mod")
      then some (command (codes "go") (codes "test" ∷ (codes "./..." ∷ [])))
      else if has_file (codes "pom.xml")
      then some (command maven (codes "-q" ∷ (codes "test" ∷ [])))
      else if has_file (codes "build.gradle") || has_file (codes "build.gradle.kts")
      then some (command gradle (codes "test" ∷ (codes "--console=plain" ∷ [])))
      else if has_file (codes "package.json")
      then some (command npm (codes "test" ∷ []))
      else if is_python
      then some (command python (codes "-m" ∷ (codes "pytest" ∷ (codes "-q" ∷ []))))
      else if has_file (codes "Makefile") || has_file (codes "makefile")
      then some (command (codes "make") [])
      else elim (cpp_sources entries) [
        | none ↦ none
        | some sources ↦ some (
            command (codes "g++")
              (codes "-std=c++17" ∷ (codes "-I." ∷ (codes "-fsyntax-only" ∷ sources))))
      ]

  unfoldable pub resolve_verify_command : Option Text → Option CheckCommand
  unfolding detect_verify_command from_command_line
  resolve_verify_command none = detect_verify_command
  resolve_verify_command (some line) = elim (from_command_line line) [
    | some check ↦ some check
    | none ↦ detect_verify_command
  ]
