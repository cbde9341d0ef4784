-- ===== src/Verify/Laws.antt =====
-- When a workspace can be verified.
use localx_llama.Check.{CheckCommand, from_command_line, split_whitespace, word_char}
use localx_llama.Prelude.{
  All, map, ap, ◌++◌, ℕ, refl, ◌∙◌, true, false, none, Bool-cases, ◌≡◌, Bool, ◌||◌, Option, some,
  List, [], ◌∷◌, arith, any, is_some, inl, inr,
}
use localx_llama.Verify.{
  sort_texts, detect_verify_command, resolve_verify_command, is_python, cpp_sources, cpp_names,
  is_cpp_name,
}
use localx_llama.Text.{Text, codes, is_whitespace}

-- The files that mark a stack other than Python and C++.
abbrev pub stack_markers : List Text
stack_markers =
    codes "Cargo.toml"
    ∷ (codes "go.mod"
        ∷ (codes "pom.xml"
            ∷ (codes "build.gradle"
                ∷ (codes "build.gradle.kts"
                    ∷ (codes "package.json" ∷ (codes "Makefile" ∷ (codes "makefile" ∷ [])))))))

abbrev holds_any : List Text → Bool
holds_any [] = false
holds_any (t ∷ ts) = true

cpp_names-any : (names : List Text) → holds_any (cpp_names names) ≡ any is_cpp_name names
unfolding cpp_names
cpp_names-any [] = refl
cpp_names-any (name ∷ names) = elim (Bool-cases (is_cpp_name name)) [
  | inl source ↦ rw source refl
  | inr other ↦ rw other (cpp_names-any names)
]

cpp_sources-any : (names : List Text) → is_some (cpp_sources (some names)) ≡ any is_cpp_name names
unfolding cpp_sources
cpp_sources-any names = sized (cpp_names names) ∙ cpp_names-any names
  where
    sized :
        (found : List Text)
        → is_some (elim found [ [] ↦ none | n ∷ ns ↦ some (sort_texts (n ∷ ns)) ]) ≡ holds_any found
    sized [] = refl
    sized (n ∷ ns) = refl

-- A word, with the white space behind it: neither is empty.
abbrev pub IsSpaced : Text × Text → Type 0
IsSpaced (c ∷ word, d ∷ gap) =
    All (λ x. is_whitespace x ≡ false) (c ∷ word) × All (λ x. is_whitespace x ≡ true) (d ∷ gap)
IsSpaced _ = ⊥

-- Words with white space behind each, and what follows the last white space.
abbrev pub written : List (Text × Text) → Text → Text
written [] last = last
written ((word, gap) ∷ words) last = word ++ (gap ++ written words last)

-- The last word, if there is one.
abbrev pub last_word : Text → List Text
last_word [] = []
last_word (c ∷ word) = (c ∷ word) ∷ []

split_whitespace-gap :
    (gap rest : Text)
    → All (λ c. is_whitespace c ≡ true) gap
    → split_whitespace (gap ++ rest) ≡ split_whitespace rest
unfolding split_whitespace
split_whitespace-gap [] rest h = refl
split_whitespace-gap (c ∷ gap) rest (h, hs) =
    rw (h, split_whitespace) (split_whitespace-gap gap rest hs)

word_char-gap :
    (c d : ℕ) (s : Text) (words : List Text)
    → is_whitespace d ≡ true
    → word_char c (d ∷ s) words ≡ (c ∷ []) ∷ words
unfolding word_char
word_char-gap c d s [] h = refl
word_char-gap c d s (w ∷ words) h = rw (h, word_char) refl

-- A word in front of white space is the first word.
split_whitespace-word :
    (c : ℕ) (word : Text) (d : ℕ) (rest : Text)
    → All (λ x. is_whitespace x ≡ false) (c ∷ word)
    → is_whitespace d ≡ true
    → split_whitespace ((c ∷ word) ++ (d ∷ rest)) ≡ (c ∷ word) ∷ split_whitespace (d ∷ rest)
unfolding split_whitespace
split_whitespace-word c [] d rest (h, _) k =
    rw (h, split_whitespace) (word_char-gap c d rest (split_whitespace (d ∷ rest)) k)
split_whitespace-word c (x ∷ word) d rest (h, (g, gs)) k =
    let ih = split_whitespace-word x word d rest (g, gs) k in
    rw (h, split_whitespace)
      (ap (λ ws. word_char c (x ∷ (word ++ (d ∷ rest))) ws) ih
        ∙ (unfold word_char in rw (g, word_char) refl))

split_whitespace-last :
    (last : Text) → All (λ x. is_whitespace x ≡ false) last → split_whitespace last ≡ last_word last
unfolding split_whitespace
split_whitespace-last [] h = refl
split_whitespace-last (c ∷ []) (h, _) = rw (h, split_whitespace) (unfold word_char in refl)
split_whitespace-last (c ∷ (d ∷ word)) (h, (g, gs)) =
    rw (h, split_whitespace)
      (ap (λ ws. word_char c (d ∷ word) ws) (split_whitespace-last (d ∷ word) (g, gs))
        ∙ (unfold word_char in rw (g, word_char) refl))

split_whitespace-written :
    (words : List (Text × Text)) (last : Text)
    → All IsSpaced words
    → All (λ x. is_whitespace x ≡ false) last
    → split_whitespace (written words last) ≡ map (λ w. w.0) words ++ last_word last
unfolding split_whitespace
split_whitespace-written [] last h k = split_whitespace-last last k
split_whitespace-written ((c ∷ word, d ∷ gap) ∷ words) last ((h, (g, gs)), hs) k =
    split_whitespace-word c word d (gap ++ written words last) h g
    ∙ ap (λ ws. (c ∷ word) ∷ ws)
        (split_whitespace-gap (d ∷ gap) (written words last) (g, gs)
          ∙ split_whitespace-written words last hs k)
split_whitespace-written (([], gap) ∷ words) last (h, hs) k = absurd h
split_whitespace-written ((c ∷ word, []) ∷ words) last (h, hs) k = absurd h

module _ (has_file : Text → Bool) (entries : Option (List Text)) (windows : Bool) where
  -- C++ sources in a listing that can be read.
  abbrev pub has_sources : Bool
  has_sources = elim entries [ none ↦ false | some names ↦ any is_cpp_name names ]

  sources_some : is_some (cpp_sources entries) ≡ has_sources
  sources_some = by_entries entries
    where
      by_entries :
          (listing : Option (List Text))
          → is_some (cpp_sources listing)
            ≡ elim listing [ none ↦ false | some names ↦ any is_cpp_name names ]
      by_entries none = unfold cpp_sources in refl
      by_entries (some names) = cpp_sources-any names

  detect_some : is_some (detect_verify_command has_file entries windows) ≡ (
      any has_file stack_markers
      || (is_python has_file entries windows || is_some (cpp_sources entries)))
  unfolding detect_verify_command
  detect_some = ground arith

  -- The target that is detected, or `none`.
  abbrev pub can_detect : Bool
  can_detect = any has_file stack_markers || (is_python has_file entries windows || has_sources)

  -- The command of the words of an override, which is detected where there are none.
  abbrev pub command_of : List Text → Option CheckCommand
  command_of [] = detect_verify_command has_file entries windows
  command_of (program ∷ args) = some (record { program = program; args = args })

  resolved :
      (line : Text)
      → resolve_verify_command has_file entries windows (some line)
        ≡ command_of (split_whitespace line)
  unfolding resolve_verify_command from_command_line
  resolved line = of (split_whitespace line) refl
    where
      of :
          (words : List Text)
          → split_whitespace line ≡ words
          → resolve_verify_command has_file entries windows (some line) ≡ command_of words
      of [] e = rw (e, resolve_verify_command) refl
      of (w ∷ words) e = rw (e, resolve_verify_command) refl

  -- There is a command to verify with, if there is no override, if and only if the root has a marker
  -- of a stack, is a Python project, or lists a C++ source. An override is the command of its words,
  -- those between its runs of white space, at both ends of it too: the first is the program and the
  -- others are its arguments, all of them and in order. White space alone is as no override.
  pub resolve_verify_command_lem :
      (lead : Text) (words : List (Text × Text)) (last : Text)
      → All (λ c. is_whitespace c ≡ true) lead
      → All IsSpaced words
      → All (λ c. is_whitespace c ≡ false) last
      → (is_some (resolve_verify_command has_file entries windows none) ≡ can_detect)
        × (resolve_verify_command has_file entries windows none ≡ command_of [])
        × (resolve_verify_command has_file entries windows (some (lead ++ written words last))
            ≡ command_of (map (λ w. w.0) words ++ last_word last))
  unfolding resolve_verify_command
  resolve_verify_command_lem lead words last blank spaced black = (
    rw sources_some at detect_some,
    refl,
    resolved (lead ++ written words last)
        ∙ ap command_of (
            split_whitespace-gap lead (written words last) blank
            ∙ split_whitespace-written words last spaced black),
  )
