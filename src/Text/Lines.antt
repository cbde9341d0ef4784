-- ===== src/Text/Lines.antt =====
-- The lines of a text.
use localx_llama.Prelude.{
  All, ◌++◌, ◌∙◌, ℕ, Bool, false, List, [], ◌∷◌, ◌==◌, ◌&&◌, ◌||◌, ◌≡◌, refl, if◌then◌else◌, ap,
  Bool-cases, inl, inr,
}
use localx_llama.Text.{Text, concat}

-- `c` in front of the first of some lines, or tokens.
unfoldable pub onto_first : ℕ → List Text → List Text
onto_first c [] = (c ∷ []) ∷ []
onto_first c (l ∷ ls) = (c ∷ l) ∷ ls

unfoldable pub next_is : ℕ → Text → Bool
next_is c [] = false
next_is c (d ∷ s) = d == c

-- `str::lines`: the text is cut at each line feed, and a carriage return before it is dropped.
unfoldable pub lines : Text → List Text
unfolding next_is onto_first
lines [] = []
lines (c ∷ s) =
    let rest = lines s in
    if c == 10 then [] ∷ rest else if (c == 13) && next_is 10 s then rest else onto_first c rest

-- `s.split_inclusive('\n')`
unfoldable pub split_inclusive : Text → List Text
unfolding onto_first
split_inclusive [] = []
split_inclusive (c ∷ s) =
    let rest = split_inclusive s in if c == 10 then (c ∷ []) ∷ rest else onto_first c rest

-- `s.trim_end_matches(['\r', '\n'])`
unfoldable pub break_cons : ℕ → Text → Text
break_cons c [] = if (c == 13) || (c == 10) then [] else c ∷ []
break_cons c (d ∷ t) = c ∷ (d ∷ t)

unfoldable pub trim_breaks : Text → Text
unfolding break_cons
trim_breaks [] = []
trim_breaks (c ∷ s) = break_cons c (trim_breaks s)

concat-onto_first : (c : ℕ) (ls : List Text) → concat (onto_first c ls) ≡ c ∷ concat ls
unfolding onto_first
concat-onto_first c [] = refl
concat-onto_first c (l ∷ ls) = refl

pub concat-split_inclusive : (s : Text) → concat (split_inclusive s) ≡ s
unfolding split_inclusive
concat-split_inclusive [] = refl
concat-split_inclusive (c ∷ s) = elim (Bool-cases (c == 10)) [
  | inl feed ↦ rw feed (ap (◌∷◌ c) (concat-split_inclusive s))
  | inr other ↦
      rw other (concat-onto_first c (split_inclusive s) ∙ ap (◌∷◌ c) (concat-split_inclusive s))
]

-- No character of the text breaks a line.
abbrev pub IsOneLine : Text → Type 0
IsOneLine s = All (λ c. ((c == 10) ≡ false) × ((c == 13) ≡ false)) s

pub lines-line : (s r : Text) → IsOneLine s → lines (s ++ (10 ∷ r)) ≡ s ∷ lines r
unfolding lines onto_first
lines-line [] r h = refl
lines-line (c ∷ s) r ((feed, return), h) = rw (feed, return) (rw (lines-line s r h) refl)

pub split_inclusive-line :
    (s r : Text)
    → IsOneLine s
    → split_inclusive (s ++ (10 ∷ r)) ≡ (s ++ (10 ∷ [])) ∷ split_inclusive r
unfolding split_inclusive onto_first
split_inclusive-line [] r h = refl
split_inclusive-line (c ∷ s) r ((feed, return), h) = rw feed (rw (split_inclusive-line s r h) refl)

break_cons-kept :
    (c : ℕ) (s : Text) → (c == 10) ≡ false → (c == 13) ≡ false → break_cons c s ≡ c ∷ s
unfolding break_cons
break_cons-kept c [] feed return = rw (feed, return) refl
break_cons-kept c (d ∷ s) feed return = refl

pub trim_breaks-line : (s : Text) → IsOneLine s → trim_breaks (s ++ (10 ∷ [])) ≡ s
unfolding trim_breaks break_cons
trim_breaks-line [] h = refl
trim_breaks-line (c ∷ s) ((feed, return), h) =
    rw (trim_breaks-line s h) (break_cons-kept c s feed return)
