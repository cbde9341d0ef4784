-- ===== src/Text.antt =====
-- Rust's `str` as the list of its characters' code points, with the operations of the standard
-- library that the crates call. Byte lengths are sums of the UTF-8 widths.
pub mod Lines
pub mod Numbers
pub mod Find
pub mod Case
use Prim.Native.Char.{code}
use Prim.Native.String.{String}
use localx_llama.Prelude.{
  ℕ, zero, suc, ◌+◌, ◌-◌, ◌/◌, ◌%◌, Bool, true, false, ◌&&◌, ◌||◌, Option, none, some, List, [],
  ◌∷◌, ◌++◌, ltb, leb, ◌==◌, if◌then◌else◌, map, any,
}
use localx_llama.Prelude.Int.{ℤ, pos, negsuc}

abbrev pub Text : Type 0
Text = List ℕ

-- A literal.
abbrev pub codes : String → Text
codes String.[] = []
codes (String.◌∷◌ c s) = code c ∷ codes s

-- `char::len_utf8`
unfoldable pub utf8_width : ℕ → ℕ
utf8_width c = if ltb c 0x80 then 1 else if ltb c 0x800 then 2 else if ltb c 0x10000 then 3 else 4

-- `str::len`, in bytes
unfoldable pub byte_len : Text → ℕ
unfolding utf8_width
byte_len [] = 0
byte_len (c ∷ s) = utf8_width c + byte_len s

infix 50 ◌=ᵗ◌
unfoldable pub ◌=ᵗ◌ : Text → Text → Bool
[] =ᵗ [] = true
(x ∷ xs) =ᵗ (y ∷ ys) = x == y && xs =ᵗ ys
_ =ᵗ _ = false

-- `slice.contains(&t)`
abbrev pub contains_text : List Text → Text → Bool
contains_text ts t = any (λ x. x =ᵗ t) ts

-- `char::to_ascii_lowercase`
unfoldable pub lower_char : ℕ → ℕ
lower_char c = if leb b'A' c && leb c b'Z' then c + 32 else c

-- `str::to_ascii_lowercase`
unfoldable pub lower : Text → Text
unfolding lower_char
lower [] = []
lower (c ∷ s) = lower_char c ∷ lower s

-- `str::eq_ignore_ascii_case`
abbrev pub eq_ignore_case : Text → Text → Bool
eq_ignore_case a b = lower a =ᵗ lower b

-- `char::is_whitespace`: the code points with the property White_Space
unfoldable pub is_whitespace : ℕ → Bool
is_whitespace c =
    leb 0x9 c && leb c 0xd
    || c == 0x20
    || c == 0x85
    || c == 0xa0
    || c == 0x1680
    || leb 0x2000 c && leb c 0x200a
    || c == 0x2028
    || c == 0x2029
    || c == 0x202f
    || c == 0x205f
    || c == 0x3000

-- `str::trim_start`
unfoldable pub trim_start : Text → Text
trim_start [] = []
trim_start (c ∷ s) = elim (is_whitespace c) [ true ↦ trim_start s | false ↦ c ∷ s ]

-- One character in front of a text that is trimmed at its end.
unfoldable pub trim_cons : ℕ → Text → Text
trim_cons c [] = if is_whitespace c then [] else c ∷ []
trim_cons c (d ∷ t) = c ∷ (d ∷ t)

-- `str::trim_end`
unfoldable pub trim_end : Text → Text
trim_end [] = []
trim_end (c ∷ s) = trim_cons c (trim_end s)

-- `str::trim`
unfoldable pub trim : Text → Text
unfolding trim_start trim_end trim_cons is_whitespace
trim s = trim_end (trim_start s)

abbrev pub is_empty : Text → Bool
is_empty [] = true
is_empty (c ∷ s) = false

-- `s.trim().is_empty()`
abbrev pub is_blank : Text → Bool
is_blank s = is_empty (trim s)

-- `str::strip_prefix`
unfoldable pub strip_prefix : Text → Text → Option Text
strip_prefix [] s = some s
strip_prefix (n ∷ ns) [] = none
strip_prefix (n ∷ ns) (c ∷ s) = elim (n == c) [ true ↦ strip_prefix ns s | false ↦ none ]

-- `str::starts_with`
abbrev pub starts_with : Text → Text → Bool
starts_with needle s = elim (strip_prefix needle s) [ none ↦ false | some _ ↦ true ]

-- `str::find` of a needle that is not empty: the text before its first occurrence, and the text
-- behind it. `&s[..i]` and `&s[i + needle.len()..]` are the two parts.
unfoldable pub split_once : Text → Text → Option (Text × Text)
split_once needle [] = none
split_once needle (c ∷ s) = elim (strip_prefix needle (c ∷ s)) [
  | some after ↦ some ([], after)
  | none ↦ elim (split_once needle s) [ none ↦ none | some (p, q) ↦ some (c ∷ p, q) ]
]

-- `str::contains` of a needle that is not empty
abbrev pub contains : Text → Text → Bool
contains needle s = elim (split_once needle s) [ none ↦ false | some _ ↦ true ]

-- The decimal digits of `n` in front of `acc`; `fuel` above `n` is enough.
unfoldable pub decimal_onto : ℕ → ℕ → Text → Text
decimal_onto zero n acc = acc
decimal_onto (suc fuel) n acc =
    let d = (b'0' + n % 10) ∷ acc in
    elim (ltb n 10) [ true ↦ d | false ↦ decimal_onto fuel (n / 10) d ]

-- `n.to_string()` of an unsigned number
unfoldable pub decimal : ℕ → Text
unfolding decimal_onto
decimal n = decimal_onto (suc n) n []

-- `n.to_string()` of a signed number
unfoldable pub decimal_ℤ : ℤ → Text
unfolding decimal
decimal_ℤ (pos n) = decimal n
decimal_ℤ (negsuc n) = b'-' ∷ decimal (suc n)

-- `parts.join(sep)`
unfoldable pub join : Text → List Text → Text
join sep [] = []
join sep (t ∷ []) = t
join sep (t ∷ u ∷ ts) = t ++ (sep ++ join sep (u ∷ ts))

-- `texts.concat()`
abbrev pub concat : List Text → Text
concat [] = []
concat (t ∷ ts) = t ++ concat ts

-- `str::split_once(char::is_whitespace)`
unfoldable pub split_at_whitespace : Text → Option (Text × Text)
unfolding is_whitespace
split_at_whitespace [] = none
split_at_whitespace (c ∷ s) =
    let later = split_at_whitespace s in
    elim (is_whitespace c) [
      | true ↦ some ([], s)
      | false ↦ elim later [ none ↦ none | some (p, q) ↦ some (c ∷ p, q) ]
    ]
