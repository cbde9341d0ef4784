-- ===== src/Nothink/Stripper.antt =====
-- `ThinkStripper` of nothink.rs: the filter on a stream of chunks.
use localx_llama.Prelude.{
  ℕ, zero, suc, ◌-◌, Bool, true, false, Option, none, some, List, [], ◌∷◌, ◌++◌, ltb, leb,
  if◌then◌else◌, ◌>>=?◌,
}
use localx_llama.Text.{Text, utf8_width, byte_len, split_once}
use localx_llama.Nothink.{open_tag, close_tag, holdback, think_bailout}

pub record ThinkStripper : Type 0 where
  pub buf : Text
  pub in_think : Bool

-- `ThinkStripper::new`
abbrev pub new : ThinkStripper
new = record { buf = []; in_think = false }

-- The text up to the first character boundary at or behind byte `idx`, and the rest: the slice
-- at the index that `while !is_char_boundary(idx) { idx += 1 }` reaches.
unfoldable pub split_at_byte : ℕ → Text → Text × Text
split_at_byte idx [] = ([], [])
split_at_byte zero (c ∷ s) = ([], c ∷ s)
split_at_byte (suc i) (c ∷ s) =
    let (before, rest) = split_at_byte (suc i - utf8_width c) s in (c ∷ before, rest)

-- The byte index from which `holdback_start` looks for a boundary.
unfoldable pub holdback_start : Text → ℕ
unfolding byte_len
holdback_start buf = if leb (byte_len buf) holdback then 0 else byte_len buf - holdback

-- What is emitted, and the buffer that stays.
unfoldable pub emit_safe_prefix : Text → Text × Text
unfolding holdback_start split_at_byte
emit_safe_prefix buf = split_at_byte (holdback_start buf) buf

-- The loop of `push` over the fields and the output; `none` means that the fuel ran out.
unfoldable pub push_loop : ℕ → Bool → Text → Text → Option (Text × ThinkStripper)
push_loop zero in_think buf out = none
push_loop (suc fuel) true buf out = elim (split_once close_tag buf) [
  | some (hidden, after) ↦ push_loop fuel false after out
  | none ↦ elim (ltb think_bailout (byte_len buf)) [
    | true ↦ push_loop fuel false [] (out ++ buf)
    | false ↦ some (out, record { buf = buf; in_think = true })
  ]
]
push_loop (suc fuel) false buf out = elim (split_once open_tag buf) [
  | some (before, after) ↦ push_loop fuel true after (out ++ before)
  | none ↦
      let (emitted, kept) = emit_safe_prefix buf in
      some (out ++ emitted, record { buf = kept; in_think = false })
]

-- Every round but the last shortens the buffer.
unfoldable pub push : Text → ThinkStripper → Option (Text × ThinkStripper)
unfolding push_loop
push chunk s =
    let grown : Text = s.buf ++ chunk in push_loop (suc (byte_len grown)) s.in_think grown []

-- The result of `push`, which is never `none`.
unfoldable pub push_text : Text → ThinkStripper → Text × ThinkStripper
unfolding push
push_text chunk s = elim (push chunk s) [ none ↦ ([], s) | some r ↦ r ]

unfoldable pub finish : ThinkStripper → Text × ThinkStripper
finish s = (s.buf, new)

-- A stream: the chunks in order.
unfoldable pub feed : List Text → ThinkStripper → Option (Text × ThinkStripper)
feed [] s = some ([], s)
feed (chunk ∷ chunks) s =
    push chunk s >>=? λ (o, s'). feed chunks s' >>=? λ (rest, s''). some (o ++ rest, s'')

-- The whole output of a stream that ends in `finish`.
unfoldable pub strip_stream : List Text → Option Text
unfolding feed finish
strip_stream chunks = feed chunks new >>=? λ (o, s). some (o ++ (finish s).0)
