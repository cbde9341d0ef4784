-- ===== src/Nothink/OneShot.antt =====
-- `strip_think` and `fallback_if_empty` of nothink.rs: the filter on a complete text.
use localx_llama.Prelude.{ℕ, zero, suc, Option, none, some, [], ◌++◌, if◌then◌else◌}
use localx_llama.Text.{Text, byte_len, split_once, trim, is_blank}
use localx_llama.Nothink.{open_tag, close_tag, empty_after_think}

-- The loop; `none` means that the fuel ran out.
unfoldable pub strip_loop : ℕ → Text → Text → Option Text
strip_loop zero out rest = none
strip_loop (suc fuel) out rest = elim (split_once open_tag rest) [
  | none ↦ some (out ++ rest)
  | some (before, after) ↦ elim (split_once close_tag after) [
    | none ↦ some ((out ++ before) ++ after)
    | some (hidden, tail) ↦ strip_loop fuel (out ++ before) tail
  ]
]

-- Every round drops a tag of at least one byte.
unfoldable pub strip_think : Text → Option Text
unfolding strip_loop
strip_think input = strip_loop (suc (byte_len input)) [] input

-- The result of `strip_think`, which is never `none`.
unfoldable pub strip_think_text : Text → Text
unfolding strip_think
strip_think_text input = elim (strip_think input) [ none ↦ input | some out ↦ out ]

unfoldable pub fallback_if_empty : Text → Text
unfolding trim
fallback_if_empty stripped = if is_blank stripped then empty_after_think else stripped
