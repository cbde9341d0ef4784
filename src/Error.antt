-- ===== src/Error.antt =====
-- `CoreError`, crates/localx-llama-core/src/error.rs: the kinds of failure with their fields.
use localx_llama.Text.{Text}

pub data CoreError : Type 0 where
  -- ty, mainline
  kv_type_needs_fork : Text → Text → CoreError
  -- ty, mainline, turbo
  unknown_kv_type : Text → Text → Text → CoreError
  spec_type_unsupported : Text → CoreError
  spec_type_conflicts_with_draft : Text → CoreError
  unknown_parser : Text → CoreError
  -- key, available
  unknown_context : Text → Text → CoreError
  unknown_quant : Text → Text → CoreError
  validation : Text → CoreError
  catalog_only : Text → CoreError
