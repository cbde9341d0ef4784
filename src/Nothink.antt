-- ===== src/Nothink.antt =====
-- The no-think filter, crates/localx-llama-runtime/src/nothink.rs: the constants that its parts share.
pub mod OneShot
pub mod Stripper
pub mod Strips
pub mod Turns
pub mod Streaming
pub mod Bounds
pub mod Request
pub mod Sse
use localx_llama.Prelude.{ℕ}
use localx_llama.Text.{Text, codes}

-- `EMPTY_AFTER_THINK`
abbrev pub empty_after_think : Text
empty_after_think = codes "[no output]"

-- `OPEN`
abbrev pub open_tag : Text
open_tag = codes "<think>"

-- `CLOSE`
abbrev pub close_tag : Text
close_tag = codes "</think>"

-- `HOLDBACK`, in bytes
abbrev pub holdback : ℕ
holdback = 7

-- `THINK_BAILOUT`, in bytes
abbrev pub think_bailout : ℕ
think_bailout = 32768
