-- ===== src/Proxy.antt =====
-- The filtered stream of the proxy: `sse_think_stream` of crates/localx-llama-runtime/src/proxy.rs.
-- The filter, `SseThinkFilter` of nothink.rs, comes in as its operations, and a byte stream is the
-- list of what it yields until its end; a chunk is a list of bytes.
pub mod Laws
pub mod Filtered
pub mod Token
pub mod Headers
pub mod Handler
use localx_llama.Prelude.{
  ℕ, zero, suc, Bool, true, false, Option, none, some, List, [], ◌∷◌, length, Result, ok, err,
  ◌>>=?◌,
}
use localx_llama.Text.{Text, is_empty}

-- The operations of a filter with the states `S`.
pub record FilterOps (S : Type 0) : Type 0 where
  pub fresh : S
  pub feed : Text → S → Text × S
  pub flush : S → Text × S

pub data Phase (E : Type 0) : Type 0 where
  streaming : Phase E
  erroring : E → Phase E
  finished : Phase E

-- What is left of the upstream, the filter, and the phase.
abbrev pub StreamState : Type 0 → Type 0 → Type 0
StreamState S E = List (Result E Text) × S × Phase E

module _ {S E : Type 0} (filter : FilterOps S) where
  -- The closure of `unfold`: one poll.
  unfoldable pub poll : StreamState S E → Option (Result E Text × StreamState S E)
  poll (inner, s, finished) = none
  poll (inner, s, erroring e) = some (err e, (inner, s, finished))
  poll ([], s, streaming) = let (tail, s') = filter.flush s in some (ok tail, ([], s', finished))
  poll (ok chunk ∷ inner, s, streaming) =
      let (out, s') = filter.feed chunk s in some (ok out, (inner, s', streaming))
  poll (err e ∷ inner, s, streaming) =
      let (tail, s') = filter.flush s in
      elim (is_empty tail) [
        | true ↦ some (err e, (inner, s', finished))
        | false ↦ some (ok tail, (inner, s', erroring e))
      ]

  -- Polling to the end; `none` means that the fuel ran out.
  unfoldable pub collect : ℕ → StreamState S E → Option (List (Result E Text))
  unfolding poll
  collect zero st = none
  collect (suc fuel) st = elim (poll st) [
    | none ↦ some []
    | some (item, st') ↦ collect fuel st' >>=? λ rest. some (item ∷ rest)
  ]

  -- Each poll takes an item of the upstream, but for at most three at its end.
  unfoldable pub sse_think_stream : List (Result E Text) → Option (List (Result E Text))
  unfolding collect
  sse_think_stream inner = collect (suc (suc (suc (length inner)))) (inner, filter.fresh, streaming)
