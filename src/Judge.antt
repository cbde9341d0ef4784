-- ===== src/Judge.antt =====
-- Blinded comparison of two solutions: crates/localx-eval-core/src/judge.rs.
pub mod Laws
use Prim.Native.Nat.{bit_xor}
use localx_llama.Prelude.{
  ◌*◌, ◌/◌, ◌%◌, ◌^◌, ℕ, zero, suc, ◌+◌, Bool, true, false, not, Option, none, some, List, [], ◌∷◌,
  ◌==◌, if◌then◌else◌,
}
use localx_llama.Text.{Text}

-- `fnv1a` over bytes; `u64` multiplication wraps.
unfoldable pub fnv1a_onto : ℕ → List ℕ → ℕ
fnv1a_onto hash [] = hash
fnv1a_onto hash (b ∷ bytes) = fnv1a_onto ((bit_xor hash b * 0x100000001b3) % 2 ^ 64) bytes

unfoldable pub fnv1a : List ℕ → ℕ
fnv1a bytes = fnv1a_onto 0xcbf29ce484222325 bytes

-- `seed.to_le_bytes()` of `u64`: eight bytes, the lowest first.
unfoldable pub le_bytes : ℕ → ℕ → List ℕ
le_bytes zero n = []
le_bytes (suc width) n = (n % 256) ∷ le_bytes width (n / 256)

pub record BlindedPair : Type 0 where
  pub solution_1 : Text
  pub solution_2 : Text
  pub swapped : Bool

-- The pair, swapped or not.
unfoldable pub present : Text → Text → Bool → BlindedPair
present a b true = record { solution_1 = b; solution_2 = a; swapped = true }
present a b false = record { solution_1 = a; solution_2 = b; swapped = false }

-- `fnv1a(&seed.to_le_bytes()) & 1 == 1`
unfoldable pub swaps : ℕ → Bool
swaps seed = (fnv1a (le_bytes 8 seed) % 2) == 1

unfoldable pub blind : Text → Text → ℕ → BlindedPair
unfolding swaps
blind a b seed = present a b (swaps seed)

pub data Preferred : Type 0 where
  first second : Preferred

unfoldable pub resolve_preference : BlindedPair → ℕ → Option Preferred
resolve_preference pair presented =
    let first_is_a : Bool = not pair.swapped in
    if presented == 1
    then some (if first_is_a then first else second)
    else if presented == 2
    then some (if first_is_a then second else first)
    else none
