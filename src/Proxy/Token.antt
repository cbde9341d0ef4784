-- ===== src/Proxy/Token.antt =====
-- `token_matches` of crates/localx-llama-runtime/src/proxy.rs. SHA-256, as a function from texts to
-- bytes, is a parameter.
use localx_llama.Prelude.{
  ap, ◌↔◌, [], ==_iff, All, length, ℕ, zero, suc, ◌≡◌, refl, Bool, true, ◌&&◌, List, ◌∷◌, arith,
  if◌then◌else◌, ltb, ◌==◌, ◌<◌,
}
use Prim.Native.Nat.{bit_or, bit_xor}
use localx_llama.Text.{Text}

-- The fold over the two digests, side by side.
unfoldable pub difference : ℕ → List ℕ → List ℕ → ℕ
difference acc (left ∷ ls) (right ∷ rs) = difference (bit_or acc (bit_xor left right)) ls rs
difference acc _ _ = acc

module _ (digest : Text → List ℕ) where
  unfoldable pub token_matches : Text → Text → Bool
  unfolding difference
  token_matches presented expected = difference 0 (digest presented) (digest expected) == 0

-- A test on all numbers under a limit, from the limit down.
every_under : (ℕ → Bool) → ℕ → Bool
every_under test zero = true
every_under test (suc limit) = every_under test limit && test limit

every_under-lt :
    (test : ℕ → Bool) (limit c : ℕ) → c < limit → every_under test limit ≡ true → test c ≡ true
unfolding every_under
every_under-lt test zero c lt passed = absurd (omega arith)
every_under-lt test (suc limit) c lt passed = ground (arith, every_under-lt test limit c)

-- What the fold needs of two bytes.
abbrev byte_laws : ℕ → ℕ → Bool
byte_laws a b =
    ltb (bit_xor a b) 256
    && ltb (bit_or a b) 256
    && (if bit_xor a b == 0 then a == b else true)
    && (if a == b then bit_xor a b == 0 else true)
    && (if bit_or a b == 0 then a == 0 && b == 0 else true)

table : every_under (λ a. every_under (λ b. byte_laws a b) 256) 256 ≡ true
unfolding every_under
table = refl

byte_laws_hold : (a b : ℕ) → a < 256 → b < 256 → byte_laws a b ≡ true
byte_laws_hold a b la lb =
    every_under-lt (λ y. byte_laws a y) 256 b lb
      (every_under-lt (λ x. every_under (λ y. byte_laws x y) 256) 256 a la table)

xor_bound : (a b : ℕ) → a < 256 → b < 256 → bit_xor a b < 256
xor_bound a b la lb = let h = byte_laws_hold a b la lb in ground arith

or_bound : (a b : ℕ) → a < 256 → b < 256 → bit_or a b < 256
or_bound a b la lb = let h = byte_laws_hold a b la lb in ground arith

xor_zero : (a b : ℕ) → a < 256 → b < 256 → bit_xor a b ≡ 0 → a ≡ b
xor_zero a b la lb e = let h = byte_laws_hold a b la lb in ground arith

xor_same : (a : ℕ) → a < 256 → bit_xor a a ≡ 0
xor_same a la = let h = byte_laws_hold a a la la in ground arith

or_zero : (a b : ℕ) → a < 256 → b < 256 → bit_or a b ≡ 0 → (a ≡ 0) × (b ≡ 0)
or_zero a b la lb e = let h = byte_laws_hold a b la lb in ground arith

-- A digest: bytes, as many as any other digest has.
abbrev pub IsDigest : ℕ → List ℕ → Type 0
IsDigest n bytes = (length bytes ≡ n) × All (λ b. b < 256) bytes

difference-zero :
    (n acc : ℕ) (ls rs : List ℕ)
    → acc < 256
    → IsDigest n ls
    → IsDigest n rs
    → difference acc ls rs ≡ 0
    → (acc ≡ 0) × (ls ≡ rs)
unfolding difference
difference-zero n acc [] [] la h k e = (e, refl)
difference-zero n acc [] (r ∷ rs) la h k e = absurd (omega (arith, h.0, k.0))
difference-zero n acc (l ∷ ls) [] la h k e = absurd (omega (arith, h.0, k.0))
difference-zero zero acc (l ∷ ls) (r ∷ rs) la h k e = absurd (omega (arith, h.0))
difference-zero (suc n) acc (l ∷ ls) (r ∷ rs) la (hl, (hb, hs)) (kl, (kb, ks)) e =
    let xb = xor_bound l r hb kb in
    let (z, same) =
      difference-zero n (bit_or acc (bit_xor l r)) ls rs (or_bound acc (bit_xor l r) la xb)
        (omega arith, hs) (omega arith, ks) e in
    let (za, zx) = or_zero acc (bit_xor l r) la xb z in
    (za, rw (xor_zero l r hb kb zx) (ap (λ x. r ∷ x) same))

difference-same : (ls : List ℕ) → All (λ b. b < 256) ls → difference 0 ls ls ≡ 0
unfolding difference
difference-same [] h = refl
difference-same (l ∷ ls) (hb, hs) = rw (xor_same l hb) (difference-same ls hs)

-- For a digest function that gives for every text `n` bytes, a presented token matches if and only
-- if its digest is the expected token's.
pub token_matches_iff :
    (digest : Text → List ℕ) (n : ℕ)
    → ((t : Text) → IsDigest n (digest t))
    → (presented expected : Text)
    → (token_matches digest presented expected ≡ true) ↔ (digest presented ≡ digest expected)
unfolding token_matches
token_matches_iff digest n h presented expected = (
  λ e.
      (difference-zero n 0 (digest presented) (digest expected) (omega arith) (h presented)
        (h expected) ((==_iff _ 0).0 e)).1,
  λ e. rw e ((==_iff _ 0).1 (difference-same (digest expected) (h expected).1)),
)
