-- ===== src/Proxy/Headers.antt =====
-- The header maps of crates/localx-llama-runtime/src/proxy.rs: the entries of an `http::HeaderMap` in
-- their order, with names in lower case and values in bytes. `HeaderValue::to_str` is a parameter.
use localx_llama.Prelude.{
  true, ℕ, ◌≡◌, refl, sym, ◌∙◌, inl, inr, Bool, false, Option, none, some, List, [], ◌∷◌, ◌++◌,
  append-nil, append_assoc, Bool-cases, if◌then◌else◌, All, ◌>>=?◌,
}
use localx_llama.Text.{Text, codes, ◌=ᵗ◌, contains_text, starts_with}
use localx_llama.Text.Case.{=ᵗ_iff}

abbrev pub HeaderMap : Type 0
HeaderMap = List (Text × List ℕ)

-- `headers.get(name)`: the first value.
unfoldable pub get_header : Text → HeaderMap → Option (List ℕ)
unfolding ◌=ᵗ◌
get_header name [] = none
get_header name ((n, v) ∷ headers) = if n =ᵗ name then some v else get_header name headers

abbrev pub skip_headers : List Text
skip_headers =
    codes "connection"
    ∷ (codes "keep-alive"
        ∷ (codes "proxy-authenticate"
            ∷ (codes "proxy-authorization"
                ∷ (codes "te"
                    ∷ (codes "trailers"
                        ∷ (codes "transfer-encoding"
                            ∷ (codes "upgrade"
                                ∷ (codes "content-length" ∷ (codes "host" ∷ [])))))))))

-- `SKIP_HEADERS.contains(&name.as_str())`
unfoldable pub is_skipped : Text → Bool
is_skipped name = contains_text skip_headers name

-- The loop of `copy_headers` behind the entries that `dst` has.
unfoldable pub copy_headers : HeaderMap → HeaderMap → HeaderMap
unfolding is_skipped
copy_headers [] dst = dst
copy_headers ((name, value) ∷ src) dst =
    if is_skipped name then copy_headers src dst else copy_headers src (dst ++ ((name, value) ∷ []))

module _ (to_str : List ℕ → Option Text) where
  unfoldable pub is_event_stream : HeaderMap → Bool
  unfolding get_header
  is_event_stream headers = elim (get_header (codes "content-type") headers >>=? λ v. to_str v) [
    | none ↦ false
    | some ct ↦ starts_with (codes "text/event-stream") ct
  ]

-- A header that is not skipped.
abbrev pub IsForwarded : Text × List ℕ → Type 0
IsForwarded h = is_skipped h.0 ≡ false

-- What `copy_headers` appends.
abbrev pub forwarded : HeaderMap → HeaderMap
forwarded [] = []
forwarded ((name, value) ∷ src) =
    if is_skipped name then forwarded src else (name, value) ∷ forwarded src

pub copy_headers-forwarded : (src dst : HeaderMap) → copy_headers src dst ≡ dst ++ forwarded src
unfolding copy_headers
copy_headers-forwarded [] dst = sym (append-nil dst)
copy_headers-forwarded ((name, value) ∷ src) dst = elim (Bool-cases (is_skipped name)) [
  | inl skipped ↦ rw skipped (copy_headers-forwarded src dst)
  | inr kept ↦ rw kept (
      copy_headers-forwarded src (dst ++ ((name, value) ∷ []))
      ∙ append_assoc dst ((name, value) ∷ []) (forwarded src))
]

forwarded-All : (src : HeaderMap) → All IsForwarded (forwarded src)
forwarded-All [] = tt
forwarded-All ((name, value) ∷ src) = elim (Bool-cases (is_skipped name)) [
  | inl skipped ↦ rw skipped (forwarded-All src)
  | inr kept ↦ rw kept (kept, forwarded-All src)
]

get_header-forwarded :
    (src : HeaderMap) (k : Text)
    → is_skipped k ≡ false
    → get_header k (forwarded src) ≡ get_header k src
unfolding get_header
get_header-forwarded [] k h = refl
get_header-forwarded ((name, value) ∷ src) k h = elim (Bool-cases (is_skipped name)) [
  | inr kept ↦ rw (kept, forwarded) (rw (get_header-forwarded src k h) refl)
  | inl skipped ↦ elim (Bool-cases (name =ᵗ k)) [
    | inl same ↦ absurd (cc ((=ᵗ_iff name k).0 same, skipped, h))
    | inr other ↦ rw (skipped, forwarded) (rw other (get_header-forwarded src k h))
  ]
]

get_header-skipped :
    (src : HeaderMap) (k : Text) → is_skipped k ≡ true → get_header k (forwarded src) ≡ none
unfolding get_header
get_header-skipped [] k h = refl
get_header-skipped ((name, value) ∷ src) k h = elim (Bool-cases (is_skipped name)) [
  | inl skipped ↦ rw (skipped, forwarded) (get_header-skipped src k h)
  | inr kept ↦ elim (Bool-cases (name =ᵗ k)) [
    | inl same ↦ absurd (cc ((=ᵗ_iff name k).0 same, kept, h))
    | inr other ↦ rw (kept, forwarded) (rw other (get_header-skipped src k h))
  ]
]

-- Headers copied to an empty map: none of them is a skipped one, and the first value of every other
-- name is the source's.
pub copy_headers_lem :
    (src : HeaderMap)
    → All IsForwarded (copy_headers src [])
      × ((k : Text)
          → get_header k (copy_headers src []) ≡ (if is_skipped k then none else get_header k src))
copy_headers_lem src = rw (copy_headers-forwarded src []) (
  forwarded-All src,
  λ k. elim (Bool-cases (is_skipped k)) [
    | inl skipped ↦ rw skipped (get_header-skipped src k skipped)
    | inr kept ↦ rw kept (get_header-forwarded src k kept)
  ],
)
