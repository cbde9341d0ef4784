-- ===== src/Proxy/Laws.antt =====
-- What a client of the proxy's stream receives.
use localx_llama.Prelude.{
  sym, append-nil, ℕ, zero, suc, ◌≤◌, true, ◌≡◌, inl, inr, refl, ap, some, List, [], ◌∷◌, ◌++◌,
  length, arith, Result, ok, err, Bool-cases,
}
use localx_llama.Proxy.{poll, FilterOps, collect, sse_think_stream, streaming}
use localx_llama.Text.{Text, is_empty, concat}

-- The upstream's first error, as the items that report it.
abbrev pub failure : {E : Type 0} → List (Result E Text) → List (Result E Text)
failure [] = []
failure (err e ∷ inner) = err e ∷ []
failure (ok chunk ∷ inner) = failure inner

-- Good items.
abbrev pub good : {E : Type 0} → List Text → List (Result E Text)
good [] = []
good (t ∷ texts) = ok t ∷ good texts

empty-nil : (t : Text) → is_empty t ≡ true → t ≡ []
empty-nil [] h = refl
empty-nil (c ∷ t) h = absurd cc

module _ {S E : Type 0} (filter : FilterOps S) where
  -- All that the filter gives for the upstream's chunks up to its end or its first error, and then
  -- when it is flushed.
  abbrev pub shown : List (Result E Text) → S → Text
  shown [] s = (filter.flush s).0
  shown (err e ∷ inner) s = (filter.flush s).0
  shown (ok chunk ∷ inner) s = (filter.feed chunk s).0 ++ shown inner (filter.feed chunk s).1

  collected :
      (n : ℕ) (inner : List (Result E Text)) (s : S)
      → length inner ≤ n
      → (texts : List Text) × (collect filter (suc (suc (suc n))) (inner, s, streaming)
          ≡ some (good texts ++ failure inner))
        × (concat texts ≡ shown inner s)
  unfolding collect poll
  collected n [] s le = ((filter.flush s).0 ∷ [], refl, append-nil (filter.flush s).0)
  collected n (err e ∷ inner) s le = elim (Bool-cases (is_empty (filter.flush s).0)) [
    | inl nothing ↦ ([], rw (nothing, collect) refl, sym (empty-nil (filter.flush s).0 nothing))
    | inr tail ↦ ((filter.flush s).0 ∷ [], rw (tail, collect) refl, append-nil (filter.flush s).0)
  ]
  collected zero (ok chunk ∷ inner) s le = absurd (omega arith)
  collected (suc n) (ok chunk ∷ inner) s le =
      let (texts, run, e) = collected n inner (filter.feed chunk s).1 (omega arith) in
      (
        (filter.feed chunk s).0 ∷ texts,
        rw (run, collect) refl,
        ap (λ t. (filter.feed chunk s).0 ++ t) e,
      )

  -- The client receives all that the filter gave, in order and with the text that it held back,
  -- and behind it the upstream's first error, if there is one, and nothing more: the stream ends.
  pub sse_think_stream_lem :
      (inner : List (Result E Text))
      → (texts : List Text) × (sse_think_stream filter inner ≡ some (good texts ++ failure inner))
        × (concat texts ≡ shown inner filter.fresh)
  unfolding sse_think_stream
  sse_think_stream_lem inner = collected (length inner) inner filter.fresh (omega arith)
