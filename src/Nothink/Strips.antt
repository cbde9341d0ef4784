-- ===== src/Nothink/Strips.antt =====
-- What nothink.rs hides, as a relation between an input and its visible text. It does not mention
-- chunks, buffers or fuel.
use localx_llama.Nothink.OneShot.{strip_think_text, strip_loop, strip_think}
use localx_llama.Prelude.{
  ℕ, zero, suc, ◌+◌, ◌<◌, Bool, true, false, none, some, [], ◌++◌, ◌≡◌, refl, ap, ◌∙◌, inl, inr,
  arith, Option-cases, append_assoc,
}
use localx_llama.Text.{Text, byte_len, split_once}
use localx_llama.Text.Find.{byte_len-split_once}
use localx_llama.Nothink.{open_tag, close_tag}

-- `Strips in_think input visible`: read from inside a span, or from outside, the input shows this.
pub data Strips : Bool → Text → Text → Type 0 where
  plain : {s : Text} → split_once open_tag s ≡ none → Strips false s s
  opened :
      {s p a o : Text}
      → split_once open_tag s ≡ some (p, a)
      → Strips true a o
      → Strips false s (p ++ o)
  closed :
      {s x a o : Text} → split_once close_tag s ≡ some (x, a) → Strips false a o → Strips true s o
  unclosed : {s : Text} → split_once close_tag s ≡ none → Strips true s s

pub byte_len-open_tag : byte_len open_tag ≡ 7
unfolding byte_len
byte_len-open_tag = refl

pub byte_len-close_tag : byte_len close_tag ≡ 8
unfolding byte_len
byte_len-close_tag = refl

pub shorter_open :
    (s p a : Text) → split_once open_tag s ≡ some (p, a) → byte_len p + byte_len a + 7 ≡ byte_len s
shorter_open s p a h = omega (arith, byte_len-split_once open_tag s p a h, byte_len-open_tag)

pub shorter_close :
    (s p a : Text) → split_once close_tag s ≡ some (p, a) → byte_len p + byte_len a + 8 ≡ byte_len s
shorter_close s p a h = omega (arith, byte_len-split_once close_tag s p a h, byte_len-close_tag)

module _ (fuel : ℕ) (out s : Text) where
  loop-plain : split_once open_tag s ≡ none → strip_loop (suc fuel) out s ≡ some (out ++ s)
  unfolding strip_loop
  loop-plain h = rw (h, strip_loop)

  loop-unclosed :
      (p a : Text)
      → split_once open_tag s ≡ some (p, a)
      → split_once close_tag a ≡ none
      → strip_loop (suc fuel) out s ≡ some ((out ++ p) ++ a)
  unfolding strip_loop
  loop-unclosed p a h k = rw (h, k, strip_loop)

  loop-span :
      (p a x b : Text)
      → split_once open_tag s ≡ some (p, a)
      → split_once close_tag a ≡ some (x, b)
      → strip_loop (suc fuel) out s ≡ strip_loop fuel (out ++ p) b
  unfolding strip_loop
  loop-span p a x b h k = rw (h, k, strip_loop)

-- With fuel for its input the loop appends what the relation shows.
strip_loop-Strips :
    (fuel : ℕ) (out : Text) {s o : Text}
    → byte_len s < fuel
    → Strips false s o
    → strip_loop fuel out s ≡ some (out ++ o)
strip_loop-Strips zero out lt d = absurd (omega arith)
strip_loop-Strips (suc fuel) out {s} lt (plain h) = loop-plain fuel out s h
strip_loop-Strips (suc fuel) out {s} lt (opened {p} {a} h (unclosed k)) =
    loop-unclosed fuel out s p a h k ∙ ap some (append_assoc out p a)
strip_loop-Strips (suc fuel) out {s} lt (opened {p} {a} h (closed {x} {a = b} {o} k d)) =
    loop-span fuel out s p a x b h k
    ∙ strip_loop-Strips fuel (out ++ p) (omega (arith, shorter_open s p a h, shorter_close a x b k))
        d
    ∙ ap some (append_assoc out p o)

pub Strips-strip_think : {s o : Text} → Strips false s o → strip_think s ≡ some o
unfolding strip_think
Strips-strip_think {s} d = strip_loop-Strips (suc (byte_len s)) [] (omega arith) d

-- Every input shows something.
visible :
    (fuel : ℕ) (in_think : Bool) (s : Text) → byte_len s < fuel → (o : Text) × Strips in_think s o
visible zero b s lt = absurd (omega arith)
visible (suc fuel) false s lt = elim (Option-cases (split_once open_tag s)) [
  | inl h ↦ (s, plain h)
  | inr ((p, a), h) ↦
      let (o, d) = visible fuel true a (omega (arith, shorter_open s p a h)) in (p ++ o, opened h d)
]
visible (suc fuel) true s lt = elim (Option-cases (split_once close_tag s)) [
  | inl h ↦ (s, unclosed h)
  | inr ((p, a), h) ↦
      let (o, d) = visible fuel false a (omega (arith, shorter_close s p a h)) in (o, closed h d)
]

-- `strip_think` ends on every input, and its result is what the relation `Strips` shows: the text
-- outside the spans that close, and the text behind an opening tag that none follows.
pub strip_think-Strips : (s : Text) → (o : Text) × (strip_think s ≡ some o) × Strips false s o
strip_think-Strips s =
    let (o, d) = visible (suc (byte_len s)) false s (omega arith) in (o, Strips-strip_think d, d)

pub strip_think_text-Strips :
    (s : Text) → (strip_think s ≡ some (strip_think_text s)) × Strips false s (strip_think_text s)
unfolding strip_think_text
strip_think_text-Strips s =
    let (o, e, d) = strip_think-Strips s in
    let same : strip_think_text s ≡ o = rw (e, strip_think_text) refl in rw same (e, d)
