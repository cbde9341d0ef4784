-- ===== src/Nothink/Sse/Stages.antt =====
-- The stages that an event passes.
use localx_llama.Nothink.Sse.{
  Value, EventState, transform_lines, open_block, release_tail, rewrite_lines, close_block,
  has_type, event_type,
}
use localx_llama.Prelude.{◌≡◌, refl, ◌∙◌, Bool, true, false, ◌||◌, Option, none, List, [], ◌++◌, ap}
use localx_llama.Text.{Text, codes}

or_false : (b : Bool) → (b || false) ≡ b
or_false true = refl
or_false false = refl

module _ (parse : Text → Option Value) (print : Value → Text) where
  -- The stages of an event, one after the other.
  pub transform_stages :
      (json : Option Value) (terminal : Bool) (body : List Text)
      → (st st₁ st₂ st₃ : EventState) (start tail out : Text)
      → open_block parse print json st ≡ (start, st₁)
      → release_tail parse print (terminal || has_type (codes "content_block_stop") json) st₁
        ≡ (tail, st₂)
      → rewrite_lines parse print body st₂ ≡ (out, st₃)
      → transform_lines parse print json terminal body st
        ≡ (start ++ (tail ++ out), close_block json st₃)
  unfolding transform_lines
  transform_stages json terminal body st st₁ st₂ st₃ start tail out h k l =
      rw (h, transform_lines) (rw (k, transform_lines) (rw (l, transform_lines) refl))

  open_untyped :
      (json : Option Value) (st : EventState)
      → event_type json ≡ none
      → open_block parse print json st ≡ ([], st)
  unfolding open_block
  open_untyped json st h = rw (h, open_block) refl

  pub close_untyped :
      (json : Option Value) (st : EventState) → event_type json ≡ none → close_block json st ≡ st
  unfolding close_block
  close_untyped json st h = rw (h, close_block) refl

  -- An event with no type takes its text through the stripper only.
  pub transform_untyped :
      (json : Option Value) (terminal : Bool) (body : List Text)
      → (st st₂ st₃ : EventState) (tail out : Text) → event_type json ≡ none
      → release_tail parse print terminal st ≡ (tail, st₂)
      → rewrite_lines parse print body st₂ ≡ (out, st₃)
      → transform_lines parse print json terminal body st ≡ (tail ++ out, st₃)
  transform_untyped json terminal body st st₂ st₃ tail out h k l =
      let same : (terminal || has_type (codes "content_block_stop") json) ≡ terminal =
        rw (h, has_type) (or_false terminal) in
      transform_stages json terminal body st st st₂ st₃ [] tail out (open_untyped json st h)
        (rw same k) l
      ∙ ap (λ x. (tail ++ out, x)) (close_untyped json st₃ h)
