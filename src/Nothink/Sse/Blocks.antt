-- ===== src/Nothink/Sse/Blocks.antt =====
-- The content blocks that are open at the client.
use localx_llama.Prelude.{
  ==_iff, ℕ, ◌≡◌, refl, ◌⊎◌, Bool, true, false, ◌&&◌, ◌||◌, Option, List, [], ◌∷◌, arith,
  Bool-cases, if◌then◌else◌, ◌==◌, any, inl, inr,
}
use localx_llama.Text.{Text, codes}
use localx_llama.Json.{Value}
use localx_llama.Nothink.Sse.{
  EventState, open_block, has_type, is_text_delta, event_index, insert_block, remove_block,
  anthropic_text_start_frame,
}

-- The client was told of the block.
abbrev pub is_open : ℕ → EventState → Bool
is_open i st = any (λ j. j == i) st.open_blocks

insert_block_old :
    (i : ℕ) (blocks : List ℕ)
    → any (λ j. j == i) blocks ≡ true
    → insert_block i blocks ≡ (blocks, false)
unfolding insert_block
insert_block_old i blocks h = rw (h, insert_block) refl

insert_block_new :
    (i : ℕ) (blocks : List ℕ)
    → any (λ j. j == i) blocks ≡ false
    → insert_block i blocks ≡ (i ∷ blocks, true)
unfolding insert_block
insert_block_new i blocks h = rw (h, insert_block) refl

same_index : (i : ℕ) → (i == i) ≡ true
same_index i = (==_iff i i).1 refl

is_open-inserted : (i : ℕ) (blocks : List ℕ) → any (λ j. j == i) ((insert_block i blocks).0) ≡ true
is_open-inserted i blocks = elim (Bool-cases (any (λ j. j == i) blocks)) [
  | inl old ↦ rw (insert_block_old i blocks old) old
  | inr new ↦ rw (insert_block_new i blocks new) (rw (same_index i) refl)
]

is_open-removed : (i : ℕ) (blocks : List ℕ) → any (λ j. j == i) (remove_block i blocks) ≡ false
unfolding remove_block
is_open-removed i [] = refl
is_open-removed i (j ∷ blocks) = ground (arith, is_open-removed i blocks)

module _ (parse : Text → Option Value) (print : Value → Text) where
  -- Whether the event opens a block: it starts one, or it is a text delta of one.
  abbrev pub is_opening : Option Value → Bool
  is_opening json =
      has_type (codes "content_block_start") json
      || has_type (codes "content_block_delta") json && is_text_delta json

  delta_start :
      (json : Option Value) (st : EventState)
      → has_type (codes "content_block_start") json ≡ false
      → (has_type (codes "content_block_delta") json && is_text_delta json) ≡ true
      → (open_block parse print json st).0 ≡ (
          if has_type (codes "content_block_start") json || is_open (event_index json) st
          then []
          else anthropic_text_start_frame parse print (event_index json))
  unfolding open_block
  delta_start json st other delta = elim (Bool-cases (is_open (event_index json) st)) [
    | inl old ↦ rw (other, open_block) (rw (delta, open_block) (rw old refl))
    | inr new ↦ rw (other, open_block) (rw (delta, open_block) (rw new refl))
  ]

  -- The start that a server left out is sent in front of a text delta whose block is not open, and
  -- in front of no other event. After a start or a text delta its block is open, so that the start
  -- is not sent again, and any other event changes nothing here.
  pub open_block_lem :
      (json : Option Value) (st : EventState)
      → ((is_opening json ≡ true)
          × (is_open (event_index json) (open_block parse print json st).1 ≡ true)
          × ((open_block parse print json st).0 ≡ (
              if has_type (codes "content_block_start") json || is_open (event_index json) st
              then []
              else anthropic_text_start_frame parse print (event_index json))))
        ⊎ ((is_opening json ≡ false) × (open_block parse print json st ≡ ([], st)))
  unfolding open_block
  open_block_lem json st = elim (Bool-cases (has_type (codes "content_block_start") json)) [
    | inl starts ↦ inl (
      rw starts refl,
      rw (starts, open_block) (is_open-inserted (event_index json) st.open_blocks),
      rw (starts, open_block) refl,
    )
    | inr other ↦
        elim (Bool-cases (has_type (codes "content_block_delta") json && is_text_delta json)) [
          | inr neither ↦
              inr (rw (other, neither) refl, rw (other, open_block) (rw (neither, open_block) refl))
          | inl delta ↦ inl (
            rw (other, delta) refl,
            rw (other, open_block)
                (rw (delta, open_block) (is_open-inserted (event_index json) st.open_blocks)),
            delta_start json st other delta,
          )
        ]
  ]
