-- ===== src/Nothink/Request/Cleaned.antt =====
-- What a response that is not streamed shows.
use localx_llama.Json.{
  boolean, null, number, Value, string, array, object, Fields, get_field, get_key, as_str, is_text,
}
use localx_llama.Json.Laws.{get-modify_field}
use localx_llama.Prelude.{
  ◌>>=?◌, Bool, true, false, ◌≡◌, ◌⊎◌, inl, inr, refl, Option, none, some, [], ◌∷◌, if◌then◌else◌,
  Bool-cases, Option-cases,
}
use localx_llama.Text.{Text, codes, is_blank, ◌=ᵗ◌}
use localx_llama.Json.Edit.{key, replace, modify}
use localx_llama.Nothink.OneShot.{strip_think_text, fallback_if_empty}
use localx_llama.Nothink.{empty_after_think}
use localx_llama.Nothink.Strips.{Strips, strip_think_text-Strips}
use localx_llama.Nothink.Request.Response.{clean, clean_block}

abbrev pub type_is_text : Value → Bool
type_is_text b = is_text (codes "text") (get_key (codes "type") b >>=? λ t. as_str t)

not_cleaned : (b : Value) → type_is_text b ≡ false → clean_block b ≡ (b, false)
unfolding clean_block
not_cleaned b h = rw (h, clean_block) refl

no_text :
    (b : Value)
    → type_is_text b ≡ true
    → (get_key (codes "text") b >>=? λ t. as_str t) ≡ none
    → clean_block b ≡ (b, false)
unfolding clean_block
no_text b h e = rw (h, e, clean_block) refl

cleaned :
    (b : Value) (t : Text)
    → type_is_text b ≡ true
    → (get_key (codes "text") b >>=? λ t. as_str t) ≡ some t
    → clean_block b ≡ (replace (key (codes "text") ∷ []) (string (clean t)) b, true)
unfolding clean_block
cleaned b t h e = rw (h, e, clean_block) refl

as_str-some : (o : Option Value) (t : Text) → (o >>=? λ v. as_str v) ≡ some t → o ≡ some (string t)
as_str-some none t h = cc
as_str-some (some null) t h = cc
as_str-some (some (boolean b)) t h = cc
as_str-some (some (number n)) t h = cc
as_str-some (some (string s)) t h = cc
as_str-some (some (array items)) t h = cc
as_str-some (some (object fs)) t h = cc

-- A text block keeps all its fields but the text, which becomes what the relation `Strips` shows of
-- it, or the notice where that is blank. Any other block is left as it is.
pub clean_block_lem :
    (fs : Fields)
    → ((t : Text) × (o : Text) × Strips false t o
        × (type_is_text (object fs) ≡ true)
        × (get_field (codes "text") fs ≡ some (string t))
        × ((clean_block (object fs)).1 ≡ true)
        × ((k : Text)
            → get_key k (clean_block (object fs)).0 ≡ (
                if codes "text" =ᵗ k
                then some (string (if is_blank o then empty_after_think else o))
                else get_field k fs)))
      ⊎ (((type_is_text (object fs) ≡ false)
            ⊎ ((get_field (codes "text") fs >>=? λ t. as_str t) ≡ none))
          × (clean_block (object fs) ≡ (object fs, false)))
clean_block_lem fs = elim (Bool-cases (type_is_text (object fs))) [
  | inr other ↦ inr (inl other, not_cleaned (object fs) other)
  | inl is_type ↦ elim (Option-cases (get_field (codes "text") fs >>=? λ t. as_str t)) [
    | inl nothing ↦ inr (inr nothing, no_text (object fs) is_type nothing)
    | inr (t, e) ↦
        let found : get_field (codes "text") fs ≡ some (string t) =
          as_str-some (get_field (codes "text") fs) t e in
        inl (
          t,
          strip_think_text t,
          (strip_think_text-Strips t).1,
          is_type,
          found,
          rw (cleaned (object fs) t is_type e) refl,
          λ k. rw (cleaned (object fs) t is_type e) (
              unfold replace modify fallback_if_empty in
              get-modify_field (codes "text") (λ _. string (clean t)) fs k (string t) found),
        )
  ]
]
