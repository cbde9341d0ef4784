-- ===== src/Quant/Sets/Laws.antt =====
-- What a candidate is made of.
use localx_llama.Maps.Each.{Each, Each-get, Each-insert}
use localx_llama.Quant.Sets.{
  candidate_of, candidates_of, quant_candidates, shard_parts, quant_key_from_filename, is_auxiliary,
  qualifier_count, QuantFile, Sets, best_set, group_files, is_complete_set, push_file,
}
use localx_llama.Quant.Sets.Sorted.{Member}
use localx_llama.Quant.{QuantCandidate}
use localx_llama.Prelude.{
  refl, ap, true, false, Option, none, List, ◌++◌, Option-cases, if◌then◌else◌, ltb, unwrap_or, ◌≡◌,
  some, [], ◌∷◌, Bool-cases, All, inl, inr,
}
use localx_llama.Text.{Text}
use localx_llama.Maps.{Map, get, insert}

-- A file of the listing that says this key and stands in this set, and is a part of a model.
pub record IsPart (files : List QuantFile) (key base : Text) (file : QuantFile) : Type 0 where
  pub listed : Member file files
  pub model : is_auxiliary file.name ≡ false
  pub keyed : quant_key_from_filename file.name ≡ some key
  pub based : (shard_parts file.name).0 ≡ base

module _ (files : List QuantFile) where
  abbrev AreParts : Text → Text → List QuantFile → Type 0
  AreParts key base parts = All (IsPart files key base) parts

  abbrev AreSets : Text → Sets → Type 0
  AreSets key sets = Each (AreParts key) sets

  abbrev AreGroups : Map Sets → Type 0
  AreGroups groups = Each AreSets groups

  parts_of :
      (key base : Text) (sets : Sets)
      → AreSets key sets
      → AreParts key base (unwrap_or (get base sets) [])
  parts_of key base sets h = elim (Option-cases (get base sets)) [
    | inl e ↦ rw e tt
    | inr (parts, e) ↦ rw e (Each-get (AreParts key) base sets parts h e)
  ]

  sets_of :
      (key : Text) (groups : Map Sets)
      → AreGroups groups
      → AreSets key (unwrap_or (get key groups) [])
  sets_of key groups h = elim (Option-cases (get key groups)) [
    | inl e ↦ rw e tt
    | inr (sets, e) ↦ rw e (Each-get AreSets key groups sets h e)
  ]

  All-snoc :
      (key base : Text) (parts : List QuantFile) (file : QuantFile)
      → AreParts key base parts
      → IsPart files key base file
      → AreParts key base (parts ++ (file ∷ []))
  All-snoc key base [] file h p = (p, tt)
  All-snoc key base (x ∷ parts) file (h, hs) p = (h, All-snoc key base parts file hs p)

  push_file-AreGroups :
      (key base : Text) (file : QuantFile) (groups : Map Sets)
      → IsPart files key base file
      → AreGroups groups
      → AreGroups (push_file key base file groups)
  unfolding push_file
  push_file-AreGroups key base file groups p h =
      let sets : Sets = unwrap_or (get key groups) [] in
      let good = sets_of key groups h in
      Each-insert AreSets key (insert base (unwrap_or (get base sets) [] ++ (file ∷ [])) sets)
        groups
        (Each-insert (AreParts key) base (unwrap_or (get base sets) [] ++ (file ∷ [])) sets
          (All-snoc key base (unwrap_or (get base sets) []) file (parts_of key base sets good) p)
          good)
        h

  group_step :
      (file : QuantFile) (rest : List QuantFile) (groups next : Map Sets)
      → (if is_auxiliary file.name then groups else elim (quant_key_from_filename file.name) [
        | none ↦ groups
        | some key ↦ push_file key (shard_parts file.name).0 file groups
      ])
        ≡ next
      → group_files (file ∷ rest) groups ≡ group_files rest next
  unfolding group_files
  group_step file rest groups next e = ap (λ g. group_files rest g) e

  group_files-AreGroups :
      (rest : List QuantFile) (groups : Map Sets)
      → All (λ f. Member f files) rest
      → AreGroups groups
      → AreGroups (group_files rest groups)
  group_files-AreGroups [] groups hs h = unfold group_files in h
  group_files-AreGroups (file ∷ rest) groups (m, hs) h =
      elim (Bool-cases (is_auxiliary file.name)) [
        | inl beside ↦
            rw (group_step file rest groups groups (rw beside refl))
              (group_files-AreGroups rest groups hs h)
        | inr model ↦ elim (Option-cases (quant_key_from_filename file.name)) [
          | inl unkeyed ↦
              rw (group_step file rest groups groups (rw model (rw unkeyed refl)))
                (group_files-AreGroups rest groups hs h)
          | inr (key, keyed) ↦
              rw
                (group_step file rest groups (push_file key (shard_parts file.name).0 file groups)
                  (rw model (rw keyed refl)))
                (group_files-AreGroups rest (push_file key (shard_parts file.name).0 file groups) hs
                  (push_file-AreGroups key (shard_parts file.name).0 file groups
                    (record { listed = m; model = model; keyed = keyed; based = refl }) h))
        ]
      ]

  -- The best set so far is complete, and of parts.
  abbrev IsChoice : Text → Option (Text × List QuantFile) → Type 0
  IsChoice key none = Unit
  IsChoice key (some (base, parts)) = (is_complete_set parts ≡ true) × AreParts key base parts

  best_step :
      (base : Text) (parts : List QuantFile) (sets : Sets)
      (best next : Option (Text × List QuantFile))
      → (if is_complete_set parts
          then elim best [
            | none ↦ some (base, parts)
            | some (b, ps) ↦
                if ltb (qualifier_count base) (qualifier_count b)
                then some (base, parts)
                else some (b, ps)
          ]
          else best)
        ≡ next
      → best_set ((base, parts) ∷ sets) best ≡ best_set sets next
  unfolding best_set
  best_step base parts sets best next e = ap (λ b. best_set sets b) e

  best_set-IsChoice :
      (key : Text) (sets : Sets) (best : Option (Text × List QuantFile))
      → AreSets key sets
      → IsChoice key best
      → IsChoice key (best_set sets best)
  best_set-IsChoice key [] best h c = unfold best_set in c
  best_set-IsChoice key ((base, parts) ∷ sets) best (h, hs) c =
      elim (Bool-cases (is_complete_set parts)) [
        | inr partial ↦
            rw (best_step base parts sets best best (rw partial refl))
              (best_set-IsChoice key sets best hs c)
        | inl complete ↦ elim (Option-cases best) [
          | inl first ↦
              rw (best_step base parts sets best (some (base, parts)) (rw complete (rw first refl)))
                (best_set-IsChoice key sets (some (base, parts)) hs (complete, h))
          | inr ((b, ps), e) ↦ elim (Bool-cases (ltb (qualifier_count base) (qualifier_count b))) [
            | inl fewer ↦
                rw
                  (best_step base parts sets best (some (base, parts))
                    (rw complete (rw e (rw fewer refl))))
                  (best_set-IsChoice key sets (some (base, parts)) hs (complete, h))
            | inr more ↦
                rw (best_step base parts sets best best (rw complete (rw e (rw more refl))))
                  (best_set-IsChoice key sets best hs c)
          ]
        ]
      ]

  -- A candidate that is made of one complete set.
  pub record IsCandidate (c : QuantCandidate) : Type 0 where
    pub base : Text
    pub parts : List QuantFile
    pub made : c ≡ candidate_of c.key parts
    pub complete : is_complete_set parts ≡ true
    pub all_parts : All (IsPart files c.key base) parts

  group_made :
      (key base : Text) (parts : List QuantFile) (sets : Sets) (groups : Map Sets)
      → best_set sets none ≡ some (base, parts)
      → candidates_of ((key, sets) ∷ groups) ≡ candidate_of key parts ∷ candidates_of groups
  unfolding candidates_of
  group_made key base parts sets groups e = rw (e, candidates_of) refl

  group_dropped :
      (key : Text) (sets : Sets) (groups : Map Sets)
      → best_set sets none ≡ none
      → candidates_of ((key, sets) ∷ groups) ≡ candidates_of groups
  unfolding candidates_of
  group_dropped key sets groups e = rw (e, candidates_of) refl

  candidates_of-All :
      (groups : Map Sets) → AreGroups groups → All IsCandidate (candidates_of groups)
  candidates_of-All [] h = unfold candidates_of in tt
  candidates_of-All ((key, sets) ∷ groups) (h, hs) = elim (Option-cases (best_set sets none)) [
    | inl e ↦ rw (group_dropped key sets groups e) (candidates_of-All groups hs)
    | inr ((base, parts), e) ↦
        let choice : IsChoice key (some (base, parts)) =
          rw e at (best_set-IsChoice key sets none h tt) in
        rw (group_made key base parts sets groups e) (
          record {
            base = base;
            parts = parts;
            made = unfold candidate_of in refl;
            complete = choice.0;
            all_parts = unfold candidate_of in choice.1;
          },
          candidates_of-All groups hs,
        )
  ]

  All-Member :
      (rest : List QuantFile)
      → ((f : QuantFile) → Member f rest → Member f files)
      → All (λ f. Member f files) rest
  All-Member [] h = tt
  All-Member (f ∷ rest) h = (h f (inl refl), All-Member rest (λ g m. h g (inr m)))

  -- Every candidate is made of one set of files that `is_complete_set` accepts. They are files of the
  -- listing with the candidate's key in their names, with one name but for the shard, and none is a
  -- projector or a draft head.
  pub quant_candidates-IsCandidate : All IsCandidate (quant_candidates files)
  unfolding quant_candidates
  quant_candidates-IsCandidate =
      candidates_of-All (group_files files [])
        (group_files-AreGroups files [] (All-Member files (λ f m. m)) tt)
