-- ===== src/Types/Compact.antt =====
-- The shape of an aggregate of src/types.cpp: one candidate for each index, and no two neighbouring
-- parts that `append_part` would glue.
use gemini_cpp.Base.{Bool, true, false, ◌&&◌, List, [], ◌∷◌, ◌≡◌, arith, All, Bool-cases, inl, inr}
use gemini_cpp.Base.Int.{ℤ, eqb_ℤ}
use gemini_cpp.Base.Text.{Bytes}
use gemini_cpp.Types.{
  Part, PartValue, text, Candidate, GenerateResponse, glues, glue, append_part, append_parts,
  absorb, merge_candidate, merge_candidates, merge,
}

module _ {J : Type 0} where
  abbrev both_text : PartValue J → PartValue J → Bool
  both_text (text a) (text b) = true
  both_text _ _ = false

  abbrev pub gluable : Part J → Part J → Bool
  gluable p q = both_text p.value q.value && glues p q

  abbrev pub IsCompact : List (Part J) → Type 0
  IsCompact [] = Unit
  IsCompact (p ∷ []) = Unit
  IsCompact (p ∷ q ∷ ps) = (gluable p q ≡ false) × IsCompact (q ∷ ps)

  abbrev pub IsCompactCandidate : Candidate J → Type 0
  IsCompactCandidate c = IsCompact c.content.parts

  abbrev part : PartValue J → Bool → Bytes → Part J
  part v s a = record { value = v; thought = s; thought_signature = a }

  glue-IsCompact :
      (u v w : PartValue J) (r s t : Bool) (a b c : Bytes)
      → gluable (part u r a) (part v s b) ≡ false
      → IsCompact (part u r a ∷ glue (part v s b) (part w t c))
  unfolding glue
  glue-IsCompact (text x) (text y) (text z) r s t a b c h = ground arith
  glue-IsCompact u v w r s t a b c h = ground arith

  glue_first-IsCompact :
      (v w : PartValue J) (s t : Bool) (b c : Bytes) → IsCompact (glue (part v s b) (part w t c))
  unfolding glue
  glue_first-IsCompact (text y) (text z) s t b c = ground arith
  glue_first-IsCompact v w s t b c = ground arith

  append_part-IsCompact :
      (ps : List (Part J)) (q : Part J) → IsCompact ps → IsCompact (append_part ps q)
  unfolding append_part
  append_part-IsCompact [] q h = tt
  append_part-IsCompact (p ∷ []) q h = glue_first-IsCompact p.value q.value _ _ _ _
  append_part-IsCompact (p ∷ r ∷ []) q h = glue-IsCompact p.value r.value q.value _ _ _ _ _ _ h.0
  append_part-IsCompact (p ∷ r ∷ s ∷ ps) q h = (h.0, append_part-IsCompact (r ∷ s ∷ ps) q h.1)

  append_parts-IsCompact : (qs ps : List (Part J)) → IsCompact ps → IsCompact (append_parts ps qs)
  unfolding append_parts
  append_parts-IsCompact [] ps h = h
  append_parts-IsCompact (q ∷ qs) ps h =
      append_parts-IsCompact qs (append_part ps q) (append_part-IsCompact ps q h)

  -- No later candidate has the index of an earlier one.
  abbrev pub LacksIndex : ℤ → List (Candidate J) → Type 0
  LacksIndex i = All (λ c. eqb_ℤ i c.index ≡ false)

  abbrev pub IsAggregate : List (Candidate J) → Type 0
  IsAggregate [] = Unit
  IsAggregate (c ∷ cs) = IsCompactCandidate c × LacksIndex c.index cs × IsAggregate cs

  merge_candidate-LacksIndex :
      (i : ℤ) (cs : List (Candidate J)) (inc : Candidate J)
      → eqb_ℤ i inc.index ≡ false
      → LacksIndex i cs
      → LacksIndex i (merge_candidate cs inc)
  unfolding merge_candidate absorb
  merge_candidate-LacksIndex i [] inc e h = (e, tt)
  merge_candidate-LacksIndex i (c ∷ cs) inc e h = elim (Bool-cases (eqb_ℤ c.index inc.index)) [
    | inl found ↦ rw found (h.0, h.1)
    | inr other ↦ rw other (h.0, merge_candidate-LacksIndex i cs inc e h.1)
  ]

  merge_candidate-IsAggregate :
      (cs : List (Candidate J)) (inc : Candidate J)
      → IsAggregate cs
      → IsAggregate (merge_candidate cs inc)
  unfolding merge_candidate absorb
  merge_candidate-IsAggregate [] inc h = (append_parts-IsCompact inc.content.parts [] tt, tt, tt)
  merge_candidate-IsAggregate (c ∷ cs) inc h = elim (Bool-cases (eqb_ℤ c.index inc.index)) [
    | inl found ↦ rw found (append_parts-IsCompact inc.content.parts c.content.parts h.0, h.1, h.2)
    | inr other ↦ rw other (
      h.0,
      merge_candidate-LacksIndex c.index cs inc other h.1,
      merge_candidate-IsAggregate cs inc h.2,
    )
  ]

  merge_candidates-IsAggregate :
      (more cs : List (Candidate J)) → IsAggregate cs → IsAggregate (merge_candidates cs more)
  unfolding merge_candidates
  merge_candidates-IsAggregate [] cs h = h
  merge_candidates-IsAggregate (c ∷ more) cs h =
      merge_candidates-IsAggregate more (merge_candidate cs c) (merge_candidate-IsAggregate cs c h)

  -- Merging any chunk keeps an aggregate well formed: its candidates have different indices, and no
  -- two neighbouring parts of a candidate could still be glued.
  pub merge-IsAggregate :
      (r chunk : GenerateResponse J)
      → IsAggregate r.candidates
      → IsAggregate (merge r chunk).candidates
  unfolding merge
  merge-IsAggregate r chunk h = merge_candidates-IsAggregate chunk.candidates r.candidates h
