-- ===== src/Types/Merge.antt =====
-- `GenerateResponse::merge` of src/types.cpp loses and repeats nothing of a stream: the aggregate's
-- text, function calls and metadata are those of the chunks, in their order.
use gemini_cpp.Base.{
  Bool, false, List, [], ◌∷◌, ◌++◌, ◌≡◌, refl, sym, ap, ◌∙◌, subst, arith, append-nil, append_assoc,
  if◌then◌else◌, Bool-cases, inl, inr,
}
use gemini_cpp.Base.Int.{ℤ, eqb_ℤ, eqb_ℤ_eq, eqb_ℤ_apart}
use gemini_cpp.Base.Text.{Bytes}
use gemini_cpp.Types.{
  Part, PartValue, text, FunctionCall, Candidate, GenerateResponse, glue, append_part, append_parts,
  absorb, merge_candidate, merge_candidates, merge, fresh, text_of, call_of, empty_response,
}

-- The aggregate of a stream: `merge` for every chunk, in turn.
unfoldable pub stream_from :
    {J : Type 0} → GenerateResponse J → List (GenerateResponse J) → GenerateResponse J
stream_from r [] = r
stream_from r (chunk ∷ chunks) = stream_from (merge r chunk) chunks

pub stream_from-concat :
    {J : Type 0} (chunks : List (GenerateResponse J)) (r c : GenerateResponse J)
    → stream_from r (chunks ++ c ∷ []) ≡ merge (stream_from r chunks) c
unfolding stream_from
stream_from-concat [] r c = refl
stream_from-concat (d ∷ ds) r c = stream_from-concat ds (merge r d) c

-- A view reads each part by itself, and cannot tell glued parts from the two parts.
module _ {J A : Type 0} (view_part : Part J → List A) where
  view : List (Part J) → List A
  view [] = []
  view (p ∷ ps) = view_part p ++ view ps

  -- The view of the candidate with an index, and of all candidates with it.
  pub at_index : ℤ → List (Candidate J) → List A
  at_index i [] = []
  at_index i (c ∷ cs) = if eqb_ℤ c.index i then view c.content.parts else at_index i cs

  pub all_at : ℤ → List (Candidate J) → List A
  all_at i [] = []
  all_at i (c ∷ cs) = (if eqb_ℤ c.index i then view c.content.parts else []) ++ all_at i cs

  pub all_in_stream : ℤ → List (GenerateResponse J) → List A
  all_in_stream i [] = []
  all_in_stream i (r ∷ rs) = all_at i r.candidates ++ all_in_stream i rs

  module _ (view-glue : (p q : Part J) → view (glue p q) ≡ view_part p ++ (view_part q ++ [])) where
    view-append_part :
        (ps : List (Part J)) (q : Part J) → view (append_part ps q) ≡ view ps ++ view_part q
    unfolding append_part view
    view-append_part [] q = append-nil (view_part q)
    view-append_part (p ∷ []) q = view-glue p q ∙ simp (append-nil)
    view-append_part (p ∷ r ∷ ps) q =
        ap (◌++◌ (view_part p)) (view-append_part (r ∷ ps) q)
        ∙ sym (append_assoc (view_part p) (view (r ∷ ps)) (view_part q))

    view-append_parts : (qs ps : List (Part J)) → view (append_parts ps qs) ≡ view ps ++ view qs
    unfolding append_parts view
    view-append_parts [] ps = sym (append-nil (view ps))
    view-append_parts (q ∷ qs) ps =
        view-append_parts qs (append_part ps q)
        ∙ ap (λ v. v ++ view qs) (view-append_part ps q)
        ∙ append_assoc (view ps) (view_part q) (view qs)

    absorbed-view :
        (c inc : Candidate J)
        → view (absorb c inc).content.parts ≡ view c.content.parts ++ view inc.content.parts
    unfolding absorb
    absorbed-view c inc = view-append_parts inc.content.parts c.content.parts

    at_index-absorb :
        (i : ℤ) (c inc : Candidate J) (cs : List (Candidate J))
        → c.index ≡ inc.index
        → at_index i (absorb c inc ∷ cs)
          ≡ at_index i (c ∷ cs) ++ (if eqb_ℤ inc.index i then view inc.content.parts else [])
    unfolding at_index absorb
    at_index-absorb i c inc cs e =
        subst
          (λ k.
            at_index i (absorb c inc ∷ cs)
            ≡ at_index i (c ∷ cs) ++ (if eqb_ℤ k i then view inc.content.parts else []))
          e
          (elim (Bool-cases (eqb_ℤ c.index i)) [
            | inl hit ↦ rw hit (absorbed-view c inc)
            | inr miss ↦ rw miss (sym (append-nil (at_index i cs)))
          ])

    at_index-skip :
        (i : ℤ) (c inc : Candidate J) (cs ds : List (Candidate J))
        → eqb_ℤ c.index inc.index ≡ false
        → at_index i ds
          ≡ at_index i cs ++ (if eqb_ℤ inc.index i then view inc.content.parts else [])
        → at_index i (c ∷ ds)
          ≡ at_index i (c ∷ cs) ++ (if eqb_ℤ inc.index i then view inc.content.parts else [])
    unfolding at_index
    at_index-skip i c inc cs ds other h = elim (Bool-cases (eqb_ℤ c.index i)) [
      | inl hit ↦
          rw (hit, eqb_ℤ_apart c.index inc.index i hit other)
            (sym (append-nil (view c.content.parts)))
      | inr miss ↦ rw miss h
    ]

    fresh_case :
        (i : ℤ) (inc : Candidate J)
        → at_index i (absorb (fresh inc.index) inc ∷ [])
          ≡ (if eqb_ℤ inc.index i then view inc.content.parts else [])
    unfolding at_index absorb view
    fresh_case i inc = elim (Bool-cases (eqb_ℤ inc.index i)) [
      | inl hit ↦ rw hit (absorbed-view (fresh inc.index) inc)
      | inr miss ↦ rw miss
    ]

    at_index-merge_candidate :
        (i : ℤ) (cs : List (Candidate J)) (inc : Candidate J)
        → at_index i (merge_candidate cs inc)
          ≡ at_index i cs ++ (if eqb_ℤ inc.index i then view inc.content.parts else [])
    unfolding merge_candidate at_index
    at_index-merge_candidate i [] inc = fresh_case i inc
    at_index-merge_candidate i (c ∷ cs) inc = elim (Bool-cases (eqb_ℤ c.index inc.index)) [
      | inl found ↦ rw found (at_index-absorb i c inc cs (eqb_ℤ_eq c.index inc.index found))
      | inr other ↦ rw other (at_index-skip i c inc cs _ other (at_index-merge_candidate i cs inc))
    ]

    at_index-merge_candidates :
        (i : ℤ) (more cs : List (Candidate J))
        → at_index i (merge_candidates cs more) ≡ at_index i cs ++ all_at i more
    unfolding merge_candidates all_at
    at_index-merge_candidates i [] cs = sym (append-nil (at_index i cs))
    at_index-merge_candidates i (c ∷ more) cs =
        at_index-merge_candidates i more (merge_candidate cs c)
        ∙ ap (λ v. v ++ all_at i more) (at_index-merge_candidate i cs c)
        ∙ append_assoc (at_index i cs) _ (all_at i more)

    at_index-stream_from :
        (i : ℤ) (chunks : List (GenerateResponse J)) (r : GenerateResponse J)
        → at_index i (stream_from r chunks).candidates
          ≡ at_index i r.candidates ++ all_in_stream i chunks
    unfolding stream_from all_in_stream merge
    at_index-stream_from i [] r = sym (append-nil (at_index i r.candidates))
    at_index-stream_from i (c ∷ cs) r =
        at_index-stream_from i cs (merge r c)
        ∙ ap (λ v. v ++ all_in_stream i cs) (at_index-merge_candidates i c.candidates r.candidates)
        ∙ append_assoc (at_index i r.candidates) _ (all_in_stream i cs)

module _ {J : Type 0} where
  abbrev pub text_in : Part J → Bytes
  text_in p = text_of p.value p.thought

  abbrev pub calls_in : Part J → List (FunctionCall J)
  calls_in p = call_of p.value

  glue-text :
      (v w : PartValue J) (s t : Bool) (a b : Bytes)
      → view text_in (
          glue
            (record { value = v; thought = s; thought_signature = a })
            (record { value = w; thought = t; thought_signature = b }))
        ≡ text_of v s ++ (text_of w t ++ [])
  unfolding view glue
  glue-text (text x) (text y) false false a b = ground (arith, append_assoc x y [])
  glue-text (text x) (text y) s t a b = ground arith
  glue-text v w s t a b = refl

  glue-calls :
      (v w : PartValue J) (s t : Bool) (a b : Bytes)
      → view calls_in (
          glue
            (record { value = v; thought = s; thought_signature = a })
            (record { value = w; thought = t; thought_signature = b }))
        ≡ call_of v ++ (call_of w ++ [])
  unfolding view glue
  glue-calls (text x) (text y) s t a b = ground arith
  glue-calls v w s t a b = refl

  -- Folding the chunks of a stream into an empty response gives each candidate, by its index, the
  -- non-thought text and the function calls that the chunks carry under that index, in order.
  pub stream_from_views :
      (i : ℤ) (chunks : List (GenerateResponse J))
      → (at_index text_in i (stream_from empty_response chunks).candidates
          ≡ all_in_stream text_in i chunks)
        × (at_index calls_in i (stream_from empty_response chunks).candidates
            ≡ all_in_stream calls_in i chunks)
  unfolding at_index
  stream_from_views i chunks = (
    at_index-stream_from text_in (λ p q. glue-text p.value q.value _ _ _ _) i chunks empty_response,
    at_index-stream_from calls_in (λ p q. glue-calls p.value q.value _ _ _ _) i chunks
        empty_response,
  )
