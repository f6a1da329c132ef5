-- ===== src/Eval/Extract/Best.antt =====
-- src/eval/code_extract.cpp: the block that `extract_cpp_source` takes.
use gemini_cpp.Base.{
  ◌≤◌, ◌<◌, Bool, true, false, not, ◌&&◌, List, [], ◌∷◌, ◌++◌, Option, none, some, is_empty,
  if◌then◌else◌, length, ◌≡◌, refl, sym, ap, ◌∙◌, arith, Bool-cases, inl, inr, subst, All,
  All-append, All-map, ltb, append_assoc, append-nil,
}
use gemini_cpp.Base.Text.{Bytes}
use gemini_cpp.Eval.Extract.{
  CodeBlock, find_code_blocks, is_cpp_language, trim, longer, Bests, note_block, pick, choose,
  extract_cpp_source, looks_like_code,
}

-- A block that is not blank and is tagged as C++, and one that is not blank and has no tag.
abbrev pub is_cpp : CodeBlock → Bool
is_cpp b = not (is_empty (trim b.code)) && is_cpp_language b.language

abbrev pub is_untagged : CodeBlock → Bool
is_untagged b =
    not (is_empty (trim b.code)) && (not (is_cpp_language b.language) && is_empty b.language)

-- The longest block that a test accepts, the first of several, after one that was found before.
abbrev longest : (CodeBlock → Bool) → Option CodeBlock → List CodeBlock → Option CodeBlock
longest test best [] = best
longest test best (b ∷ bs) = longest test (if test b then longer best b else best) bs

note_block_lem :
    (blank cpp empty : Bool) (b : CodeBlock) (p : Bests)
    → note_block blank cpp empty b p ≡ (
      if not blank && cpp then longer p.0 b else p.0,
      if not blank && (not cpp && empty) then longer p.1 b else p.1,
    )
note_block_lem true cpp empty b p = refl
note_block_lem false true empty b p = refl
note_block_lem false false true b p = refl
note_block_lem false false false b p = refl

pick-longest :
    (bs : List CodeBlock) (bests : Bests)
    → pick bests bs ≡ (longest is_cpp bests.0 bs, longest is_untagged bests.1 bs)
unfolding pick
pick-longest [] bests = refl
pick-longest (b ∷ bs) bests =
    pick-longest bs _
    ∙ ap (λ p. (longest is_cpp p.0 bs, longest is_untagged p.1 bs))
        (note_block_lem (is_empty (trim b.code)) (is_cpp_language b.language) (is_empty b.language)
          b bests)

-- What a test chose from a list: nothing, if it accepts no block; or an accepted block that is longer
-- than every accepted one before it, and not shorter than those after it.
abbrev pub Rejects : (CodeBlock → Bool) → CodeBlock → Type 0
Rejects test c = test c ≡ false

abbrev pub Shorter : (CodeBlock → Bool) → CodeBlock → CodeBlock → Type 0
Shorter test b c = test c ≡ true → length c.code < length b.code

abbrev pub NotLonger : (CodeBlock → Bool) → CodeBlock → CodeBlock → Type 0
NotLonger test b c = test c ≡ true → length c.code ≤ length b.code

abbrev pub IsBest : (CodeBlock → Bool) → List CodeBlock → Option CodeBlock → Type 0
IsBest test bs none = All (Rejects test) bs
IsBest test bs (some b) =
    (before : List CodeBlock) × (after : List CodeBlock) × (bs ≡ before ++ b ∷ after)
    × (test b ≡ true)
    × All (Shorter test b) before
    × All (NotLonger test b) after

better :
    (test : CodeBlock → Bool) (bs : List CodeBlock) (best : Option CodeBlock) (b : CodeBlock)
    → test b ≡ true
    → IsBest test bs best
    → IsBest test (bs ++ b ∷ []) (longer best b)
better test bs none b t h = (
  bs,
  [],
  refl,
  t,
  All-map (Rejects test) (Shorter test b) bs (λ c r y. absurd (ground arith)) h,
  tt,
)
better test bs (some a) b t (before, after, e, ta, hb, ha) =
    elim (Bool-cases (ltb (length a.code) (length b.code))) [
      | inl lt ↦ rw lt (
        bs,
        [],
        refl,
        t,
        subst (All (Shorter test b)) (sym e) (
            All-append (Shorter test b) before (a ∷ after)
              (All-map (Shorter test a) (Shorter test b) before (λ c k y. ground (arith, k y)) hb)
              (
                λ y. ground arith,
                All-map (NotLonger test a) (Shorter test b) after (λ c k y. ground (arith, k y)) ha,
              )),
        tt,
      )
      | inr ge ↦ rw ge (
        before,
        after ++ b ∷ [],
        ap (λ l. l ++ b ∷ []) e ∙ append_assoc before (a ∷ after) (b ∷ []),
        ta,
        hb,
        All-append (NotLonger test a) after (b ∷ []) ha (λ y. ground arith, tt),
      )
    ]

as_good :
    (test : CodeBlock → Bool) (bs : List CodeBlock) (best : Option CodeBlock) (b : CodeBlock)
    → test b ≡ false
    → IsBest test bs best
    → IsBest test (bs ++ b ∷ []) best
as_good test bs none b t h = All-append (Rejects test) bs (b ∷ []) h (t, tt)
as_good test bs (some a) b t (before, after, e, ta, hb, ha) = (
  before,
  after ++ b ∷ [],
  ap (λ l. l ++ b ∷ []) e ∙ append_assoc before (a ∷ after) (b ∷ []),
  ta,
  hb,
  All-append (NotLonger test a) after (b ∷ []) ha (λ y. absurd (ground arith), tt),
)

longest-IsBest :
    (test : CodeBlock → Bool) (seen : List CodeBlock) (best : Option CodeBlock)
    (bs : List CodeBlock)
    → IsBest test seen best
    → IsBest test (seen ++ bs) (longest test best bs)
longest-IsBest test seen best [] h = subst (λ l. IsBest test l best) (sym (append-nil seen)) h
longest-IsBest test seen best (b ∷ bs) h = elim (Bool-cases (test b)) [
  | inl t ↦ rw t (
      subst (λ l. IsBest test l (longest test (longer best b) bs)) (append_assoc seen (b ∷ []) bs)
        (longest-IsBest test (seen ++ b ∷ []) (longer best b) bs (better test seen best b t h)))
  | inr t ↦ rw t (
      subst (λ l. IsBest test l (longest test best bs)) (append_assoc seen (b ∷ []) bs)
        (longest-IsBest test (seen ++ b ∷ []) best bs (as_good test seen best b t h)))
]

-- What `extract_cpp_source` may return for a reply with these blocks.
abbrev pub IsChoice :
    Bytes → List CodeBlock → Option CodeBlock → Option CodeBlock → Option Bytes → Type 0
IsChoice reply bs (some b) untagged r = r ≡ some b.code
IsChoice reply bs none (some b) r = r ≡ some b.code
IsChoice reply bs none none r =
    r ≡ (if is_empty bs && looks_like_code reply then some (trim reply ++ b'\n' ∷ []) else none)

choose-IsChoice :
    (reply : Bytes) (bs : List CodeBlock) (cpp untagged : Option CodeBlock)
    → IsChoice reply bs cpp untagged (choose reply bs (cpp, untagged))
unfolding choose
choose-IsChoice reply bs (some b) untagged = refl
choose-IsChoice reply bs none (some b) = refl
choose-IsChoice reply bs none none = refl

-- The source taken from a reply is the first longest block that is not blank and tagged as C++; if no
-- block is, the first longest that is not blank and has no tag; if the reply has no block at all and
-- looks like code, the whole reply, trimmed; and otherwise nothing.
pub extract_cpp_source_lem :
    (reply : Bytes)
    → let bs = find_code_blocks reply in
      (cpp : Option CodeBlock) × (untagged : Option CodeBlock) × IsBest is_cpp bs cpp
      × IsBest is_untagged bs untagged
      × IsChoice reply bs cpp untagged (extract_cpp_source reply)
unfolding extract_cpp_source
extract_cpp_source_lem reply =
    let bs = find_code_blocks reply in
    (
      longest is_cpp none bs,
      longest is_untagged none bs,
      longest-IsBest is_cpp [] none bs tt,
      longest-IsBest is_untagged [] none bs tt,
      subst
          (λ p.
            IsChoice reply bs (longest is_cpp none bs) (longest is_untagged none bs)
              (choose reply bs p))
          (sym (pick-longest bs (none, none)))
          (choose-IsChoice reply bs (longest is_cpp none bs) (longest is_untagged none bs)),
    )
