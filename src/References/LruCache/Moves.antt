-- ===== src/References/LruCache/Moves.antt =====
-- tasks/lru-cache/reference.hpp: a node is given a value and moved to the front.
use gemini_cpp.Base.{
  ℕ, suc, ◌==◌, Bool-cases, List, [], ◌∷◌, some, length, ◌≡◌, refl, sym, ◌∙◌, ap, inl, inr, arith,
}
use gemini_cpp.References.LruCache.{Node, find_node, unlink, assign}

module _ {K V : Type 0} where
  pub length-unlink :
      (it : ℕ) (ns : List (Node K V)) (n : Node K V)
      → find_node it ns ≡ some n
      → suc (length (unlink it ns)) ≡ length ns
  length-unlink it [] n e = absurd (ground arith)
  length-unlink it (m ∷ ns) n e = elim (Bool-cases (m.id == it)) [
    | inl here ↦ rw here refl
    | inr there ↦
        let later : find_node it ns ≡ some n = sym (rw there refl) ∙ e in
        rw there (ap suc (length-unlink it ns n later))
  ]

  pub unlink-assign :
      (it : ℕ) (v : V) (ns : List (Node K V)) → unlink it (assign it v ns) ≡ unlink it ns
  unlink-assign it v [] = refl
  unlink-assign it v (n ∷ ns) = elim (Bool-cases (n.id == it)) [
    | inl here ↦ rw (here, here) refl
    | inr there ↦ rw (there, there) (ap (λ l. n ∷ l) (unlink-assign it v ns))
  ]

  pub find_node-assign :
      (it : ℕ) (v : V) (ns : List (Node K V)) (n : Node K V)
      → find_node it ns ≡ some n
      → find_node it (assign it v ns) ≡ some (record n { value = v })
  find_node-assign it v [] n e = absurd (ground arith)
  find_node-assign it v (m ∷ ns) n e = elim (Bool-cases (m.id == it)) [
    | inl here ↦
        let first : some m ≡ some n = sym (rw here refl) ∙ e in
        let it : m ≡ n = cc in rw (here, here, it) refl
    | inr there ↦
        let later : find_node it ns ≡ some n = sym (rw there refl) ∙ e in
        rw (there, there) (find_node-assign it v ns n later)
  ]
