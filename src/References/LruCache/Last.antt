-- ===== src/References/LruCache/Last.antt =====
-- tasks/lru-cache/reference.hpp: the last node, which is the one that is evicted.
use gemini_cpp.Base.{
  suc, ◌-◌, Bool, true, false, if◌then◌else◌, Bool-cases, List, [], ◌∷◌, none, some, length, All,
  ◌≡◌, ◌↔◌, refl, sym, ◌∙◌, ap, subst, inl, inr, arith,
}
use gemini_cpp.References.LruCache.{Node, drop_last, last_node}
use gemini_cpp.References.LruCache.Nodes.{find_key, Apart, IsDistinct, pairs}

pub drop_last-pairs :
    {K V : Type 0} (ns : List (Node K V)) → pairs (drop_last ns) ≡ drop_last (pairs ns)
drop_last-pairs [] = refl
drop_last-pairs (n ∷ []) = refl
drop_last-pairs (n ∷ m ∷ ns) = ap (λ ps. (n.key, n.value) ∷ ps) (drop_last-pairs (m ∷ ns))

pub length-pairs : {K V : Type 0} (ns : List (Node K V)) → length (pairs ns) ≡ length ns
length-pairs [] = refl
length-pairs (n ∷ ns) = ap suc (length-pairs ns)

pub length-drop_last : {A : Type 0} (xs : List A) → length (drop_last xs) ≡ length xs - 1
length-drop_last [] = omega arith
length-drop_last (x ∷ []) = omega arith
length-drop_last (x ∷ y ∷ xs) = omega (arith, length-drop_last (y ∷ xs))

pub drop_last-All :
    {K V : Type 0} (P : Node K V → Type 0) (ns : List (Node K V)) → All P ns → All P (drop_last ns)
drop_last-All P [] h = tt
drop_last-All P (n ∷ []) h = tt
drop_last-All P (n ∷ m ∷ ns) h = (h.0, drop_last-All P (m ∷ ns) h.1)

last_node-All :
    {K V : Type 0} (P : Node K V → Type 0) (ns : List (Node K V)) (n : Node K V)
    → All P ns
    → last_node ns ≡ some n
    → P n
last_node-All P [] n h e = absurd (ground arith)
last_node-All P (m ∷ []) n h e = let it : m ≡ n = cc in subst P it h.0
last_node-All P (m ∷ k ∷ ns) n h e = last_node-All P (k ∷ ns) n h.1 e

module _ {K V : Type 0} {same : K → K → Bool} (law : (a b : K) → (same a b ≡ true) ↔ (a ≡ b)) where
  pub drop_last-IsDistinct :
      (ns : List (Node K V)) → IsDistinct same ns → IsDistinct same (drop_last ns)
  drop_last-IsDistinct [] d = tt
  drop_last-IsDistinct (n ∷ []) d = tt
  drop_last-IsDistinct (n ∷ m ∷ ns) (a, d) =
      (drop_last-All (Apart same n) (m ∷ ns) a, drop_last-IsDistinct (m ∷ ns) d)

  -- Without the last node only its key is not found any more.
  pub find_key-drop_last :
      (ns : List (Node K V)) (n : Node K V)
      → IsDistinct same ns
      → last_node ns ≡ some n
      → (j : K)
      → find_key same j (drop_last ns) ≡ (if same j n.key then none else find_key same j ns)
  find_key-drop_last [] n d e j = absurd (ground arith)
  find_key-drop_last (m ∷ []) n d e j =
      let it : m ≡ n = cc in
      elim (Bool-cases (same j n.key)) [ inl here ↦ rw here refl | inr there ↦ rw (it, there) refl ]
  find_key-drop_last (m ∷ k ∷ ns) n (a, d) e j =
      let apart = last_node-All (Apart same m) (k ∷ ns) n a e in
      let rest = find_key-drop_last (k ∷ ns) n d e j in
      elim (Bool-cases (same j m.key)) [
        | inr there ↦
            ap (λ b. if b then some m else find_key same j (drop_last (k ∷ ns))) there
            ∙ rest
            ∙ ap (λ o. if same j n.key then none else o)
                (sym (ap (λ b. if b then some m else find_key same j (k ∷ ns)) there))
        | inl here ↦
            let differ : same j n.key ≡ false = elim (Bool-cases (same j n.key)) [
              | inr f ↦ f
              | inl t ↦ absurd (ground (arith, law j n.key, law j m.key, law n.key m.key, apart.1))
            ] in
            ap (λ b. if b then some m else find_key same j (drop_last (k ∷ ns))) here
            ∙ sym (
                ap (λ b. if b then none else find_key same j (m ∷ k ∷ ns)) differ
                ∙ ap (λ b. if b then some m else find_key same j (k ∷ ns)) here)
      ]
