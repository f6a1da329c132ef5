-- ===== src/References/LruCache/Nodes.antt =====
-- tasks/lru-cache/reference.hpp: lists of nodes with different numbers and different keys.
use gemini_cpp.Base.{
  ℕ, Bool, true, false, ◌==◌, if◌then◌else◌, Bool-cases, List, [], ◌∷◌, Option, none, some, All,
  ◌≡◌, ◌↔◌, refl, sym, ◌∙◌, ap, subst, inl, inr, arith,
}
use gemini_cpp.References.LruCache.{Node, find_node, unlink}

module _ {K V : Type 0} (same : K → K → Bool) where
  abbrev pub find_key : K → List (Node K V) → Option (Node K V)
  find_key k [] = none
  find_key k (n ∷ ns) = let rest = find_key k ns in if same k n.key then some n else rest

  abbrev pub Apart : Node K V → Node K V → Type 0
  Apart n m = ((m.id == n.id) ≡ false) × (same m.key n.key ≡ false)

  abbrev pub IsDistinct : List (Node K V) → Type 0
  IsDistinct [] = Unit
  IsDistinct (n ∷ ns) = All (Apart n) ns × IsDistinct ns

  -- The pair with a key, and the pairs without it.
  abbrev pub lookup : K → List (K × V) → Option V
  lookup k [] = none
  lookup k ((j, v) ∷ ps) = let rest = lookup k ps in if same k j then some v else rest

  abbrev pub remove : K → List (K × V) → List (K × V)
  remove k [] = []
  remove k ((j, v) ∷ ps) = let rest = remove k ps in if same k j then ps else (j, v) ∷ rest

abbrev pub pairs : {K V : Type 0} → List (Node K V) → List (K × V)
pairs [] = []
pairs (n ∷ ns) = (n.key, n.value) ∷ pairs ns

pub same_sym :
    {K : Type 0} {same : K → K → Bool}
    → ((a b : K) → (same a b ≡ true) ↔ (a ≡ b))
    → (a b : K) → same a b ≡ false
    → same b a ≡ false
same_sym {same = same} law a b h = elim (Bool-cases (same b a)) [
  | inr differ ↦ differ
  | inl match ↦ absurd (ground (arith, law a b, law b a))
]

module _ {K V : Type 0} {same : K → K → Bool} (law : (a b : K) → (same a b ≡ true) ↔ (a ≡ b)) where
  pub find_key-All :
      (P : Node K V → Type 0) (k : K) (ns : List (Node K V)) (n : Node K V)
      → All P ns
      → find_key same k ns ≡ some n
      → P n × (same k n.key ≡ true)
  find_key-All P k [] n h e = absurd (ground arith)
  find_key-All P k (m ∷ ns) n h e = elim (Bool-cases (same k m.key)) [
    | inl here ↦
        let first : some m ≡ some n = sym (rw here refl) ∙ e in
        let it : m ≡ n = cc in (subst P it h.0, subst (λ x. same k x.key ≡ true) it here)
    | inr there ↦
        let later : find_key same k ns ≡ some n = sym (rw there refl) ∙ e in
        find_key-All P k ns n h.1 later
  ]

  -- What the index needs of the list: the node of a key, moved to the front, is found by its number.
  pub find_node_of_key :
      (k : K) (ns : List (Node K V)) (n : Node K V)
      → IsDistinct same ns
      → find_key same k ns ≡ some n
      → (find_node n.id ns ≡ some n) × (pairs (unlink n.id ns) ≡ remove same k (pairs ns))
  find_node_of_key k [] n d e = absurd (ground arith)
  find_node_of_key k (m ∷ ns) n (a, d) e = elim (Bool-cases (same k m.key)) [
    | inl here ↦
        let first : some m ≡ some n = sym (rw here refl) ∙ e in
        let it : m ≡ n = cc in
        let self : (n.id == n.id) ≡ true = ground arith in rw (here, it, self) (refl, refl)
    | inr there ↦
        let later : find_key same k ns ≡ some n = sym (rw there refl) ∙ e in
        let (apart, found) = find_key-All (Apart same m) k ns n a later in
        let other : (m.id == n.id) ≡ false = ground (arith, apart.0) in
        let (at, left) = find_node_of_key k ns n d later in
        rw (there, other) (at, ap (λ ps. (m.key, m.value) ∷ ps) left)
  ]

  pub lookup-pairs :
      (k : K) (ns : List (Node K V))
      → lookup same k (pairs ns) ≡ elim (find_key same k ns) [ none ↦ none | some n ↦ some n.value ]
  lookup-pairs k [] = refl
  lookup-pairs k (n ∷ ns) = elim (Bool-cases (same k n.key)) [
    | inl here ↦ rw here refl
    | inr there ↦ rw there (lookup-pairs k ns)
  ]

  pub unlink-All :
      (P : Node K V → Type 0) (it : ℕ) (ns : List (Node K V)) → All P ns → All P (unlink it ns)
  unlink-All P it [] h = tt
  unlink-All P it (n ∷ ns) h = elim (Bool-cases (n.id == it)) [
    | inl e ↦ rw e h.1
    | inr e ↦ rw e (h.0, unlink-All P it ns h.1)
  ]

  flip-Apart : (n m : Node K V) → Apart same n m → Apart same m n
  flip-Apart n m (i, k) = (ground (arith, i), same_sym law m.key n.key k)

  -- The other keys keep their nodes, and the numbers and keys stay different.
  pub unlink-IsDistinct :
      (k : K) (ns : List (Node K V)) (n : Node K V)
      → IsDistinct same ns
      → find_key same k ns ≡ some n
      → All (Apart same n) (unlink n.id ns)
        × IsDistinct same (unlink n.id ns)
        × ((j : K) → same j n.key ≡ false → find_key same j (unlink n.id ns) ≡ find_key same j ns)
  unlink-IsDistinct k [] n d e = absurd (ground arith)
  unlink-IsDistinct k (m ∷ ns) n (a, d) e = elim (Bool-cases (same k m.key)) [
    | inl here ↦
        let first : some m ≡ some n = sym (rw here refl) ∙ e in
        let it : m ≡ n = cc in
        let self : (n.id == n.id) ≡ true = ground arith in
        rw (it, self) (subst (λ x. All (Apart same x) ns) it a, d, λ j other. rw other refl)
    | inr there ↦
        let later : find_key same k ns ≡ some n = sym (rw there refl) ∙ e in
        let (apart, found) = find_key-All (Apart same m) k ns n a later in
        let other : (m.id == n.id) ≡ false = ground (arith, apart.0) in
        let (b, c, keep) = unlink-IsDistinct k ns n d later in
        rw other (
          (flip-Apart m n apart, b),
          (unlink-All (Apart same m) n.id ns a, c),
          λ j differs. ap (λ rest. if same j m.key then some m else rest) (keep j differs),
        )
  ]
