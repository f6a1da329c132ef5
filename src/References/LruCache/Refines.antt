-- ===== src/References/LruCache/Refines.antt =====
-- tasks/lru-cache/reference.hpp: runs of the cache are runs of its specification.
use gemini_cpp.Base.{
  Bool, true, false, ◌==◌, if◌then◌else◌, Bool-cases, Option-cases, List, [], ◌∷◌, none, some,
  length, ◌≡◌, ◌↔◌, ◌⊎◌, refl, ◌∙◌, ap, inl, inr, arith,
}
use gemini_cpp.References.LruCache.{
  Node, LruCache, unlink, to_front, value_at, drop_last, last_node, cache_get, cache_put, put_new,
  evict, erase_key,
}
use gemini_cpp.References.LruCache.Nodes.{find_key, lookup, pairs, find_node_of_key, lookup-pairs}
use gemini_cpp.References.LruCache.Moves.{unlink-assign, find_node-assign}
use gemini_cpp.References.LruCache.Last.{
  drop_last-pairs, length-pairs, length-drop_last, find_key-drop_last,
}
use gemini_cpp.References.LruCache.Order.{
  id_of, get_spec, put_spec, IsConsistent, used-IsConsistent, used-pairs, add_front-IsConsistent,
  evict-IsConsistent,
}

last_of :
    {K V : Type 0} (m : Node K V) (ns : List (Node K V))
    → (n : Node K V) × (last_node (m ∷ ns) ≡ some n)
last_of m [] = (m, refl)
last_of m (k ∷ ns) = last_of k ns

-- A list has a last node or is empty.
last_node-cases :
    {K V : Type 0} (ns : List (Node K V))
    → ((n : Node K V) × (last_node ns ≡ some n)) ⊎ (length ns ≡ 0)
last_node-cases [] = inr refl
last_node-cases (m ∷ ns) = inl (last_of m ns)

module _ {K V : Type 0} {same : K → K → Bool} (law : (a b : K) → (same a b ≡ true) ↔ (a ≡ b)) where
  front_value : (n : Node K V) (ns : List (Node K V)) → value_at n.id (n ∷ ns) ≡ some n.value
  front_value n ns = let self : (n.id == n.id) ≡ true = ground arith in rw (self, value_at) refl

  pub cache_get-refines :
      (c : LruCache K V) (k : K)
      → IsConsistent same c
      → IsConsistent same (cache_get same k c).1
        × ((cache_get same k c).1.capacity ≡ c.capacity)
        × ((cache_get same k c).0 ≡ (get_spec same k (pairs c.items)).0)
        × (pairs (cache_get same k c).1.items ≡ (get_spec same k (pairs c.items)).1)
  cache_get-refines c k h = elim (Option-cases (find_key same k c.items)) [
    | inl e ↦
        let missing : c.index k ≡ none = h.indexed k ∙ ap id_of e in
        let absent : lookup same k (pairs c.items) ≡ none =
          lookup-pairs law k c.items ∙ (rw e refl) in
        rw (missing, cache_get, absent, get_spec) (h, refl, refl, refl)
    | inr (n, e) ↦
        let it : c.index k ≡ some n.id = h.indexed k ∙ ap id_of e in
        let stored : lookup same k (pairs c.items) ≡ some n.value =
          lookup-pairs law k c.items ∙ (rw e refl) in
        let at = (find_node_of_key law k c.items n h.distinct e).0 in
        rw (it, cache_get, stored, get_spec, at, to_front)
          (
            used-IsConsistent law c k n n.value h e,
            refl,
            front_value n (unlink n.id c.items),
            used-pairs law c k n n.value h e,
          )
  ]

  put_new-refines :
      (c : LruCache K V) (k : K) (v : V)
      → IsConsistent same c
      → ((c.capacity == 0) ≡ false)
      → find_key same k c.items ≡ none
      → IsConsistent same (put_new same k v c)
        × ((put_new same k v c).capacity ≡ c.capacity)
        × (pairs (put_new same k v c).items ≡ (
            if length (pairs c.items) == c.capacity
            then (k, v) ∷ drop_last (pairs c.items)
            else (k, v) ∷ pairs c.items))
  put_new-refines c k v h positive e = elim (Bool-cases (length c.items == c.capacity)) [
    | inr room ↦
        rw (length-pairs c.items, room)
          (add_front-IsConsistent law c k v h e (ground (arith, h.fits)), refl, refl)
    | inl full ↦ elim (last_node-cases c.items) [
      | inr empty ↦ absurd (ground arith)
      | inl (n, last) ↦
          let absent : find_key same k (drop_last c.items) ≡ none =
            find_key-drop_last law c.items n h.distinct last k
            ∙ (elim (Bool-cases (same k n.key)) [ inl b ↦ rw b refl | inr b ↦ rw (b, e) refl ]) in
          rw (length-pairs c.items, full, last, evict)
            (
              add_front-IsConsistent law
                  (record c { items = drop_last c.items; index = erase_key same n.key c.index }) k v
                  (evict-IsConsistent law c n h last) absent
                  (ground (arith, length-drop_last c.items)),
              refl,
              ap (λ ps. (k, v) ∷ ps) (drop_last-pairs c.items),
            )
    ]
  ]

  pub cache_put-refines :
      (c : LruCache K V) (k : K) (v : V)
      → IsConsistent same c
      → IsConsistent same (cache_put same k v c)
        × ((cache_put same k v c).capacity ≡ c.capacity)
        × (pairs (cache_put same k v c).items ≡ put_spec same c.capacity k v (pairs c.items))
  cache_put-refines c k v h = elim (Bool-cases (c.capacity == 0)) [
    | inl empty ↦ rw (empty, cache_put, put_spec) (h, refl, refl)
    | inr positive ↦ elim (Option-cases (find_key same k c.items)) [
      | inl e ↦
          let missing : c.index k ≡ none = h.indexed k ∙ ap id_of e in
          let absent : lookup same k (pairs c.items) ≡ none =
            lookup-pairs law k c.items ∙ (rw e refl) in
          rw (positive, missing, cache_put, absent, put_spec) (put_new-refines c k v h positive e)
      | inr (n, e) ↦
          let it : c.index k ≡ some n.id = h.indexed k ∙ ap id_of e in
          let stored : lookup same k (pairs c.items) ≡ some n.value =
            lookup-pairs law k c.items ∙ (rw e refl) in
          let at = (find_node_of_key law k c.items n h.distinct e).0 in
          rw
            (
              positive,
              it,
              cache_put,
              stored,
              put_spec,
              find_node-assign n.id v c.items n at,
              to_front,
              unlink-assign n.id v c.items,
            )
            (used-IsConsistent law c k n v h e, refl, used-pairs law c k n v h e)
    ]
  ]
