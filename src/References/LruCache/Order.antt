-- ===== src/References/LruCache/Order.antt =====
-- tasks/lru-cache/reference.hpp: the cache is a list of pairs in order of use.
use gemini_cpp.Base.{
  ℕ, suc, ◌≤◌, ◌<◌, Bool, true, ◌==◌, if◌then◌else◌, Bool-cases, List, [], ◌∷◌, Option, none, some,
  length, All, All-map, ◌≡◌, ◌↔◌, refl, sym, ◌∙◌, ap, inl, inr, arith,
}
use gemini_cpp.References.LruCache.{
  Node, LruCache, unlink, drop_last, last_node, add_front, erase_key,
}
use gemini_cpp.References.LruCache.Nodes.{
  find_key, Apart, IsDistinct, lookup, remove, pairs, find_key-All, find_node_of_key, unlink-All,
  unlink-IsDistinct, same_sym,
}
use gemini_cpp.References.LruCache.Moves.{length-unlink}
use gemini_cpp.References.LruCache.Last.{
  length-drop_last, drop_last-All, drop_last-IsDistinct, find_key-drop_last,
}

module _ {K V : Type 0} where
  -- The iterator to a node that was found.
  abbrev pub id_of : Option (Node K V) → Option ℕ
  id_of none = none
  id_of (some n) = some n.id

  module _ (same : K → K → Bool) where
    -- A cache as the list of its pairs, the one used last in front.
    abbrev pub get_spec : K → List (K × V) → Option V × List (K × V)
    get_spec k ps = elim (lookup same k ps) [
      | none ↦ (none, ps)
      | some v ↦ (some v, (k, v) ∷ remove same k ps)
    ]

    abbrev pub put_spec : ℕ → K → V → List (K × V) → List (K × V)
    put_spec capacity k v ps = if capacity == 0 then ps else elim (lookup same k ps) [
      | some old ↦ (k, v) ∷ remove same k ps
      | none ↦ if length ps == capacity then (k, v) ∷ drop_last ps else (k, v) ∷ ps
    ]

    pub record IsConsistent (c : LruCache K V) : Type 0 where
      pub distinct : IsDistinct same c.items
      pub fresh : All (λ n. n.id < c.next_id) c.items
      pub indexed : (k : K) → c.index k ≡ id_of (find_key same k c.items)
      pub fits : length c.items ≤ c.capacity

module _ {K V : Type 0} {same : K → K → Bool} (law : (a b : K) → (same a b ≡ true) ↔ (a ≡ b)) where
  -- A node that was used is in front, perhaps with another value.
  pub used-IsConsistent :
      (c : LruCache K V) (k : K) (n : Node K V) (v : V)
      → IsConsistent same c
      → find_key same k c.items ≡ some n
      → IsConsistent same (record c { items = record n { value = v } ∷ unlink n.id c.items })
  used-IsConsistent c k n v h e =
      let (apart, d, keep) = unlink-IsDistinct law k c.items n h.distinct e in
      let (at, left) = find_node_of_key law k c.items n h.distinct e in
      let (low, key) = find_key-All law (λ m. m.id < c.next_id) k c.items n h.fresh e in
      record {
        distinct = (apart, d);
        fresh = (low, unlink-All law (λ m. m.id < c.next_id) n.id c.items h.fresh);
        indexed = λ j. elim (Bool-cases (same j n.key)) [
          | inl here ↦
              let it : j ≡ k = (law j n.key).0 here ∙ sym ((law k n.key).0 key) in
              h.indexed j ∙ (rw (it, e, key) refl)
          | inr there ↦ h.indexed j ∙ (rw there (ap id_of (sym (keep j there))))
        ];
        fits = omega (arith, h.fits, length-unlink n.id c.items n at);
      }

  pub used-pairs :
      (c : LruCache K V) (k : K) (n : Node K V) (v : V)
      → IsConsistent same c
      → find_key same k c.items ≡ some n
      → pairs (record n { value = v } ∷ unlink n.id c.items)
        ≡ (k, v) ∷ remove same k (pairs c.items)
  used-pairs c k n v h e =
      let (low, key) = find_key-All law (λ m. m.id < c.next_id) k c.items n h.fresh e in
      let (at, left) = find_node_of_key law k c.items n h.distinct e in
      ap (λ ps. (n.key, v) ∷ ps) left
      ∙ ap (λ j. (j, v) ∷ remove same k (pairs c.items)) (sym ((law k n.key).0 key))

  absent-Apart :
      (new : Node K V) (ns : List (Node K V))
      → All (λ m. m.id < new.id) ns
      → find_key same new.key ns ≡ none
      → All (Apart same new) ns
  absent-Apart new [] h e = tt
  absent-Apart new (m ∷ ns) (low, h) e = elim (Bool-cases (same new.key m.key)) [
    | inl here ↦ absurd (ground arith)
    | inr there ↦
        let later : find_key same new.key ns ≡ none = sym (rw there refl) ∙ e in
        ((ground arith, same_sym law new.key m.key there), absent-Apart new ns h later)
  ]

  pub add_front-IsConsistent :
      (c : LruCache K V) (k : K) (v : V)
      → IsConsistent same c
      → find_key same k c.items ≡ none
      → length c.items < c.capacity
      → IsConsistent same (add_front same k v c)
  add_front-IsConsistent c k v h e room = record {
    distinct = (
      absent-Apart (record { id = c.next_id; key = k; value = v }) c.items h.fresh e,
      h.distinct,
    );
    fresh = (
      omega arith,
      All-map (λ n. n.id < c.next_id) (λ n. n.id < suc c.next_id) c.items
          (λ n low. omega (arith, low)) h.fresh,
    );
    indexed = λ j. elim (Bool-cases (same j k)) [
      | inl here ↦
          let it : j ≡ k = (law j k).0 here in
          let free : c.index j ≡ none = h.indexed j ∙ (rw (it, e) refl) in rw (here, free) refl
      | inr there ↦ rw there (h.indexed j)
    ];
    fits = omega arith;
  }

  pub evict-IsConsistent :
      (c : LruCache K V) (n : Node K V)
      → IsConsistent same c
      → last_node c.items ≡ some n
      → IsConsistent same
          (record c { items = drop_last c.items; index = erase_key same n.key c.index })
  evict-IsConsistent c n h e = record {
    distinct = drop_last-IsDistinct law c.items h.distinct;
    fresh = drop_last-All (λ m. m.id < c.next_id) c.items h.fresh;
    indexed = λ j.
        let found = find_key-drop_last law c.items n h.distinct e j in
        elim (Bool-cases (same j n.key)) [
          | inl here ↦ rw (here, found) (rw here refl)
          | inr there ↦ rw (there, found) (rw there (h.indexed j))
        ];
    fits = omega (arith, h.fits, length-drop_last c.items);
  }
