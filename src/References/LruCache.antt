-- ===== src/References/LruCache.antt =====
-- tasks/lru-cache/reference.hpp: a list in order of use, and an index of iterators into it. An iterator is
-- the number of a list node, which the node keeps when it is spliced.
pub mod Nodes
pub mod Moves
pub mod Last
pub mod Order
pub mod Refines
pub mod Runs
use gemini_cpp.Base.{
  ℕ, suc, zero, ◌+◌, Bool, true, false, ◌==◌, if◌then◌else◌, List, [], ◌∷◌, Option, none, some,
  length, or_value,
}

pub record Node (K V : Type 0) : Type 0 where
  pub id : ℕ
  pub key : K
  pub value : V

pub record LruCache (K V : Type 0) : Type 0 where
  pub capacity : ℕ
  pub items : List (Node K V)
  pub index : K → Option ℕ
  -- the number of the next node that is made
  pub next_id : ℕ

abbrev pub drop_last {ℓ} : {A : Type ℓ} → List A → List A
drop_last [] = []
drop_last (x ∷ []) = []
drop_last (x ∷ y ∷ xs) = x ∷ drop_last (y ∷ xs)

module _ {K : Type 0} (same : K → K → Bool) where
  abbrev pub erase_key : K → (K → Option ℕ) → K → Option ℕ
  erase_key k index j = if same j k then none else index j

  -- `emplace` changes nothing if the key is there.
  abbrev pub emplace_key : K → ℕ → (K → Option ℕ) → K → Option ℕ
  emplace_key k it index j = if same j k then some (or_value (index j) it) else index j

module _ {K V : Type 0} where
  abbrev pub find_node : ℕ → List (Node K V) → Option (Node K V)
  find_node it [] = none
  find_node it (n ∷ ns) = let rest = find_node it ns in if n.id == it then some n else rest

  abbrev pub unlink : ℕ → List (Node K V) → List (Node K V)
  unlink it [] = []
  unlink it (n ∷ ns) = let rest = unlink it ns in if n.id == it then ns else n ∷ rest

  -- `items_.splice(items_.begin(), items_, it)`; an iterator of no node is undefined in C++.
  abbrev pub to_front : ℕ → List (Node K V) → List (Node K V)
  to_front it items = elim (find_node it items) [ none ↦ items | some n ↦ n ∷ unlink it items ]

  -- `it->second->second = value`.
  abbrev pub assign : ℕ → V → List (Node K V) → List (Node K V)
  assign it v [] = []
  assign it v (n ∷ ns) =
      let rest = assign it v ns in if n.id == it then record n { value = v } ∷ ns else n ∷ rest

  abbrev pub value_at : ℕ → List (Node K V) → Option V
  value_at it items = elim (find_node it items) [ none ↦ none | some n ↦ some n.value ]

  abbrev pub last_node : List (Node K V) → Option (Node K V)
  last_node [] = none
  last_node (n ∷ []) = some n
  last_node (n ∷ m ∷ ns) = last_node (m ∷ ns)

  abbrev pub new_cache : ℕ → LruCache K V
  new_cache capacity = record { capacity = capacity; items = []; index = λ k. none; next_id = 0 }

  module _ (same : K → K → Bool) where
    abbrev pub cache_get : K → LruCache K V → Option V × LruCache K V
    cache_get k c = elim (c.index k) [
      | none ↦ (none, c)
      | some it ↦ let items = to_front it c.items in (value_at it items, record c { items = items })
    ]

    -- `index_.erase(items_.back().first)` and `items_.pop_back()`.
    abbrev pub evict : LruCache K V → LruCache K V
    evict c = elim (last_node c.items) [
      | none ↦ c
      | some n ↦ record c { items = drop_last c.items; index = erase_key same n.key c.index }
    ]

    abbrev pub add_front : K → V → LruCache K V → LruCache K V
    add_front k v c = record c {
      items = record { id = c.next_id; key = k; value = v } ∷ c.items;
      index = emplace_key same k c.next_id c.index;
      next_id = suc c.next_id;
    }

    abbrev pub put_new : K → V → LruCache K V → LruCache K V
    put_new k v c =
        if length c.items == c.capacity then add_front k v (evict c) else add_front k v c

    abbrev pub cache_put : K → V → LruCache K V → LruCache K V
    cache_put k v c = if c.capacity == 0 then c else elim (c.index k) [
      | some it ↦ record c { items = to_front it (assign it v c.items) }
      | none ↦ put_new k v c
    ]

    abbrev pub cache_contains : K → LruCache K V → Bool
    cache_contains k c = elim (c.index k) [ none ↦ false | some it ↦ true ]
