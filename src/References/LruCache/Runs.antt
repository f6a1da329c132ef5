-- ===== src/References/LruCache/Runs.antt =====
-- tasks/lru-cache/reference.hpp: any calls of get and put on a new cache.
use gemini_cpp.Base.{
  ℕ, ◌≤◌, Bool, true, List, [], ◌∷◌, Option, length, ◌≡◌, ◌↔◌, refl, ◌∙◌, ap, arith,
}
use gemini_cpp.References.LruCache.{LruCache, new_cache, cache_get, cache_put}
use gemini_cpp.References.LruCache.Nodes.{pairs}
use gemini_cpp.References.LruCache.Order.{get_spec, put_spec, IsConsistent}
use gemini_cpp.References.LruCache.Refines.{cache_get-refines, cache_put-refines}

-- A call; one of `put` answers nothing.
pub data CacheCall (K V : Type 0) : Type 0 where
  get_call : K → CacheCall K V
  put_call : K → V → CacheCall K V

module _ {K V : Type 0} (same : K → K → Bool) where
  -- The answers of the calls of `get`, and the cache after all calls.
  abbrev pub run_cache : List (CacheCall K V) → LruCache K V → List (Option V) × LruCache K V
  run_cache [] c = ([], c)
  run_cache (get_call k ∷ calls) c =
      let (answers, last) = run_cache calls (cache_get same k c).1 in
      ((cache_get same k c).0 ∷ answers, last)
  run_cache (put_call k v ∷ calls) c = run_cache calls (cache_put same k v c)

  abbrev pub run_spec : ℕ → List (CacheCall K V) → List (K × V) → List (Option V) × List (K × V)
  run_spec capacity [] ps = ([], ps)
  run_spec capacity (get_call k ∷ calls) ps =
      let (answers, last) = run_spec capacity calls (get_spec same k ps).1 in
      ((get_spec same k ps).0 ∷ answers, last)
  run_spec capacity (put_call k v ∷ calls) ps =
      run_spec capacity calls (put_spec same capacity k v ps)

module _ {K V : Type 0} {same : K → K → Bool} (law : (a b : K) → (same a b ≡ true) ↔ (a ≡ b)) where
  run-refines :
      (calls : List (CacheCall K V)) (c : LruCache K V) (capacity : ℕ) (ps : List (K × V))
      → IsConsistent same c
      → c.capacity ≡ capacity
      → pairs c.items ≡ ps
      → ((run_cache same calls c).0 ≡ (run_spec same capacity calls ps).0)
        × (pairs (run_cache same calls c).1.items ≡ (run_spec same capacity calls ps).1)
        × (length (run_cache same calls c).1.items ≤ capacity)
  run-refines [] c capacity ps h e g = (refl, g, omega (arith, h.fits))
  run-refines (get_call k ∷ calls) c capacity ps h e g =
      let (kept, size, answer, left) = cache_get-refines law c k h in
      let (a, b, f) =
        run-refines calls (cache_get same k c).1 capacity (get_spec same k ps).1 kept (size ∙ e)
          (left ∙ ap (λ q. (get_spec same k q).1) g) in
      (
        ap (λ o. o ∷ (run_cache same calls (cache_get same k c).1).0)
              (answer ∙ ap (λ q. (get_spec same k q).0) g)
            ∙ ap (λ l. (get_spec same k ps).0 ∷ l) a,
        b,
        f,
      )
  run-refines (put_call k v ∷ calls) c capacity ps h e g =
      let (kept, size, left) = cache_put-refines law c k v h in
      run-refines calls (cache_put same k v c) capacity (put_spec same capacity k v ps) kept
        (size ∙ e)
        (left ∙ ap (λ n. put_spec same n k v (pairs c.items)) e ∙ ap (put_spec same capacity k v) g)

  -- For keys with an equality test that decides equality: the answers of any calls on a new cache are those of
  -- a list of pairs in order of use, of which a get moves its pair to the front, and a put of a new key
  -- on a full list drops the last pair; the cache's list is that list, and is never longer than its capacity.
  pub run_cache-refines :
      (capacity : ℕ) (calls : List (CacheCall K V))
      → ((run_cache same calls (new_cache capacity)).0 ≡ (run_spec same capacity calls []).0)
        × (pairs (run_cache same calls (new_cache capacity)).1.items
            ≡ (run_spec same capacity calls []).1)
        × (length (run_cache same calls (new_cache capacity)).1.items ≤ capacity)
  run_cache-refines capacity calls =
      run-refines calls (new_cache capacity) capacity []
        (record { distinct = tt; fresh = tt; indexed = λ k. refl; fits = omega arith }) refl refl
