-- ===== src/Tests/References/LruCache.antt =====
-- tasks/lru-cache/reference.hpp: a cache of two pairs.
use gemini_cpp.Base.{ℕ, ◌≤◌, Bool, List, [], ◌∷◌, none, some, ◌==◌, ==_iff, length, ◌≡◌, refl}
use gemini_cpp.References.LruCache.{new_cache}
use gemini_cpp.References.LruCache.Nodes.{pairs}
use gemini_cpp.References.LruCache.Runs.{
  CacheCall, get_call, put_call, run_cache, run_spec, run_cache-refines,
}

abbrev equal_keys : ℕ → ℕ → Bool
equal_keys a b = a == b

-- The pair of 1 is used before 3 comes, so that the pair of 2 is evicted.
abbrev calls : List (CacheCall ℕ ℕ)
calls =
    put_call 1 10
    ∷ put_call 2 20
    ∷ get_call 1
    ∷ put_call 3 30
    ∷ get_call 2
    ∷ put_call 1 11
    ∷ get_call 1
    ∷ get_call 3
    ∷ []

answers_lem : (run_cache equal_keys calls (new_cache 2)).0 ≡ some 10 ∷ none ∷ some 11 ∷ some 30 ∷ []
answers_lem = refl

run_cache-refines_example :
    ((run_cache equal_keys calls (new_cache 2)).0 ≡ (run_spec equal_keys 2 calls []).0)
    × (pairs (run_cache equal_keys calls (new_cache 2)).1.items
        ≡ (run_spec equal_keys 2 calls []).1)
    × (length (run_cache equal_keys calls (new_cache 2)).1.items ≤ 2)
run_cache-refines_example = run_cache-refines (λ a b. ==_iff a b) 2 calls
