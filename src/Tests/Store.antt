-- ===== src/Tests/Store.antt =====
-- Tests of the analysis cache and of the cycle test.
use mcp_bsl_lsp_bridge.Prelude.{
  ℕ, ◌+◌, ◌≤◌, true, false, List, [], ◌∷◌, ◌≡◌, ◌≢◌, refl, sym, ◌∙◌, arith, some, none, All, String,
  string_eq, if◌then◌else◌, ltb,
}
use mcp_bsl_lsp_bridge.Prelude.Dict
use mcp_bsl_lsp_bridge.Prelude.Dict.{Dict}
use mcp_bsl_lsp_bridge.Analysis.Cache
use mcp_bsl_lsp_bridge.Analysis.Cache.{
  InMemoryCache, CacheItem, new_analysis_cache, oldest_from, older, oldest, evict_lru, lifetime,
}
use mcp_bsl_lsp_bridge.Analysis.Cache.Bound.{IsKeyed, evict_lru-least}
use mcp_bsl_lsp_bridge.Analysis.Cache.Runs.{Call, IsSound, run, run-IsSound}
use mcp_bsl_lsp_bridge.Analysis.Cache.Reads.{get-set, set_full-evicts}
use mcp_bsl_lsp_bridge.Analysis.Graph.{Graph, is_circular_dependency}
use mcp_bsl_lsp_bridge.Analysis.Graph.Circular.{is_circular_dependency-eq-false}

differ : (a b : String) → string_eq.beq a b ≡ false → a ≢ b
differ a b h e = let q : false ≡ true = sym h ∙ (string_eq.beq_iff a b).1 e in ground arith

abbrev calls : List (Call ℕ)
calls = Call.set "a" 1 0 1 2 ∷ Call.get "a" 3 4 ∷ Call.set "b" 2 0 5 6 ∷ []

run-IsSound_example : IsSound 1 (run (new_analysis_cache 1 100) calls)
run-IsSound_example =
    run-IsSound 1 100 calls (omega arith) (differ "a" "" refl, (tt, (differ "b" "" refl, tt)))

-- A full cache of two items.
abbrev full : InMemoryCache ℕ
full = record {
  items =
      ("a", record { value = 1; expires_at = 50; accessed_at = 1 })
      ∷ ("b", record { value = 2; expires_at = 50; accessed_at = 2 })
      ∷ [];
  stats = record { hits = 0; misses = 0; size = 2; hit_rate = (0, 0); memory_used = 0 };
  max_size = 2;
  ttl = 100;
}

full-IsKeyed : IsKeyed full.items
unfolding Dict.get
full-IsKeyed = record {
  distinct = (refl, (refl, tt));
  named = (differ "a" "" refl, (differ "b" "" refl, tt));
}

oldest-full : oldest full ≡ "a"
unfolding oldest_from older
oldest-full = refl

a-differs : oldest full ≢ "b"
unfolding oldest_from older
a-differs = differ "a" "b" refl

get-set_example :
    (Cache.get (Cache.set full "b" 7 10 20 21) "b" 25 26).1
    ≡ (if ltb (20 + lifetime full 10) 25 then none else some 7)
get-set_example = get-set full "b" 7 10 20 21 25 26

set_full-evicts_example : Dict.get (Cache.set full "b" 7 10 20 21).items (oldest full) ≡ none
set_full-evicts_example =
    set_full-evicts full "b" 7 10 20 21 full-IsKeyed (omega arith) (omega arith) a-differs

evict_lru-least_example :
    (item : CacheItem ℕ) × (Dict.get full.items (oldest full) ≡ some item)
    × All (λ e. item.accessed_at ≤ e.1.accessed_at) full.items
    × ((key : String)
        → Dict.get (evict_lru full).items key
          ≡ (if string_eq.beq (oldest full) key then none else Dict.get full.items key))
evict_lru-least_example = evict_lru-least full full-IsKeyed (omega arith)

abbrev cycle : Graph
cycle = ("a", "b" ∷ []) ∷ ("b", "a" ∷ []) ∷ []

is_circular_dependency-eq-false_example : is_circular_dependency cycle "a" "b" ≡ some false
is_circular_dependency-eq-false_example = is_circular_dependency-eq-false cycle "a" "b"
