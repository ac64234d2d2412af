-- ===== src/Analysis/Cache/Runs.antt =====
-- Any sequence of calls: what holds of the cache after each.
use mcp_bsl_lsp_bridge.Prelude.{
  ℕ, ◌+◌, ◌≤◌, ◌<◌, String, some, List, [], ◌∷◌, ◌≡◌, ◌≢◌, refl, ltb, leb, length, All, string_eq,
  arith, Bool-cases, Option-cases, inl, inr,
}
use mcp_bsl_lsp_bridge.Prelude.Dict
use mcp_bsl_lsp_bridge.Prelude.Dict.{
  Dict, Distinct-put, Distinct-remove, All-put, All-remove, length-remove-le, length-put_known,
}
use mcp_bsl_lsp_bridge.Analysis.Cache
use mcp_bsl_lsp_bridge.Analysis.Cache.{
  CacheItem, InMemoryCache, new_analysis_cache, entry, lifetime, evict_lru, room, drop_expired,
  oldest,
}
use mcp_bsl_lsp_bridge.Analysis.Cache.Bound.{IsKeyed, length-set-le}

-- A call, with the readings of the clock that it makes.
pub data Call (V : Type 0) : Type 0 where
  get : String → ℕ → ℕ → Call V
  set : String → V → ℕ → ℕ → ℕ → Call V
  delete : String → Call V
  clear : Call V
  cleanup : ℕ → Call V

module _ {V : Type 0} where
  pub perform : InMemoryCache V → Call V → InMemoryCache V
  perform c (get key now later) = (Cache.get c key now later).0
  perform c (set key value ttl now later) = Cache.set c key value ttl now later
  perform c (delete key) = Cache.delete c key
  perform c clear = Cache.clear c
  perform c (cleanup now) = Cache.cleanup c now

  pub run : InMemoryCache V → List (Call V) → InMemoryCache V
  run c [] = c
  run c (call ∷ calls) = run (perform c call) calls

  -- No call of `Set` uses the empty key.
  abbrev pub NamesKey : Call V → Type 0
  NamesKey (set key value ttl now later) = key ≢ ""
  NamesKey _ = Unit

  pub record IsSound (cap : ℕ) (c : InMemoryCache V) : Type 0 where
    pub keyed : IsKeyed c.items
    pub capacity : c.max_size ≡ cap
    pub positive : 0 < cap
    pub bounded : length c.items ≤ cap
    pub counted : c.stats.size ≡ length c.items

  remove-IsKeyed :
      (items : Dict String (CacheItem V)) (k : String)
      → IsKeyed items
      → IsKeyed (Dict.remove items k)
  remove-IsKeyed items k h = record {
    distinct = Distinct-remove items k h.distinct;
    named = All-remove (λ e. e.0 ≢ "") items k h.named;
  }

  put-IsKeyed :
      (items : Dict String (CacheItem V)) (k : String) (x : CacheItem V)
      → k ≢ ""
      → IsKeyed items
      → IsKeyed (Dict.put items k x)
  put-IsKeyed items k x ne h = record {
    distinct = Distinct-put items k x h.distinct;
    named = All-put (λ e. e.0 ≢ "") items k x h.named ne;
  }

  get-named :
      (items : Dict String (CacheItem V)) (k : String) (x : CacheItem V)
      → All (λ e. e.0 ≢ "") items
      → Dict.get items k ≡ some x
      → k ≢ ""
  unfolding Dict.get
  get-named [] k x n h = absurd (ground arith)
  get-named ((j, y) ∷ items) k x (ne, n) h = elim (Bool-cases (string_eq.beq j k)) [
    | inl same ↦ rw (← (string_eq.beq_iff j k).0 same) ne
    | inr other ↦ get-named items k x n (rw other at h)
  ]

  drop_expired-IsKeyed :
      (now : ℕ) (todo items : Dict String (CacheItem V))
      → IsKeyed items
      → IsKeyed (drop_expired now todo items)
        × (length (drop_expired now todo items) ≤ length items)
  unfolding drop_expired
  drop_expired-IsKeyed now [] items k = (k, omega arith)
  drop_expired-IsKeyed now ((key, item) ∷ todo) items k =
      elim (Bool-cases (ltb item.expires_at now)) [
        | inl old ↦
            let (k', le) =
              drop_expired-IsKeyed now todo (Dict.remove items key) (remove-IsKeyed items key k) in
            rw old (k', omega (arith, length-remove-le items key))
        | inr fresh ↦ rw fresh (drop_expired-IsKeyed now todo items k)
      ]

  evict_lru-IsKeyed : (c : InMemoryCache V) → IsKeyed c.items → IsKeyed (evict_lru c).items
  unfolding evict_lru
  evict_lru-IsKeyed c k = elim (Bool-cases (string_eq.beq (oldest c) "")) [
    | inl none_found ↦ rw none_found k
    | inr found ↦ rw found (remove-IsKeyed c.items (oldest c) k)
  ]

  room-IsKeyed : (c : InMemoryCache V) → IsKeyed c.items → IsKeyed (room c).items
  unfolding room
  room-IsKeyed c k = elim (Bool-cases (leb c.max_size (length c.items))) [
    | inl full ↦ rw full (evict_lru-IsKeyed c k)
    | inr free ↦ rw free k
  ]

  max_size-room : (c : InMemoryCache V) → (room c).max_size ≡ c.max_size
  unfolding room evict_lru
  max_size-room c = elim (Bool-cases (leb c.max_size (length c.items))) [
    | inl full ↦ rw full (elim (Bool-cases (string_eq.beq (oldest c) "")) [
      | inl none_found ↦ rw none_found refl
      | inr found ↦ rw found refl
    ])
    | inr free ↦ rw free refl
  ]

  module _ (cap : ℕ) (c : InMemoryCache V) (s : IsSound cap c) where
    get-IsSound : (key : String) (now later : ℕ) → IsSound cap (Cache.get c key now later).0
    unfolding Cache.get
    get-IsSound key now later = elim (Option-cases (Dict.get c.items key)) [
      | inl missing ↦
          rw (missing, Cache.get)
            (record {
              keyed = s.keyed;
              capacity = s.capacity;
              positive = s.positive;
              bounded = s.bounded;
              counted = s.counted;
            })
      | inr (item, found) ↦ elim (Bool-cases (ltb item.expires_at now)) [
        | inl old ↦
            rw (found, Cache.get)
              (rw old (record {
                keyed = remove-IsKeyed c.items key s.keyed;
                capacity = s.capacity;
                positive = s.positive;
                bounded = omega (arith, length-remove-le c.items key, s.bounded);
                counted = refl;
              }))
        | inr fresh ↦
            rw (found, Cache.get)
              (rw fresh (record {
                keyed =
                    put-IsKeyed c.items key (record item { accessed_at = later })
                      (get-named c.items key item s.keyed.named found) s.keyed;
                capacity = s.capacity;
                positive = s.positive;
                bounded = omega (
                  arith,
                  length-put_known c.items key (record item { accessed_at = later }) item found,
                  s.bounded,
                );
                counted = omega (
                  arith,
                  length-put_known c.items key (record item { accessed_at = later }) item found,
                  s.counted,
                );
              }))
      ]
    ]

    set-IsSound :
        (key : String) (value : V) (ttl now later : ℕ)
        → key ≢ ""
        → IsSound cap (Cache.set c key value ttl now later)
    unfolding Cache.set
    set-IsSound key value ttl now later ne = record {
      keyed = put-IsKeyed (room c).items key item ne (room-IsKeyed c s.keyed);
      capacity = omega (arith, max_size-room c, s.capacity);
      positive = s.positive;
      bounded = omega (
        arith,
        s.capacity,
        s.bounded,
        length-set-le c key value ttl now later s.keyed (omega (arith, s.capacity, s.positive))
            (omega (arith, s.capacity, s.bounded)),
      );
      counted = refl;
    }
      where
        item : CacheItem V
        item = entry value (now + lifetime c ttl) later

  perform-IsSound :
      (cap : ℕ) (c : InMemoryCache V) (call : Call V)
      → NamesKey call
      → IsSound cap c
      → IsSound cap (perform c call)
  unfolding perform
  perform-IsSound cap c (get key now later) n s = get-IsSound cap c s key now later
  perform-IsSound cap c (set key value ttl now later) n s =
      set-IsSound cap c s key value ttl now later n
  perform-IsSound cap c (delete key) n s =
      unfold Cache.delete in
      record {
        keyed = remove-IsKeyed c.items key s.keyed;
        capacity = s.capacity;
        positive = s.positive;
        bounded = omega (arith, length-remove-le c.items key, s.bounded);
        counted = refl;
      }
  perform-IsSound cap c clear n s =
      unfold Cache.clear in
      record {
        keyed = record { distinct = tt; named = tt };
        capacity = s.capacity;
        positive = s.positive;
        bounded = omega arith;
        counted = refl;
      }
  perform-IsSound cap c (cleanup now) n s =
      let (k, le) = drop_expired-IsKeyed now c.items c.items s.keyed in
      unfold Cache.cleanup in
      record {
        keyed = k;
        capacity = s.capacity;
        positive = s.positive;
        bounded = omega (arith, s.bounded);
        counted = refl;
      }

  run-keeps :
      (cap : ℕ) (c : InMemoryCache V) (calls : List (Call V))
      → All NamesKey calls
      → IsSound cap c
      → IsSound cap (run c calls)
  unfolding run
  run-keeps cap c [] n s = s
  run-keeps cap c (call ∷ calls) (n, ns) s =
      run-keeps cap (perform c call) calls ns (perform-IsSound cap c call n s)

  -- A cache made with a positive capacity, after any calls whose `Set` keys are not empty, holds
  -- at most that many items, each key once, and `Stats().Size` is the number of its items.
  pub run-IsSound :
      (cap ttl : ℕ) (calls : List (Call V))
      → 0 < cap
      → All NamesKey calls
      → IsSound cap (run (new_analysis_cache cap ttl) calls)
  unfolding new_analysis_cache
  run-IsSound cap ttl calls pos named =
      run-keeps cap (new_analysis_cache cap ttl) calls named (record {
        keyed = record { distinct = tt; named = tt };
        capacity = refl;
        positive = pos;
        bounded = omega arith;
        counted = refl;
      })
