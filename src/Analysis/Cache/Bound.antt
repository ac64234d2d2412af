-- ===== src/Analysis/Cache/Bound.antt =====
-- The victim of an eviction, and the bound on the size of the cache.
use mcp_bsl_lsp_bridge.Prelude.{
  ℕ, ◌+◌, ◌≤◌, ◌<◌, String, ◌||◌, none, some, [], ◌∷◌, ◌≡◌, ◌≢◌, refl, string_eq, if◌then◌else◌,
  ltb, leb, leb→le, length, All, arith, Bool-cases, inl, inr,
}
use text.Mathlib.TextEquality.{eq_iff}
use mcp_bsl_lsp_bridge.Prelude.Dict
use mcp_bsl_lsp_bridge.Prelude.Dict.{Dict, length-put-le, get-remove, length-remove-lt}
use mcp_bsl_lsp_bridge.Analysis.Cache.{
  CacheItem, InMemoryCache, older, oldest_from, oldest, evict_lru, entry, lifetime, set,
}

module _ {V : Type 0} (items : Dict String (CacheItem V)) where
  -- A key with its access time in the map.
  abbrev Stamped : String × ℕ → Type 0
  Stamped found =
      (item : CacheItem V) × (Dict.get items found.0 ≡ some item)
      × (item.accessed_at ≡ found.1)
      × (found.0 ≢ "")

  abbrev Listed : Dict String (CacheItem V) → Type 0
  Listed = All (λ e. (Dict.get items e.0 ≡ some e.1) × (e.0 ≢ ""))

  older-Stamped :
      (found : String × ℕ) (e : String × CacheItem V)
      → Stamped found
      → Dict.get items e.0 ≡ some e.1
      → e.0 ≢ ""
      → Stamped (older found e)
  unfolding older
  older-Stamped found e s held named =
      elim (Bool-cases (string_eq.beq found.0 "" || ltb e.1.accessed_at found.1)) [
        | inl later ↦ rw later (e.1, held, refl, named)
        | inr kept ↦ rw kept s
      ]

  older-le : (found : String × ℕ) (e : String × CacheItem V) → (older found e).1 ≤ e.1.accessed_at
  unfolding older
  older-le found e = ground arith

  older-le_found :
      (found : String × ℕ) (e : String × CacheItem V) → found.0 ≢ "" → (older found e).1 ≤ found.1
  unfolding older
  older-le_found found e ne = ground (arith, eq_iff found.0 "")

  -- From a key of the map, the loop ends at a key of the map whose time is the least seen.
  oldest_from-Stamped :
      (found : String × ℕ) (todo : Dict String (CacheItem V))
      → Stamped found
      → Listed todo
      → Stamped (oldest_from found todo)
        × ((oldest_from found todo).1 ≤ found.1)
        × All (λ e. (oldest_from found todo).1 ≤ e.1.accessed_at) todo
  unfolding oldest_from
  oldest_from-Stamped found [] s h = (s, omega arith, tt)
  oldest_from-Stamped found (e ∷ todo) s ((held, named), h) =
      let (s', low, each) =
        oldest_from-Stamped (older found e) todo (older-Stamped found e s held named) h in
      (s', omega (arith, older-le_found found e s.3), (omega (arith, older-le found e), each))

module _ {V : Type 0} where
  -- What the eviction relies on: the keys are distinct, and none is the empty text.
  pub record IsKeyed (items : Dict String (CacheItem V)) : Type 0 where
    pub distinct : Dict.Distinct items
    pub named : All (λ e. e.0 ≢ "") items

  both :
      (items : Dict String (CacheItem V)) (todo : Dict String (CacheItem V))
      → All (λ e. Dict.get items e.0 ≡ some e.1) todo
      → All (λ e. e.0 ≢ "") todo
      → Listed items todo
  both items [] p q = tt
  both items (e ∷ todo) (p, ps) (q, qs) = ((p, q), both items todo ps qs)

  victim-Stamped :
      (items : Dict String (CacheItem V))
      → Dict.Distinct items
      → All (λ e. e.0 ≢ "") items
      → 0 < length items
      → Stamped items (oldest_from ("", 0) items)
        × All (λ x. (oldest_from ("", 0) items).1 ≤ x.1.accessed_at) items
  unfolding oldest_from older
  victim-Stamped [] d n h = absurd (omega arith)
  victim-Stamped (e ∷ todo) d n h =
      let ((held, named), rest) = both (e ∷ todo) (e ∷ todo) (Dict.All-get (e ∷ todo) d) n in
      let (s, low, each) =
        oldest_from-Stamped (e ∷ todo) (e.0, e.1.accessed_at) todo (e.1, held, refl, named) rest in
      (s, (low, each))

  -- The eviction from a cache that is not empty removes an item that was accessed no later than
  -- any other, and that item alone.
  pub evict_lru-least :
      (c : InMemoryCache V)
      → IsKeyed c.items
      → 0 < length c.items
      → (item : CacheItem V) × (Dict.get c.items (oldest c) ≡ some item)
        × All (λ e. item.accessed_at ≤ e.1.accessed_at) c.items
        × ((key : String)
            → Dict.get (evict_lru c).items key
              ≡ (if string_eq.beq (oldest c) key then none else Dict.get c.items key))
  unfolding evict_lru
  evict_lru-least c k h =
      let ((item, held, time, named), least) = victim-Stamped c.items k.distinct k.named h in
      (
        item,
        held,
        rw time least,
        λ key. ground (arith, eq_iff (oldest c) "", get-remove c.items (oldest c) key),
      )

  length-evict_lru :
      (c : InMemoryCache V)
      → IsKeyed c.items
      → 0 < length c.items
      → length (evict_lru c).items < length c.items
  unfolding evict_lru
  length-evict_lru c k h =
      let ((item, held, time, named), least) = victim-Stamped c.items k.distinct k.named h in
      ground (arith, eq_iff (oldest c) "", length-remove-lt c.items (oldest c) item held)

  -- `Set` never leaves more items than the capacity, if the capacity is not 0.
  pub length-set-le :
      (c : InMemoryCache V) (key : String) (value : V) (ttl now later : ℕ)
      → IsKeyed c.items
      → 0 < c.max_size
      → length c.items ≤ c.max_size
      → length (set c key value ttl now later).items ≤ c.max_size
  unfolding set
  length-set-le c key value ttl now later k pos fits =
      elim (Bool-cases (leb c.max_size (length c.items))) [
        | inl full ↦ rw full (
            omega (
              arith,
              leb→le c.max_size (length c.items) full,
              length-evict_lru c k (omega (arith, leb→le c.max_size (length c.items) full)),
              length-put-le (evict_lru c).items key (entry value (now + lifetime c ttl) later),
            ))
        | inr room ↦
            rw room
              (ground (arith, length-put-le c.items key (entry value (now + lifetime c ttl) later)))
      ]
