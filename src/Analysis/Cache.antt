-- ===== src/Analysis/Cache.antt =====
-- analysis/cache.go: the in-memory cache with expiry and eviction of the least recently used
-- item. A method runs under the mutex, so it is one function on the state; the readings of the
-- clock are its arguments, as numbers of nanoseconds. `hit_rate` keeps the numerator and the
-- denominator of the quotient that the source rounds to a float.
pub mod Bound
pub mod Runs
pub mod Reads
pub mod Keeps
use mcp_bsl_lsp_bridge.Prelude.{
  ℕ, ◌+◌, String, Bool, true, false, ◌||◌, Option, none, some, List, [], ◌∷◌, string_eq,
  if◌then◌else◌, ltb, leb, ◌==◌, length,
}
use mcp_bsl_lsp_bridge.Prelude.Dict
use mcp_bsl_lsp_bridge.Prelude.Dict.{Dict}

pub record CacheStats : Type 0 where
  pub hits : ℕ
  pub misses : ℕ
  pub size : ℕ
  pub hit_rate : ℕ × ℕ
  pub memory_used : ℕ

pub record CacheItem (V : Type 0) : Type 0 where
  pub value : V
  pub expires_at : ℕ
  pub accessed_at : ℕ

pub record InMemoryCache (V : Type 0) : Type 0 where
  pub items : Dict String (CacheItem V)
  pub stats : CacheStats
  pub max_size : ℕ
  pub ttl : ℕ

module _ {V : Type 0} where
  unfoldable pub new_analysis_cache : ℕ → ℕ → InMemoryCache V
  new_analysis_cache max_size default_ttl = record {
    items = [];
    stats = record { hits = 0; misses = 0; size = 0; hit_rate = (0, 0); memory_used = 0 };
    max_size = max_size;
    ttl = default_ttl;
  }

  miss : InMemoryCache V → InMemoryCache V
  miss c = record c { stats = record c.stats { misses = c.stats.misses + 1 } }

  -- the branch of `Get` that drops an expired item
  expire : InMemoryCache V → String → InMemoryCache V
  expire c key =
      let items = Dict.remove c.items key in
      record c {
        items = items;
        stats = record c.stats { size = length items; misses = c.stats.misses + 1 };
      }

  -- the branch of `Get` that returns the item
  touch : InMemoryCache V → String → CacheItem V → ℕ → InMemoryCache V
  touch c key item now = record c {
    items = Dict.put c.items key (record item { accessed_at = now });
    stats = record c.stats {
      hits = c.stats.hits + 1;
      hit_rate = (c.stats.hits + 1, c.stats.hits + 1 + c.stats.misses);
    };
  }

  -- `Get`; `now` is the reading of the expiry test and `later` that of the access time
  unfoldable pub get : InMemoryCache V → String → ℕ → ℕ → InMemoryCache V × Option V
  unfolding miss expire touch
  get c key now later = elim (Dict.get c.items key) [
    | none ↦ (miss c, none)
    | some item ↦
        if ltb item.expires_at now
        then (expire c key, none)
        else (touch c key item later, some item.value)
  ]

  -- one round of the loop of `evictLRU`, on `oldestKey` and `oldestTime`
  unfoldable pub older : String × ℕ → String × CacheItem V → String × ℕ
  older found (key, item) =
      if string_eq.beq found.0 "" || ltb item.accessed_at found.1
      then (key, item.accessed_at)
      else found

  unfoldable pub oldest_from : String × ℕ → Dict String (CacheItem V) → String × ℕ
  oldest_from found [] = found
  oldest_from found (entry ∷ items) = oldest_from (older found entry) items

  abbrev pub oldest : InMemoryCache V → String
  oldest c = (oldest_from ("", 0) c.items).0

  unfoldable pub evict_lru : InMemoryCache V → InMemoryCache V
  evict_lru c =
      if string_eq.beq (oldest c) "" then c else record c { items = Dict.remove c.items (oldest c) }

  abbrev pub lifetime : InMemoryCache V → ℕ → ℕ
  lifetime c ttl = if ttl == 0 then c.ttl else ttl

  -- the item that `Set` writes
  abbrev pub entry : V → ℕ → ℕ → CacheItem V
  entry value expires_at accessed_at = record {
    value = value;
    expires_at = expires_at;
    accessed_at = accessed_at;
  }

  -- the write at the end of `Set`
  store : InMemoryCache V → String → V → ℕ → ℕ → InMemoryCache V
  store c key value expires_at accessed_at =
      let items = Dict.put c.items key (entry value expires_at accessed_at) in
      record c { items = items; stats = record c.stats { size = length items } }

  -- the eviction at the start of `Set`
  room : InMemoryCache V → InMemoryCache V
  room c = if leb c.max_size (length c.items) then evict_lru c else c

  -- `Set`; `now` and `later` are its two readings of the clock
  unfoldable pub set : InMemoryCache V → String → V → ℕ → ℕ → ℕ → InMemoryCache V
  unfolding store room
  set c key value ttl now later = store (room c) key value (now + lifetime c ttl) later

  unfoldable pub delete : InMemoryCache V → String → InMemoryCache V
  delete c key =
      let items = Dict.remove c.items key in
      record c { items = items; stats = record c.stats { size = length items } }

  unfoldable pub clear : InMemoryCache V → InMemoryCache V
  clear c = record c { items = []; stats = record c.stats { size = 0 } }

  -- the loop of one tick of `cleanup`: it visits `todo` and deletes from the map
  drop_expired :
      ℕ → Dict String (CacheItem V) → Dict String (CacheItem V) → Dict String (CacheItem V)
  drop_expired now [] items = items
  drop_expired now ((key, item) ∷ todo) items =
      drop_expired now todo (if ltb item.expires_at now then Dict.remove items key else items)

  unfoldable pub cleanup : InMemoryCache V → ℕ → InMemoryCache V
  unfolding drop_expired
  cleanup c now =
      let items = drop_expired now c.items c.items in
      record c { items = items; stats = record c.stats { size = length items } }
