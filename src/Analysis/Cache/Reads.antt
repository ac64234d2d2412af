-- ===== src/Analysis/Cache/Reads.antt =====
-- What `Get` returns after `Set`, and what an update costs.
use mcp_bsl_lsp_bridge.Prelude.{
  ℕ, ◌+◌, ◌≤◌, ◌<◌, String, true, none, some, ◌≡◌, ◌≢◌, refl, string_eq, if◌then◌else◌, ltb, leb,
  length, arith,
}
use mcp_bsl_lsp_bridge.Prelude.Dict
use mcp_bsl_lsp_bridge.Prelude.Dict.{get-put, get-remove}
use text.Mathlib.TextEquality.{eq_iff}
use mcp_bsl_lsp_bridge.Analysis.Cache
use mcp_bsl_lsp_bridge.Analysis.Cache.{InMemoryCache, entry, lifetime, oldest, evict_lru, room}
use mcp_bsl_lsp_bridge.Analysis.Cache.Bound.{IsKeyed, evict_lru-least}

module _ {V : Type 0} (c : InMemoryCache V) (key : String) (value : V)
    (ttl set_at stamped : ℕ) where
  -- A `Get` after a `Set` returns the value until the lifetime is over, and nothing after it.
  pub get-set :
      (now later : ℕ)
      → (Cache.get (Cache.set c key value ttl set_at stamped) key now later).1
        ≡ (if ltb (set_at + lifetime c ttl) now then none else some value)
  unfolding Cache.get Cache.set
  get-set now later =
      let e = get-put (room c).items key key (entry value (set_at + lifetime c ttl) stamped) in
      ground (arith, e, eq_iff key key)

  -- `Set` on a full cache evicts even when it only overwrites a key: the least recently used
  -- entry is lost though no room was needed.
  pub set_full-evicts :
      IsKeyed c.items
      → 0 < length c.items
      → c.max_size ≤ length c.items
      → oldest c ≢ key
      → Dict.get (Cache.set c key value ttl set_at stamped).items (oldest c) ≡ none
  unfolding Cache.set
  set_full-evicts k pos full other =
      let roomy : room c ≡ evict_lru c =
        let over : leb c.max_size (length c.items) ≡ true = ground arith in
        unfold room in rw over refl in
      let (item, held, least, left) = evict_lru-least c k pos in
      let gone : Dict.get (evict_lru c).items (oldest c) ≡ none =
        ground (arith, left (oldest c), eq_iff (oldest c) (oldest c)) in
      let written =
        get-put (evict_lru c).items key (oldest c)
          (entry value (set_at + lifetime c ttl) stamped) in
      rw roomy (ground (arith, written, gone, eq_iff key (oldest c)))
