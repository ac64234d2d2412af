-- ===== src/Analysis/Cache/Keeps.antt =====
-- An item of the cache while other keys are read and written.
use mcp_bsl_lsp_bridge.Prelude.{
  ℕ, suc, ◌+◌, ◌≤◌, ◌<◌, String, false, some, ◌≡◌, refl, sym, ap, ◌∙◌, inl, inr, string_eq, ltb,
  length, arith, Bool-cases, Option-cases, some-injective, leb-false,
}
use mcp_bsl_lsp_bridge.Prelude.Dict
use mcp_bsl_lsp_bridge.Prelude.Dict.{
  Dict, get-put, get-remove, length-put-le, length-put_known, length-remove-le,
}
use mcp_bsl_lsp_bridge.Analysis.Cache.{
  CacheItem, InMemoryCache, get, set, lifetime, entry, miss, expire, touch, room, store,
}

module _ {V : Type 0} (key : String) (value : V) (expiry : ℕ) where
  -- The cache has the value under the key, until the time.
  pub record Holds (c : InMemoryCache V) : Type 0 where
    pub item : CacheItem V
    pub found : Dict.get c.items key ≡ some item
    pub same_value : item.value ≡ value
    pub lives : item.expires_at ≡ expiry

  pub get-hit :
      (c : InMemoryCache V) (now later : ℕ)
      → now ≤ expiry
      → Holds c
      → (get c key now later).1 ≡ some value
  unfolding get
  get-hit c now later alive h =
      let lives = h.lives in
      let fresh : ltb h.item.expires_at now ≡ false = ground (arith, lives) in
      let found = h.found in rw (found, get) (rw fresh (ap some h.same_value))

  -- The item that a lookup of any key leaves there.
  get-Holds :
      (c : InMemoryCache V) (k : String) (now later : ℕ)
      → now ≤ expiry
      → Holds c
      → Holds (get c k now later).0
  unfolding get miss expire touch
  get-Holds c k now later alive h = elim (Option-cases (Dict.get c.items k)) [
    | inl e ↦
        rw (e, get)
          (record { item = h.item; found = h.found; same_value = h.same_value; lives = h.lives })
    | inr (i, e) ↦ elim (Bool-cases (string_eq.beq k key)) [
      | inl same ↦
          let at : Dict.get c.items key ≡ some i =
            ap (Dict.get c.items) (sym ((string_eq.beq_iff k key).0 same)) ∙ e in
          let one : h.item ≡ i = some-injective (sym h.found ∙ at) in
          let i_value : i.value ≡ value = ap (λ x. x.value) (sym one) ∙ h.same_value in
          let i_lives : i.expires_at ≡ expiry = ap (λ x. x.expires_at) (sym one) ∙ h.lives in
          let fresh : ltb i.expires_at now ≡ false = ground (arith, i_lives) in
          rw (e, get)
            (rw fresh (record {
              item = record i { accessed_at = later };
              found = get-put c.items k key (record i { accessed_at = later }) ∙ rw same refl;
              same_value = i_value;
              lives = i_lives;
            }))
      | inr other ↦ elim (Bool-cases (ltb i.expires_at now)) [
        | inl old ↦
            rw (e, get)
              (rw old (record {
                item = h.item;
                found = get-remove c.items k key ∙ rw other h.found;
                same_value = h.same_value;
                lives = h.lives;
              }))
        | inr fresh ↦
            rw (e, get)
              (rw fresh (record {
                item = h.item;
                found = get-put c.items k key (record i { accessed_at = later }) ∙ rw other h.found;
                same_value = h.same_value;
                lives = h.lives;
              }))
      ]
    ]
  ]

  set-Holds :
      (c : InMemoryCache V) (k : String) (v : V) (ttl now later : ℕ)
      → string_eq.beq k key ≡ false
      → length c.items < c.max_size
      → Holds c
      → Holds (set c k v ttl now later)
  unfolding set room store
  set-Holds c k v ttl now later other fits h =
      rw (leb-false (length c.items) c.max_size fits) (record {
        item = h.item;
        found = get-put c.items k key (entry v (now + lifetime c ttl) later) ∙ rw other h.found;
        same_value = h.same_value;
        lives = h.lives;
      })

  -- As long as there is room for `n` more items, too.
  pub record Keeps (n : ℕ) (c : InMemoryCache V) : Type 0 where
    pub holds : Holds c
    pub fits : length c.items + n ≤ c.max_size

  get-size :
      (c : InMemoryCache V) (k : String) (now later : ℕ)
      → (length (get c k now later).0.items ≤ length c.items)
        × ((get c k now later).0.max_size ≡ c.max_size)
  unfolding get miss expire touch
  get-size c k now later = elim (Option-cases (Dict.get c.items k)) [
    | inl e ↦ rw (e, get) (omega arith, refl)
    | inr (i, e) ↦ elim (Bool-cases (ltb i.expires_at now)) [
      | inl old ↦ rw (e, get) (rw old (length-remove-le c.items k, refl))
      | inr fresh ↦
          let size = length-put_known c.items k (record i { accessed_at = later }) i e in
          rw (e, get) (rw fresh (omega (arith, size), refl))
    ]
  ]

  set-size :
      (c : InMemoryCache V) (k : String) (v : V) (ttl now later : ℕ)
      → length c.items < c.max_size
      → (length (set c k v ttl now later).items ≤ length c.items + 1)
        × ((set c k v ttl now later).max_size ≡ c.max_size)
  unfolding set room store
  set-size c k v ttl now later fits =
      rw (leb-false (length c.items) c.max_size fits)
        (length-put-le c.items k (entry v (now + lifetime c ttl) later), refl)

  pub get-Keeps :
      (n : ℕ) (c : InMemoryCache V) (k : String) (now later : ℕ)
      → now ≤ expiry
      → Keeps n c
      → Keeps n (get c k now later).0
  get-Keeps n c k now later alive h =
      let (size, max_size) = get-size c k now later in
      let fits = h.fits in
      record {
        holds = get-Holds c k now later alive h.holds;
        fits = omega (arith, size, max_size, fits);
      }

  pub set-Keeps :
      (n : ℕ) (c : InMemoryCache V) (k : String) (v : V) (ttl now later : ℕ)
      → string_eq.beq k key ≡ false
      → Keeps (suc n) c
      → Keeps n (set c k v ttl now later)
  set-Keeps n c k v ttl now later other h =
      let fits = h.fits in
      let free : length c.items < c.max_size = omega (arith, fits) in
      let (size, max_size) = set-size c k v ttl now later free in
      record {
        holds = set-Holds c k v ttl now later other free h.holds;
        fits = omega (arith, size, max_size, fits);
      }

  pub fewer-Keeps : (n : ℕ) (c : InMemoryCache V) → Keeps (suc n) c → Keeps n c
  fewer-Keeps n c h = let fits = h.fits in record { holds = h.holds; fits = omega (arith, fits) }

-- What `Set` leaves.
pub set-Holds_new :
    {V : Type 0} (c : InMemoryCache V) (key : String) (value : V) (ttl now later : ℕ)
    → Holds key value (now + lifetime c ttl) (set c key value ttl now later)
unfolding set store
set-Holds_new c key value ttl now later = record {
  item = entry value (now + lifetime c ttl) later;
  found =
      get-put (room c).items key key (entry value (now + lifetime c ttl) later)
      ∙ rw ((string_eq.beq_iff key key).1 refl) refl;
  same_value = refl;
  lives = refl;
}
