-- ===== src/Prelude/Dict.antt =====
-- Go's maps, as association lists over keys with an equality. The order of the list stands for
-- the order in which `range` visits the map, which Go leaves open.
use Prim.Native.Nat.{◌≤◌, ◌<◌, ◌+◌}
use mathlib.Core.Path.{◌≡◌, refl, sym}
use mathlib.Core.Option.{Option, none, some}
use mathlib.Core.List.{List, [], ◌∷◌}
use native.Mathlib.Omega.{arith}
use mathlib.Core.Logic.{inl, inr}
use mcp_bsl_lsp_bridge.Prelude.Tests.{if◌then◌else◌, Bool-cases, some-injective}
use mcp_bsl_lsp_bridge.Prelude.Lists.{length, All}
use mcp_bsl_lsp_bridge.Prelude.Equality.{Eq}

abbrev pub Dict {ℓ κ} : Type ℓ → Type κ → Type (ℓ ⊔ κ)
Dict K V = List (K × V)

module _ {ℓ κ} {K : Type ℓ} {V : Type κ} ⦃e : Eq K⦄ where
  -- `v, ok := m[k]`
  unfoldable pub get : Dict K V → K → Option V
  get [] k = none
  get ((j, v) ∷ m) k = if e.beq j k then some v else get m k

  -- `m[k] = v`
  unfoldable pub put : Dict K V → K → V → Dict K V
  put [] k v = (k, v) ∷ []
  put ((j, w) ∷ m) k v = if e.beq j k then (k, v) ∷ m else (j, w) ∷ put m k v

  -- `delete(m, k)`
  unfoldable pub remove : Dict K V → K → Dict K V
  remove [] k = []
  remove ((j, w) ∷ m) k = let rest = remove m k in if e.beq j k then rest else (j, w) ∷ rest

  pub get-put :
      (m : Dict K V) (k j : K) (v : V) → get (put m k v) j ≡ (if e.beq k j then some v else get m j)
  unfolding get put
  get-put [] k j v = refl
  get-put ((i, w) ∷ m) k j v =
      ground (arith, e.beq_iff k j, e.beq_iff i k, e.beq_iff i j, get-put m k j v)

  pub get-remove :
      (m : Dict K V) (k j : K) → get (remove m k) j ≡ (if e.beq k j then none else get m j)
  unfolding get remove
  get-remove [] k j = ground arith
  get-remove ((i, w) ∷ m) k j =
      ground (arith, e.beq_iff k j, e.beq_iff i k, e.beq_iff i j, get-remove m k j)

  pub length-put-le : (m : Dict K V) (k : K) (v : V) → length (put m k v) ≤ length m + 1
  unfolding put
  length-put-le [] k v = omega arith
  length-put-le ((i, w) ∷ m) k v = ground (arith, length-put-le m k v)

  pub length-remove-le : (m : Dict K V) (k : K) → length (remove m k) ≤ length m
  unfolding remove
  length-remove-le [] k = omega arith
  length-remove-le ((i, w) ∷ m) k = ground (arith, length-remove-le m k)

  pub length-remove-lt :
      (m : Dict K V) (k : K) (v : V) → get m k ≡ some v → length (remove m k) < length m
  unfolding get remove
  length-remove-lt [] k v h = ground arith
  length-remove-lt ((i, w) ∷ m) k v h = ground (arith, length-remove-lt m k v, length-remove-le m k)

  pub All-remove {μ} : (P : K × V → Type μ) (m : Dict K V) (k : K) → All P m → All P (remove m k)
  unfolding remove
  All-remove P [] k h = h
  All-remove P ((i, w) ∷ m) k (p, h) = ground (arith, All-remove P m k h)

  pub All-put {μ} :
      (P : K × V → Type μ) (m : Dict K V) (k : K) (v : V) → All P m → P (k, v) → All P (put m k v)
  unfolding put
  All-put P [] k v h p = (p, tt)
  All-put P ((i, w) ∷ m) k v (q, h) p = ground (arith, All-put P m k v h p)

  -- No key stands twice, as in every map of Go.
  abbrev pub Distinct : Dict K V → Type (ℓ ⊔ κ)
  Distinct [] = Unit
  Distinct ((j, w) ∷ m) = (get m j ≡ none) × Distinct m

  pub Distinct-put : (m : Dict K V) (k : K) (v : V) → Distinct m → Distinct (put m k v)
  unfolding get put
  Distinct-put [] k v d = (refl, tt)
  Distinct-put ((j, w) ∷ m) k v (d, ds) = elim (Bool-cases (e.beq j k)) [
    | inl same ↦ rw same (unfold get in rw (← (e.beq_iff j k).0 same) (d, ds))
    | inr other ↦
        rw other
          (ground (arith, get-put m k j v, e.beq_iff j k, e.beq_iff k j), Distinct-put m k v ds)
  ]

  pub Distinct-remove : (m : Dict K V) (k : K) → Distinct m → Distinct (remove m k)
  unfolding get remove
  Distinct-remove [] k d = tt
  Distinct-remove ((j, w) ∷ m) k (d, ds) = ground (arith, Distinct-remove m k ds, get-remove m k j)

  -- `range` visits each entry that a lookup finds.
  All-get-later :
      (m : Dict K V) (j : K) (w : V) (xs : Dict K V)
      → get m j ≡ none
      → All (λ x. get m x.0 ≡ some x.1) xs
      → All (λ x. get ((j, w) ∷ m) x.0 ≡ some x.1) xs
  unfolding get
  All-get-later m j w [] d h = tt
  All-get-later m j w ((k, v) ∷ xs) d (p, h) =
      (ground (arith, e.beq_iff j k), All-get-later m j w xs d h)

  pub All-get : (m : Dict K V) → Distinct m → All (λ x. get m x.0 ≡ some x.1) m
  All-get [] d = tt
  All-get ((j, w) ∷ m) (d, ds) =
      (unfold get in ground (arith, e.beq_iff j j), All-get-later m j w m d (All-get m ds))

  -- A write to a key of the map keeps the size.
  pub length-put_known :
      (m : Dict K V) (k : K) (v w : V) → get m k ≡ some w → length (put m k v) ≡ length m
  unfolding get put
  length-put_known [] k v w h = ground arith
  length-put_known ((j, u) ∷ m) k v w h = ground (arith, length-put_known m k v w)

  pub All-found {μ} :
      (P : K × V → Type μ) (m : Dict K V) (k : K) (v : V) → All P m → get m k ≡ some v → P (k, v)
  unfolding get
  All-found P [] k v h found = absurd (ground arith)
  All-found P ((j, w) ∷ m) k v (p, h) found = elim (Bool-cases (e.beq j k)) [
    | inl same ↦
        let q : some w ≡ some v = rw same at found in
        rw (sym (some-injective q)) (rw (sym ((e.beq_iff j k).0 same)) p)
    | inr other ↦ All-found P m k v h (rw other at found)
  ]
