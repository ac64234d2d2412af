-- ===== src/Analysis/Graph/Depth/Levels.antt =====
-- The queue of the breadth-first search holds the elements of one depth before those of the next.
use mathlib.Core.List.{Memᴰ}
use mcp_bsl_lsp_bridge.Prelude.{
  ℕ, suc, ◌≤◌, String, true, false, List, [], ◌∷◌, ◌++◌, ◌≡◌, refl, ◌⊎◌, inl, inr, string_eq, All,
  All-append, All-imp, arith, Bool-cases,
}
use mcp_bsl_lsp_bridge.Analysis.Graph.{visited}
use mcp_bsl_lsp_bridge.Analysis.Graph.Depth.{Hop, fresh}

abbrev pub AtDepth : ℕ → List Hop → Type 0
AtDepth m queue = All (λ hop. hop.1 ≡ m) queue

abbrev pub Tiered : ℕ → List Hop → Type 0
Tiered m [] = Unit
Tiered m ((symbol, depth) ∷ queue) =
    ((depth ≡ m) × Tiered m queue) ⊎ ((depth ≡ suc m) × AtDepth (suc m) queue)

Tiered-AtDepth : (m : ℕ) (queue : List Hop) → AtDepth m queue → Tiered m queue
Tiered-AtDepth m [] h = tt
Tiered-AtDepth m ((symbol, depth) ∷ queue) (e, h) = inl (e, Tiered-AtDepth m queue h)

Tiered-append : (m : ℕ) (p q : List Hop) → Tiered m p → AtDepth (suc m) q → Tiered m (p ++ q)
Tiered-append m [] [] h k = tt
Tiered-append m [] ((symbol, depth) ∷ q) h (e, k) = inr (e, k)
Tiered-append m ((symbol, depth) ∷ p) q (inl (e, h)) k = inl (e, Tiered-append m p q h k)
Tiered-append m ((symbol, depth) ∷ p) q (inr (e, h)) k =
    inr (e, All-append (λ hop. hop.1 ≡ suc m) p q h k)

fresh-AtDepth :
    (seen : List String) (depth : ℕ) (ns : List String) → AtDepth (suc depth) (fresh seen depth ns)
unfolding fresh
fresh-AtDepth seen depth [] = tt
fresh-AtDepth seen depth (n ∷ ns) = elim (Bool-cases (visited seen n)) [
  | inl old ↦ rw (old, fresh) (fresh-AtDepth seen depth ns)
  | inr new ↦ rw (new, fresh) (refl, fresh-AtDepth seen depth ns)
]

-- A round keeps the order, and the depth of the element it takes is the lower of the two.
pub Tiered-round :
    (m : ℕ) (symbol : String) (depth : ℕ) (queue : List Hop) (seen ns : List String)
    → Tiered m ((symbol, depth) ∷ queue)
    → Tiered depth (queue ++ fresh seen depth ns)
Tiered-round m symbol depth queue seen ns (inl (e, h)) =
    let h' : Tiered depth queue = rw e h in
    Tiered-append depth queue (fresh seen depth ns) h' (fresh-AtDepth seen depth ns)
Tiered-round m symbol depth queue seen ns (inr (e, h)) =
    let h' : AtDepth depth queue = rw e h in
    Tiered-append depth queue (fresh seen depth ns) (Tiered-AtDepth depth queue h')
      (fresh-AtDepth seen depth ns)

pub Tiered-bounds :
    (m : ℕ) (queue : List Hop) → Tiered m queue → All (λ hop. (m ≤ hop.1) × (hop.1 ≤ suc m)) queue
Tiered-bounds m [] h = tt
Tiered-bounds m ((symbol, depth) ∷ queue) (inl (e, h)) = (omega arith, Tiered-bounds m queue h)
Tiered-bounds m ((symbol, depth) ∷ queue) (inr (e, h)) = (
  omega arith,
  All-imp (λ hop. hop.1 ≡ suc m) (λ hop. (m ≤ hop.1) × (hop.1 ≤ suc m)) (λ hop k. omega arith) queue
      h,
)

pub Tiered-front :
    (m : ℕ) (symbol : String) (depth : ℕ) (queue : List Hop)
    → Tiered m ((symbol, depth) ∷ queue)
    → All (λ hop. depth ≤ hop.1) ((symbol, depth) ∷ queue)
Tiered-front m symbol depth queue (inl (e, h)) = (
  omega arith,
  All-imp (λ hop. (m ≤ hop.1) × (hop.1 ≤ suc m)) (λ hop. depth ≤ hop.1) (λ hop k. omega arith) queue
      (Tiered-bounds m queue h),
)
Tiered-front m symbol depth queue (inr (e, h)) = (
  omega arith,
  All-imp (λ hop. hop.1 ≡ suc m) (λ hop. depth ≤ hop.1) (λ hop k. omega arith) queue h,
)

pub All-Memᴰ {ℓ} :
    (P : Hop → Type ℓ) {hop : Hop} (queue : List Hop) → Memᴰ hop queue → All P queue → P hop
All-Memᴰ P [] m h = elim m [ ]
All-Memᴰ P (x ∷ queue) (Memᴰ.head e) (p, h) = rw e p
All-Memᴰ P (x ∷ queue) (Memᴰ.tail m) (p, h) = All-Memᴰ P queue m h

-- A round appends every neighbour that is not marked.
pub fresh-Memᴰ :
    (seen : List String) (depth : ℕ) (ns : List String) (u : String)
    → visited seen u ≡ false
    → visited ns u ≡ true
    → Memᴰ (u, suc depth) (fresh seen depth ns)
unfolding fresh visited
fresh-Memᴰ seen depth [] u new h = ground arith
fresh-Memᴰ seen depth (n ∷ ns) u new h = elim (Bool-cases (string_eq.beq n u)) [
  | inl same ↦
      let e : n ≡ u = (string_eq.beq_iff n u).0 same in
      let new' : visited seen n ≡ false = rw e new in rw (new', fresh) (Memᴰ.head (rw e refl))
  | inr other ↦
      let later = fresh-Memᴰ seen depth ns u new (rw (other, visited) at h) in
      elim (Bool-cases (visited seen n)) [
        | inl old ↦ rw (old, fresh) later
        | inr fresh_n ↦ rw (fresh_n, fresh) (Memᴰ.tail later)
      ]
]
