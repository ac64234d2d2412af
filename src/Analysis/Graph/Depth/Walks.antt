-- ===== src/Analysis/Graph/Depth/Walks.antt =====
-- The walks of a symbol graph, which say what the search is to find.
use mcp_bsl_lsp_bridge.Prelude.{
  ℕ, zero, suc, ◌<◌, String, true, false, List, [], ◌∷◌, ◌≡◌, inl, inr, string_eq, All, arith,
  Bool-cases,
}
use mcp_bsl_lsp_bridge.Analysis.Graph.{Graph, neighbors, visited}
use mcp_bsl_lsp_bridge.Analysis.Graph.Depth.{Hop, fresh}

-- The walks of `n` edges.
pub data Walk (graph : Graph) : String → String → ℕ → Type 0 where
  here : {x : String} → Walk graph x x zero
  step :
      {x y z : String} {n : ℕ}
      → visited (neighbors graph x) y ≡ true
      → Walk graph y z n
      → Walk graph x z (suc n)

module _ (graph : Graph) where
  pub extend :
      {x y z : String} {n : ℕ}
      → Walk graph x y n
      → visited (neighbors graph y) z ≡ true
      → Walk graph x z (suc n)
  extend here e = step e here
  extend (step e walk) e' = step e (extend walk e')

  pub extend-fresh :
      (start x : String) (depth : ℕ) (seen ns : List String)
      → Walk graph start x depth
      → All (λ n. visited (neighbors graph x) n ≡ true) ns
      → All (λ (hop : Hop). Walk graph start hop.0 hop.1) (fresh seen depth ns)
  unfolding fresh
  extend-fresh start x depth seen [] walk h = tt
  extend-fresh start x depth seen (n ∷ ns) walk (edge, h) = elim (Bool-cases (visited seen n)) [
    | inl old ↦ rw (old, fresh) (extend-fresh start x depth seen ns walk h)
    | inr new ↦ rw (new, fresh) (extend walk edge, extend-fresh start x depth seen ns walk h)
  ]

  -- The first step that leaves the marked symbols, and the rest of the walk after it.
  pub leave :
      (seen : List String) {x end : String} {n : ℕ}
      → Walk graph x end n
      → visited seen x ≡ true
      → visited seen end ≡ false
      → (w : String) × (u : String) × (m : ℕ) × (visited seen w ≡ true)
        × (visited (neighbors graph w) u ≡ true)
        × (visited seen u ≡ false)
        × Walk graph u end m
        × (m < n)
  leave seen here old new = ground arith
  leave seen {x} {end} (step {y} {n} e walk) old new = elim (Bool-cases (visited seen y)) [
    | inl old_y ↦
        let (w, u, m, a, b, c, rest, less) = leave seen walk old_y new in
        (w, u, m, a, b, c, rest, omega arith)
    | inr new_y ↦ (x, y, n, old, e, new_y, walk, omega arith)
  ]
