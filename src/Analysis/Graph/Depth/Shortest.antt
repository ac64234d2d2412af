-- ===== src/Analysis/Graph/Depth/Shortest.antt =====
-- What the breadth-first search answers.
use mathlib.Core.List.Memᴰ
use mcp_bsl_lsp_bridge.Prelude.{
  ℕ, zero, suc, ◌≤◌, String, some, List, [], ◌∷◌, ◌≡◌, refl, ap, sym, ◌∙◌, ◌⊎◌, inl, inr, string_eq,
  arith, Bool-cases, some-injective,
}
use mcp_bsl_lsp_bridge.Prelude.Int.{ℤ, pos, negsuc}
use mcp_bsl_lsp_bridge.Analysis.Graph.{Graph}
use mcp_bsl_lsp_bridge.Analysis.Graph.Depth.{Hop, search, enough, calculate_dependency_depth}
use mcp_bsl_lsp_bridge.Analysis.Graph.Depth.Ends.{calculate_dependency_depth-ends}
use mcp_bsl_lsp_bridge.Analysis.Graph.Depth.Levels.{Tiered-front, All-Memᴰ}
use mcp_bsl_lsp_bridge.Analysis.Graph.Depth.Walks.{Walk}
use mcp_bsl_lsp_bridge.Analysis.Graph.Depth.Invariant.{Inv, Inv-start, Inv-round, marked, next}

module _ (graph : Graph) (start end : String) where
  -- No walk, or the length of a walk that none is shorter than.
  abbrev Answers : ℤ → Type 0
  Answers d =
      ((d ≡ negsuc 0) × ((n : ℕ) → Walk graph start end n → ⊥))
      ⊎ ((k : ℕ) × (d ≡ pos k)
          × Walk graph start end k
          × ((n : ℕ) → Walk graph start end n → k ≤ n))

  found-Answers :
      (m depth : ℕ) (queue : List Hop) (seen : List String)
      → Inv graph start end m ((end, depth) ∷ queue) seen
      → Answers (pos depth)
  found-Answers m depth queue seen h = inr (
    depth,
    refl,
    h.sound.0,
    λ n walk.
        let (u, i, s, waiting, rest, short) = h.near n walk in
        let least =
          All-Memᴰ (λ hop. depth ≤ hop.1) ((end, depth) ∷ queue) waiting
            (Tiered-front m end depth queue h.tiers) in
        omega arith,
  )

  search-Answers :
      (fuel m : ℕ) (queue : List Hop) (seen : List String) (d : ℤ)
      → Inv graph start end m queue seen
      → search graph end fuel queue seen ≡ some d
      → Answers d
  unfolding search
  search-Answers fuel m [] seen d h e = inl (
    sym (some-injective e),
    λ n walk. let (u, i, s, waiting, rest, short) = h.near n walk in Memᴰ.not-nil waiting,
  )
  search-Answers zero m (hop ∷ queue) seen d h e = ground arith
  search-Answers (suc fuel) m ((x, depth) ∷ queue) seen d h e =
      elim (Bool-cases (string_eq.beq x end)) [
        | inl same ↦
            let at_end : x ≡ end = (string_eq.beq_iff x end).0 same in
            let found : some (pos depth) ≡ some d = rw same at e in
            let h' : Inv graph start end m ((end, depth) ∷ queue) seen = rw at_end at h in
            rw (← some-injective found) (found-Answers m depth queue seen h')
        | inr passed ↦
            search-Answers fuel depth (next graph start end m x depth queue seen h passed)
              (marked graph start end m x depth queue seen h passed) d
              (Inv-round graph start end m x depth queue seen h passed) (rw passed at e)
      ]

-- Where a walk of `n` edges leads from `start` to `end`, the search returns the length of such a
-- walk, and no walk between them is shorter.
pub calculate_dependency_depth-shortest :
    (graph : Graph) (start end : String) (n : ℕ)
    → Walk graph start end n
    → (k : ℕ) × (calculate_dependency_depth graph start end ≡ some (pos k))
      × Walk graph start end k
      × (k ≤ n)
unfolding calculate_dependency_depth
calculate_dependency_depth-shortest graph start end n walk =
    let (d, e) = calculate_dependency_depth-ends graph start end in
    elim (search-Answers graph start end (enough graph) 0 ((start, 0) ∷ []) [] d
      (Inv-start graph start end) e) [
        | inl (_, none_leads) ↦ absurd (none_leads n walk)
        | inr (k, at_k, to_end, least) ↦ (k, e ∙ ap some at_k, to_end, least n walk)
      ]

-- On every graph and every pair of symbols the search returns: either -1, or the length of a walk
-- between the two.
pub calculate_dependency_depth-total :
    (graph : Graph) (start end : String)
    → (calculate_dependency_depth graph start end ≡ some (negsuc 0))
      ⊎ ((k : ℕ) × (calculate_dependency_depth graph start end ≡ some (pos k))
          × Walk graph start end k)
unfolding calculate_dependency_depth
calculate_dependency_depth-total graph start end =
    let (d, e) = calculate_dependency_depth-ends graph start end in
    elim (search-Answers graph start end (enough graph) 0 ((start, 0) ∷ []) [] d
      (Inv-start graph start end) e) [
        | inl (minus, _) ↦ inl (e ∙ ap some minus)
        | inr (k, at_k, to_end, _) ↦ inr (k, e ∙ ap some at_k, to_end)
      ]
