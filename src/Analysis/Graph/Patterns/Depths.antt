-- ===== src/Analysis/Graph/Patterns/Depths.antt =====
-- What the dependency patterns hold: the two ends of each are joined by an edge, which settles
-- the answers of both searches.
use mcp_bsl_lsp_bridge.Prelude.{
  ℕ, String, true, false, some, List, [], ◌∷◌, map, ◌≡◌, refl, sym, ◌∙◌, ap, inl, inr,
  if◌then◌else◌, string_eq, length, All, All-append, arith, Bool-cases,
}
use mcp_bsl_lsp_bridge.Prelude.Dict
use mcp_bsl_lsp_bridge.Prelude.Dict.{Dict, All-get}
use mcp_bsl_lsp_bridge.Prelude.Int.{pos}
use mcp_bsl_lsp_bridge.Analysis.Graph.{Graph, neighbors, visited}
use mcp_bsl_lsp_bridge.Analysis.Graph.Circular.{visited_self, is_circular_dependency-eq-false}
use mcp_bsl_lsp_bridge.Analysis.Graph.Depth.{calculate_dependency_depth}
use mcp_bsl_lsp_bridge.Analysis.Graph.Depth.Walks.{Walk, here, step}
use mcp_bsl_lsp_bridge.Analysis.Graph.Depth.Shortest.{calculate_dependency_depth-shortest}
use mcp_bsl_lsp_bridge.Analysis.Graph.Patterns.{
  WorkspaceSymbol, DependencyPattern, build_graph, pattern_of, patterns_of,
  detect_advanced_dependency_patterns,
}
use mcp_bsl_lsp_bridge.Analysis.Graph.Patterns.Edges.{edge, build_graph-Distinct}

abbrev pub hop : String → String → ℕ
hop a b = if string_eq.beq a b then 0 else 1

empty_walk : {graph : Graph} {a b : String} {n : ℕ} → Walk graph a b n → n ≡ 0 → a ≡ b
empty_walk here e = refl
empty_walk (step edge walk) e = ground arith

walk-hop : (graph : Graph) (a b : String) → edge graph a b ≡ true → Walk graph a b (hop a b)
walk-hop graph a b joined = elim (Bool-cases (string_eq.beq a b)) [
  | inl same ↦ rw same (rw (← (string_eq.beq_iff a b).0 same) here)
  | inr other ↦ rw other (step joined here)
]

edge-depth :
    (graph : Graph) (a b : String)
    → edge graph a b ≡ true
    → calculate_dependency_depth graph a b ≡ some (pos (hop a b))
edge-depth graph a b joined =
    let (k, e, walk, least) =
      calculate_dependency_depth-shortest graph a b (hop a b) (walk-hop graph a b joined) in
    let least' : k ≡ hop a b = ground (arith, empty_walk walk, string_eq.beq_iff a b) in
    e ∙ ap (λ n. some (pos n)) least'

abbrev pub Direct : Graph → DependencyPattern → Type 0
Direct graph p =
    (edge graph p.source p.target ≡ true)
    × (p.frequency ≡ length (neighbors graph p.source))
    × (p.is_circular ≡ some false)
    × (p.depth ≡ some (pos (hop p.source p.target)))

patterns-Direct :
    (graph : Graph) (source : String) (targets ts : List String)
    → neighbors graph source ≡ targets
    → All (λ t. visited targets t ≡ true) ts
    → All (Direct graph) (map (pattern_of graph source targets) ts)
unfolding pattern_of
patterns-Direct graph source targets [] e h = tt
patterns-Direct graph source targets (t ∷ ts) e (p, h) =
    let joined : edge graph source t ≡ true = rw e p in
    (
      (
        joined,
        ap length (sym e),
        is_circular_dependency-eq-false graph source t,
        edge-depth graph source t joined,
      ),
      patterns-Direct graph source targets ts e h,
    )

patterns_of-Direct :
    (graph : Graph) (entries : Graph)
    → All (λ entry. Dict.get graph entry.0 ≡ some entry.1) entries
    → All (Direct graph) (patterns_of graph entries)
unfolding patterns_of neighbors
patterns_of-Direct graph [] h = tt
patterns_of-Direct graph ((source, targets) ∷ entries) (found, h) =
    All-append (Direct graph) (map (pattern_of graph source targets) targets)
      (patterns_of graph entries)
      (patterns-Direct graph source targets targets (rw (found, neighbors) refl)
        (visited_self targets))
      (patterns_of-Direct graph entries h)

-- The two ends of every dependency pattern are joined by an edge of the symbol graph, its
-- frequency is the number of neighbours of the source, it is not circular, and its depth is 1, or 0
-- where the two ends have one name.
pub detect_advanced_dependency_patterns-Direct :
    (symbols : List WorkspaceSymbol)
    → All (Direct (build_graph [] symbols)) (detect_advanced_dependency_patterns symbols)
unfolding detect_advanced_dependency_patterns
detect_advanced_dependency_patterns-Direct symbols =
    let graph = build_graph [] symbols in
    patterns_of-Direct graph graph (All-get graph (build_graph-Distinct [] symbols tt))
