-- ===== src/Analysis/Graph/Patterns.antt =====
-- analysis/engine.go: the symbol graph of `detectAdvancedDependencyPatterns`, and the patterns
-- that it reads off the graph. A kind is the protocol's number. `none` in a pattern is a search
-- out of fuel.
pub mod Edges
pub mod Depths
use mcp_bsl_lsp_bridge.Prelude.{
  ℕ, String, Bool, ◌||◌, Option, List, [], ◌∷◌, ◌++◌, map, if◌then◌else◌, ◌==◌, length, string_eq,
}
use mcp_bsl_lsp_bridge.Prelude.Bytes.{codes, has_prefix}
use mcp_bsl_lsp_bridge.Prelude.Dict
use mcp_bsl_lsp_bridge.Prelude.Int.{ℤ}
use mcp_bsl_lsp_bridge.Analysis.Graph.{Graph, neighbors, is_circular_dependency}
use mcp_bsl_lsp_bridge.Analysis.Graph.Depth.{calculate_dependency_depth}

-- What the graph reads of a `protocol.WorkspaceSymbol`.
pub record WorkspaceSymbol : Type 0 where
  pub name : String
  pub kind : ℕ

pub record DependencyPattern : Type 0 where
  pub type : String
  pub source : String
  pub target : String
  pub frequency : ℕ
  pub is_circular : Option Bool
  pub depth : Option ℤ

unfoldable pub have_potential_dependency : WorkspaceSymbol → WorkspaceSymbol → Bool
have_potential_dependency a b =
    a.kind == b.kind
    || (has_prefix (codes a.name) (codes b.name) || has_prefix (codes b.name) (codes a.name))

-- `graph[from] = append(graph[from], to)`
unfoldable pub add_edge : Graph → String → String → Graph
add_edge graph from to = Dict.put graph from (neighbors graph from ++ (to ∷ []))

-- The body of the inner loop.
unfoldable pub connect : Graph → WorkspaceSymbol → WorkspaceSymbol → Graph
connect graph a b =
    if have_potential_dependency a b
    then add_edge (add_edge graph a.name b.name) b.name a.name
    else graph

unfoldable pub connect_all : Graph → WorkspaceSymbol → List WorkspaceSymbol → Graph
connect_all graph a [] = graph
connect_all graph a (b ∷ later) = connect_all (connect graph a b) a later

unfoldable pub build_graph : Graph → List WorkspaceSymbol → Graph
build_graph graph [] = graph
build_graph graph (a ∷ later) = build_graph (connect_all graph a later) later

unfoldable pub pattern_of : Graph → String → List String → String → DependencyPattern
pattern_of graph source targets target = record {
  type = "inter_symbol";
  source = source;
  target = target;
  frequency = length targets;
  is_circular = is_circular_dependency graph source target;
  depth = calculate_dependency_depth graph source target;
}

-- The loops over the entries of the graph and over their targets.
unfoldable pub patterns_of : Graph → Graph → List DependencyPattern
patterns_of graph [] = []
patterns_of graph ((source, targets) ∷ entries) =
    map (pattern_of graph source targets) targets ++ patterns_of graph entries

unfoldable pub detect_advanced_dependency_patterns : List WorkspaceSymbol → List DependencyPattern
detect_advanced_dependency_patterns symbols =
    let graph = build_graph [] symbols in patterns_of graph graph
