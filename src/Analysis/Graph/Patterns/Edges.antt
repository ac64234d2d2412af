-- ===== src/Analysis/Graph/Patterns/Edges.antt =====
-- The symbol graph is symmetric, and what the patterns that are read off it hold.
use mcp_bsl_lsp_bridge.Prelude.{
  String, Bool, ◌&&◌, ◌||◌, List, [], ◌∷◌, ◌++◌, ◌≡◌, refl, inl, inr, if◌then◌else◌, string_eq,
  arith, Bool-cases,
}
use mcp_bsl_lsp_bridge.Prelude.Dict
use mcp_bsl_lsp_bridge.Prelude.Dict.{Distinct, Distinct-put, All-get, get-put}
use mcp_bsl_lsp_bridge.Analysis.Graph.{Graph, neighbors, visited}
use mcp_bsl_lsp_bridge.Analysis.Graph.Patterns.{
  WorkspaceSymbol, have_potential_dependency, add_edge, connect, connect_all, build_graph,
}

-- The edge from `a` to `b`.
abbrev pub edge : Graph → String → String → Bool
edge graph a b = visited (neighbors graph a) b

visited-append :
    (xs ys : List String) (x : String) → visited (xs ++ ys) x ≡ (visited xs x || visited ys x)
unfolding visited
visited-append [] ys x = refl
visited-append (y ∷ xs) ys x = ground (arith, visited-append xs ys x)

neighbors-put :
    (graph : Graph) (from a : String) (ts : List String)
    → neighbors (Dict.put graph from ts) a
      ≡ (if string_eq.beq from a then ts else neighbors graph a)
unfolding neighbors
neighbors-put graph from a ts = ground (arith, get-put graph from a ts)

-- Adding an edge adds that edge and no other.
edge-add_edge :
    (graph : Graph) (from to a b : String)
    → edge (add_edge graph from to) a b
      ≡ (edge graph a b || (string_eq.beq from a && string_eq.beq to b))
unfolding add_edge visited
edge-add_edge graph from to a b = ground (
  arith,
  neighbors-put graph from a (neighbors graph from ++ (to ∷ [])),
  visited-append (neighbors graph from) (to ∷ []) b,
  string_eq.beq_iff from a,
)

Symmetric : Graph → Type 0
Symmetric graph = (a b : String) → edge graph a b ≡ edge graph b a

connect-Symmetric :
    (graph : Graph) (a b : WorkspaceSymbol) → Symmetric graph → Symmetric (connect graph a b)
unfolding connect Symmetric
connect-Symmetric graph a b h x y = ground (
  arith,
  h x y,
  edge-add_edge (add_edge graph a.name b.name) b.name a.name x y,
  edge-add_edge (add_edge graph a.name b.name) b.name a.name y x,
  edge-add_edge graph a.name b.name x y,
  edge-add_edge graph a.name b.name y x,
)

connect_all-Symmetric :
    (graph : Graph) (a : WorkspaceSymbol) (later : List WorkspaceSymbol)
    → Symmetric graph
    → Symmetric (connect_all graph a later)
unfolding connect_all
connect_all-Symmetric graph a [] h = h
connect_all-Symmetric graph a (b ∷ later) h =
    connect_all-Symmetric (connect graph a b) a later (connect-Symmetric graph a b h)

build_graph-Symmetric :
    (graph : Graph) (symbols : List WorkspaceSymbol)
    → Symmetric graph
    → Symmetric (build_graph graph symbols)
unfolding build_graph
build_graph-Symmetric graph [] h = h
build_graph-Symmetric graph (a ∷ later) h =
    build_graph-Symmetric (connect_all graph a later) later (connect_all-Symmetric graph a later h)

-- The symbol graph has an edge from `a` to `b` exactly where it has one from `b` to `a`.
pub build_graph-symmetric :
    (symbols : List WorkspaceSymbol) (a b : String)
    → edge (build_graph [] symbols) a b ≡ edge (build_graph [] symbols) b a
unfolding Symmetric neighbors Dict.get visited
build_graph-symmetric symbols = build_graph-Symmetric [] symbols (λ a b. refl)

add_edge-Distinct :
    (graph : Graph) (from to : String) → Distinct graph → Distinct (add_edge graph from to)
unfolding add_edge
add_edge-Distinct graph from to = Distinct-put graph from (neighbors graph from ++ (to ∷ []))

connect-Distinct :
    (graph : Graph) (a b : WorkspaceSymbol) → Distinct graph → Distinct (connect graph a b)
unfolding connect
connect-Distinct graph a b h = elim (Bool-cases (have_potential_dependency a b)) [
  | inl linked ↦ rw linked (
      add_edge-Distinct (add_edge graph a.name b.name) b.name a.name
        (add_edge-Distinct graph a.name b.name h))
  | inr apart ↦ rw apart h
]

connect_all-Distinct :
    (graph : Graph) (a : WorkspaceSymbol) (later : List WorkspaceSymbol)
    → Distinct graph
    → Distinct (connect_all graph a later)
unfolding connect_all
connect_all-Distinct graph a [] h = h
connect_all-Distinct graph a (b ∷ later) h =
    connect_all-Distinct (connect graph a b) a later (connect-Distinct graph a b h)

pub build_graph-Distinct :
    (graph : Graph) (symbols : List WorkspaceSymbol)
    → Distinct graph
    → Distinct (build_graph graph symbols)
unfolding build_graph
build_graph-Distinct graph [] h = h
build_graph-Distinct graph (a ∷ later) h =
    build_graph-Distinct (connect_all graph a later) later (connect_all-Distinct graph a later h)
