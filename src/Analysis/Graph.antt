-- ===== src/Analysis/Graph.antt =====
-- analysis/engine.go: the cycle test on the symbol graph. `visited` is a map that the closure
-- `dfs` shares between its calls, so it is passed along; `none` means that the fuel ran out.
pub mod Circular
pub mod Depth
pub mod Patterns
use mcp_bsl_lsp_bridge.Prelude.{
  ℕ, zero, suc, ◌+◌, String, Bool, true, false, ◌&&◌, ◌||◌, Option, none, some, List, [], ◌∷◌, ◌++◌,
  Eq, string_eq, if◌then◌else◌, length,
}
use mcp_bsl_lsp_bridge.Prelude.Dict
use mcp_bsl_lsp_bridge.Prelude.Dict.{Dict}

abbrev pub Graph : Type 0
Graph = Dict String (List String)

-- `graph[current]`: a missing key has no neighbours.
unfoldable pub neighbors : Graph → String → List String
neighbors graph current = elim (Dict.get graph current) [ none ↦ [] | some targets ↦ targets ]

-- `visited[s]`
unfoldable pub visited : List String → String → Bool
visited [] s = false
visited (x ∷ seen) s = string_eq.beq x s || visited seen s

-- The loop over the neighbours; `dfs` is the recursive call.
pub visit :
    (String → List String → Option (Bool × List String))
    → List String
    → List String
    → Option (Bool × List String)
visit dfs [] seen = some (false, seen)
visit dfs (neighbor ∷ rest) seen = elim (visited seen neighbor) [
  | true ↦ visit dfs rest seen
  | false ↦ elim (dfs neighbor seen) [
    | none ↦ none
    | some (found, seen') ↦ elim found [ true ↦ some (true, seen') | false ↦ visit dfs rest seen' ]
  ]
]

pub dfs : Graph → String → ℕ → String → List String → Option (Bool × List String)
dfs graph target zero current seen = none
dfs graph target (suc fuel) current seen =
    let walk = visit (dfs graph target fuel) (neighbors graph current) (current ∷ seen) in
    if string_eq.beq current target && visited seen current then some (true, seen) else walk

-- Every symbol that the walk can meet.
unfoldable pub targets : Graph → List String
targets [] = []
targets ((source, ts) ∷ graph) = ts ++ targets graph

-- The depth of the calls is at most the number of symbols.
unfoldable pub enough : Graph → ℕ
enough graph = length (targets graph) + 2

abbrev answer : Option (Bool × List String) → Option Bool
answer none = none
answer (some (found, seen)) = some found

unfoldable pub is_circular_dependency : Graph → String → String → Option Bool
is_circular_dependency graph start end = answer (dfs graph end (enough graph) start [])
