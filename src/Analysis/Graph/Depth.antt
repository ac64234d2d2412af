-- ===== src/Analysis/Graph/Depth.antt =====
-- analysis/engine.go: `calculateDependencyDepth`, a breadth-first search that marks a symbol when
-- it leaves the queue, so a symbol can wait in the queue several times. `none` means that the
-- fuel ran out.
pub mod Ends
pub mod Levels
pub mod Walks
pub mod Invariant
pub mod Shortest
use mcp_bsl_lsp_bridge.Prelude.{
  ℕ, zero, suc, ◌+◌, ◌*◌, String, Option, none, some, List, [], ◌∷◌, ◌++◌, string_eq, if◌then◌else◌,
  length,
}
use mcp_bsl_lsp_bridge.Prelude.Int.{ℤ, pos, negsuc}
use mcp_bsl_lsp_bridge.Analysis.Graph.{Graph, neighbors, visited, targets}

-- An element of the queue: `symbol` and `depth`.
abbrev pub Hop : Type 0
Hop = String × ℕ

-- What the inner loop appends to the queue.
unfoldable pub fresh : List String → ℕ → List String → List Hop
fresh seen depth [] = []
fresh seen depth (neighbor ∷ rest) =
    let later = fresh seen depth rest in
    if visited seen neighbor then later else (neighbor, suc depth) ∷ later

unfoldable pub search : Graph → String → ℕ → List Hop → List String → Option ℤ
search graph end fuel [] seen = some (negsuc 0)
search graph end zero (hop ∷ queue) seen = none
search graph end (suc fuel) ((symbol, depth) ∷ queue) seen =
    let marked = symbol ∷ seen in
    let walk =
      search graph end fuel (queue ++ fresh marked depth (neighbors graph symbol)) marked in
    if string_eq.beq symbol end then some (pos depth) else walk

-- The rounds that one element of the queue can lead to, itself included, where each round
-- appends at most `width` elements and `levels` more levels can follow.
unfoldable pub rounds : ℕ → ℕ → ℕ
rounds width zero = 1
rounds width (suc levels) = 1 + width * rounds width levels

-- A symbol is appended only while it is unmarked, so a depth stays below the number of symbols.
unfoldable pub enough : Graph → ℕ
enough graph = rounds (length (targets graph)) (suc (length (targets graph)))

unfoldable pub calculate_dependency_depth : Graph → String → String → Option ℤ
calculate_dependency_depth graph start end = search graph end (enough graph) ((start, 0) ∷ []) []
