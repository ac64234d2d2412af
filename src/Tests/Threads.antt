-- ===== src/Tests/Threads.antt =====
-- Tests of the goroutines of the call graph.
use mcp_bsl_lsp_bridge.Prelude.{
  ℕ, ◌≤◌, Bool, false, Option, none, some, List, [], ◌∷◌, String, ◌≡◌, refl,
}
use mcp_bsl_lsp_bridge.Prelude.Int.{pos, pos_part}
use mcp_bsl_lsp_bridge.Prelude.Bytes.{contains}
use mcp_bsl_lsp_bridge.Tools.CallGraph.{
  CallHierarchyItem, Direction, up, down, root, is_full, node_limit, depth_limit, item_to_node,
  is_visited, note_entry, is_entry_point, matches_entry_point, raise_depth, set_truncated,
}
use mcp_bsl_lsp_bridge.Tools.CallGraph.Build.{Arguments, start_graph}
use mcp_bsl_lsp_bridge.Tools.CallGraph.Threads.{
  advance, pick, step_task, step, run, running, taken, start_threads,
}
use mcp_bsl_lsp_bridge.Tools.CallGraph.Threads.Limits.{NoRepeat}
use mcp_bsl_lsp_bridge.Tools.CallGraph.Threads.Bounds.{run-bounded}

abbrev method : String → ℕ → CallHierarchyItem
method name line = record { name = name; uri = "a.bsl"; kind = 6; line = line; character = 0 }

-- Every method is called by two others, and calls none.
abbrev two_callers : Direction → CallHierarchyItem → Option (List CallHierarchyItem)
two_callers up item = some (method "A" 1 ∷ method "B" 2 ∷ [])
two_callers down item = none
two_callers root item = none

-- At most two nodes are asked for.
abbrev arguments : Arguments
arguments = record { depth_up = some (pos 1); depth_down = some (pos 0); max_nodes = some (pos 2) }

-- The loop over the callers starts both goroutines before one of them counts its node.
abbrev choices : List (ℕ × Bool)
choices =
    (0, false)
    ∷ (0, false)
    ∷ (0, false)
    ∷ (0, false)
    ∷ (0, false)
    ∷ (0, false)
    ∷ (0, false)
    ∷ (0, false)
    ∷ (0, false)
    ∷ (1, false)
    ∷ (0, false)
    ∷ (0, false)
    ∷ (2, false)
    ∷ (0, false)
    ∷ (0, false)
    ∷ []

two-node_limit : node_limit arguments.max_nodes ≡ pos 2
unfolding node_limit
two-node_limit = refl

node_limit-exceeded :
    (run two_callers (start_threads arguments (method "R" 0)) choices).builder.node_count ≡ 3
unfolding run step step_task advance pick start_threads start_graph item_to_node note_entry
    is_entry_point matches_entry_point is_full is_visited raise_depth set_truncated node_limit
    depth_limit running taken contains
node_limit-exceeded = refl

run-bounded_example :
    let b = (run two_callers (start_threads arguments (method "R" 0)) choices).builder in
    (b.max_depth_up ≤ pos_part (depth_limit arguments.depth_up))
    × (b.max_depth_down ≤ pos_part (depth_limit arguments.depth_down))
    × NoRepeat b.entry_points
run-bounded_example = run-bounded two_callers arguments (method "R" 0) choices
