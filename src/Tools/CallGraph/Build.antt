-- ===== src/Tools/CallGraph/Build.antt =====
-- mcpserver/tools/call_graph.go: the recursion that builds the two trees, and the tool around it.
-- The source starts a goroutine for each call and for each tree; here each one ends before the next
-- is started, which is one of the orders of Tools/CallGraph/Threads. `calls` asks the language
-- server (`none` is an error), and `expired n` says whether the context is done at its reading
-- number `n`.
pub mod Counts
use mcp_bsl_lsp_bridge.Prelude.{
  ℕ, zero, suc, ◌+◌, String, Bool, true, false, Option, none, some, List, [], ◌∷◌, if◌then◌else◌,
}
use mcp_bsl_lsp_bridge.Prelude.Int.{ℤ, pos_part}
use mcp_bsl_lsp_bridge.Tools.CallGraph.{
  CallHierarchyItem, CallGraphNode, Direction, up, down, root, Tree, node, Forest, leaf, grow,
  Reason, timeout, max_nodes_reached, Builder, set_truncated, node_key, is_visited, item_to_node,
  is_full, raise_depth, node_of, note_entry, depth_limit, node_limit,
}

module _ (expired : ℕ → Bool) where
  -- A reading of the context: the builder after it, and whether the context is done.
  unfoldable pub poll : Builder → Builder × Bool
  poll b =
      let read = record b { readings = b.readings + 1 } in
      if expired b.readings then (set_truncated read timeout, true) else (read, false)

  module _ (direction : Direction)
      (calls : CallHierarchyItem → Option (List CallHierarchyItem)) where
    -- The body of the goroutine for one call; `expand` is the recursive call.
    unfoldable pub follow :
        (Builder → CallHierarchyItem → Builder × Forest)
        → ℕ
        → Builder
        → CallHierarchyItem
        → Builder × Tree
    follow expand depth b item =
        let seen = is_visited b.visited (node_key item) in
        let (counted, fresh) = item_to_node b item depth direction in
        let (noted, is_entry) =
          note_entry direction item.name
            (record counted { visited = node_key item ∷ counted.visited }) in
        let (expanded, children) = expand noted item in
        if seen
        then (
          record counted { cycles_found = counted.cycles_found + 1 },
          node (record fresh { is_cycle = true }) leaf,
        )
        else (expanded, node (record fresh { is_entry_point = is_entry }) children)

    -- The loop over the calls.
    unfoldable pub follow_all :
        (Builder → CallHierarchyItem → Builder × Forest)
        → ℕ
        → Builder
        → List CallHierarchyItem
        → Builder × Forest
    follow_all expand depth b [] = (b, leaf)
    follow_all expand depth b (item ∷ items) = elim (is_full b) [
      | true ↦ (set_truncated b (max_nodes_reached b.max_nodes), leaf)
      | false ↦
          let (b', tree) = follow expand depth (poll b).0 item in
          let (b'', trees) = follow_all expand depth b' items in (b'', grow tree trees)
    ]

    -- `buildIncomingTree` and `buildOutgoingTree`: the children of the container, none where the
    -- source returns nil. The first argument is the number of levels up to the depth limit.
    unfoldable pub build_tree : ℕ → ℕ → Builder → CallHierarchyItem → Builder × Forest
    build_tree zero depth b item = ((poll b).0, leaf)
    build_tree (suc levels) depth b item =
        let (polled, is_done) = poll b in
        let raised = raise_depth direction depth polled in
        if is_done
        then (polled, leaf)
        else if is_full polled
        then (set_truncated polled (max_nodes_reached polled.max_nodes), leaf)
        else elim (calls item) [
          | none ↦ (raised, leaf)
          | some items ↦ follow_all (build_tree levels (suc depth)) depth raised items
        ]

module _ (expired : ℕ → Bool) (calls : CallHierarchyItem → Option (List CallHierarchyItem)) where
  abbrev pub build_incoming_tree : ℕ → ℕ → Builder → CallHierarchyItem → Builder × Forest
  build_incoming_tree = build_tree expired up calls

  abbrev pub build_outgoing_tree : ℕ → ℕ → Builder → CallHierarchyItem → Builder × Forest
  build_outgoing_tree = build_tree expired down calls

-- The numbers of a `CallGraphResult`, and its trees.
pub record CallGraphResult : Type 0 where
  pub root_node : CallGraphNode
  pub incoming_tree : Forest
  pub outgoing_tree : Forest
  pub builder : Builder

-- The optional arguments of a request.
pub record Arguments : Type 0 where
  pub depth_up : Option ℤ
  pub depth_down : Option ℤ
  pub max_nodes : Option ℤ

abbrev pub new_builder : ℤ → Builder
new_builder max_nodes = record {
  visited = [];
  node_count = 0;
  max_nodes = max_nodes;
  cycles_found = 0;
  entry_points = [];
  max_depth_up = 0;
  max_depth_down = 0;
  truncated = none;
  readings = 0;
}

-- The builder after the root node was made, and whether the root is an entry point.
unfoldable pub start_graph : Arguments → CallHierarchyItem → Builder × Bool
start_graph args item =
    note_entry root item.name (item_to_node (new_builder (node_limit args.max_nodes)) item 0 root).0

-- The tool from the root item on. The callers are followed before the callees.
unfoldable pub call_graph :
    (ℕ → Bool)
    → (CallHierarchyItem → Option (List CallHierarchyItem))
    → (CallHierarchyItem → Option (List CallHierarchyItem))
    → Arguments
    → CallHierarchyItem
    → CallGraphResult
call_graph expired incoming outgoing args item =
    let (started, is_entry) = start_graph args item in
    let (called, callers) =
      build_incoming_tree expired incoming (pos_part (depth_limit args.depth_up)) 1 started item in
    let (finished, callees) =
      build_outgoing_tree expired outgoing (pos_part (depth_limit args.depth_down)) 1 called item in
    record {
      root_node = record (node_of item 0 root) { is_entry_point = is_entry };
      incoming_tree = callers;
      outgoing_tree = callees;
      builder = finished;
    }
