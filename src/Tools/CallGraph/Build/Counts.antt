-- ===== src/Tools/CallGraph/Build/Counts.antt =====
-- The numbers that are reported are those of the trees.
use mcp_bsl_lsp_bridge.Prelude.{
  ℕ, zero, suc, ◌+◌, String, Bool, Option, List, [], ◌∷◌, ◌≡◌, refl, inl, inr, if◌then◌else◌, arith,
  Bool-cases, Option-cases,
}
use mcp_bsl_lsp_bridge.Prelude.Int.{pos_part}
use mcp_bsl_lsp_bridge.Tools.CallGraph.{
  CallHierarchyItem, Direction, up, down, root, Tree, node, Forest, leaf, grow, Reason, Builder,
  set_truncated, add_entry_point, node_key, is_visited, item_to_node, is_full, raise_depth,
  note_entry, depth_limit, node_limit,
}
use mcp_bsl_lsp_bridge.Tools.CallGraph.Build.{
  poll, follow, follow_all, build_tree, Arguments, new_builder, start_graph, call_graph,
}

unfoldable mutual
  pub tree_nodes : Tree → ℕ
  tree_nodes (node n children) = suc (nodes children)

  pub nodes : Forest → ℕ
  nodes leaf = 0
  nodes (grow tree trees) = tree_nodes tree + nodes trees

unfoldable mutual
  pub tree_cycles : Tree → ℕ
  tree_cycles (node n children) = (if n.is_cycle then 1 else 0) + cycles children

  pub cycles : Forest → ℕ
  cycles leaf = 0
  cycles (grow tree trees) = tree_cycles tree + cycles trees

-- From `a` to `b` the counters rose by these numbers.
record Rise (a b : Builder) (made looped : ℕ) : Type 0 where
  counted : b.node_count ≡ a.node_count + made
  found : b.cycles_found ≡ a.cycles_found + looped

abbrev Still : Builder → Builder → Type 0
Still a b = (b.node_count ≡ a.node_count) × (b.cycles_found ≡ a.cycles_found)

set_truncated-Still : (b : Builder) (r : Reason) → Still b (set_truncated b r)
unfolding set_truncated
set_truncated-Still b r = elim (Option-cases b.truncated) [
  | inl e ↦ rw (e, set_truncated) (refl, refl)
  | inr (first, e) ↦ rw (e, set_truncated) (refl, refl)
]

raise_depth-Still : (d : Direction) (n : ℕ) (b : Builder) → Still b (raise_depth d n b)
unfolding raise_depth
raise_depth-Still up n b = ground arith
raise_depth-Still down n b = ground arith
raise_depth-Still root n b = (refl, refl)

add_entry_point-Still : (b : Builder) (name : String) → Still b (add_entry_point b name)
unfolding add_entry_point
add_entry_point-Still b name = ground arith

note_entry-Still : (d : Direction) (name : String) (b : Builder) → Still b (note_entry d name b).0
unfolding note_entry
note_entry-Still up name b = ground (arith, add_entry_point-Still b name)
note_entry-Still down name b = (refl, refl)
note_entry-Still root name b = ground (arith, add_entry_point-Still b name)

module _ (expired : ℕ → Bool) where
  poll-Still : (b : Builder) → Still b (poll expired b).0
  unfolding poll
  poll-Still b =
      ground (arith, set_truncated-Still (record b { readings = b.readings + 1 }) Reason.timeout)

  abbrev Counted : Builder → Builder × Forest → Type 0
  Counted b (b', forest) = Rise b b' (nodes forest) (cycles forest)

  nothing : (b b' : Builder) → Still b b' → Counted b (b', leaf)
  unfolding nodes cycles
  nothing b b' (e, e') = record { counted = omega arith; found = omega arith }

  after : (a b : Builder) (out : Builder × Forest) → Still a b → Counted b out → Counted a out
  after a b out (e, e') h =
      let c = h.counted in let f = h.found in record { counted = omega arith; found = omega arith }

  module _ (direction : Direction)
      (calls : CallHierarchyItem → Option (List CallHierarchyItem)) where
    module _ (expand : Builder → CallHierarchyItem → Builder × Forest)
        (expands : (b : Builder) (item : CallHierarchyItem) → Counted b (expand b item))
        (depth : ℕ) where
      follow-Rise :
          (b : Builder) (item : CallHierarchyItem)
          → let (b', tree) = follow expired direction calls expand depth b item in
            Rise b b' (tree_nodes tree) (tree_cycles tree)
      unfolding follow item_to_node tree_nodes tree_cycles nodes cycles
      follow-Rise b item = elim (Bool-cases (is_visited b.visited (node_key item))) [
        | inl old ↦ rw (old, follow) (record { counted = refl; found = refl })
        | inr new ↦
            let counted = record b { node_count = b.node_count + 1 } in
            let marked = record counted { visited = node_key item ∷ counted.visited } in
            let noted = (note_entry direction item.name marked).0 in
            let (e, e') = note_entry-Still direction item.name marked in
            let h = expands noted item in
            let c = h.counted in
            let f = h.found in
            rw (new, follow) (record { counted = omega arith; found = omega arith })
      ]

      follow_all-Counted :
          (b : Builder) (items : List CallHierarchyItem)
          → Counted b (follow_all expired direction calls expand depth b items)
      unfolding follow_all nodes cycles
      follow_all-Counted b [] = nothing b b (refl, refl)
      follow_all-Counted b (item ∷ items) = elim (Bool-cases (is_full b)) [
        | inl full ↦ rw (full, follow_all) (nothing b _ (set_truncated-Still b _))
        | inr room ↦
            let polled = (poll expired b).0 in
            let (e, e') = poll-Still b in
            let one = follow-Rise polled item in
            let rest =
              follow_all-Counted (follow expired direction calls expand depth polled item).0
                items in
            let c = one.counted in
            let f = one.found in
            let c' = rest.counted in
            let f' = rest.found in
            rw (room, follow_all) (record { counted = omega arith; found = omega arith })
      ]

    build_tree-Counted :
        (levels depth : ℕ) (b : Builder) (item : CallHierarchyItem)
        → Counted b (build_tree expired direction calls levels depth b item)
    unfolding build_tree
    build_tree-Counted zero depth b item = nothing b _ (poll-Still b)
    build_tree-Counted (suc levels) depth b item =
        let polled = (poll expired b).0 in
        let raised = raise_depth direction depth polled in
        elim (Bool-cases (poll expired b).1) [
          | inl over ↦ rw (over, build_tree) (nothing b polled (poll-Still b))
          | inr on ↦ elim (Bool-cases (is_full polled)) [
            | inl full ↦
                rw (on, build_tree)
                  (rw full (
                    after b polled _ (poll-Still b)
                      (nothing polled _ (set_truncated-Still polled _))))
            | inr room ↦
                let quiet : Counted b (raised, leaf) =
                  after b polled _ (poll-Still b)
                    (nothing polled raised (raise_depth-Still direction depth polled)) in
                elim (Option-cases (calls item)) [
                  | inl failed ↦ rw (on, build_tree) (rw room (rw failed quiet))
                  | inr (items, answered) ↦
                      rw (on, build_tree)
                        (rw room (
                          rw answered (
                            after b polled _ (poll-Still b) (
                              after polled raised _ (raise_depth-Still direction depth polled) (
                                follow_all-Counted
                                  (build_tree expired direction calls levels (suc depth))
                                  (build_tree-Counted levels (suc depth)) depth raised items)))))
                ]
          ]
        ]

-- The number of nodes that is reported is that of the root and of the nodes of the two trees, and
-- the number of cycles is that of the nodes that are marked as cycles.
pub call_graph-counts :
    (expired : ℕ → Bool) (incoming outgoing : CallHierarchyItem → Option (List CallHierarchyItem))
    (args : Arguments) (item : CallHierarchyItem)
    → let result = call_graph expired incoming outgoing args item in
      (result.builder.node_count ≡ 1 + nodes result.incoming_tree + nodes result.outgoing_tree)
      × (result.builder.cycles_found ≡ cycles result.incoming_tree + cycles result.outgoing_tree)
unfolding call_graph start_graph item_to_node
call_graph-counts expired incoming outgoing args item =
    let up_levels = pos_part (depth_limit args.depth_up) in
    let down_levels = pos_part (depth_limit args.depth_down) in
    let started = (start_graph args item).0 in
    let (e, e') =
      note_entry-Still root item.name
        (record (new_builder (node_limit args.max_nodes)) { node_count = 1 }) in
    let callers = build_tree-Counted expired up incoming up_levels 1 started item in
    let called = (build_tree expired up incoming up_levels 1 started item).0 in
    let callees = build_tree-Counted expired down outgoing down_levels 1 called item in
    let c = callers.counted in
    let f = callers.found in
    let c' = callees.counted in let f' = callees.found in (omega arith, omega arith)
