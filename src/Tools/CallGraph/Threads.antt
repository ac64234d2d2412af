-- ===== src/Tools/CallGraph/Threads.antt =====
-- mcpserver/tools/call_graph.go: the goroutines of `buildIncomingTree` and `buildOutgoingTree`, one
-- step for each section under a lock, in any order. The nodes themselves are left out here; the
-- trees are those of Tools/CallGraph/Build.
pub mod Limits
pub mod Bounds
pub mod Semaphore
use mcp_bsl_lsp_bridge.Prelude.{
  ℕ, zero, suc, ◌+◌, Bool, true, false, Option, none, some, List, [], ◌∷◌, ◌++◌, if◌then◌else◌,
  ◌==◌, ltb,
}
use mcp_bsl_lsp_bridge.Prelude.Int.{pos_part}
use mcp_bsl_lsp_bridge.Tools.CallGraph.{
  CallHierarchyItem, Direction, up, down, root, timeout, max_nodes_reached, Builder, set_truncated,
  node_key, is_visited, item_to_node, is_full, raise_depth, note_entry, depth_limit,
}
use mcp_bsl_lsp_bridge.Tools.CallGraph.Build.{Arguments, start_graph}

-- Where a goroutine stands. The first number of a place is that of the levels up to the limit on
-- the depth, the second the depth.
pub data Place : Type 0 where
  starting : ℕ → ℕ → CallHierarchyItem → Place
  limiting : ℕ → ℕ → CallHierarchyItem → Place
  raising : ℕ → ℕ → CallHierarchyItem → Place
  asking : ℕ → ℕ → CallHierarchyItem → Place
  looping : ℕ → ℕ → ℕ → List CallHierarchyItem → Place
  polling : ℕ → ℕ → ℕ → CallHierarchyItem → List CallHierarchyItem → Place
  waiting : ℕ → Place
  acquiring : ℕ → ℕ → CallHierarchyItem → Place
  testing : ℕ → ℕ → CallHierarchyItem → Place
  counting : ℕ → ℕ → CallHierarchyItem → Bool → Place
  closing_cycle : Place
  marking : ℕ → ℕ → CallHierarchyItem → Place
  noting : ℕ → ℕ → CallHierarchyItem → Place

-- A goroutine, and the container whose loop has started it: none for the two of the tool.
pub record Task : Type 0 where
  pub direction : Direction
  pub home : Option ℕ
  pub place : Place

-- What the goroutines share, those that have not ended, and the number of the next container.
pub record Threads : Type 0 where
  pub builder : Builder
  pub tasks : List Task
  pub next : ℕ

abbrev pub is_home : Option ℕ → ℕ → Bool
is_home none container = false
is_home (some home) container = home == container

-- The goroutine waits for a place of the semaphore.
abbrev pub is_acquiring : Place → Bool
is_acquiring (acquiring levels depth item) = true
is_acquiring _ = false

abbrev pub one_if : Bool → ℕ
one_if true = 1
one_if false = 0

-- `wg` of a container: the goroutines that have not ended.
unfoldable pub running : List Task → ℕ → ℕ
running [] container = 0
running (t ∷ tasks) container = one_if (is_home t.home container) + running tasks container

abbrev pub holds : Task → ℕ → ℕ
holds t container = if is_acquiring t.place then 0 else one_if (is_home t.home container)

-- `semaphore` of a container: the places that are taken.
unfoldable pub taken : List Task → ℕ → ℕ
taken [] container = 0
taken (t ∷ tasks) container = holds t container + taken tasks container

-- What a step leaves: the goroutine unless it has ended, and one that it has started.
pub record Moved : Type 0 where
  pub builder : Builder
  pub self : Option Place
  pub started : Option Task

abbrev pub moved : Builder → Place → Moved
moved b place = record { builder = b; self = some place; started = none }

-- Where the function returns to the goroutine, which ends.
abbrev pub ended : Builder → Moved
ended b = record { builder = b; self = none; started = none }

abbrev pub has_place : List Task → Option ℕ → Bool
has_place rest none = true
has_place rest (some container) = ltb (taken rest container) 5

-- The goroutine at a number, and the others.
unfoldable pub pick : ℕ → List Task → Option (Task × List Task)
pick i [] = none
pick zero (t ∷ tasks) = some (t, tasks)
pick (suc i) (t ∷ tasks) = elim (pick i tasks) [
  | none ↦ none
  | some (found, rest) ↦ some (found, t ∷ rest)
]

abbrev pub still : Task → Option Place → List Task
still t none = []
still t (some place) = record t { place = place } ∷ []

abbrev pub started : Option Task → List Task
started none = []
started (some t) = t ∷ []

module _ (calls : Direction → CallHierarchyItem → Option (List CallHierarchyItem)) where
  -- One step of a goroutine at a place, among the other ones. `expired` is what a reading of the
  -- context gives.
  unfoldable pub advance : Builder → List Task → ℕ → Bool → Direction → Option ℕ → Place → Moved
  advance b rest next expired d home (starting zero depth item) =
      ended (if expired then set_truncated b timeout else b)
  advance b rest next expired d home (starting (suc levels) depth item) =
      if expired then ended (set_truncated b timeout) else moved b (limiting levels depth item)
  advance b rest next expired d home (limiting levels depth item) =
      if is_full b
      then ended (set_truncated b (max_nodes_reached b.max_nodes))
      else moved b (raising levels depth item)
  advance b rest next expired d home (raising levels depth item) =
      moved (raise_depth d depth b) (asking levels depth item)
  advance b rest next expired d home (asking levels depth item) = elim (calls d item) [
    | none ↦ ended b
    | some items ↦ moved b (looping levels depth next items)
  ]
  advance b rest next expired d home (looping levels depth container []) =
      moved b (waiting container)
  advance b rest next expired d home (looping levels depth container (item ∷ items)) =
      if is_full b
      then moved (set_truncated b (max_nodes_reached b.max_nodes)) (waiting container)
      else moved b (polling levels depth container item items)
  advance b rest next expired d home (polling levels depth container item items) = record {
    builder = if expired then set_truncated b timeout else b;
    self = some (looping levels depth container items);
    started =
        some (record { direction = d; home = some container; place = acquiring levels depth item });
  }
  advance b rest next expired d home (waiting container) =
      if running rest container == 0 then ended b else moved b (waiting container)
  advance b rest next expired d home (acquiring levels depth item) =
      if has_place rest home
      then moved b (testing levels depth item)
      else moved b (acquiring levels depth item)
  advance b rest next expired d home (testing levels depth item) =
      moved b (counting levels depth item (is_visited b.visited (node_key item)))
  advance b rest next expired d home (counting levels depth item seen) =
      moved (item_to_node b item depth d).0
        (if seen then closing_cycle else marking levels depth item)
  advance b rest next expired d home closing_cycle =
      ended (record b { cycles_found = b.cycles_found + 1 })
  advance b rest next expired d home (marking levels depth item) =
      moved (record b { visited = node_key item ∷ b.visited }) (noting levels depth item)
  advance b rest next expired d home (noting levels depth item) =
      moved (note_entry d item.name b).0 (starting levels (suc depth) item)

  unfoldable pub step_task : Threads → Bool → Task → List Task → Threads
  unfolding advance
  step_task s expired t rest =
      let m = advance s.builder rest s.next expired t.direction t.home t.place in
      record {
        builder = m.builder;
        tasks = still t m.self ++ (started m.started ++ rest);
        next = suc s.next;
      }

  -- The goroutine at a number takes a step; nothing happens where there is none.
  unfoldable pub step : Threads → ℕ × Bool → Threads
  unfolding pick step_task
  step s (i, expired) = elim (pick i s.tasks) [
    | none ↦ s
    | some (t, rest) ↦ step_task s expired t rest
  ]

  unfoldable pub run : Threads → List (ℕ × Bool) → Threads
  unfolding step
  run s [] = s
  run s (choice ∷ choices) = run (step s choice) choices

abbrev pub tree_task : Direction → ℕ → CallHierarchyItem → Task
tree_task d levels item = record { direction = d; home = none; place = starting levels 1 item }

-- The tool when it has started the goroutines of the two trees.
unfoldable pub start_threads : Arguments → CallHierarchyItem → Threads
start_threads args item = record {
  builder = (start_graph args item).0;
  tasks =
      tree_task up (pos_part (depth_limit args.depth_up)) item
      ∷ tree_task down (pos_part (depth_limit args.depth_down)) item
      ∷ [];
  next = 0;
}
