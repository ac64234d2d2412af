-- ===== src/Tools/CallGraph/Threads/Bounds.antt =====
-- What holds whatever the order of the goroutines' steps.
use mathlib.Core.Path.{subst}
use mcp_bsl_lsp_bridge.Prelude.{
  ℕ, zero, suc, ◌+◌, ◌≤◌, Bool, true, false, Option, none, some, List, [], ◌∷◌, ◌++◌, ◌≡◌, refl,
  inl, inr, if◌then◌else◌, ◌==◌, arith, Option-cases, All, All-append, some-injective,
}
use mcp_bsl_lsp_bridge.Prelude.Int.{pos_part}
use mcp_bsl_lsp_bridge.Tools.CallGraph.{
  CallHierarchyItem, Direction, root, timeout, max_nodes_reached, Builder, set_truncated, node_key,
  is_visited, item_to_node, is_full, depth_limit, node_limit,
}
use mcp_bsl_lsp_bridge.Tools.CallGraph.Build.{Arguments, new_builder, start_graph}
use mcp_bsl_lsp_bridge.Tools.CallGraph.Threads.{
  Place, starting, limiting, raising, asking, looping, polling, waiting, acquiring, testing,
  counting, closing_cycle, marking, noting, Task, Threads, Moved, moved, ended, advance, running,
  has_place, pick, still, started, step_task, step, run, start_threads,
}
use mcp_bsl_lsp_bridge.Tools.CallGraph.Threads.Limits.{
  NoRepeat, Bounded, limit_of, raise-Bounded, note-Bounded, truncate-Bounded,
}

-- The goroutine is at no depth above the limit.
abbrev InLimit : ℕ → Place → Type 0
InLimit limit (starting levels depth item) = levels + depth ≤ suc limit
InLimit limit (limiting levels depth item) = levels + depth ≤ limit
InLimit limit (raising levels depth item) = levels + depth ≤ limit
InLimit limit (asking levels depth item) = levels + depth ≤ limit
InLimit limit (looping levels depth container items) = levels + depth ≤ limit
InLimit limit (polling levels depth container item items) = levels + depth ≤ limit
InLimit limit (waiting container) = Unit
InLimit limit (acquiring levels depth item) = levels + depth ≤ limit
InLimit limit (testing levels depth item) = levels + depth ≤ limit
InLimit limit (counting levels depth item seen) = levels + depth ≤ limit
InLimit limit closing_cycle = Unit
InLimit limit (marking levels depth item) = levels + depth ≤ limit
InLimit limit (noting levels depth item) = levels + depth ≤ limit

module _ (u v : ℕ) where
  abbrev Fits : Task → Type 0
  Fits t = InLimit (limit_of u v t.direction) t.place

  abbrev StillFits : Direction → Option Place → Type 0
  StillFits d none = Unit
  StillFits d (some place) = InLimit (limit_of u v d) place

  abbrev StartedFits : Option Task → Type 0
  StartedFits none = Unit
  StartedFits (some t) = Fits t

  record Fine (d : Direction) (m : Moved) : Type 0 where
    bounded : Bounded u v m.builder
    self : StillFits d m.self
    newly : StartedFits m.started

  ended-Fine : (d : Direction) (b : Builder) → Bounded u v b → Fine d (ended b)
  ended-Fine d b h = record { bounded = h; self = tt; newly = tt }

  moved-Fine :
      (d : Direction) (b : Builder) (place : Place)
      → Bounded u v b
      → InLimit (limit_of u v d) place
      → Fine d (moved b place)
  moved-Fine d b place h p = record { bounded = h; self = p; newly = tt }

  if-Fine :
      (d : Direction) (c : Bool) (x y : Moved) → Fine d x → Fine d y → Fine d (if c then x else y)
  if-Fine d true x y p q = p
  if-Fine d false x y p q = q

  polled-Bounded :
      (expired : Bool) (b : Builder)
      → Bounded u v b
      → Bounded u v (if expired then set_truncated b timeout else b)
  polled-Bounded true b h = truncate-Bounded u v b timeout h
  polled-Bounded false b h = h

  -- The fields that are left alone.
  same :
      (b c : Builder)
      → Bounded u v b
      → c.max_depth_up ≡ b.max_depth_up
      → c.max_depth_down ≡ b.max_depth_down
      → c.entry_points ≡ b.entry_points
      → Bounded u v c
  same b c h e1 e2 e3 = record {
    ups = rw e1 h.ups;
    downs = rw e2 h.downs;
    distinct = rw e3 h.distinct;
  }

  module _ (calls : Direction → CallHierarchyItem → Option (List CallHierarchyItem)) where
    advance-Fine :
        (b : Builder) (rest : List Task) (next : ℕ) (expired : Bool) (d : Direction)
        (home : Option ℕ) (place : Place)
        → Bounded u v b
        → InLimit (limit_of u v d) place
        → Fine d (advance calls b rest next expired d home place)
    unfolding advance item_to_node
    advance-Fine b rest next expired d home (starting zero depth item) h p =
        ended-Fine d _ (polled-Bounded expired b h)
    advance-Fine b rest next expired d home (starting (suc levels) depth item) h p =
        if-Fine d expired _ _ (ended-Fine d _ (truncate-Bounded u v b timeout h))
          (moved-Fine d b _ h (omega (arith, p)))
    advance-Fine b rest next expired d home (limiting levels depth item) h p =
        if-Fine d (is_full b) _ _
          (ended-Fine d _ (truncate-Bounded u v b (max_nodes_reached b.max_nodes) h))
          (moved-Fine d b _ h p)
    advance-Fine b rest next expired d home (raising levels depth item) h p =
        moved-Fine d _ (asking levels depth item) (raise-Bounded u v d b depth (omega (arith, p)) h)
          p
    advance-Fine b rest next expired d home (asking levels depth item) h p =
        elim (Option-cases (calls d item)) [
          | inl e ↦ rw (e, advance) (ended-Fine d b h)
          | inr (items, e) ↦ rw (e, advance) (moved-Fine d b (looping levels depth next items) h p)
        ]
    advance-Fine b rest next expired d home (looping levels depth container []) h p =
        moved-Fine d b (waiting container) h tt
    advance-Fine b rest next expired d home (looping levels depth container (item ∷ items)) h p =
        if-Fine d (is_full b) _ _
          (moved-Fine d _ (waiting container)
            (truncate-Bounded u v b (max_nodes_reached b.max_nodes) h) tt)
          (moved-Fine d b (polling levels depth container item items) h p)
    advance-Fine b rest next expired d home (polling levels depth container item items) h p =
        record { bounded = polled-Bounded expired b h; self = p; newly = p }
    advance-Fine b rest next expired d home (waiting container) h p =
        if-Fine d (running rest container == 0) _ _ (ended-Fine d b h)
          (moved-Fine d b (waiting container) h tt)
    advance-Fine b rest next expired d home (acquiring levels depth item) h p =
        if-Fine d (has_place rest home) _ _ (moved-Fine d b (testing levels depth item) h p)
          (moved-Fine d b (acquiring levels depth item) h p)
    advance-Fine b rest next expired d home (testing levels depth item) h p =
        moved-Fine d b (counting levels depth item (is_visited b.visited (node_key item))) h p
    advance-Fine b rest next expired d home (counting levels depth item true) h p =
        moved-Fine d _ closing_cycle (same b _ h refl refl refl) tt
    advance-Fine b rest next expired d home (counting levels depth item false) h p =
        moved-Fine d _ (marking levels depth item) (same b _ h refl refl refl) p
    advance-Fine b rest next expired d home closing_cycle h p =
        ended-Fine d _ (same b _ h refl refl refl)
    advance-Fine b rest next expired d home (marking levels depth item) h p =
        moved-Fine d _ (noting levels depth item) (same b _ h refl refl refl) p
    advance-Fine b rest next expired d home (noting levels depth item) h p =
        moved-Fine d _ (starting levels (suc depth) item) (note-Bounded u v d b item.name h)
          (omega (arith, p))

  pick-Fits :
      (i : ℕ) (tasks : List Task) (t : Task) (rest : List Task)
      → pick i tasks ≡ some (t, rest)
      → All Fits tasks
      → Fits t × All Fits rest
  unfolding pick
  pick-Fits i [] t rest e h = absurd (ground arith)
  pick-Fits zero (x ∷ tasks) t rest e (p, h) =
      subst (λ z. Fits z.0 × All Fits z.1) (some-injective e) (p, h)
  pick-Fits (suc i) (x ∷ tasks) t rest e (p, h) = elim (Option-cases (pick i tasks)) [
    | inl none_there ↦ let q : none ≡ some (t, rest) = rw none_there at e in absurd (ground arith)
    | inr ((found, others), there) ↦
        let q : some (found, x ∷ others) ≡ some (t, rest) = rw there at e in
        let (fits, all) = pick-Fits i tasks found others there h in
        subst (λ z. Fits z.0 × All Fits z.1) (some-injective q) (fits, (p, all))
  ]

  record Kept (s : Threads) : Type 0 where
    bounded : Bounded u v s.builder
    fits : All Fits s.tasks

  still-Fits :
      (t : Task) (place : Option Place) → StillFits t.direction place → All Fits (still t place)
  still-Fits t none h = tt
  still-Fits t (some place) h = (h, tt)

  started-Fits : (t : Option Task) → StartedFits t → All Fits (started t)
  started-Fits none h = tt
  started-Fits (some t) h = (h, tt)

  module _ (calls : Direction → CallHierarchyItem → Option (List CallHierarchyItem)) where
    step_task-Kept :
        (s : Threads) (expired : Bool) (t : Task) (rest : List Task)
        → Bounded u v s.builder
        → Fits t
        → All Fits rest
        → Kept (step_task calls s expired t rest)
    unfolding step_task
    step_task-Kept s expired t rest h p others =
        let m = advance calls s.builder rest s.next expired t.direction t.home t.place in
        let fine =
          advance-Fine calls s.builder rest s.next expired t.direction t.home t.place h p in
        record {
          bounded = fine.bounded;
          fits =
              All-append Fits (still t m.self) (started m.started ++ rest)
                (still-Fits t m.self fine.self)
                (All-append Fits (started m.started) rest (started-Fits m.started fine.newly)
                  others);
        }

    step-Kept : (s : Threads) (choice : ℕ × Bool) → Kept s → Kept (step calls s choice)
    unfolding step
    step-Kept s (i, expired) k = elim (Option-cases (pick i s.tasks)) [
      | inl e ↦ rw (e, step) k
      | inr ((t, rest), e) ↦
          let (fits, others) = pick-Fits i s.tasks t rest e k.fits in
          rw (e, step) (step_task-Kept s expired t rest k.bounded fits others)
    ]

    run-Kept : (s : Threads) (choices : List (ℕ × Bool)) → Kept s → Kept (run calls s choices)
    unfolding run
    run-Kept s [] k = k
    run-Kept s (choice ∷ choices) k = run-Kept (step calls s choice) choices (step-Kept s choice k)

-- The request's limits on the depth hold of what is reported, and no entry point is named twice,
-- whatever the order in which the goroutines of both trees take their steps, and whenever the
-- context ends.
pub run-bounded :
    (calls : Direction → CallHierarchyItem → Option (List CallHierarchyItem)) (args : Arguments)
    (item : CallHierarchyItem) (choices : List (ℕ × Bool))
    → let b = (run calls (start_threads args item) choices).builder in
      (b.max_depth_up ≤ pos_part (depth_limit args.depth_up))
      × (b.max_depth_down ≤ pos_part (depth_limit args.depth_down))
      × NoRepeat b.entry_points
unfolding start_threads start_graph item_to_node limit_of
run-bounded calls args item choices =
    let u = pos_part (depth_limit args.depth_up) in
    let v = pos_part (depth_limit args.depth_down) in
    let one = record (new_builder (node_limit args.max_nodes)) { node_count = 1 } in
    let empty : Bounded u v one = record {
      ups = omega arith;
      downs = omega arith;
      distinct = tt;
    } in
    let begun : Kept u v (start_threads args item) = record {
      bounded = note-Bounded u v root one item.name empty;
      fits = (omega arith, (omega arith, tt));
    } in
    let done = run-Kept u v calls (start_threads args item) choices begun in
    (done.bounded.ups, done.bounded.downs, done.bounded.distinct)
