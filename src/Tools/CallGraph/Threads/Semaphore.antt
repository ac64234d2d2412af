-- ===== src/Tools/CallGraph/Threads/Semaphore.antt =====
-- The semaphore of a loop, and the goroutines that hold a place of it.
use mathlib.Core.Path.{subst}
use mcp_bsl_lsp_bridge.Prelude.{
  ℕ, zero, suc, ◌+◌, ◌≤◌, ◌<◌, Bool, true, false, Option, none, some, List, [], ◌∷◌, ◌++◌, ◌≡◌,
  refl, inl, inr, if◌then◌else◌, ◌==◌, arith, Bool-cases, Option-cases, some-injective, ltb→lt,
  ==_iff,
}
use mcp_bsl_lsp_bridge.Tools.CallGraph.{
  CallHierarchyItem, Direction, Builder, node_key, is_visited, is_full,
}
use mcp_bsl_lsp_bridge.Tools.CallGraph.Build.{Arguments}
use mcp_bsl_lsp_bridge.Tools.CallGraph.Threads.{
  Place, starting, limiting, raising, asking, looping, polling, waiting, acquiring, testing,
  counting, closing_cycle, marking, noting, Task, Threads, Moved, moved, ended, advance, running,
  taken, holds, is_home, is_acquiring, one_if, has_place, pick, still, started, step_task, step,
  run, start_threads,
}

taken-append : (xs ys : List Task) (c : ℕ) → taken (xs ++ ys) c ≡ taken xs c + taken ys c
unfolding taken
taken-append [] ys c = omega arith
taken-append (x ∷ xs) ys c = omega (arith, taken-append xs ys c)

taken-pick :
    (i : ℕ) (tasks : List Task) (t : Task) (rest : List Task) (c : ℕ)
    → pick i tasks ≡ some (t, rest)
    → taken tasks c ≡ holds t c + taken rest c
unfolding pick taken
taken-pick i [] t rest c e = absurd (ground arith)
taken-pick zero (x ∷ tasks) t rest c e =
    subst (λ z. holds x c + taken tasks c ≡ holds z.0 c + taken z.1 c) (some-injective e) refl
taken-pick (suc i) (x ∷ tasks) t rest c e = elim (Option-cases (pick i tasks)) [
  | inl none_there ↦ let q : none ≡ some (t, rest) = rw none_there at e in absurd (ground arith)
  | inr ((found, others), there) ↦
      let q : some (found, x ∷ others) ≡ some (t, rest) = rw there at e in
      let below = taken-pick i tasks found others c there in
      let whole : taken (x ∷ tasks) c ≡ holds found c + taken (x ∷ others) c =
        omega (arith, below) in
      subst (λ z. taken (x ∷ tasks) c ≡ holds z.0 c + taken z.1 c) (some-injective q) whole
]

-- What a goroutine at a place holds.
abbrev load : Option ℕ → Place → ℕ → ℕ
load home place c = if is_acquiring place then 0 else one_if (is_home home c)

abbrev still_load : Option ℕ → Option Place → ℕ → ℕ
still_load home none c = 0
still_load home (some place) c = load home place c

free-load :
    (rest : List Task) (c : ℕ) (home : Option ℕ)
    → has_place rest home ≡ true
    → taken rest c ≤ 5
    → one_if (is_home home c) + taken rest c ≤ 5
free-load rest c none free h = omega (arith, h)
free-load rest c (some k) free h = elim (Bool-cases (k == c)) [
  | inl same ↦
      let below : taken rest k < 5 = ltb→lt (taken rest k) 5 free in
      let here : taken rest c < 5 = subst (λ z. taken rest z < 5) ((==_iff k c).0 same) below in
      rw same (omega (arith, here))
  | inr other ↦ rw other (omega (arith, h))
]

module _ (home : Option ℕ) (rest : List Task) (c : ℕ) where
  -- After the step at most five places are taken, and what was started waits for one.
  record Light (m : Moved) : Type 0 where
    self : still_load home m.self c + taken rest c ≤ 5
    newly : taken (started m.started) c ≡ 0

  ended-Light : (b : Builder) → taken rest c ≤ 5 → Light (ended b)
  unfolding taken
  ended-Light b h = record { self = omega (arith, h); newly = refl }

  moved-Light :
      (b : Builder) (place : Place) → load home place c + taken rest c ≤ 5 → Light (moved b place)
  unfolding taken
  moved-Light b place h = record { self = h; newly = refl }

  if-Light : (b : Bool) (x y : Moved) → Light x → Light y → Light (if b then x else y)
  if-Light true x y p q = p
  if-Light false x y p q = q

  -- A place that is free can be taken.
  free-Light :
      (b : Builder) (levels depth : ℕ) (item : CallHierarchyItem)
      → taken rest c ≤ 5
      → Light (
          if has_place rest home
          then moved b (testing levels depth item)
          else moved b (acquiring levels depth item))
  free-Light b levels depth item h = elim (Bool-cases (has_place rest home)) [
    | inl free ↦ rw free (moved-Light b (testing levels depth item) (free-load rest c home free h))
    | inr full ↦ rw full (moved-Light b (acquiring levels depth item) (omega (arith, h)))
  ]

module _ (calls : Direction → CallHierarchyItem → Option (List CallHierarchyItem)) (c : ℕ) where
  advance-Light :
      (b : Builder) (rest : List Task) (next : ℕ) (expired : Bool) (d : Direction) (home : Option ℕ)
      (place : Place)
      → load home place c + taken rest c ≤ 5
      → Light home rest c (advance calls b rest next expired d home place)
  unfolding advance taken
  advance-Light b rest next expired d home (starting zero depth item) h =
      ended-Light home rest c _ (omega (arith, h))
  advance-Light b rest next expired d home (starting (suc levels) depth item) h =
      if-Light home rest c expired _ _ (ended-Light home rest c _ (omega (arith, h)))
        (moved-Light home rest c _ (limiting levels depth item) h)
  advance-Light b rest next expired d home (limiting levels depth item) h =
      if-Light home rest c (is_full b) _ _ (ended-Light home rest c _ (omega (arith, h)))
        (moved-Light home rest c _ (raising levels depth item) h)
  advance-Light b rest next expired d home (raising levels depth item) h =
      moved-Light home rest c _ (asking levels depth item) h
  advance-Light b rest next expired d home (asking levels depth item) h =
      elim (Option-cases (calls d item)) [
        | inl e ↦ rw (e, advance) (ended-Light home rest c b (omega (arith, h)))
        | inr (items, e) ↦
            rw (e, advance) (moved-Light home rest c b (looping levels depth next items) h)
      ]
  advance-Light b rest next expired d home (looping levels depth container []) h =
      moved-Light home rest c b (waiting container) h
  advance-Light b rest next expired d home (looping levels depth container (item ∷ items)) h =
      if-Light home rest c (is_full b) _ _ (moved-Light home rest c _ (waiting container) h)
        (moved-Light home rest c b (polling levels depth container item items) h)
  advance-Light b rest next expired d home (polling levels depth container item items) h = record {
    self = h;
    newly = omega arith;
  }
  advance-Light b rest next expired d home (waiting container) h =
      if-Light home rest c (running rest container == 0) _ _
        (ended-Light home rest c b (omega (arith, h)))
        (moved-Light home rest c b (waiting container) h)
  advance-Light b rest next expired d home (acquiring levels depth item) h =
      free-Light home rest c b levels depth item (omega (arith, h))
  advance-Light b rest next expired d home (testing levels depth item) h =
      moved-Light home rest c b (counting levels depth item (is_visited b.visited (node_key item)))
        h
  advance-Light b rest next expired d home (counting levels depth item true) h =
      moved-Light home rest c _ closing_cycle h
  advance-Light b rest next expired d home (counting levels depth item false) h =
      moved-Light home rest c _ (marking levels depth item) h
  advance-Light b rest next expired d home closing_cycle h =
      ended-Light home rest c _ (omega (arith, h))
  advance-Light b rest next expired d home (marking levels depth item) h =
      moved-Light home rest c _ (noting levels depth item) h
  advance-Light b rest next expired d home (noting levels depth item) h =
      moved-Light home rest c _ (starting levels (suc depth) item) h

  still-taken :
      (t : Task) (place : Option Place) → taken (still t place) c ≡ still_load t.home place c
  unfolding taken
  still-taken t none = refl
  still-taken t (some place) = omega arith

  step_task-taken :
      (s : Threads) (expired : Bool) (t : Task) (rest : List Task)
      → holds t c + taken rest c ≤ 5
      → taken (step_task calls s expired t rest).tasks c ≤ 5
  unfolding step_task
  step_task-taken s expired t rest h =
      let m = advance calls s.builder rest s.next expired t.direction t.home t.place in
      let light = advance-Light s.builder rest s.next expired t.direction t.home t.place h in
      let self = light.self in
      let newly = light.newly in
      let own = still-taken t m.self in
      let two = taken-append (still t m.self) (started m.started ++ rest) c in
      let more = taken-append (started m.started) rest c in
      omega (arith, self, newly, own, two, more)

  step-taken :
      (s : Threads) (choice : ℕ × Bool)
      → taken s.tasks c ≤ 5
      → taken (step calls s choice).tasks c ≤ 5
  unfolding step
  step-taken s (i, expired) h = elim (Option-cases (pick i s.tasks)) [
    | inl e ↦ rw (e, step) h
    | inr ((t, rest), e) ↦
        let split = taken-pick i s.tasks t rest c e in
        rw (e, step) (step_task-taken s expired t rest (omega (arith, split, h)))
  ]

  run-taken :
      (s : Threads) (choices : List (ℕ × Bool))
      → taken s.tasks c ≤ 5
      → taken (run calls s choices).tasks c ≤ 5
  unfolding run
  run-taken s [] h = h
  run-taken s (choice ∷ choices) h = run-taken (step calls s choice) choices (step-taken s choice h)

-- Whatever the order of the steps, at most five goroutines of one loop are past its semaphore and
-- have not ended.
run-semaphore :
    (calls : Direction → CallHierarchyItem → Option (List CallHierarchyItem)) (args : Arguments)
    (item : CallHierarchyItem) (choices : List (ℕ × Bool)) (container : ℕ)
    → taken (run calls (start_threads args item) choices).tasks container ≤ 5
unfolding start_threads taken
run-semaphore calls args item choices container =
    run-taken calls container (start_threads args item) choices (omega arith)
