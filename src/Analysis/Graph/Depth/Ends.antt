-- ===== src/Analysis/Graph/Depth/Ends.antt =====
-- The breadth-first search ends: the rounds that the queue can still lead to fall in each round.
use native.Mathlib.Nat.{mul-le-mul_right}
use mcp_bsl_lsp_bridge.Prelude.{
  ℕ, zero, suc, ◌+◌, ◌-◌, ◌*◌, ◌≤◌, ◌<◌, String, true, some, List, [], ◌∷◌, ◌++◌, ◌≡◌, refl, inl,
  inr, string_eq, length, length-append, All, All-append, All-imp, arith, Bool-cases,
}
use mcp_bsl_lsp_bridge.Prelude.Dict
use mcp_bsl_lsp_bridge.Prelude.Int.{ℤ, pos, negsuc}
use mcp_bsl_lsp_bridge.Analysis.Graph.{Graph, neighbors, visited, targets}
use mcp_bsl_lsp_bridge.Analysis.Graph.Circular.{
  unvisited, unvisited-le, unvisited_mono, unvisited_lt, Grows-cons, Grows-All, visited_self,
  neighbors-targets,
}
use mcp_bsl_lsp_bridge.Analysis.Graph.Depth.{
  Hop, fresh, search, rounds, enough, calculate_dependency_depth,
}

-- The rounds that the elements of a queue can lead to, where no depth reaches `top`.
weight : ℕ → ℕ → List Hop → ℕ
weight width top [] = 0
weight width top ((symbol, depth) ∷ queue) = rounds width (top - depth) + weight width top queue

weight-start :
    (width top : ℕ) (start : String) → weight width top ((start, 0) ∷ []) ≤ rounds width top
unfolding weight
weight-start width top start = let e : top - 0 ≡ top = omega arith in rw (e, weight) (omega arith)

weight-append :
    (width top : ℕ) (p q : List Hop)
    → weight width top (p ++ q) ≡ weight width top p + weight width top q
unfolding weight
weight-append width top [] q = omega arith
weight-append width top ((symbol, depth) ∷ p) q = omega (arith, weight-append width top p q)

weight-fresh :
    (width top depth : ℕ) (seen ns : List String)
    → weight width top (fresh seen depth ns) ≤ length ns * rounds width (top - suc depth)
unfolding weight fresh
weight-fresh width top depth seen [] = omega arith
weight-fresh width top depth seen (n ∷ ns) = elim (Bool-cases (visited seen n)) [
  | inl old ↦ rw (old, fresh, weight) (omega (arith, weight-fresh width top depth seen ns))
  | inr new ↦ rw (new, fresh, weight) (omega (arith, weight-fresh width top depth seen ns))
]

length-neighbors :
    (graph : Graph) (c : String) → length (neighbors graph c) ≤ length (targets graph)
unfolding neighbors targets Dict.get
length-neighbors [] c = omega arith
length-neighbors ((source, ts) ∷ graph) c = elim (Bool-cases (string_eq.beq source c)) [
  | inl same ↦ rw (neighbors, Dict.get, same) (omega (arith, length-append {0} ts (targets graph)))
  | inr other ↦
      rw (neighbors, Dict.get, other)
        (omega (arith, length-append {0} ts (targets graph), length-neighbors graph c))
]

module _ (graph : Graph) (univ : List String) where
  abbrev top : ℕ
  top = length univ

  -- A queued symbol is known, and its depth counts marked symbols other than itself.
  abbrev Fits : List String → Hop → Type 0
  Fits seen (symbol, depth) =
      (visited univ symbol ≡ true) × (depth + unvisited univ (symbol ∷ seen) < top)

  Fits-marked : (x : String) (seen : List String) (hop : Hop) → Fits seen hop → Fits (x ∷ seen) hop
  Fits-marked x seen (symbol, depth) (known, below) = (
    known,
    omega (
      arith,
      unvisited_mono univ (symbol ∷ seen) (symbol ∷ (x ∷ seen))
          λ y h. unfold visited in ground arith,
    ),
  )

  Fits-fresh :
      (seen : List String) (depth : ℕ) (ns : List String)
      → All (λ n. visited univ n ≡ true) ns
      → depth + unvisited univ seen < top
      → All (Fits seen) (fresh seen depth ns)
  unfolding fresh
  Fits-fresh seen depth [] known below = tt
  Fits-fresh seen depth (n ∷ ns) (here, known) below = elim (Bool-cases (visited seen n)) [
    | inl old ↦ rw (old, fresh) (Fits-fresh seen depth ns known below)
    | inr new ↦
        rw (new, fresh)
          (
            (here, omega (arith, unvisited_lt univ seen n here new)),
            Fits-fresh seen depth ns known below,
          )
  ]

  module _ (bounded : (c : String) → All (λ n. visited univ n ≡ true) (neighbors graph c)) where
    abbrev width : ℕ
    width = length (targets graph)

    -- The element at the front pays for its own round and for all that it appends.
    round-pays :
        (symbol : String) (depth : ℕ) (queue : List Hop) (seen : List String)
        → depth < top
        → weight width top (queue ++ fresh seen depth (neighbors graph symbol))
          < weight width top ((symbol, depth) ∷ queue)
    unfolding weight rounds
    round-pays symbol depth queue seen below =
        let level : top - depth ≡ suc (top - suc depth) = omega arith in
        rw (level, rounds, weight)
          (omega (
            arith,
            weight-append width top queue (fresh seen depth (neighbors graph symbol)),
            weight-fresh width top depth seen (neighbors graph symbol),
            mul-le-mul_right {m = length (neighbors graph symbol)} {n = width}
                (rounds width (top - suc depth)) (length-neighbors graph symbol),
          ))

    search-ends :
        (end : String) (fuel : ℕ) (queue : List Hop) (seen : List String)
        → All (Fits seen) queue
        → weight width top queue ≤ fuel
        → (d : ℤ) × (search graph end fuel queue seen ≡ some d)
    unfolding search
    search-ends end fuel [] seen fits h = (negsuc 0, refl)
    search-ends end zero ((symbol, depth) ∷ queue) seen ((known, below), fits) h =
        absurd (omega (arith, round-pays symbol depth queue seen (omega arith)))
    search-ends end (suc fuel) ((symbol, depth) ∷ queue) seen ((known, below), fits) h =
        let marked = symbol ∷ seen in
        let next = fresh marked depth (neighbors graph symbol) in
        let (d, e) =
          search-ends end fuel (queue ++ next) marked
            (All-append (Fits marked) queue next
              (All-imp (Fits seen) (Fits marked) (Fits-marked symbol seen) queue fits)
              (Fits-fresh marked depth (neighbors graph symbol) (bounded symbol) below))
            (omega (arith, round-pays symbol depth queue marked (omega arith))) in
        elim (Bool-cases (string_eq.beq symbol end)) [
          | inl found ↦ (pos depth, rw found refl)
          | inr other ↦ (d, rw other e)
        ]

-- The search ends within its fuel.
pub calculate_dependency_depth-ends :
    (graph : Graph) (start end : String)
    → (d : ℤ) × (calculate_dependency_depth graph start end ≡ some d)
unfolding calculate_dependency_depth enough
calculate_dependency_depth-ends graph start end =
    let univ = start ∷ targets graph in
    let known = (visited_self univ).0 in
    search-ends graph univ
      (λ c.
        Grows-All (targets graph) univ (Grows-cons start (targets graph)) (neighbors graph c)
          (neighbors-targets graph c))
      end (enough graph) ((start, 0) ∷ []) []
      (
        (
          known,
          omega (
            arith,
            unvisited_lt univ [] start known (unfold visited in refl),
            unvisited-le univ [],
          ),
        ),
        tt,
      )
      (weight-start (length (targets graph)) (length univ) start)
