-- ===== src/Analysis/Graph/Circular.antt =====
-- The cycle test ends, and what it answers.
use mcp_bsl_lsp_bridge.Prelude.{
  ℕ, zero, suc, ◌+◌, ◌≤◌, ◌<◌, String, Bool, true, false, Option, some, List, [], ◌∷◌, ◌++◌, ◌≡◌,
  refl, ap, inl, inr, string_eq, if◌then◌else◌, length, All, arith, Bool-cases,
}
use mcp_bsl_lsp_bridge.Prelude.Dict
use mcp_bsl_lsp_bridge.Analysis.Graph.{
  Graph, neighbors, visited, visit, dfs, targets, enough, answer, is_circular_dependency,
}

-- The symbols of `univ` that are not yet visited.
unfoldable pub unvisited : List String → List String → ℕ
unvisited [] seen = 0
unvisited (x ∷ univ) seen = (if visited seen x then 0 else 1) + unvisited univ seen

abbrev pub Grows : List String → List String → Type 0
Grows seen seen' = (x : String) → visited seen x ≡ true → visited seen' x ≡ true

pub unvisited-le : (univ seen : List String) → unvisited univ seen ≤ length univ
unfolding unvisited
unvisited-le [] seen = omega arith
unvisited-le (x ∷ univ) seen = ground (arith, unvisited-le univ seen)

pub unvisited_mono :
    (univ seen seen' : List String) → Grows seen seen' → unvisited univ seen' ≤ unvisited univ seen
unfolding unvisited
unvisited_mono [] seen seen' g = omega arith
unvisited_mono (x ∷ univ) seen seen' g = ground (arith, g x, unvisited_mono univ seen seen' g)

pub Grows-cons : (c : String) (seen : List String) → Grows seen (c ∷ seen)
unfolding visited
Grows-cons c seen x h = ground arith

-- Visiting a symbol of `univ` for the first time lowers the count.
pub unvisited_lt :
    (univ seen : List String) (c : String)
    → visited univ c ≡ true
    → visited seen c ≡ false
    → unvisited univ (c ∷ seen) < unvisited univ seen
unfolding unvisited visited
unvisited_lt [] seen c h k = ground arith
unvisited_lt (x ∷ univ) seen c h k = ground (
  arith,
  string_eq.beq_iff x c,
  string_eq.beq_iff c x,
  unvisited_lt univ seen c,
  unvisited_mono univ seen (c ∷ seen) (Grows-cons c seen),
)

-- A walk that has ended without an answer, and has only added to the visited symbols.
abbrev Silent : List String → Option (Bool × List String) → Type 0
Silent seen r = (seen' : List String) × (r ≡ some (false, seen')) × Grows seen seen'

module _ (graph : Graph) (target : String) (univ : List String) where
  module _ (fuel : ℕ)
      (walk : (c : String) (seen : List String)
        → visited univ c ≡ true
        → visited seen c ≡ false
        → unvisited univ seen < fuel
        → Silent seen (dfs graph target fuel c seen)) where
    visit-Silent :
        (ns seen : List String)
        → All (λ n. visited univ n ≡ true) ns
        → unvisited univ seen < fuel
        → Silent seen (visit (dfs graph target fuel) ns seen)
    unfolding visit
    visit-Silent [] seen h k = (seen, refl, λ x p. p)
    visit-Silent (n ∷ ns) seen (here, later) k = elim (Bool-cases (visited seen n)) [
      | inl old ↦ rw (old, visit) (visit-Silent ns seen later k)
      | inr new ↦
          let (seen', e, grown) = walk n seen here new k in
          let fits : unvisited univ seen' < fuel =
            omega (arith, unvisited_mono univ seen seen' grown) in
          let (seen'', e', grown') = visit-Silent ns seen' later fits in
          (seen'', rw (new, visit) (rw (e, visit) e'), λ x p. grown' x (grown x p))
    ]

  -- A call on an unvisited symbol ends within the fuel and finds nothing: the test
  -- `current == target && visited[current]` is made before `current` is marked.
  dfs-Silent :
      (bounded : (c : String)
        → visited univ c ≡ true
        → All (λ n. visited univ n ≡ true) (neighbors graph c))
      (fuel : ℕ) (c : String) (seen : List String)
      → visited univ c ≡ true
      → visited seen c ≡ false
      → unvisited univ seen < fuel
      → Silent seen (dfs graph target fuel c seen)
  unfolding dfs
  dfs-Silent bounded zero c seen h k lt = elim lt [ ]
  dfs-Silent bounded (suc fuel) c seen h k lt =
      let less = unvisited_lt univ seen c h k in
      let (seen', e, grown) =
        visit-Silent fuel (dfs-Silent bounded fuel) (neighbors graph c) (c ∷ seen) (bounded c h)
          (omega arith) in
      (seen', rw k (ground (arith, e)), λ x p. grown x (Grows-cons c seen x p))

visited-append_left :
    (xs ys : List String) (x : String) → visited xs x ≡ true → visited (xs ++ ys) x ≡ true
unfolding visited
visited-append_left [] ys x h = ground arith
visited-append_left (y ∷ xs) ys x h = ground (arith, visited-append_left xs ys x)

visited-append_right :
    (xs ys : List String) (x : String) → visited ys x ≡ true → visited (xs ++ ys) x ≡ true
unfolding visited
visited-append_right [] ys x h = h
visited-append_right (y ∷ xs) ys x h = ground (arith, visited-append_right xs ys x)

pub Grows-All :
    (seen seen' : List String)
    → Grows seen seen'
    → (xs : List String) → All (λ n. visited seen n ≡ true) xs
    → All (λ n. visited seen' n ≡ true) xs
Grows-All seen seen' g [] h = h
Grows-All seen seen' g (x ∷ xs) (p, h) = (g x p, Grows-All seen seen' g xs h)

pub visited_self : (xs : List String) → All (λ n. visited xs n ≡ true) xs
visited_self [] = tt
visited_self (x ∷ xs) = (
  unfold visited in ground (arith, string_eq.beq_iff x x),
  Grows-All xs (x ∷ xs) (Grows-cons x xs) xs (visited_self xs),
)

pub neighbors-targets :
    (graph : Graph) (c : String) → All (λ n. visited (targets graph) n ≡ true) (neighbors graph c)
unfolding neighbors targets Dict.get
neighbors-targets [] c = tt
neighbors-targets ((source, ts) ∷ graph) c = elim (Bool-cases (string_eq.beq source c)) [
  | inl same ↦
      rw (neighbors, Dict.get, same)
        (Grows-All ts (ts ++ targets graph) (visited-append_left ts (targets graph)) ts
          (visited_self ts))
  | inr other ↦
      rw (neighbors, Dict.get, other)
        (Grows-All (targets graph) (ts ++ targets graph) (visited-append_right ts (targets graph))
          (neighbors graph c) (neighbors-targets graph c))
]

-- `isCircularDependency` answers, and the answer is `false`, on every graph and every pair of
-- symbols, those that lie on a cycle included.
pub is_circular_dependency-eq-false :
    (graph : Graph) (start end : String) → is_circular_dependency graph start end ≡ some false
unfolding is_circular_dependency enough
is_circular_dependency-eq-false graph start end =
    let univ = start ∷ targets graph in
    let (seen, e, grown) =
      dfs-Silent graph end univ
        (λ c _.
          Grows-All (targets graph) univ (Grows-cons start (targets graph)) (neighbors graph c)
            (neighbors-targets graph c))
        (enough graph) start [] (visited_self univ).0 (unfold visited in refl)
        (omega (arith, unvisited-le univ [])) in
    ap answer e
