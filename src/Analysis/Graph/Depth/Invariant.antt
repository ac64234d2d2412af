-- ===== src/Analysis/Graph/Depth/Invariant.antt =====
-- The invariant of the breadth-first search, and that a round keeps it.
use mathlib.Core.List.{Memᴰ}
use mathlib.Core.List.Memᴰ
use mcp_bsl_lsp_bridge.Prelude.{
  ℕ, suc, ◌+◌, ◌≤◌, String, true, false, List, [], ◌∷◌, ◌++◌, ◌≡◌, refl, ap, sym, inl, inr,
  string_eq, All, All-append, arith, Bool-cases,
}
use mcp_bsl_lsp_bridge.Analysis.Graph.{Graph, neighbors, visited}
use mcp_bsl_lsp_bridge.Analysis.Graph.Circular.{visited_self}
use mcp_bsl_lsp_bridge.Analysis.Graph.Depth.{Hop, fresh}
use mcp_bsl_lsp_bridge.Analysis.Graph.Depth.Levels.{
  Tiered, Tiered-round, Tiered-bounds, All-Memᴰ, fresh-Memᴰ,
}
use mcp_bsl_lsp_bridge.Analysis.Graph.Depth.Walks.{Walk, here, extend-fresh, leave}

module _ (graph : Graph) where
  module _ (start end : String) where
    pub record Inv (m : ℕ) (queue : List Hop) (seen : List String) : Type 0 where
      pub sound : All (λ (hop : Hop). Walk graph start hop.0 hop.1) queue
      pub tiers : Tiered m queue
      pub avoids : visited seen end ≡ false
      pub closed :
          (w u : String)
          → visited seen w ≡ true
          → visited (neighbors graph w) u ≡ true
          → visited seen u ≡ false
          → (i : ℕ) × Memᴰ (u, i) queue
      pub near :
          (n : ℕ)
          → Walk graph start end n
          → (u : String) × (i : ℕ) × (s : ℕ) × Memᴰ (u, i) queue × Walk graph u end s × (i + s ≤ n)

    pub Inv-start : Inv 0 ((start, 0) ∷ []) []
    unfolding visited
    Inv-start = record {
      sound = (here, tt);
      tiers = inl (refl, tt);
      avoids = refl;
      closed = λ w u old edge new. ground arith;
      near = λ n walk. (start, 0, n, Memᴰ.head refl, walk, omega arith);
    }

    module _ (m : ℕ) (x : String) (depth : ℕ) (queue : List Hop) (seen : List String)
        (h : Inv m ((x, depth) ∷ queue) seen) (passed : string_eq.beq x end ≡ false) where
      abbrev pub marked : List String
      marked = x ∷ seen

      abbrev pub next : List Hop
      next = queue ++ fresh marked depth (neighbors graph x)

      closed-round :
          (w u : String)
          → visited marked w ≡ true
          → visited (neighbors graph w) u ≡ true
          → visited marked u ≡ false
          → (i : ℕ) × Memᴰ (u, i) next
      unfolding visited
      closed-round w u old edge new = elim (Bool-cases (string_eq.beq x w)) [
        | inl same ↦
            let e : x ≡ w = (string_eq.beq_iff x w).0 same in
            let edge' : visited (neighbors graph x) u ≡ true = rw e edge in
            (
              suc depth,
              Memᴰ.append_right queue (fresh-Memᴰ marked depth (neighbors graph x) u new edge'),
            )
        | inr other ↦
            let differs : string_eq.beq x u ≡ false = ground arith in
            let new' : visited seen u ≡ false = ground arith in
            let (i, waiting) = h.closed w u (ground arith) edge new' in
            elim (Memᴰ.cases_cons waiting) [
              | inl front ↦
                  let same = (string_eq.beq_iff x u).1 (sym (ap (λ hop. hop.0) front)) in
                  ground arith
              | inr later ↦ (i, Memᴰ.append_left (fresh marked depth (neighbors graph x)) later)
            ]
      ]

      tiers_round : Tiered depth next
      tiers_round = Tiered-round m x depth queue marked (neighbors graph x) h.tiers

      avoids_round : visited marked end ≡ false
      unfolding visited
      avoids_round = let old = h.avoids in ground arith

      -- Where the walk that was nearest starts at `x`, its first unmarked symbol is queued.
      near_front :
          (s : ℕ)
          → Walk graph x end s
          → (u : String) × (i : ℕ) × (r : ℕ) × Memᴰ (u, i) next
            × Walk graph u end r
            × (i + r ≤ depth + s)
      near_front s walk =
          let (w, u, r, old, edge, new, rest, less) =
            leave graph marked walk (visited_self marked).0 avoids_round in
          let (i, waiting) = closed-round w u old edge new in
          let (low, high) =
            All-Memᴰ (λ hop. (depth ≤ hop.1) × (hop.1 ≤ suc depth)) next waiting
              (Tiered-bounds depth next tiers_round) in
          (u, i, r, waiting, rest, omega arith)

      pub Inv-round : Inv depth next marked
      Inv-round = record {
        sound =
            All-append (λ (hop : Hop). Walk graph start hop.0 hop.1) queue
              (fresh marked depth (neighbors graph x)) h.sound.1
              (extend-fresh graph start x depth marked (neighbors graph x) h.sound.0
                (visited_self (neighbors graph x)));
        tiers = tiers_round;
        avoids = avoids_round;
        closed = closed-round;
        near = λ n walk.
            let (u, i, s, waiting, rest, short) = h.near n walk in
            elim (Memᴰ.cases_cons waiting) [
              | inl front ↦
                  let at_x : u ≡ x = ap (λ hop. hop.0) front in
                  let at_depth : i ≡ depth = ap (λ hop. hop.1) front in
                  let rest' : Walk graph x end s = rw at_x at rest in
                  let (u', i', r, waiting', rest'', short') = near_front s rest' in
                  (u', i', r, waiting', rest'', omega arith)
              | inr later ↦ (
                u,
                i,
                s,
                Memᴰ.append_left (fresh marked depth (neighbors graph x)) later,
                rest,
                short,
              )
            ];
      }
