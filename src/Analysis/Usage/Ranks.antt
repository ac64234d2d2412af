-- ===== src/Analysis/Usage/Ranks.antt =====
-- The two usages that `determinePrimaryUsage` picks.
use mathlib.Core.List.{Memᴰ}
use mathlib.Core.List.Memᴰ
use mcp_bsl_lsp_bridge.Prelude.{
  ℕ, ◌≤◌, ◌<◌, String, some, List, [], ◌∷◌, ◌≡◌, refl, ◌∙◌, ap, ◌≢◌, ◌⊎◌, inl, inr, ltb, string_eq,
  length, All, All-imp, arith, Bool-cases, ltb→lt, ltb-le,
}
use mcp_bsl_lsp_bridge.Prelude.Dict
use mcp_bsl_lsp_bridge.Prelude.Dict.{Dict, Distinct, All-get}
use mcp_bsl_lsp_bridge.Analysis.Graph.Depth.Levels.{All-Memᴰ}
use mcp_bsl_lsp_bridge.Analysis.Usage.Apart.{rank_all-Apart}
use mcp_bsl_lsp_bridge.Analysis.Usage.{Ranking, rank, rank_all, unranked, determine_primary_usage}

abbrev Entry : Type 0
Entry = String × ℕ

abbrev first : Ranking → Entry
first r = (r.primary_usage, r.primary_count)

abbrev second : Ranking → Entry
second r = (r.secondary_usage, r.secondary_count)

-- How the ranking `r'` that is made from `r` stands to one of the entries that were ranked.
record Places (r' : Ranking) (e : Entry) : Type 0 where
  top : e.1 ≤ r'.primary_count
  next : (e ≡ first r') ⊎ (e.1 ≤ r'.secondary_count)

abbrev Sorted : Ranking → Type 0
Sorted r = r.secondary_count ≤ r.primary_count

record Step (r : Ranking) (entries : List Entry) (r' : Ranking) : Type 0 where
  sorted : Sorted r'
  places : All (Places r') entries
  keeps_first : Places r' (first r)
  keeps_second : r.secondary_count ≤ r'.secondary_count
  from_first : (first r' ≡ first r) ⊎ Memᴰ (first r') entries
  from_second : (second r' ≡ second r) ⊎ ((second r' ≡ first r) ⊎ Memᴰ (second r') entries)

rank-Step : (r : Ranking) (e : Entry) → Sorted r → Step r (e ∷ []) (rank r e)
unfolding rank
rank-Step r (context, count) s = elim (Bool-cases (ltb r.primary_count count)) [
  | inl over ↦
      let lt = ltb→lt r.primary_count count over in
      rw (over, rank)
        (record {
          sorted = omega arith;
          places = (record { top = omega arith; next = inl refl }, tt);
          keeps_first = record { top = omega arith; next = inr (omega arith) };
          keeps_second = omega arith;
          from_first = inr (Memᴰ.head refl);
          from_second = inr (inl refl);
        })
  | inr under ↦
      let le = ltb-le r.primary_count count under in
      elim (Bool-cases (ltb r.secondary_count count)) [
        | inl over ↦
            let lt = ltb→lt r.secondary_count count over in
            rw (under, rank)
              (rw over (record {
                sorted = omega arith;
                places = (record { top = omega arith; next = inr (omega arith) }, tt);
                keeps_first = record { top = omega arith; next = inl refl };
                keeps_second = omega arith;
                from_first = inl refl;
                from_second = inr (inr (Memᴰ.head refl));
              }))
        | inr low ↦
            let le' = ltb-le r.secondary_count count low in
            rw (under, rank)
              (rw low (record {
                sorted = omega arith;
                places = (record { top = omega arith; next = inr (omega arith) }, tt);
                keeps_first = record { top = omega arith; next = inl refl };
                keeps_second = omega arith;
                from_first = inl refl;
                from_second = inl refl;
              }))
      ]
]

-- An entry keeps its place when more entries are ranked.
Places-Step :
    (r : Ranking) (entries : List Entry) (r' : Ranking) (e : Entry)
    → Step r entries r'
    → Places r e
    → Places r' e
Places-Step r entries r' e step p =
    let first_top = step.keeps_first.top in
    let grows = step.keeps_second in
    let e_top = p.top in
    elim p.next [
      | inl same ↦ rw same step.keeps_first
      | inr low ↦ record { top = omega arith; next = inr (omega arith) }
    ]

-- Where an entry that was ranked in one round comes from.
head_or_old :
    {x y : Entry} {e : Entry} (entries : List Entry)
    → x ≡ y
    → Memᴰ y (e ∷ [])
    → Memᴰ x (e ∷ entries)
head_or_old entries same m = Memᴰ.head (same ∙ Memᴰ.eq_of_singleton m)

from_one :
    {x y z : Entry} {e : Entry} (entries : List Entry)
    → x ≡ y
    → (y ≡ z) ⊎ Memᴰ y (e ∷ [])
    → (x ≡ z) ⊎ Memᴰ x (e ∷ entries)
from_one entries same (inl old) = inl (same ∙ old)
from_one entries same (inr new) = inr (head_or_old entries same new)

from_two :
    {x y z w : Entry} {e : Entry} (entries : List Entry)
    → x ≡ y
    → (y ≡ z) ⊎ ((y ≡ w) ⊎ Memᴰ y (e ∷ []))
    → (x ≡ z) ⊎ ((x ≡ w) ⊎ Memᴰ x (e ∷ entries))
from_two entries same (inl old) = inl (same ∙ old)
from_two entries same (inr rest) = inr (from_one entries same rest)

rank_all-Step :
    (r : Ranking) (entries : List Entry) → Sorted r → Step r entries (rank_all r entries)
unfolding rank_all
rank_all-Step r [] s = record {
  sorted = s;
  places = tt;
  keeps_first = record { top = omega arith; next = inl refl };
  keeps_second = omega arith;
  from_first = inl refl;
  from_second = inl refl;
}
rank_all-Step r (e ∷ entries) s =
    let one = rank-Step r e s in
    let rest = rank_all-Step (rank r e) entries one.sorted in
    let r'' = rank_all (rank r e) entries in
    let grows = rest.keeps_second in
    let grew = one.keeps_second in
    record {
      sorted = rest.sorted;
      places = (Places-Step (rank r e) entries r'' e rest one.places.0, rest.places);
      keeps_first = Places-Step (rank r e) entries r'' (first r) rest one.keeps_first;
      keeps_second = omega arith;
      from_first = elim rest.from_first [
        | inl same ↦ from_one entries same one.from_first
        | inr later ↦ inr (Memᴰ.tail later)
      ];
      from_second = elim rest.from_second [
        | inl same ↦ from_two entries same one.from_second
        | inr (inl was_first) ↦ inr (from_one entries was_first one.from_first)
        | inr (inr later) ↦ inr (inr (Memᴰ.tail later))
      ];
    }

primary_positive :
    (r : Ranking) (contexts : Dict String ℕ)
    → All (Places r) contexts
    → All (λ e. 0 < e.1) contexts
    → 0 < length contexts
    → 0 < r.primary_count
primary_positive r [] places positive h = absurd (omega arith)
primary_positive r (e ∷ contexts) (p, places) (q, positive) h = let top = p.top in omega arith

next_place :
    (r : Ranking) (e : Entry)
    → Places r e
    → (e.1 ≤ r.primary_count) × ((e.0 ≡ r.primary_usage) ⊎ (e.1 ≤ r.secondary_count))
next_place r e p = (p.top, elim p.next [ inl same ↦ inl (ap (λ x. x.0) same) | inr low ↦ inr low ])

-- Of a table with distinct names and positive counts: the primary usage has the highest count. The
-- secondary usage is another one, and has the highest count among the others; it is empty where
-- there are no others.
pub determine_primary_usage-highest :
    (contexts : Dict String ℕ)
    → Distinct contexts
    → All (λ e. 0 < e.1) contexts
    → 0 < length contexts
    → let (primary, secondary) = determine_primary_usage contexts in
      (n : ℕ) × (m : ℕ) × (Dict.get contexts primary ≡ some n)
      × (((m ≡ 0) × (secondary ≡ ""))
          ⊎ ((Dict.get contexts secondary ≡ some m) × (secondary ≢ primary)))
      × All (λ e. (e.1 ≤ n) × ((e.0 ≡ primary) ⊎ (e.1 ≤ m))) contexts
unfolding determine_primary_usage
determine_primary_usage-highest contexts distinct positive some_context =
    let step = rank_all-Step unranked contexts (omega arith) in
    let r = rank_all unranked contexts in
    let found = λ (e : Entry) (m : Memᴰ e contexts).
      All-Memᴰ (λ x. Dict.get contexts x.0 ≡ some x.1) contexts m (All-get contexts distinct) in
    let apart = rank_all-Apart unranked contexts distinct (inl refl) (inl refl) in
    let positive_count = primary_positive r contexts step.places positive some_context in
    (
      r.primary_count,
      r.secondary_count,
      elim step.from_first [
        | inl same ↦
            let none_counted : r.primary_count ≡ 0 = ap (λ x. x.1) same in absurd (omega arith)
        | inr m ↦ found (first r) m
      ],
      elim step.from_second [
        | inl same ↦ inl (ap (λ x. x.1) same, ap (λ x. x.0) same)
        | inr (inl same) ↦ inl (ap (λ x. x.1) same, ap (λ x. x.0) same)
        | inr (inr m) ↦ inr (
          found (second r) m,
          elim apart [
            | inl none_counted ↦
                let counted = All-Memᴰ (λ e. 0 < e.1) contexts m positive in absurd (omega arith)
            | inr differ ↦ differ
          ],
        )
      ],
      All-imp (Places r)
          (λ e. (e.1 ≤ r.primary_count) × ((e.0 ≡ r.primary_usage) ⊎ (e.1 ≤ r.secondary_count)))
          (next_place r) contexts step.places,
    )
