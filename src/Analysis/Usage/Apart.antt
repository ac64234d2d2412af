-- ===== src/Analysis/Usage/Apart.antt =====
-- The two usages that `determinePrimaryUsage` picks are different ones.
use mcp_bsl_lsp_bridge.Prelude.{
  ℕ, String, none, some, [], ◌∷◌, ◌≡◌, ◌≢◌, refl, sym, ◌∙◌, ap, ◌⊎◌, inl, inr, ltb, string_eq,
  arith, Bool-cases, ltb→lt, ltb-le,
}
use mcp_bsl_lsp_bridge.Prelude.Dict
use mcp_bsl_lsp_bridge.Prelude.Dict.{Dict, Distinct}
use mcp_bsl_lsp_bridge.Analysis.Usage.{Ranking, rank, rank_all}

-- The two usages differ, where a second one was counted.
abbrev pub Apart : Ranking → Type 0
Apart r = (r.secondary_count ≡ 0) ⊎ (r.secondary_usage ≢ r.primary_usage)

-- The first usage is none of those that are still to be ranked.
abbrev pub Fresh : Ranking → Dict String ℕ → Type 0
Fresh r contexts = (r.primary_count ≡ 0) ⊎ (Dict.get contexts r.primary_usage ≡ none)

get-head : (e : String × ℕ) (contexts : Dict String ℕ) → Dict.get (e ∷ contexts) e.0 ≡ some e.1
unfolding Dict.get
get-head e contexts = rw ((string_eq.beq_iff e.0 e.0).1 refl) refl

not_head :
    (e : String × ℕ) (contexts : Dict String ℕ) (usage : String)
    → Dict.get (e ∷ contexts) usage ≡ none
    → e.0 ≢ usage
not_head e contexts usage absent same =
    let found : some e.1 ≡ none =
      sym (get-head e contexts) ∙ ap (Dict.get (e ∷ contexts)) same ∙ absent in
    absurd (ground arith)

not_later :
    (e : String × ℕ) (contexts : Dict String ℕ) (usage : String)
    → Dict.get (e ∷ contexts) usage ≡ none
    → Dict.get contexts usage ≡ none
unfolding Dict.get
not_later e contexts usage absent = ground arith

rank-Apart :
    (r : Ranking) (e : String × ℕ) (contexts : Dict String ℕ)
    → Distinct (e ∷ contexts)
    → Fresh r (e ∷ contexts)
    → Apart r
    → Apart (rank r e) × Fresh (rank r e) contexts
unfolding rank
rank-Apart r (context, count) contexts (absent, d) fresh apart =
    elim (Bool-cases (ltb r.primary_count count)) [
      | inl over ↦
          rw (over, rank)
            (
              elim fresh [
                | inl zero_count ↦ inl zero_count
                | inr f ↦
                    inr (λ same. not_head (context, count) contexts r.primary_usage f (sym same))
              ],
              inr absent,
            )
      | inr under ↦ elim (Bool-cases (ltb r.secondary_count count)) [
        | inl over ↦
            let le = ltb-le r.primary_count count under in
            let lt = ltb→lt r.secondary_count count over in
            rw (under, rank)
              (rw over (elim fresh [
                | inl zero_count ↦ absurd (omega arith)
                | inr f ↦ (
                  inr (not_head (context, count) contexts r.primary_usage f),
                  inr (not_later (context, count) contexts r.primary_usage f),
                )
              ]))
        | inr low ↦
            rw (under, rank)
              (rw low (
                apart,
                elim fresh [
                  | inl zero_count ↦ inl zero_count
                  | inr f ↦ inr (not_later (context, count) contexts r.primary_usage f)
                ],
              ))
      ]
    ]

pub rank_all-Apart :
    (r : Ranking) (contexts : Dict String ℕ)
    → Distinct contexts
    → Fresh r contexts
    → Apart r
    → Apart (rank_all r contexts)
unfolding rank_all
rank_all-Apart r [] d fresh apart = apart
rank_all-Apart r (e ∷ contexts) d fresh apart =
    let (apart', fresh') = rank-Apart r e contexts d fresh apart in
    rank_all-Apart (rank r e) contexts d.1 fresh' apart'
