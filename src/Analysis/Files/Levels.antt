-- ===== src/Analysis/Files/Levels.antt =====
-- The levels that a file can have, and the counts behind them.
use mcp_bsl_lsp_bridge.Prelude.{
  ℕ, ◌+◌, ◌*◌, ◌≤◌, ◌<◌, List, [], ◌∷◌, ◌≡◌, refl, inl, inr, ◌==◌, length, arith, nat_eq, string_eq,
  Bool-cases, lt→ltb,
}
use mcp_bsl_lsp_bridge.Prelude.Dict
use mcp_bsl_lsp_bridge.Prelude.Dict.{Dict}
use mcp_bsl_lsp_bridge.Analysis.Files.{
  DocumentSymbol, ComplexityMetrics, no_metrics, complexity_factor, symbol_count, count_symbol,
  count_symbols, weigh, complexity_level, calculate_enhanced_file_complexity,
  recommend_test_coverage, recommend_documentation, recommend_code_style,
  generate_file_improvement_recommendations,
}

complexity_factor-le : (kind : ℕ) → complexity_factor kind ≤ 30
unfolding complexity_factor
complexity_factor-le kind = ground arith

-- Counting one symbol more of a kind adds its factor.
weigh-put :
    (counts : Dict ℕ ℕ) (kind : ℕ)
    → weigh (Dict.put counts kind (symbol_count counts kind + 1))
      ≡ weigh counts + complexity_factor kind
unfolding weigh symbol_count Dict.put Dict.get
weigh-put [] kind = omega arith
weigh-put ((j, n) ∷ counts) kind = elim (Bool-cases (j == kind)) [
  | inl same ↦
      rw (same, Dict.put, Dict.get, symbol_count, weigh)
        (rw ((nat_eq.beq_iff j kind).0 same) (omega arith))
  | inr other ↦
      rw (other, Dict.put, Dict.get, symbol_count, weigh) (omega (arith, weigh-put counts kind))
]

-- The factors of the symbols, added up.
unfoldable pub factor_sum : List DocumentSymbol → ℕ
factor_sum [] = 0
factor_sum (s ∷ symbols) = complexity_factor s.kind + factor_sum symbols

factor_sum-le : (symbols : List DocumentSymbol) → factor_sum symbols ≤ 30 * length symbols
unfolding factor_sum
factor_sum-le [] = omega arith
factor_sum-le (s ∷ symbols) = omega (arith, complexity_factor-le s.kind, factor_sum-le symbols)

weigh-count_symbols :
    (counts : Dict ℕ ℕ) (m : ComplexityMetrics) (symbols : List DocumentSymbol)
    → weigh (count_symbols (counts, m) symbols).0 ≡ weigh counts + factor_sum symbols
unfolding count_symbols count_symbol factor_sum
weigh-count_symbols counts m [] = omega arith
weigh-count_symbols counts m (s ∷ symbols) = omega (
  arith,
  weigh-count_symbols (count_symbol (counts, m) s).0 (count_symbol (counts, m) s).1 symbols,
  weigh-put counts s.kind,
)

-- A file with a symbol has the level "very_low": the score is a mean of factors of at most 3, and
-- the next level starts at 5.
pub calculate_enhanced_file_complexity-very_low :
    (s : DocumentSymbol) (symbols : List DocumentSymbol)
    → (calculate_enhanced_file_complexity (s ∷ symbols)).complexity_level ≡ "very_low"
unfolding calculate_enhanced_file_complexity complexity_level weigh
calculate_enhanced_file_complexity-very_low s symbols =
    let n : ℕ = length (s ∷ symbols) in
    let tenths : ℕ = weigh (count_symbols ([], no_metrics) (s ∷ symbols)).0 in
    let low : tenths < 50 * n =
      omega (arith, weigh-count_symbols [] no_metrics (s ∷ symbols), factor_sum-le (s ∷ symbols)) in
    rw (lt→ltb tenths (50 * n) low) refl

-- The recommendations for a file are the same three for every list of symbols; refactoring is
-- never recommended.
pub generate_file_improvement_recommendations-same :
    (symbols : List DocumentSymbol)
    → generate_file_improvement_recommendations (calculate_enhanced_file_complexity symbols)
      ≡ recommend_test_coverage ∷ recommend_documentation ∷ recommend_code_style ∷ []
unfolding generate_file_improvement_recommendations calculate_enhanced_file_complexity
generate_file_improvement_recommendations-same [] = refl
generate_file_improvement_recommendations-same (s ∷ symbols) =
    rw (calculate_enhanced_file_complexity-very_low s symbols) refl
