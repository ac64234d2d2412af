-- ===== src/Analysis/Files.antt =====
-- analysis/engine.go: the complexity of a file and the recommendations that follow from it. The
-- source's floats are kept as tenths: `complexity_score` is the sum of the factors and the number
-- of symbols, the two parts of the quotient. Lines are `uint32`, so their difference wraps.
pub mod Levels
use mcp_bsl_lsp_bridge.Prelude.{
  ℕ, suc, ◌+◌, ◌*◌, ◌-◌, ◌%◌, ◌^◌, String, Bool, ◌||◌, Option, none, some, nat_eq, List, [], ◌∷◌,
  ◌++◌, if◌then◌else◌, ltb, ◌==◌, length, string_eq,
}
use mcp_bsl_lsp_bridge.Prelude.Dict
use mcp_bsl_lsp_bridge.Prelude.Dict.{Dict}

-- What the metrics read of a `protocol.DocumentSymbol`; a kind is the protocol's number.
pub record DocumentSymbol : Type 0 where
  pub kind : ℕ
  pub start_line : ℕ
  pub end_line : ℕ

pub record ComplexityMetrics : Type 0 where
  pub total_lines : ℕ
  pub function_count : ℕ
  pub class_count : ℕ
  pub variable_count : ℕ
  pub complexity_score : ℕ × ℕ
  pub complexity_level : String

pub record Recommendation : Type 0 where
  pub type : String
  pub priority : String
  pub description : String
  pub effort : String

-- The protocol's numbers of the kinds.
abbrev pub class_kind : ℕ
class_kind = 5

abbrev pub method_kind : ℕ
method_kind = 6

abbrev pub interface_kind : ℕ
interface_kind = 11

abbrev pub function_kind : ℕ
function_kind = 12

abbrev pub variable_kind : ℕ
variable_kind = 13

abbrev pub constant_kind : ℕ
constant_kind = 14

abbrev pub no_metrics : ComplexityMetrics
no_metrics = record {
  total_lines = 0;
  function_count = 0;
  class_count = 0;
  variable_count = 0;
  complexity_score = (0, 0);
  complexity_level = "";
}

-- `complexityFactors`, in tenths; a kind that is missing has the factor 0.
unfoldable pub complexity_factor : ℕ → ℕ
complexity_factor kind =
    if kind == function_kind
    then 10
    else if kind == method_kind
    then 15
    else if kind == class_kind
    then 30
    else if kind == interface_kind
    then 25
    else if kind == variable_kind
    then 5
    else if kind == constant_kind
    then 3
    else 0

unfoldable pub symbol_count : Dict ℕ ℕ → ℕ → ℕ
symbol_count counts kind = elim (Dict.get counts kind) [ none ↦ 0 | some n ↦ n ]

-- The lines of one symbol, in `uint32`.
abbrev pub line_span : DocumentSymbol → ℕ
line_span s = (s.end_line + 2 ^ 32 - s.start_line + 1) % 2 ^ 32

-- The body of the loop: `symbolComplexities` and the metrics.
unfoldable pub count_symbol :
    Dict ℕ ℕ × ComplexityMetrics → DocumentSymbol → Dict ℕ ℕ × ComplexityMetrics
count_symbol (counts, m) s =
    let is_function = s.kind == function_kind || s.kind == method_kind in
    let is_class = s.kind == class_kind || s.kind == interface_kind in
    let is_variable = s.kind == variable_kind || s.kind == constant_kind in
    (
      Dict.put counts s.kind (symbol_count counts s.kind + 1),
      record m {
        function_count = if is_function then m.function_count + 1 else m.function_count;
        class_count = if is_class then m.class_count + 1 else m.class_count;
        variable_count = if is_variable then m.variable_count + 1 else m.variable_count;
        total_lines = m.total_lines + line_span s;
      },
    )

unfoldable pub count_symbols :
    Dict ℕ ℕ × ComplexityMetrics → List DocumentSymbol → Dict ℕ ℕ × ComplexityMetrics
count_symbols acc [] = acc
count_symbols acc (s ∷ symbols) = count_symbols (count_symbol acc s) symbols

-- The loop over `symbolComplexities`.
unfoldable pub weigh : Dict ℕ ℕ → ℕ
weigh [] = 0
weigh ((kind, count) ∷ counts) = count * complexity_factor kind + weigh counts

-- The switch on the score `tenths / 10 / symbols`.
unfoldable pub complexity_level : ℕ → ℕ → String
complexity_level tenths symbols =
    if ltb tenths (50 * symbols)
    then "very_low"
    else if ltb tenths (150 * symbols)
    then "low"
    else if ltb tenths (300 * symbols)
    then "moderate"
    else if ltb tenths (500 * symbols)
    then "high"
    else "very_high"

unfoldable pub calculate_enhanced_file_complexity : List DocumentSymbol → ComplexityMetrics
calculate_enhanced_file_complexity [] = no_metrics
calculate_enhanced_file_complexity (s ∷ symbols) =
    let (counts, metrics) = count_symbols ([], no_metrics) (s ∷ symbols) in
    let n = length (s ∷ symbols) in
    record metrics {
      complexity_score = (weigh counts, n);
      complexity_level = complexity_level (weigh counts) n;
    }

abbrev pub recommend_refactoring : Recommendation
recommend_refactoring = record {
  type = "refactor";
  priority = "high";
  description = "High complexity suggests need for refactoring";
  effort = "high";
}

abbrev pub recommend_test_coverage : Recommendation
recommend_test_coverage = record {
  type = "test";
  priority = "medium";
  description = "Add more unit tests to improve code reliability";
  effort = "medium";
}

abbrev pub recommend_documentation : Recommendation
recommend_documentation = record {
  type = "document";
  priority = "low";
  description = "Add more comments and documentation to improve code understanding";
  effort = "low";
}

abbrev pub recommend_code_style : Recommendation
recommend_code_style = record {
  type = "optimize";
  priority = "low";
  description = "Improve code style and adhere to language conventions";
  effort = "low";
}

unfoldable pub generate_file_improvement_recommendations : ComplexityMetrics → List Recommendation
generate_file_improvement_recommendations complexity =
    let level = complexity.complexity_level in
    (if string_eq.beq level "high" || string_eq.beq level "very_high"
      then recommend_refactoring ∷ []
      else [])
    ++ (recommend_test_coverage ∷ recommend_documentation ∷ recommend_code_style ∷ [])
