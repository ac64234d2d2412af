-- ===== src/Tests/Analyzer.antt =====
-- Tests of the dependency patterns, the analyses and their cache.
use Prim.Native.String.{String}
use mcp_bsl_lsp_bridge.Prelude.{
  length, ℕ, ◌+◌, ◌≤◌, true, ◌&&◌, ◌||◌, Option, none, some, List, [], ◌∷◌, ◌≡◌, refl, ◌≢◌, ◌⊎◌,
  string_eq, All, arith,
}
use mcp_bsl_lsp_bridge.Prelude.Dict
use mcp_bsl_lsp_bridge.Prelude.Dict.{Dict}
use mcp_bsl_lsp_bridge.Prelude.Int.{pos, negsuc}
use mcp_bsl_lsp_bridge.Analysis.Cache
use mcp_bsl_lsp_bridge.Analysis.Cache.{new_analysis_cache}
use mcp_bsl_lsp_bridge.Analysis.Graph.{Graph, neighbors, visited, targets}
use mcp_bsl_lsp_bridge.Analysis.Graph.Depth.{
  calculate_dependency_depth, enough, rounds, search, fresh,
}
use mcp_bsl_lsp_bridge.Analysis.Graph.Depth.Walks.{Walk, here, step}
use mcp_bsl_lsp_bridge.Analysis.Graph.Depth.Shortest.{
  calculate_dependency_depth-shortest, calculate_dependency_depth-total,
}
use mcp_bsl_lsp_bridge.Analysis.Graph.Patterns.{
  WorkspaceSymbol, build_graph, detect_advanced_dependency_patterns,
}
use mcp_bsl_lsp_bridge.Analysis.Graph.Patterns.Depths.{
  Direct, detect_advanced_dependency_patterns-Direct,
}
use mcp_bsl_lsp_bridge.Analysis.Files.{
  DocumentSymbol, calculate_enhanced_file_complexity, recommend_test_coverage,
  recommend_documentation, recommend_code_style, generate_file_improvement_recommendations,
}
use mcp_bsl_lsp_bridge.Analysis.Files.Levels.{generate_file_improvement_recommendations-same}
use mcp_bsl_lsp_bridge.Analysis.Impact.{
  Location, location, is_file_critical, perform_enhanced_impact_analysis,
}
use mcp_bsl_lsp_bridge.Analysis.Impact.Files.{lies_in, perform_enhanced_impact_analysis-files}
use mcp_bsl_lsp_bridge.Analysis.Usage.{determine_primary_usage}
use mcp_bsl_lsp_bridge.Analysis.Usage.Ranks.{determine_primary_usage-highest}
use mcp_bsl_lsp_bridge.Analysis.Engine.{
  AnalysisCache, Reply, analyze_fresh, finish, AnalysisRequest, AnalysisResult,
  AnalysisErrorHandler, Analyses, Outcome, done, failed, Clock, new_metadata, new_error_handler,
  dispatch, analyze, cache_key,
}
use mcp_bsl_lsp_bridge.Analysis.Engine.Again.{analyze-uncached}
use mcp_bsl_lsp_bridge.Analysis.Engine.Within.{Call, analyze_call, analyze_all, analyze-again}

-- a → b → c, and an edge back from b.
abbrev chain : Graph
chain = ("a", "b" ∷ []) ∷ ("b", "a" ∷ "c" ∷ []) ∷ []

chain-walk : Walk chain "a" "c" 2
unfolding visited neighbors Dict.get
chain-walk = step {y = "b"} refl (step {y = "c"} refl here)

chain-depth : calculate_dependency_depth chain "a" "c" ≡ some (pos 2)
unfolding calculate_dependency_depth enough rounds search fresh visited neighbors targets Dict.get
chain-depth = refl

calculate_dependency_depth-shortest_example :
    (k : ℕ) × (calculate_dependency_depth chain "a" "c" ≡ some (pos k))
    × Walk chain "a" "c" k
    × (k ≤ 2)
calculate_dependency_depth-shortest_example =
    calculate_dependency_depth-shortest chain "a" "c" 2 chain-walk

calculate_dependency_depth-total_example :
    (calculate_dependency_depth chain "c" "a" ≡ some (negsuc 0))
    ⊎ ((k : ℕ) × (calculate_dependency_depth chain "c" "a" ≡ some (pos k)) × Walk chain "c" "a" k)
calculate_dependency_depth-total_example = calculate_dependency_depth-total chain "c" "a"

abbrev symbols : List WorkspaceSymbol
symbols =
    record { name = "Order"; kind = 5 }
    ∷ record { name = "OrderLine"; kind = 6 }
    ∷ record { name = "Price"; kind = 6 }
    ∷ []

detect_advanced_dependency_patterns-Direct_example :
    All (Direct (build_graph [] symbols)) (detect_advanced_dependency_patterns symbols)
detect_advanced_dependency_patterns-Direct_example =
    detect_advanced_dependency_patterns-Direct symbols

abbrev class_of_many_lines : DocumentSymbol
class_of_many_lines = record { kind = 5; start_line = 0; end_line = 90000 }

generate_file_improvement_recommendations-same_example :
    generate_file_improvement_recommendations
      (calculate_enhanced_file_complexity (class_of_many_lines ∷ []))
    ≡ recommend_test_coverage ∷ recommend_documentation ∷ recommend_code_style ∷ []
generate_file_improvement_recommendations-same_example =
    generate_file_improvement_recommendations-same (class_of_many_lines ∷ [])

abbrev place : String → Location
place uri = record {
  uri = uri;
  range = record { start_line = 0; start_character = 0; end_line = 1; end_character = 0 };
}

perform_enhanced_impact_analysis-files_example :
    let impact =
      perform_enhanced_impact_analysis
        (λ s. s)
        (place "core.bsl" ∷ [])
        (location (place "d") ∷ [])
        (place "form.bsl" ∷ []) in
    let touched =
      lies_in (place "core.bsl" ∷ []) "form.bsl" || lies_in (place "form.bsl" ∷ []) "form.bsl" in
    (visited impact.affected_files "form.bsl" ≡ touched)
    × (visited impact.critical_paths "form.bsl" ≡ (touched && is_file_critical (λ s. s) "form.bsl"))
perform_enhanced_impact_analysis-files_example =
    perform_enhanced_impact_analysis-files (λ s. s) (place "core.bsl" ∷ [])
      (location (place "d") ∷ []) (place "form.bsl" ∷ []) "form.bsl"

abbrev contexts : Dict String ℕ
contexts = ("logging", 2) ∷ ("caching", 5) ∷ ("general", 3) ∷ []

determine_primary_usage-highest_example :
    let (primary, secondary) = determine_primary_usage contexts in
    (n : ℕ) × (m : ℕ) × (Dict.get contexts primary ≡ some n)
    × (((m ≡ 0) × (secondary ≡ ""))
        ⊎ ((Dict.get contexts secondary ≡ some m) × (secondary ≢ primary)))
    × All (λ e. (e.1 ≤ n) × ((e.0 ≡ primary) ⊎ (e.1 ≤ m))) contexts
unfolding Dict.get
determine_primary_usage-highest_example =
    determine_primary_usage-highest contexts (refl, (refl, (refl, tt)))
      (omega arith, (omega arith, (omega arith, tt))) (omega arith)

abbrev show_options : Dict String (Option String) → String
show_options options = "map[]"

abbrev request : AnalysisRequest
request = record { type = "file_analysis"; target = "a.bsl"; scope = ""; depth = ""; options = [] }

abbrev answer_with : Outcome ℕ → Analyses ℕ
answer_with outcome = record {
  workspace = λ r m. (m, outcome);
  symbol_relationships = λ r m. (m, outcome);
  file = λ r m. (m, outcome);
  pattern = λ r m. (m, outcome);
}

abbrev result : AnalysisResult ℕ
result = record { type = "file_analysis"; target = "a.bsl"; content = 7; metadata = new_metadata }

abbrev at_time : ℕ → Clock
at_time n = record { read = n; touched = n; elapsed = 3; written = n + 3; stored = n + 4 }

-- A handler with another threshold than that of the program.
abbrev tolerant : AnalysisErrorHandler
tolerant = new_error_handler 10 true (2, 1)

file_of :
    (outcome : Outcome ℕ) → dispatch (answer_with outcome) request ≡ some (λ r m. (m, outcome))
unfolding dispatch
file_of outcome = refl

missed :
    (Cache.get
      (new_analysis_cache {V = Option (AnalysisResult ℕ)} 10 100)
      (cache_key show_options request)
      0
      0).1
    ≡ none
unfolding Cache.get new_analysis_cache Dict.get
missed = refl

abbrev answered : AnalysisCache ℕ × Reply ℕ
answered =
    analyze show_options (answer_with (done result)) tolerant (new_analysis_cache 10 100) request
      (at_time 0)

abbrev call_of : String → ℕ → Call ℕ
call_of target now = record {
  analyses = answer_with (failed "gone");
  handler = tolerant;
  request = record request { target = target };
  clock = at_time now;
}

has_room : length answered.0.items + 2 ≤ answered.0.max_size
unfolding analyze analyze_fresh finish dispatch cache_key new_analysis_cache Cache.get Cache.set
    Dict.get Dict.put
has_room = omega arith

analyze-again_example :
    (analyze_call show_options
      (analyze_all show_options answered.0 (call_of "b.bsl" 20 ∷ call_of "a.bsl" 30 ∷ []))
      (call_of "a.bsl" 50)).1
    ≡ answered.1
analyze-again_example =
    analyze-again show_options (answer_with (done result)) tolerant (new_analysis_cache 10 100)
      request (at_time 0) (λ r m. (m, done result)) result
      (call_of "b.bsl" 20 ∷ call_of "a.bsl" 30 ∷ []) (call_of "a.bsl" 50) missed
      (file_of (done result)) refl (omega arith, (omega arith, tt)) has_room refl (omega arith)

analyze-uncached_example :
    analyze show_options
      (answer_with (failed "no client"))
      (new_error_handler 10 true (1, 5))
      (new_analysis_cache 10 100)
      request
      (at_time 0)
    ≡ (
      (Cache.get (new_analysis_cache 10 100) (cache_key show_options request) 0 0).0,
      record { result = none; err = some "no client" },
    )
analyze-uncached_example =
    analyze-uncached show_options (answer_with (failed "no client"))
      (new_error_handler 10 true (1, 5)) (new_analysis_cache 10 100) request (at_time 0)
      (λ r m. (m, failed "no client")) missed (file_of (failed "no client")) "no client" refl refl
      (omega arith)
