-- ===== src/Analysis/Impact.antt =====
-- analysis/engine.go: the impact of a change of a symbol, from its references, definitions and
-- implementors. A set of strings is a map to `true`; the halves of the complexity score are
-- doubled. `to_lower` is Go's `strings.ToLower`.
pub mod Files
use mcp_bsl_lsp_bridge.Prelude.{
  ℕ, ◌+◌, ◌*◌, String, Bool, true, false, ◌||◌, List, [], ◌∷◌, ◌++◌, if◌then◌else◌, ltb, length,
  string_eq,
}
use mcp_bsl_lsp_bridge.Prelude.Bytes.{codes, contains}
use mcp_bsl_lsp_bridge.Prelude.Dict
use mcp_bsl_lsp_bridge.Prelude.Dict.{Dict}

pub record Range : Type 0 where
  pub start_line : ℕ
  pub start_character : ℕ
  pub end_line : ℕ
  pub end_character : ℕ

pub record Location : Type 0 where
  pub uri : String
  pub range : Range

-- The value of a `protocol.Or2[LocationLink, Location]`; `unexpected` has neither type.
pub data Definition : Type 0 where
  location : Location → Definition
  location_link : String → Range → Definition
  unexpected : Definition

pub record BreakingChange : Type 0 where
  pub type : String
  pub description : String
  pub severity : String

pub record ImpactAnalysisData : Type 0 where
  pub files_affected : ℕ
  pub affected_files : List String
  pub critical_paths : List String
  pub breaking_changes : List BreakingChange
  pub dependencies : List String
  pub refactoring_complexity : String

abbrev pub Keys : Type 0
Keys = Dict String Bool

unfoldable pub map_keys_to_slice : Keys → List String
map_keys_to_slice [] = []
map_keys_to_slice ((key, value) ∷ m) = key ∷ map_keys_to_slice m

unfoldable pub convert_definitions_to_locations : List Definition → List Location
convert_definitions_to_locations [] = []
convert_definitions_to_locations (location l ∷ defs) = l ∷ convert_definitions_to_locations defs
convert_definitions_to_locations (location_link uri range ∷ defs) =
    record { uri = uri; range = range } ∷ convert_definitions_to_locations defs
convert_definitions_to_locations (unexpected ∷ defs) = convert_definitions_to_locations defs

-- Marks the file of every location.
unfoldable pub mark_files : Keys → List Location → Keys
mark_files files [] = files
mark_files files (l ∷ locations) = mark_files (Dict.put files l.uri true) locations

-- The loop over the definitions.
unfoldable pub mark_dependencies : Keys → List Definition → Keys
mark_dependencies files defs = mark_files files (convert_definitions_to_locations defs)

unfoldable pub detect_breaking_changes :
    List Location → List Definition → List Location → List BreakingChange
detect_breaking_changes references definitions implementors =
    (if ltb 1 (length definitions)
      then record {
        type = "multiple_definitions";
        description = "Symbol has multiple potential definitions";
        severity = "medium";
      }
        ∷ []
      else [])
    ++ ((if ltb 3 (length implementors)
          then record {
            type = "interface_complexity";
            description = "Interface has multiple, potentially incompatible implementations";
            severity = "high";
          }
            ∷ []
          else [])
        ++ (if ltb 5 (length (mark_files [] references))
            then record {
              type = "high_coupling";
              description = "Symbol has complex cross-file dependencies";
              severity = "medium";
            }
              ∷ []
            else []))

unfoldable pub estimate_refactoring_complexity : ℕ → ℕ → ℕ → String
estimate_refactoring_complexity affected_files critical_paths dependencies =
    let halves = 2 * affected_files + 4 * critical_paths + 3 * dependencies in
    if ltb halves 10 then "low" else if ltb halves 30 then "medium" else "high"

abbrev pub critical_patterns : List String
critical_patterns =
    "core" ∷ "main" ∷ "config" ∷ "bootstrap" ∷ "server" ∷ "router" ∷ "middleware" ∷ "database"
    ∷ "auth" ∷ "security" ∷ []

module _ (to_lower : String → String) where
  unfoldable pub matches_any : List String → String → Bool
  matches_any [] file_path = false
  matches_any (pattern ∷ patterns) file_path =
      contains (codes (to_lower file_path)) (codes pattern) || matches_any patterns file_path

  abbrev pub is_file_critical : String → Bool
  is_file_critical file_path = matches_any critical_patterns file_path

  -- The body of the loops over references and implementors: `filesAffected` and `criticalPaths`.
  unfoldable pub mark_file : Keys × Keys → Location → Keys × Keys
  mark_file (affected, critical) l = (
    Dict.put affected l.uri true,
    if is_file_critical l.uri then Dict.put critical l.uri true else critical,
  )

  unfoldable pub mark_all : Keys × Keys → List Location → Keys × Keys
  mark_all marks [] = marks
  mark_all marks (l ∷ locations) = mark_all (mark_file marks l) locations

  unfoldable pub perform_enhanced_impact_analysis :
      List Location → List Definition → List Location → ImpactAnalysisData
  perform_enhanced_impact_analysis references definitions implementors =
      let (affected, critical) = mark_all (mark_all ([], []) references) implementors in
      let dependencies = map_keys_to_slice (mark_dependencies [] definitions) in
      let affected_files = map_keys_to_slice affected in
      let critical_paths = map_keys_to_slice critical in
      record {
        files_affected = length affected_files;
        affected_files = affected_files;
        critical_paths = critical_paths;
        breaking_changes = detect_breaking_changes references definitions implementors;
        dependencies = dependencies;
        refactoring_complexity =
            estimate_refactoring_complexity (length affected_files) (length critical_paths)
              (length dependencies);
      }
