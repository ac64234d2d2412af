-- ===== src/Analysis/Usage.antt =====
-- analysis/engine.go: how a symbol is used, by the files that refer to it. Go leaves the order
-- open in which `range` visits a map, so `mappings` is the list of the entries in that order.
-- `to_lower` is Go's `strings.ToLower`.
pub mod Totals
pub mod Apart
pub mod Ranks
pub mod Order
use mcp_bsl_lsp_bridge.Prelude.{
  ℕ, ◌+◌, String, Bool, true, false, Option, none, some, List, [], ◌∷◌, if◌then◌else◌, ltb, length,
  string_eq,
}
use mcp_bsl_lsp_bridge.Prelude.Bytes.{codes, contains}
use mcp_bsl_lsp_bridge.Prelude.Dict
use mcp_bsl_lsp_bridge.Prelude.Dict.{Dict}
use mcp_bsl_lsp_bridge.Analysis.Impact.{Location}

pub record CallerPattern : Type 0 where
  pub caller_type : String
  pub call_frequency : ℕ
  pub call_contexts : List String

pub record UsagePatternAnalysis : Type 0 where
  pub primary_usage : String
  pub secondary_usage : String
  pub usage_frequency : ℕ
  pub caller_patterns : List CallerPattern
  pub file_usage_map : Dict String ℕ
  pub usage_contexts : Dict String ℕ

abbrev pub Mappings : Type 0
Mappings = List (String × String)

abbrev pub caller_mappings : Mappings
caller_mappings =
    ("handler", "handler")
    ∷ ("controller", "handler")
    ∷ ("service", "service")
    ∷ ("business", "service")
    ∷ ("middleware", "middleware")
    ∷ ("auth", "authentication")
    ∷ ("test", "test")
    ∷ ("util", "utility")
    ∷ ("helper", "utility")
    ∷ ("manager", "manager")
    ∷ []

abbrev pub context_mappings : Mappings
context_mappings =
    ("validation", "input_validation")
    ∷ ("security", "authentication")
    ∷ ("error", "error_handling")
    ∷ ("log", "logging")
    ∷ ("metric", "instrumentation")
    ∷ ("config", "configuration")
    ∷ ("database", "data_access")
    ∷ ("cache", "caching")
    ∷ ("network", "communication")
    ∷ []

unfoldable pub determine_call_contexts : String → List String
determine_call_contexts caller_type =
    if string_eq.beq caller_type "handler"
    then "request_processing" ∷ "routing" ∷ []
    else if string_eq.beq caller_type "service"
    then "business_logic" ∷ "data_transformation" ∷ []
    else if string_eq.beq caller_type "middleware"
    then "request_filtering" ∷ "preprocessing" ∷ []
    else if string_eq.beq caller_type "authentication"
    then "security" ∷ "access_control" ∷ []
    else if string_eq.beq caller_type "test"
    then "validation" ∷ "verification" ∷ []
    else if string_eq.beq caller_type "utility"
    then "helper_functions" ∷ "common_operations" ∷ []
    else if string_eq.beq caller_type "manager"
    then "resource_management" ∷ "coordination" ∷ []
    else if string_eq.beq caller_type "generic"
    then "generic_usage" ∷ []
    else []

unfoldable pub count_of : Dict String ℕ → String → ℕ
count_of m k = elim (Dict.get m k) [ none ↦ 0 | some n ↦ n ]

-- `m[k]++`
unfoldable pub bump : Dict String ℕ → String → Dict String ℕ
bump m k = Dict.put m k (count_of m k + 1)

-- The variables of `determinePrimaryUsage`.
pub record Ranking : Type 0 where
  pub primary_usage : String
  pub primary_count : ℕ
  pub secondary_usage : String
  pub secondary_count : ℕ

unfoldable pub rank : Ranking → String × ℕ → Ranking
rank r (context, count) =
    if ltb r.primary_count count
    then record {
      primary_usage = context;
      primary_count = count;
      secondary_usage = r.primary_usage;
      secondary_count = r.primary_count;
    }
    else if ltb r.secondary_count count
    then record r { secondary_usage = context; secondary_count = count }
    else r

unfoldable pub rank_all : Ranking → Dict String ℕ → Ranking
rank_all r [] = r
rank_all r (entry ∷ contexts) = rank_all (rank r entry) contexts

abbrev pub unranked : Ranking
unranked = record {
  primary_usage = "";
  primary_count = 0;
  secondary_usage = "";
  secondary_count = 0;
}

unfoldable pub determine_primary_usage : Dict String ℕ → String × String
determine_primary_usage contexts =
    let r = rank_all unranked contexts in (r.primary_usage, r.secondary_usage)

unfoldable pub caller_patterns_of : Dict String ℕ → List CallerPattern
caller_patterns_of [] = []
caller_patterns_of ((caller_type, frequency) ∷ callers) =
    record {
      caller_type = caller_type;
      call_frequency = frequency;
      call_contexts = determine_call_contexts caller_type;
    }
    ∷ caller_patterns_of callers

-- `usageContexts`, `callerTypes` and `fileUsage`.
pub record Usage : Type 0 where
  pub contexts : Dict String ℕ
  pub callers : Dict String ℕ
  pub files : Dict String ℕ

module _ (to_lower : String → String) where
  -- The first entry whose pattern the path contains.
  unfoldable pub first_match : Mappings → String → String → String
  first_match [] fallback file_path = fallback
  first_match ((pattern, answer) ∷ mappings) fallback file_path =
      let later = first_match mappings fallback file_path in
      if contains (codes (to_lower file_path)) (codes pattern) then answer else later

  unfoldable pub determine_caller_type : Mappings → Location → String
  determine_caller_type mappings l = first_match mappings "generic" l.uri

  unfoldable pub infer_usage_context : Mappings → Location → String
  infer_usage_context mappings l = first_match mappings "general" l.uri

  module _ (callers contexts : Mappings) where
    -- The loop over the references.
    unfoldable pub count_usage : Usage → List Location → Usage
    count_usage u [] = u
    count_usage u (l ∷ references) =
        count_usage
          (record {
            contexts = bump u.contexts (infer_usage_context contexts l);
            callers = bump u.callers (determine_caller_type callers l);
            files = bump u.files l.uri;
          })
          references

    unfoldable pub analyze_comprehensive_usage_patterns : List Location → UsagePatternAnalysis
    analyze_comprehensive_usage_patterns [] = record {
      primary_usage = "";
      secondary_usage = "";
      usage_frequency = 0;
      caller_patterns = [];
      file_usage_map = [];
      usage_contexts = [];
    }
    analyze_comprehensive_usage_patterns (l ∷ references) =
        let u = count_usage (record { contexts = []; callers = []; files = [] }) (l ∷ references) in
        let (primary, secondary) = determine_primary_usage u.contexts in
        record {
          primary_usage = primary;
          secondary_usage = secondary;
          usage_frequency = length (l ∷ references);
          caller_patterns = caller_patterns_of u.callers;
          file_usage_map = u.files;
          usage_contexts = u.contexts;
        }
