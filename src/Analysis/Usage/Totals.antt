-- ===== src/Analysis/Usage/Totals.antt =====
-- Every reference is counted once in each of the three tables.
use mcp_bsl_lsp_bridge.Prelude.{
  ℕ, ◌+◌, String, List, [], ◌∷◌, ◌≡◌, refl, inl, inr, string_eq, length, arith, Bool-cases,
}
use mcp_bsl_lsp_bridge.Prelude.Dict
use mcp_bsl_lsp_bridge.Prelude.Dict.{Dict}
use mcp_bsl_lsp_bridge.Analysis.Impact.{Location}
use mcp_bsl_lsp_bridge.Analysis.Usage.{
  CallerPattern, Mappings, Usage, count_of, bump, count_usage, caller_patterns_of,
  determine_caller_type, infer_usage_context, analyze_comprehensive_usage_patterns,
}

abbrev pub total : Dict String ℕ → ℕ
total [] = 0
total ((k, n) ∷ m) = n + total m

abbrev pub total_calls : List CallerPattern → ℕ
total_calls [] = 0
total_calls (p ∷ patterns) = p.call_frequency + total_calls patterns

total-bump : (m : Dict String ℕ) (k : String) → total (bump m k) ≡ total m + 1
unfolding bump count_of Dict.put Dict.get
total-bump [] k = refl
total-bump ((j, n) ∷ m) k = elim (Bool-cases (string_eq.beq j k)) [
  | inl same ↦ rw (same, bump, count_of, Dict.put, Dict.get) (omega arith)
  | inr other ↦ rw (other, bump, count_of, Dict.put, Dict.get) (omega (arith, total-bump m k))
]

total_calls-caller_patterns_of :
    (callers : Dict String ℕ) → total_calls (caller_patterns_of callers) ≡ total callers
unfolding caller_patterns_of
total_calls-caller_patterns_of [] = refl
total_calls-caller_patterns_of ((k, n) ∷ callers) =
    omega (arith, total_calls-caller_patterns_of callers)

module _ (to_lower : String → String) (callers contexts : Mappings) where
  total-count_usage :
      (u : Usage) (references : List Location)
      → let v = count_usage to_lower callers contexts u references in
        (total v.contexts ≡ total u.contexts + length references)
        × (total v.callers ≡ total u.callers + length references)
        × (total v.files ≡ total u.files + length references)
  unfolding count_usage
  total-count_usage u [] = (omega arith, omega arith, omega arith)
  total-count_usage u (l ∷ references) =
      let u' : Usage = record {
        contexts = bump u.contexts (infer_usage_context to_lower contexts l);
        callers = bump u.callers (determine_caller_type to_lower callers l);
        files = bump u.files l.uri;
      } in
      let (a, b, c) = total-count_usage u' references in
      (
        omega (arith, total-bump u.contexts (infer_usage_context to_lower contexts l)),
        omega (arith, total-bump u.callers (determine_caller_type to_lower callers l)),
        omega (arith, total-bump u.files l.uri),
      )

  -- The counts of the contexts, of the callers and of the files each add up to the number of
  -- references.
  pub analyze_comprehensive_usage_patterns-totals :
      (references : List Location)
      → let usage = analyze_comprehensive_usage_patterns to_lower callers contexts references in
        (total usage.usage_contexts ≡ usage.usage_frequency)
        × (total_calls usage.caller_patterns ≡ usage.usage_frequency)
        × (total usage.file_usage_map ≡ usage.usage_frequency)
        × (usage.usage_frequency ≡ length references)
  unfolding analyze_comprehensive_usage_patterns caller_patterns_of
  analyze_comprehensive_usage_patterns-totals [] = (refl, refl, refl, refl)
  analyze_comprehensive_usage_patterns-totals (l ∷ references) =
      let nothing : Usage = record { contexts = []; callers = []; files = [] } in
      let (a, b, c) = total-count_usage nothing (l ∷ references) in
      let callers' = (count_usage to_lower callers contexts nothing (l ∷ references)).callers in
      (omega arith, omega (arith, total_calls-caller_patterns_of callers'), omega arith, refl)
