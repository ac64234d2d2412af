-- ===== src/Analysis/Impact/Files.antt =====
-- The files of the impact analysis.
use mcp_bsl_lsp_bridge.Prelude.{
  String, Bool, true, false, ◌&&◌, ◌||◌, List, [], ◌∷◌, ◌≡◌, string_eq, arith,
}
use mcp_bsl_lsp_bridge.Prelude.Dict
use mcp_bsl_lsp_bridge.Prelude.Dict.{Dict, Distinct, Distinct-put, get-put}
use mcp_bsl_lsp_bridge.Analysis.Graph.{visited}
use mcp_bsl_lsp_bridge.Analysis.Impact.{
  Location, Definition, Keys, map_keys_to_slice, is_file_critical, mark_file, mark_all,
  perform_enhanced_impact_analysis,
}

-- Whether a location lies in the file.
abbrev pub lies_in : List Location → String → Bool
lies_in [] file = false
lies_in (l ∷ locations) file = string_eq.beq l.uri file || lies_in locations file

is_key : Keys → String → Bool
is_key m file = visited (map_keys_to_slice m) file

is_key-put :
    (m : Keys) (k file : String)
    → is_key (Dict.put m k true) file ≡ (is_key m file || string_eq.beq k file)
unfolding is_key map_keys_to_slice visited Dict.put
is_key-put [] k file = ground arith
is_key-put ((j, w) ∷ m) k file = ground (arith, string_eq.beq_iff j k, is_key-put m k file)

module _ (to_lower : String → String) where
  -- The files that were marked before, and those of the locations.
  mark_all-keys :
      (marks : Keys × Keys) (locations : List Location) (file : String)
      → (is_key (mark_all to_lower marks locations).0 file
          ≡ (is_key marks.0 file || lies_in locations file))
        × (is_key (mark_all to_lower marks locations).1 file
            ≡ (is_key marks.1 file || (lies_in locations file && is_file_critical to_lower file)))
  unfolding mark_all mark_file
  mark_all-keys marks [] file = ground arith
  mark_all-keys marks (l ∷ locations) file = ground (
    arith,
    mark_all-keys (mark_file to_lower marks l) locations file,
    is_key-put marks.0 l.uri file,
    is_key-put marks.1 l.uri file,
    string_eq.beq_iff l.uri file,
  )

  -- A file is affected exactly where a reference or an implementor lies in it, and it is a
  -- critical path exactly where it is affected and its name is critical.
  pub perform_enhanced_impact_analysis-files :
      (references : List Location) (definitions : List Definition) (implementors : List Location)
      (file : String)
      → let impact =
          perform_enhanced_impact_analysis to_lower references definitions implementors in
        let touched = lies_in references file || lies_in implementors file in
        (visited impact.affected_files file ≡ touched)
        × (visited impact.critical_paths file ≡ (touched && is_file_critical to_lower file))
  unfolding perform_enhanced_impact_analysis is_key map_keys_to_slice visited
  perform_enhanced_impact_analysis-files references definitions implementors file = ground (
    arith,
    mark_all-keys ([], []) references file,
    mark_all-keys (mark_all to_lower ([], []) references) implementors file,
  )
