-- ===== src/Analysis/Usage/Order.antt =====
-- The answer of `determineCallerType` depends on the order in which Go visits the map.
use Prim.Native.String.{String}
use mathlib.Core.List.{Perm, perm_middle}
use mcp_bsl_lsp_bridge.Prelude.{true, ◌∷◌, ◌++◌, ◌≡◌, refl}
use mcp_bsl_lsp_bridge.Prelude.Bytes.{codes, contains}
use mcp_bsl_lsp_bridge.Analysis.Impact.{Location}
use mcp_bsl_lsp_bridge.Analysis.Usage.{Mappings, first_match, determine_caller_type}

-- Every entry whose pattern the path contains is the answer for some order of the map.
pub determine_caller_type-any_match :
    (to_lower : String → String) (before after : Mappings) (pattern answer : String) (l : Location)
    → contains (codes (to_lower l.uri)) (codes pattern) ≡ true
    → (order : Mappings) × Perm (before ++ ((pattern, answer) ∷ after)) order
      × (determine_caller_type to_lower order l ≡ answer)
unfolding determine_caller_type first_match
determine_caller_type-any_match to_lower before after pattern answer l found =
    ((pattern, answer) ∷ (before ++ after), perm_middle before after, rw found refl)
