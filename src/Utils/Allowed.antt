-- ===== src/Utils/Allowed.antt =====
-- security/path_validation.go, where the separator is a slash. `cwd` is the working directory,
-- which `filepath.Abs` puts before a relative path.
pub mod Components
use mcp_bsl_lsp_bridge.Prelude.{
  ℕ, Bool, true, false, ◌&&◌, ◌||◌, ◌==◌, Option, none, some, List, [], ◌∷◌, ◌++◌, if◌then◌else◌,
}
use mcp_bsl_lsp_bridge.Prelude.Bytes.{Bytes, has_prefix}
use mcp_bsl_lsp_bridge.Utils.Clean.{slash, dot, is_rooted, clean, join_path}

unfoldable pub same : Bytes → Bytes → Bool
same [] [] = true
same [] (d ∷ b) = false
same (c ∷ a) [] = false
same (c ∷ a) (d ∷ b) = c == d && same a b

unfoldable pub contains_path : List Bytes → Bytes → Bool
contains_path [] item = false
contains_path (s ∷ slice) item = same s item || contains_path slice item

abbrev pub current : Bytes
current = dot ∷ []

unfoldable pub get_config_allowed_directories : Bytes → Bytes → List Bytes
get_config_allowed_directories config_dir working_dir =
    (if same config_dir [] then [] else config_dir ∷ [])
    ++ ((if same working_dir [] then [] else working_dir ∷ []) ++ (current ∷ []))

module _ (cwd : Bytes) where
  -- `filepath.Abs`
  unfoldable pub abs : Bytes → Bytes
  abs p = if is_rooted p then clean p else join_path cwd p

  -- `none` is the error for an empty path or the current directory.
  unfoldable pub get_clean_abs_path : Bytes → Option Bytes
  get_clean_abs_path path =
      if same path [] || same path current then none else some (abs (clean path))

  unfoldable pub is_within_allowed_directory : Bytes → Bytes → Bool
  is_within_allowed_directory path base_dir =
      let clean_base = clean (abs base_dir) in
      let clean_path = clean (abs path) in
      same clean_path clean_base || has_prefix clean_path (clean_base ++ (slash ∷ []))

  unfoldable pub any_within : Bytes → List Bytes → Bool
  any_within path [] = false
  any_within path (dir ∷ dirs) = is_within_allowed_directory path dir || any_within path dirs

  -- `none` is an error, for an invalid path or for one that is not allowed.
  unfoldable pub validate_config_path : Bytes → List Bytes → Option Bytes
  validate_config_path path allowed = elim (get_clean_abs_path path) [
    | none ↦ none
    | some clean_path ↦
        let dirs = if contains_path allowed current then allowed else allowed ++ (current ∷ []) in
        if any_within clean_path dirs then some clean_path else none
  ]
