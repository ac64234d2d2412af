-- ===== src/Utils/PathMap.antt =====
-- utils/pathmap.go: paths of the host and of the container. `equal_fold` is Go's
-- `strings.EqualFold` and `file_uri_to_path` decodes a URI with Go's `net/url`.
pub mod Roots
pub mod Trips
use mcp_bsl_lsp_bridge.Prelude.{
  ℕ, ◌+◌, Bool, true, false, not, ◌&&◌, ◌||◌, Option, none, some, List, [], ◌∷◌, ◌++◌, map,
  if◌then◌else◌, leb, ltb, ◌==◌, length, take, drop,
}
use mcp_bsl_lsp_bridge.Prelude.Bytes.{Bytes, codes, has_prefix, trim_prefix}
use mcp_bsl_lsp_bridge.Utils.Clean.{slash, clean, join_path}

pub data PathError : Type 0 where
  empty_path : PathError
  relative_root : PathError
  invalid_uri : PathError
  outside : Bytes → PathError

pub data Result (A : Type 0) : Type 0 where
  ok : A → Result A
  err : PathError → Result A

pub record DockerPathMapper : Type 0 where
  pub host_root : Bytes
  pub container_root : Bytes
  pub enabled : Bool

abbrev pub file_scheme : Bytes
file_scheme = codes "file://"

unfoldable pub is_windows_abs_path : Bytes → Bool
is_windows_abs_path [] = false
is_windows_abs_path (letter ∷ []) = false
is_windows_abs_path (letter ∷ colon ∷ p) =
    ((leb b'A' letter && leb letter b'Z') || (leb b'a' letter && leb letter b'z')) && colon == b':'

unfoldable pub to_slash : ℕ → ℕ
to_slash c = if c == 92 then slash else c

unfoldable pub normalize_path_separators : Bytes → Bytes
normalize_path_separators p = clean (map to_slash p)

-- `strings.TrimPrefix`, and `strings.TrimSuffix` of a slash.
unfoldable pub without_prefix : Bytes → Bytes → Bytes
without_prefix p prefix = elim (trim_prefix p prefix) [ none ↦ p | some rest ↦ rest ]

unfoldable pub without_final_slash : Bytes → Bytes
without_final_slash [] = []
without_final_slash (c ∷ []) = if c == slash then [] else c ∷ []
without_final_slash (c ∷ d ∷ p) = c ∷ without_final_slash (d ∷ p)

unfoldable pub new_docker_path_mapper : Bytes → Bytes → Result DockerPathMapper
new_docker_path_mapper [] container_root = err empty_path
new_docker_path_mapper (c ∷ host_root) [] = err empty_path
new_docker_path_mapper (c ∷ host_root) (d ∷ container_root) =
    let clean_root = without_final_slash (d ∷ container_root) in
    if not (has_prefix clean_root (slash ∷ []))
    then err relative_root
    else ok (record {
      host_root = normalize_path_separators (c ∷ host_root);
      container_root = clean_root;
      enabled = true;
    })

abbrev pub or_else : Bytes → Bytes → Bytes
or_else [] other = other
or_else (c ∷ p) other = c ∷ p

-- `getenv` is empty for a variable that is not set.
unfoldable pub new_docker_path_mapper_from_env : (Bytes → Bytes) → Result DockerPathMapper
new_docker_path_mapper_from_env getenv =
    let host_root =
      or_else (getenv (codes "HOST_PROJECTS_ROOT")) (getenv (codes "PROJECTS_HOST_ROOT")) in
    let container_root = or_else (getenv (codes "PROJECTS_ROOT")) (codes "/projects") in
    elim host_root [
      | [] ↦ ok (record { host_root = []; container_root = container_root; enabled = false })
      | c ∷ rest ↦ new_docker_path_mapper (c ∷ rest) container_root
    ]

-- The path under a root: the root where nothing is left.
unfoldable pub under : Bytes → Bytes → Bytes
under root relative = elim relative [
  | [] ↦ clean root
  | c ∷ rest ↦ clean (join_path root (c ∷ rest))
]

unfoldable pub container_to_host : DockerPathMapper → Bytes → Result Bytes
container_to_host m [] = if not m.enabled then ok [] else err empty_path
container_to_host m (c ∷ p) =
    let clean_path = normalize_path_separators (c ∷ p) in
    let relative = without_prefix (without_prefix clean_path m.container_root) (slash ∷ []) in
    if not m.enabled
    then ok (c ∷ p)
    else if not (has_prefix clean_path m.container_root)
    then err (outside clean_path)
    else ok (under m.host_root relative)

module _ (equal_fold : Bytes → Bytes → Bool) where
  unfoldable pub has_prefix_fold : Bytes → Bytes → Bool
  has_prefix_fold p prefix =
      if ltb (length p) (length prefix) then false else equal_fold (take (length prefix) p) prefix

  -- `HostToContainer` from the path on.
  unfoldable pub map_path : DockerPathMapper → Bytes → Result Bytes
  map_path m p =
      let clean_path = normalize_path_separators p in
      let relative = without_prefix (drop (length m.host_root) clean_path) (slash ∷ []) in
      if not (has_prefix_fold clean_path m.host_root)
      then err (outside clean_path)
      else ok (under m.container_root relative)

  unfoldable pub validate_path : DockerPathMapper → Bytes → Result Unit
  validate_path m p =
      let clean_path = normalize_path_separators p in
      let absolute = has_prefix clean_path (slash ∷ []) || is_windows_abs_path clean_path in
      let full = if absolute then clean_path else clean (join_path m.host_root clean_path) in
      if not m.enabled
      then ok tt
      else if not (has_prefix_fold full m.host_root)
      then err (outside p)
      else ok tt

  module _ (file_uri_to_path : Bytes → Result Bytes) where
    unfoldable pub map_uri : DockerPathMapper → Bytes → Result Bytes
    map_uri m uri = elim (file_uri_to_path uri) [
      | err e ↦ err e
      | ok p ↦ elim (map_path m p) [ err e ↦ err e | ok path ↦ ok (file_scheme ++ path) ]
    ]

    unfoldable pub host_to_container : DockerPathMapper → Bytes → Result Bytes
    host_to_container m [] = if not m.enabled then ok [] else err empty_path
    host_to_container m (c ∷ p) =
        if not m.enabled
        then ok (c ∷ p)
        else if has_prefix (c ∷ p) file_scheme
        then map_uri m (c ∷ p)
        else map_path m (c ∷ p)

    -- The end of `NormalizeURI`.
    unfoldable pub with_scheme : Result Bytes → Result Bytes
    with_scheme (err e) = err e
    with_scheme (ok path) =
        if has_prefix path file_scheme then ok path else ok (file_scheme ++ path)

    unfoldable pub normalize_uri : DockerPathMapper → Bytes → Result Bytes
    normalize_uri m uri =
        let mapped : Result Bytes = elim (file_uri_to_path uri) [
          | err e ↦ err e
          | ok p ↦ with_scheme (host_to_container m p)
        ] in
        if not m.enabled
        then ok uri
        else if has_prefix uri file_scheme
        then mapped
        else with_scheme (host_to_container m uri)
