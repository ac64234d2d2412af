-- ===== src/Tests/Paths.antt =====
-- Tests of the paths and of the call graph.
use Prim.Native.String.{String}
use mcp_bsl_lsp_bridge.Prelude.{
  ℕ, ◌+◌, true, false, Option, some, List, [], ◌∷◌, ◌++◌, ◌≡◌, refl, ◌↔◌,
}
use mcp_bsl_lsp_bridge.Prelude.Bytes.{Bytes, codes, has_prefix}
use mcp_bsl_lsp_bridge.Prelude.Int.{pos}
use mcp_bsl_lsp_bridge.Utils.Clean.{kind_of, split, join, walk, go_up, is_rooted, render, clean}
use mcp_bsl_lsp_bridge.Utils.Clean.Elements.{IsName}
use mcp_bsl_lsp_bridge.Utils.PathMap.{
  DockerPathMapper, Result, ok, err, empty_path, file_scheme, to_slash, normalize_path_separators,
  map_path, host_to_container, container_to_host,
}
use mcp_bsl_lsp_bridge.Utils.PathMap.Trips.{host_to_container-round, map_path-sibling}
use mcp_bsl_lsp_bridge.Utils.Allowed.{is_within_allowed_directory, same}
use mcp_bsl_lsp_bridge.Utils.Allowed.Components.{is_within_allowed_directory-components, same_iff}
use mcp_bsl_lsp_bridge.Tools.CallGraph.{CallHierarchyItem}
use mcp_bsl_lsp_bridge.Tools.CallGraph.Build.{Arguments, call_graph}
use mcp_bsl_lsp_bridge.Tools.CallGraph.Build.Counts.{nodes, cycles, call_graph-counts}

-- "a/../b/./c//" is "b/c".
clean-dots : clean (codes "a/../b/./c//") ≡ codes "b/c"
unfolding clean split walk kind_of go_up is_rooted render join
clean-dots = refl

abbrev mapper : DockerPathMapper
mapper = record { host_root = codes "D:/Proj"; container_root = codes "/projects"; enabled = true }

root_names : (IsName (codes "D:")) × (IsName (codes "Proj")) × (IsName (codes "projects"))
unfolding kind_of
root_names = (
  (refl, ((refl, refl), ((refl, refl), tt))),
  (refl, ((refl, refl), ((refl, refl), ((refl, refl), ((refl, refl), tt))))),
  (
    refl,
    (
      (refl, refl),
      (
        (refl, refl),
        (
          (refl, refl),
          ((refl, refl), ((refl, refl), ((refl, refl), ((refl, refl), ((refl, refl), tt))))),
        ),
      ),
    ),
  ),
)

src-IsName : IsName (codes "src")
unfolding kind_of
src-IsName = (refl, ((refl, refl), ((refl, refl), ((refl, refl), tt))))

host-render : mapper.host_root ≡ render false (codes "D:" ∷ codes "Proj" ∷ [])
unfolding render join
host-render = refl

container-render : mapper.container_root ≡ render true (codes "projects" ∷ [])
unfolding render join
container-render = refl

no_scheme :
    has_prefix (render false ((codes "D:" ∷ codes "Proj" ∷ []) ++ (codes "src" ∷ []))) file_scheme
    ≡ false
unfolding has_prefix render join
no_scheme = refl

abbrev no_uri : Bytes → Result Bytes
no_uri p = err empty_path

host_to_container-round_example :
    (host_to_container same no_uri mapper
        (render false ((codes "D:" ∷ codes "Proj" ∷ []) ++ (codes "src" ∷ [])))
      ≡ ok (render true ((codes "projects" ∷ []) ++ (codes "src" ∷ []))))
    × (container_to_host mapper (render true ((codes "projects" ∷ []) ++ (codes "src" ∷ [])))
        ≡ ok (render false ((codes "D:" ∷ codes "Proj" ∷ []) ++ (codes "src" ∷ []))))
host_to_container-round_example =
    host_to_container-round same (λ p. (same_iff p p).1 refl) mapper refl false (codes "D:")
      (codes "Proj" ∷ []) (root_names.0, (root_names.1, tt)) host-render (codes "projects") []
      (root_names.2, tt) container-render no_uri (codes "src") [] (src-IsName, tt) no_scheme

sibling-clean :
    normalize_path_separators (mapper.host_root ++ codes "src") ≡ mapper.host_root ++ codes "src"
unfolding normalize_path_separators to_slash clean split walk kind_of is_rooted render join
sibling-clean = refl

map_path-sibling_example :
    map_path same mapper (mapper.host_root ++ codes "src")
    ≡ ok (render true ((codes "projects" ∷ []) ++ (codes "src" ∷ [])))
map_path-sibling_example =
    map_path-sibling same (λ p. (same_iff p p).1 refl) mapper (codes "src") (codes "projects") []
      (root_names.2, tt) container-render src-IsName sibling-clean

is_within_allowed_directory-components_example :
    (is_within_allowed_directory
        (codes "/")
        (render true (codes "projects" ∷ codes "src" ∷ []))
        (render true (codes "projects" ∷ []))
      ≡ true)
    ↔ ((rest : List Bytes) × (codes "projects" ∷ codes "src" ∷ []
          ≡ (codes "projects" ∷ []) ++ rest))
is_within_allowed_directory-components_example =
    is_within_allowed_directory-components (codes "/") (codes "projects") [] (root_names.2, tt)
      (codes "projects") (codes "src" ∷ []) (root_names.2, (src-IsName, tt))

abbrev method : String → ℕ → CallHierarchyItem
method name line = record { name = name; uri = "a.bsl"; kind = 6; line = line; character = 0 }

-- Every method calls itself and another one.
abbrev two_calls : CallHierarchyItem → Option (List CallHierarchyItem)
two_calls item = some (item ∷ method "OnOpen" 7 ∷ [])

abbrev arguments : Arguments
arguments = record { depth_up = some (pos 2); depth_down = some (pos 1); max_nodes = some (pos 9) }

call_graph-counts_example :
    let result = call_graph (λ n. false) two_calls two_calls arguments (method "Run" 3) in
    (result.builder.node_count ≡ 1 + nodes result.incoming_tree + nodes result.outgoing_tree)
    × (result.builder.cycles_found ≡ cycles result.incoming_tree + cycles result.outgoing_tree)
call_graph-counts_example =
    call_graph-counts (λ n. false) two_calls two_calls arguments (method "Run" 3)
