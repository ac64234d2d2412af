-- ===== src/Lsp/JavaOptions/Heap.antt =====
-- The heap option of the Java command.
use mcp_bsl_lsp_bridge.Prelude.{Bool, true, false, List, [], ◌∷◌, if◌then◌else◌, ◌≡◌}
use mcp_bsl_lsp_bridge.Prelude.Bytes.{Bytes, has_prefix}
use mcp_bsl_lsp_bridge.Lsp.JavaOptions.{xmx_flag, is_jar, without_xmx}

-- The -Xmx options among the arguments.
unfoldable pub xmx_options : List Bytes → List Bytes
xmx_options [] = []
xmx_options (a ∷ args) =
    let rest = xmx_options args in if has_prefix a xmx_flag then a ∷ rest else rest

-- Whether `-jar` stands before the first -Xmx option.
unfoldable pub jar_comes_first : List Bytes → Bool
jar_comes_first [] = false
jar_comes_first (a ∷ args) =
    let rest = jar_comes_first args in
    if has_prefix a xmx_flag then false else if is_jar a then true else rest

-- What an insertion of an option into arguments gives.
record Inserted (option : Bytes) (args result : List Bytes) : Type 0 where
  pub options : xmx_options result ≡ option ∷ xmx_options args
  pub others : without_xmx result ≡ without_xmx args
  pub early : jar_comes_first result ≡ false
