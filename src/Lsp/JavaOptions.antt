-- ===== src/Lsp/JavaOptions.antt =====
-- lsp/config_env_overrides.go: `setJavaXmx`, and the choice of its value in `ApplyEnvOverrides`.
pub mod Heap
use mcp_bsl_lsp_bridge.Prelude.{
  ℕ, Bool, true, false, not, ◌&&◌, Option, none, some, List, [], ◌∷◌, ◌++◌, String, string_eq,
  if◌then◌else◌, ◌==◌,
}
use mcp_bsl_lsp_bridge.Prelude.Bytes.{Bytes, codes, has_prefix, trim_space}

abbrev pub is_empty : Bytes → Bool
is_empty [] = true
is_empty (c ∷ s) = false

abbrev pub same_bytes : Bytes → Bytes → Bool
same_bytes [] [] = true
same_bytes (c ∷ s) (d ∷ t) = c == d && same_bytes s t
same_bytes s t = false

abbrev pub xmx_flag : Bytes
xmx_flag = codes "-Xmx"

abbrev pub is_jar : Bytes → Bool
is_jar a = same_bytes a (codes "-jar")

-- The option with its flag.
unfoldable pub with_flag : Bytes → Bytes
with_flag xmx = if has_prefix xmx xmx_flag then xmx else xmx_flag ++ xmx

-- The arguments that are not -Xmx options.
unfoldable pub without_xmx : List Bytes → List Bytes
without_xmx [] = []
without_xmx (a ∷ args) =
    let rest = without_xmx args in if has_prefix a xmx_flag then rest else a ∷ rest

abbrev pub cons_out : Bytes → Option (List Bytes) → Option (List Bytes)
cons_out a none = none
cons_out a (some out) = some (a ∷ out)

-- The insertion before `-jar`; `none` when there is none.
unfoldable pub before_jar : Bytes → List Bytes → Option (List Bytes)
before_jar xmx [] = none
before_jar xmx (a ∷ args) =
    let rest = cons_out a (before_jar xmx args) in if is_jar a then some (xmx ∷ a ∷ args) else rest

abbrev pub or_first : Bytes → List Bytes → Option (List Bytes) → List Bytes
or_first xmx clean none = xmx ∷ clean
or_first xmx clean (some out) = out

-- From the trimmed value on, where it is not empty.
unfoldable pub insert_xmx : List Bytes → Bytes → List Bytes
unfolding with_flag without_xmx before_jar
insert_xmx args xmx =
    or_first (with_flag xmx) (without_xmx args) (before_jar (with_flag xmx) (without_xmx args))

unfoldable pub set_java_xmx : List Bytes → Bytes → List Bytes
unfolding insert_xmx
set_java_xmx args xmx = if is_empty (trim_space xmx) then args else insert_xmx args (trim_space xmx)

-- The part of `ApplyEnvOverrides` for one server, after its variables are expanded: its name, its
-- command and its arguments, with the two values of the environment, which are trimmed.
unfoldable pub override_args : String → String → List Bytes → Bytes → Bytes → List Bytes
unfolding set_java_xmx
override_args name command args bsl_xmx global_xmx =
    let xmx =
      if string_eq.beq name "bsl-language-server" && not (is_empty bsl_xmx)
      then bsl_xmx
      else global_xmx in
    if string_eq.beq command "java" && not (is_empty (trim_space xmx))
    then set_java_xmx args xmx
    else args
