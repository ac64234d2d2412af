-- ===== src/Session/Documents.antt =====
-- cmd/lsp-session-manager/main.go: `handleDidOpen` and `handleDidClose`. Whether a write to the
-- language server succeeds is an argument.
pub mod Agreement
use mcp_bsl_lsp_bridge.Prelude.{
  Bool, true, false, Option, none, some, List, [], ◌∷◌, String, string_eq, if◌then◌else◌,
}
use mcp_bsl_lsp_bridge.Prelude.Bytes.{Bytes}
use mcp_bsl_lsp_bridge.Prelude.Dict
use mcp_bsl_lsp_bridge.Prelude.Dict.{Dict}

-- What the handlers send to the language server.
pub data Notification : Type 0 where
  did_open : String → Bytes → Notification
  did_close : String → Notification

-- The open documents after the handler, what was written, and whether it returned no error.
pub record Handled : Type 0 where
  pub open_docs : Dict String Bool
  pub written : List Notification
  pub ok : Bool

-- What Go reads for a key, where a missing one is `false`.
abbrev pub flag : Option Bool → Bool
flag none = false
flag (some b) = b

-- `sm.openDocs[uri]`
abbrev pub is_open : Dict String Bool → String → Bool
is_open docs uri = flag (Dict.get docs uri)

abbrev pub written_if : Bool → Notification → List Notification
written_if true n = n ∷ []
written_if false n = []

unfoldable pub handle_did_open : (Notification → Bool) → Dict String Bool → String → Bytes → Handled
handle_did_open write docs uri text =
    let opened = Dict.put docs uri true in
    let reopen = did_open uri text in
    let shut = did_close uri in
    if is_open docs uri
    then (if write shut
        then record {
          open_docs = opened;
          written = shut ∷ written_if (write reopen) reopen;
          ok = write reopen;
        }
        else record { open_docs = opened; written = []; ok = false })
    else record {
      open_docs = opened;
      written = written_if (write reopen) reopen;
      ok = write reopen;
    }

unfoldable pub handle_did_close : (Notification → Bool) → Dict String Bool → String → Handled
handle_did_close write docs uri = record {
  open_docs = Dict.remove docs uri;
  written = written_if (write (did_close uri)) (did_close uri);
  ok = write (did_close uri);
}
