-- ===== src/Tests/Readiness.antt =====
-- Tests of the readiness.
use mcp_bsl_lsp_bridge.Prelude.{true, false, not, ◌&&◌, none, [], ◌∷◌, ◌≡◌, ◌↔◌, refl, length}
use mcp_bsl_lsp_bridge.Prelude.Bytes.{codes, has_prefix, contains}
use mcp_bsl_lsp_bridge.Tools.Readiness.{
  Client, connected, failed, error, insert_client, sort_clients, is_before, is_conn_error,
  scan_client, scan_clients, state_of, status_of, build_lsp_status,
}
use mcp_bsl_lsp_bridge.Tools.Readiness.Gate.{
  Observation, check_ready_or_return, is_allowed, MayRunAt, first_ready,
  check_ready_or_return-allowed,
}
use mcp_bsl_lsp_bridge.Tools.Readiness.Ready.{
  all_healthy, has_clients, is_error, build_lsp_status-ready,
}

-- Its last request failed, while the connection stands.
abbrev failed_client : Client
failed_client = record {
  server = codes "bsl";
  command = codes "java";
  status = failed;
  last_error = codes "content modified";
  is_connected = true;
  progress = none;
  indexing = none;
}

-- It answers again, and the last error it has had is the end of a stream.
abbrev old_error_client : Client
old_error_client = record {
  server = codes "ada";
  command = codes "als";
  status = connected;
  last_error = codes "unexpected EOF";
  is_connected = true;
  progress = none;
  indexing = none;
}

failed_request-ready : (build_lsp_status (failed_client ∷ [])).is_ready ≡ true
unfolding build_lsp_status scan_clients scan_client sort_clients insert_client status_of
    is_conn_error has_prefix contains
failed_request-ready = refl

old_error-blocks : (build_lsp_status (failed_client ∷ old_error_client ∷ [])).state ≡ error
unfolding build_lsp_status scan_clients scan_client sort_clients insert_client is_before status_of
    state_of is_conn_error has_prefix contains
old_error-blocks = refl

build_lsp_status-ready_example :
    ((build_lsp_status (failed_client ∷ old_error_client ∷ [])).is_ready ≡ (
      has_clients (failed_client ∷ old_error_client ∷ [])
      && all_healthy (failed_client ∷ old_error_client ∷ [])))
    × (is_error (build_lsp_status (failed_client ∷ old_error_client ∷ [])).state
        ≡ not (all_healthy (failed_client ∷ old_error_client ∷ [])))
    × (length (build_lsp_status (failed_client ∷ old_error_client ∷ [])).clients ≡ 2)
build_lsp_status-ready_example = build_lsp_status-ready (failed_client ∷ old_error_client ∷ [])

-- The warm-up is over at the second moment.
abbrev cold : Observation
cold = record {
  clients = failed_client ∷ [];
  in_session_mode = false;
  warmup_running = true;
  warmup_done = false;
  warmup_error = [];
}

abbrev warm : Observation
warm = record cold { warmup_running = false; warmup_done = true }

check_ready_or_return-allowed_example :
    (is_allowed (check_ready_or_return cold (cold ∷ warm ∷ []) warm).0 ≡ true)
    ↔ MayRunAt (first_ready (cold ∷ warm ∷ warm ∷ []))
check_ready_or_return-allowed_example = check_ready_or_return-allowed cold (cold ∷ warm ∷ []) warm
