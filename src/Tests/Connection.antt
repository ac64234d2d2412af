-- ===== src/Tests/Connection.antt =====
-- Tests of the session client.
use mcp_bsl_lsp_bridge.Prelude.{none, some, [], ◌∷◌, ◌≡◌, refl, false}
use mcp_bsl_lsp_bridge.Prelude.Bytes.{codes}
use mcp_bsl_lsp_bridge.Prelude.Dict
use mcp_bsl_lsp_bridge.Prelude.Dict.{Distinct}
use mcp_bsl_lsp_bridge.Prelude.Int.{pos, int_eq}
use mcp_bsl_lsp_bridge.Lsp.SessionClient.{
  SessionClient, SessionResponse, Entry, in_flight, returning, context_done, manager_error,
  send_each, ids_of, lost, fail_all_pending, give_up_call, context_ends, calling, read_failed,
  reception, done, end, client_step, client_run,
}
use mcp_bsl_lsp_bridge.Lsp.SessionClient.Failing.{read_failed-returns}
use mcp_bsl_lsp_bridge.Lsp.SessionClient.Stuck.{read_failed-blocks}

abbrev waiting_entry : Entry
waiting_entry = record { stage = in_flight; channel = none }

abbrev answer : SessionResponse
answer = record { result = codes "{}"; err = none }

-- A call that gave up before it took its response.
abbrev late_entry : Entry
late_entry = record { stage = returning context_done; channel = some answer }

abbrev client_with : Entry → SessionClient
client_with entry = record {
  conn = some 0;
  req_id = pos 2;
  pending = (pos 1, entry) ∷ (pos 2, waiting_entry) ∷ [];
  closed = false;
  held = none;
  results = [];
}

two_calls-Distinct : Distinct (client_with waiting_entry).pending
unfolding Dict.get
two_calls-Distinct = (refl, (refl, tt))

second_call : Dict.get (client_with waiting_entry).pending (pos 2) ≡ some waiting_entry
unfolding Dict.get
second_call = refl

read_failed-returns_example :
    (t : SessionClient) × (client_run
        (client_with waiting_entry)
        (read_failed (codes "EOF") ∷ reception (pos 2) ∷ end (pos 2) ∷ [])
      ≡ some t)
    × (t.results ≡ (pos 2, manager_error (codes "EOF")) ∷ [])
read_failed-returns_example =
    read_failed-returns (client_with waiting_entry) (codes "EOF") (pos 2) waiting_entry refl
      two_calls-Distinct (refl, (refl, tt)) second_call refl

-- The connection is lost, then the other call gives up.
abbrev stuck_client : SessionClient
stuck_client = record {
  conn = some 0;
  req_id = pos 2;
  pending =
      (pos 1, late_entry) ∷ (pos 2, record { stage = returning context_done; channel = none }) ∷ [];
  closed = false;
  held = some (record { id = pos 1; response = lost (codes "EOF"); rest = pos 2 ∷ [] });
  results = [];
}

stuck_run :
    client_run (client_with late_entry) (read_failed (codes "EOF") ∷ done (pos 2) ∷ [])
    ≡ some stuck_client
unfolding client_run client_step fail_all_pending send_each ids_of context_ends give_up_call
    Dict.get Dict.put
stuck_run = refl

read_failed-blocks_example : (stuck_client.results ≡ []) × (client_step stuck_client calling ≡ none)
read_failed-blocks_example =
    read_failed-blocks (client_with late_entry) (codes "EOF") (pos 1) late_entry
      ((pos 2, waiting_entry) ∷ []) context_done answer (done (pos 2) ∷ []) stuck_client refl refl
      refl refl stuck_run
