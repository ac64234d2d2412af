-- ===== src/Tests/Calls.antt =====
-- Tests of the calls, the documents and the indexing state of the session manager.
use mcp_bsl_lsp_bridge.Prelude.{
  ℕ, Bool, true, false, List, [], ◌∷◌, ◌++◌, ◌≡◌, refl, arith, some, none, All, String, string_eq,
  if◌then◌else◌,
}
use mcp_bsl_lsp_bridge.Prelude.Int.{pos, is_positive}
use mcp_bsl_lsp_bridge.Prelude.Bytes.{Bytes, codes, decimal}
use mcp_bsl_lsp_bridge.Prelude.Dict
use mcp_bsl_lsp_bridge.Prelude.Dict.{Dict}
use mcp_bsl_lsp_bridge.Session.Requests.{
  Session, Event, LspResponse, request, message, reception, return, returned, dispatch, new_session,
  step, run, text, int, unmarshal_json, marshal_json,
}
use mcp_bsl_lsp_bridge.Session.Requests.Ids.{key, key-round_trip, key-decimal}
use mcp_bsl_lsp_bridge.Session.Requests.Answers.{Explained, run-Explained}
use mcp_bsl_lsp_bridge.Session.Requests.Deadlock.{
  reply, answered_twice, answered_twice-deadlock, running, stuck_session,
}
use mcp_bsl_lsp_bridge.Session.Documents.{Notification, is_open, handle_did_open, handle_did_close}
use mcp_bsl_lsp_bridge.Session.Documents.Agreement.{
  replay, Agrees, handle_did_open-Agrees, handle_did_close-Agrees,
}
use mcp_bsl_lsp_bridge.Session.Indexing.{
  Float64, Indexing, Progress, State, indexing, complete, handle_progress, get_status, is_indexing,
  parse_progress_message,
}
use mcp_bsl_lsp_bridge.Session.Indexing.Ending.{end-get_status, late_report-disagrees}
use mcp_bsl_lsp_bridge.Session.Indexing.Parse.{parse_progress_message-decimal}

abbrev yes : LspResponse
yes = record { result = codes "{}"; err = none }

abbrev one_call : List Event
one_call = request ∷ message (reply (pos 1) yes) ∷ reception (pos 1) ∷ return (pos 1) ∷ []

abbrev answered : Session
answered = record {
  request_id = pos 1;
  pending = [];
  blocked = none;
  results = (pos 1, returned (codes "{}")) ∷ [];
}

one_call-run : run new_session one_call ≡ some answered
unfolding run Dict.get Dict.put Dict.remove
one_call-run = refl

run-Explained_example : All (Explained (λ id r. id ≡ pos 1)) answered.results
unfolding dispatch
run-Explained_example =
    run-Explained (λ id r. id ≡ pos 1) one_call answered (tt, (refl, (tt, (tt, tt)))) one_call-run

stuck-run :
    run (stuck_session (pos 0) [] [] yes yes) [] ≡ some (stuck_session (pos 0) [] [] yes yes)
unfolding run
stuck-run = refl

answered_twice-deadlock_example :
    (run (running (pos 0) [] [] yes yes) (answered_twice (pos 1) yes yes)
      ≡ some (stuck_session (pos 0) [] [] yes yes))
    × ((stuck_session (pos 0) [] [] yes yes).results ≡ [])
    × (step (stuck_session (pos 0) [] [] yes yes) request ≡ none)
answered_twice-deadlock_example =
    answered_twice-deadlock (pos 0) [] [] yes yes [] (stuck_session (pos 0) [] [] yes yes) stuck-run

key-round_trip_example :
    key (unmarshal_json (marshal_json (record { int_value = some (pos 7); str_value = none })))
    ≡ key (some (record { int_value = some (pos 7); str_value = none }))
key-round_trip_example =
    key-round_trip (int (pos 7)) (record { int_value = some (pos 7); str_value = none }) int_7
  where
    int_7 :
        unmarshal_json (int (pos 7)) ≡ some (record { int_value = some (pos 7); str_value = none })
    int_7 = unfold unmarshal_json in refl

key-decimal_example : key (unmarshal_json (text (decimal 42))) ≡ key (unmarshal_json (int (pos 42)))
key-decimal_example = key-decimal 42 (omega arith)

abbrev always : Notification → Bool
always n = true

abbrev no_docs : Dict String Bool
no_docs = []

abbrev empty_server : Dict String Bytes
empty_server = []

empty-Agrees : Agrees no_docs empty_server
unfolding Dict.get
empty-Agrees uri = refl

handle_did_open-Agrees_example :
    (next : Dict String Bytes) × (replay empty_server
        (handle_did_open always no_docs "a.bsl" (codes "x")).written
      ≡ some next)
    × (Dict.get next "a.bsl" ≡ some (codes "x"))
    × Agrees (handle_did_open always no_docs "a.bsl" (codes "x")).open_docs next
handle_did_open-Agrees_example =
    handle_did_open-Agrees always (λ n. refl) no_docs empty_server empty-Agrees "a.bsl" (codes "x")

handle_did_close-Agrees_example :
    (replay empty_server (handle_did_close always no_docs "a.bsl").written
      ≡ (if is_open no_docs "a.bsl" then some (Dict.remove empty_server "a.bsl") else none))
    × Agrees (handle_did_close always no_docs "a.bsl").open_docs (Dict.remove empty_server "a.bsl")
handle_did_close-Agrees_example =
    handle_did_close-Agrees always (λ n. refl) no_docs empty_server empty-Agrees "a.bsl"

-- Speeds in whole files per second.
abbrev whole : Float64 ℕ
whole = record {
  zero_speed = 0;
  above_zero = λ v. false;
  per_second = λ files elapsed. 1;
  rolling = λ old new. new;
  seconds_for = λ files v. files;
}

abbrev half : Indexing ℕ
half = record {
  active = true;
  title = [];
  message = [];
  percentage = pos 50;
  started_at = some 1;
  first_started_at = some 1;
  last_update = some 5;
  current = pos 5;
  total = pos 10;
  speed = 1;
}

abbrev notice : String → Bytes → Progress
notice kind content = record { kind = kind; title = []; message = content; percentage = pos 0 }

end-get_status_example :
    ((get_status whole 9 (handle_progress whole 8 (notice "end" []) half)).state
      ≡ (if is_positive half.total then complete else State.idle))
    × ((get_status whole 9 (handle_progress whole 8 (notice "end" []) half)).eta_seconds ≡ none)
end-get_status_example = end-get_status whole 8 (notice "end" []) half 9 refl

abbrev progress_text : Bytes
progress_text = codes "at " ++ (decimal 3 ++ (b'/' ∷ (decimal 10 ++ codes " files")))

parse_progress_message-decimal_example : parse_progress_message progress_text ≡ (pos 3, pos 10)
parse_progress_message-decimal_example =
    parse_progress_message-decimal (codes "at ") (codes " files") 3 10 (refl, (refl, (refl, tt)))
      refl (omega arith) (omega arith) (omega arith)

late_report-disagrees_example :
    ((get_status whole 9 (
        handle_progress whole 8
          (notice "report" progress_text)
          (record half { active = false }))).state
      ≡ indexing)
    × (is_indexing whole
          (handle_progress whole 8 (notice "report" progress_text) (record half { active = false }))
        ≡ false)
late_report-disagrees_example =
    late_report-disagrees whole 8 9 3 10 (notice "report" progress_text)
      (record half { active = false }) refl refl parse_progress_message-decimal_text (omega arith)
  where
    parse_progress_message-decimal_text : parse_progress_message progress_text ≡ (pos 3, pos 10)
    parse_progress_message-decimal_text =
        parse_progress_message-decimal (codes "at ") (codes " files") 3 10
          (refl, (refl, (refl, tt))) refl (omega arith) (omega arith) (omega arith)
