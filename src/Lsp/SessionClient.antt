-- ===== src/Lsp/SessionClient.antt =====
-- lsp/session_client.go: the calls in flight and the connection of the bridge's client. Each step is
-- a stretch of code between two points where a goroutine may wait; the encoding of a request and the
-- dialling are not part of a step. A connection is a number, and stands for its reader too, which
-- the source sets together with it.
pub mod Failing
pub mod Stuck
use mcp_bsl_lsp_bridge.Prelude.{
  ℕ, zero, suc, Bool, true, false, not, ◌&&◌, Option, none, some, List, [], ◌∷◌, if◌then◌else◌,
}
use mcp_bsl_lsp_bridge.Prelude.Int.{ℤ, pos, negsuc, int_eq}
use mcp_bsl_lsp_bridge.Prelude.Bytes.{Bytes}
use mcp_bsl_lsp_bridge.Prelude.Dict
use mcp_bsl_lsp_bridge.Prelude.Dict.{Dict}
use mcp_bsl_lsp_bridge.Session.Requests.{increment}

pub record SessionError : Type 0 where
  pub code : ℤ
  pub message : Bytes

pub record SessionResponse : Type 0 where
  pub result : Bytes
  pub err : Option SessionError

-- What `Call` returns once its request has an id.
pub data CallResult : Type 0 where
  answered : Bytes → CallResult
  manager_error : Bytes → CallResult
  send_failed : CallResult
  context_done : CallResult

-- The goroutine of a call: before or in its `select`, or about to delete its entry.
pub data Stage : Type 0 where
  in_flight : Stage
  returning : CallResult → Stage

-- An entry of `pending`: the goroutine of the call, and the channel, whose capacity is one.
pub record Entry : Type 0 where
  pub stage : Stage
  pub channel : Option SessionResponse

-- A reader that waits for room in a channel: the id, the response, and the ids that
-- `failAllPending` still has to fail. It holds `mu`.
pub record Held : Type 0 where
  pub id : ℤ
  pub response : SessionResponse
  pub rest : List ℤ

pub record SessionClient : Type 0 where
  pub conn : Option ℕ
  pub req_id : ℤ
  pub pending : Dict ℤ Entry
  pub closed : Bool
  pub held : Option Held
  pub results : List (ℤ × CallResult)

unfoldable pub new_session_client : SessionClient
new_session_client = record {
  conn = none;
  req_id = pos 0;
  pending = [];
  closed = false;
  held = none;
  results = [];
}

-- The end of `Connect` and of `reconnect`.
unfoldable pub connected : SessionClient → ℕ → SessionClient
connected s c = record s { conn = some c }

-- The start of `reconnect`.
unfoldable pub disconnect : SessionClient → SessionClient
disconnect s = record s { conn = none }

-- `Close` closes the connection and keeps it.
unfoldable pub close : SessionClient → SessionClient
close s = record s { closed = true }

-- Whether `Call` reconnects first.
unfoldable pub needs_reconnect : SessionClient → Bool
needs_reconnect s = elim s.conn [ none ↦ not s.closed | some c ↦ false ]

-- The entry of a call; without a connection it returns an error and leaves the state.
unfoldable pub begin_call : SessionClient → SessionClient
begin_call s = elim s.conn [
  | none ↦ s
  | some c ↦ record s {
    req_id = increment s.req_id;
    pending =
        Dict.put s.pending (increment s.req_id) (record { stage = in_flight; channel = none });
  }
]

unfoldable pub result_of : SessionResponse → CallResult
result_of r = elim r.err [ none ↦ answered r.result | some e ↦ manager_error e.message ]

abbrev pub set_entry : SessionClient → ℤ → Entry → SessionClient
set_entry s id entry = record s { pending = Dict.put s.pending id entry }

-- `ch <- response` for each of the ids: the reader waits at the first channel that is full.
unfoldable pub send_each : SessionClient → SessionResponse → List ℤ → SessionClient
send_each s r [] = s
send_each s r (id ∷ ids) = elim (Dict.get s.pending id) [
  | none ↦ send_each s r ids
  | some entry ↦ elim entry.channel [
    | none ↦ send_each (set_entry s id (record entry { channel = some r })) r ids
    | some full ↦ record s { held = some (record { id = id; response = r; rest = ids }) }
  ]
]

unfoldable pub ids_of : Dict ℤ Entry → List ℤ
ids_of [] = []
ids_of ((id, entry) ∷ entries) = id ∷ ids_of entries

abbrev pub lost : Bytes → SessionResponse
lost message = record {
  result = [];
  err = some (record { code = negsuc 31999; message = message });
}

unfoldable pub fail_all_pending : SessionClient → Bytes → SessionClient
fail_all_pending s message = send_each s (lost message) (ids_of s.pending)

-- The branch of `readResponses` for a response.
unfoldable pub deliver_response : SessionClient → ℤ → SessionResponse → SessionClient
deliver_response s id r = send_each s r (id ∷ [])

-- The reader that waits for this channel fills it and goes on.
unfoldable pub resume : SessionClient → ℤ → CallResult → Option Held → SessionClient
resume s id result none = set_entry s id (record { stage = returning result; channel = none })
resume s id result (some held) =
    if int_eq.beq held.id id
    then send_each
        (record s {
          pending =
              Dict.put s.pending id
                (record { stage = returning result; channel = some held.response });
          held = none;
        })
        held.response held.rest
    else set_entry s id (record { stage = returning result; channel = none })

unfoldable pub take_response :
    SessionClient → ℤ → Stage → Option SessionResponse → Option SessionClient
take_response s id in_flight (some r) = some (resume s id (result_of r) s.held)
take_response s id _ _ = none

-- The case `resp := <-respCh`.
unfoldable pub receive_response : SessionClient → ℤ → Option SessionClient
receive_response s id = elim (Dict.get s.pending id) [
  | none ↦ none
  | some entry ↦ take_response s id entry.stage entry.channel
]

unfoldable pub give_up_call : SessionClient → ℤ → Entry → Stage → CallResult → Option SessionClient
give_up_call s id entry in_flight result =
    some (set_entry s id (record entry { stage = returning result }))
give_up_call s id entry (returning earlier) result = none

-- The case `<-ctx.Done()`.
unfoldable pub context_ends : SessionClient → ℤ → Option SessionClient
context_ends s id = elim (Dict.get s.pending id) [
  | none ↦ none
  | some entry ↦ give_up_call s id entry entry.stage context_done
]

-- A write that fails drops the connection.
unfoldable pub write_fails : SessionClient → ℤ → Option SessionClient
write_fails s id = elim (Dict.get s.pending id) [
  | none ↦ none
  | some entry ↦ give_up_call (disconnect s) id entry entry.stage send_failed
]

unfoldable pub leave_call : SessionClient → ℤ → Stage → Option SessionClient
leave_call s id in_flight = none
leave_call s id (returning result) =
    some (record s { pending = Dict.remove s.pending id; results = (id, result) ∷ s.results })

-- The deferred delete, and the return.
unfoldable pub end_call : SessionClient → ℤ → Option SessionClient
end_call s id = elim (Dict.get s.pending id) [
  | none ↦ none
  | some entry ↦ leave_call s id entry.stage
]

pub data ClientEvent : Type 0 where
  dialled : ℕ → ClientEvent
  redial closing calling : ClientEvent
  response_read : ℤ → SessionResponse → ClientEvent
  read_failed : Bytes → ClientEvent
  reception done write_error end : ℤ → ClientEvent

-- What needs `mu` waits while a reader holds it.
abbrev pub with_mutex : Option Held → Option SessionClient → Option SessionClient
with_mutex none next = next
with_mutex (some held) next = none

-- One step; `none` when the step cannot be taken now.
unfoldable pub client_step : SessionClient → ClientEvent → Option SessionClient
client_step s (dialled c) = with_mutex s.held (some (connected s c))
client_step s redial = with_mutex s.held (some (disconnect s))
client_step s closing = with_mutex s.held (some (close s))
client_step s calling = with_mutex s.held (some (begin_call s))
client_step s (response_read id r) = with_mutex s.held (some (deliver_response s id r))
client_step s (read_failed message) = with_mutex s.held (some (fail_all_pending s message))
client_step s (reception id) = receive_response s id
client_step s (done id) = context_ends s id
client_step s (write_error id) = with_mutex s.held (write_fails s id)
client_step s (end id) = with_mutex s.held (end_call s id)

unfoldable pub client_run : SessionClient → List ClientEvent → Option SessionClient
client_run s [] = some s
client_run s (event ∷ events) = elim (client_step s event) [
  | none ↦ none
  | some t ↦ client_run t events
]
