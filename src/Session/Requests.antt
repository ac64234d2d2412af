-- ===== src/Session/Requests.antt =====
-- cmd/lsp-session-manager/main.go: the ids of JSON-RPC, `sendRequest` and the response branch of
-- `readResponses`. Each step is a stretch of code between two points where a goroutine may wait.
-- One entry of `pending` stands for the map's channel and for the goroutine that waits on it, so
-- fewer than 2 ^ 64 calls are in flight.
pub mod Ids
pub mod Answers
pub mod Deadlock
use mcp_bsl_lsp_bridge.Prelude.{
  ℕ, zero, suc, ◌+◌, ◌-◌, ◌^◌, Bool, true, false, not, ◌&&◌, ◌||◌, Option, none, some, List, [],
  ◌∷◌, if◌then◌else◌, ◌==◌,
}
use mcp_bsl_lsp_bridge.Prelude.Int.{ℤ, pos, negsuc, int_eq}
use mcp_bsl_lsp_bridge.Prelude.Bytes.{Bytes}
use mcp_bsl_lsp_bridge.Prelude.Dict
use mcp_bsl_lsp_bridge.Prelude.Dict.{Dict}
use mcp_bsl_lsp_bridge.Framing.{atoi}

-- A decoded value of the field `id`; `other` is a value that is neither null, an `int64` nor a
-- string.
pub data Json : Type 0 where
  null : Json
  int : ℤ → Json
  text : Bytes → Json
  other : Json

pub record JsonrpcId : Type 0 where
  pub int_value : Option ℤ
  pub str_value : Option Bytes

unfoldable pub unmarshal_json : Json → Option JsonrpcId
unmarshal_json null = some (record { int_value = none; str_value = none })
unmarshal_json (int i) = some (record { int_value = some i; str_value = none })
unmarshal_json (text s) = some (record { int_value = atoi s; str_value = some s })
unmarshal_json other = none

abbrev text_or_null : Option Bytes → Json
text_or_null none = null
text_or_null (some s) = text s

abbrev int_or : Option ℤ → Json → Json
int_or none j = j
int_or (some i) j = int i

unfoldable pub marshal_json : JsonrpcId → Json
marshal_json id = int_or id.int_value (text_or_null id.str_value)

unfoldable pub as_int64 : JsonrpcId → ℤ
as_int64 id = elim id.int_value [ none ↦ pos 0 | some i ↦ i ]

abbrev pub is_some : {A : Type 0} → Option A → Bool
is_some none = false
is_some (some a) = true

unfoldable pub is_set : JsonrpcId → Bool
is_set id = is_some id.int_value || is_some id.str_value

pub record LspError : Type 0 where
  pub code : ℤ
  pub message : Bytes

pub record LspResponse : Type 0 where
  pub result : Bytes
  pub err : Option LspError

-- A message of the server, decoded.
pub record BaseMessage : Type 0 where
  pub id : Option JsonrpcId
  pub method : Bytes
  pub response : LspResponse

pub data Dispatch : Type 0 where
  response : ℤ → LspResponse → Dispatch
  notification : Bytes → Dispatch
  dropped : Dispatch

abbrev pub by_method : Bytes → Dispatch
by_method [] = dropped
by_method (c ∷ method) = notification (c ∷ method)

abbrev pub answer : Bytes → JsonrpcId → LspResponse → Dispatch
answer [] id r = if is_set id then response (as_int64 id) r else dropped
answer (c ∷ method) id r = notification (c ∷ method)

-- the branches of the loop of `readResponses`
unfoldable pub dispatch : BaseMessage → Dispatch
unfolding is_set as_int64
dispatch m = elim m.id [ none ↦ by_method m.method | some id ↦ answer m.method id m.response ]

-- What `sendRequest` returns.
pub data Outcome : Type 0 where
  returned : Bytes → Outcome
  lsp_error : LspError → Outcome
  cancelled : Outcome

-- The goroutine of one call: in the `select`, or past it and about to delete its entry.
pub data Phase : Type 0 where
  waiting : Phase
  leaving : Outcome → Phase

-- The buffer is the channel's, whose capacity is one.
pub record Call : Type 0 where
  pub phase : Phase
  pub buffer : Option LspResponse

-- `blocked` is the response that the reader holds while it waits for room in a channel: it has
-- `pendingMu` then.
pub record Session : Type 0 where
  pub request_id : ℤ
  pub pending : Dict ℤ Call
  pub blocked : Option (ℤ × LspResponse)
  pub results : List (ℤ × Outcome)

abbrev pub new_session : Session
new_session = record { request_id = pos 0; pending = []; blocked = none; results = [] }

-- `sm.requestID++` on an `int64`
abbrev pub increment : ℤ → ℤ
increment (pos n) = if n == 2 ^ 63 - 1 then negsuc (2 ^ 63 - 1) else pos (suc n)
increment (negsuc zero) = pos 0
increment (negsuc (suc n)) = negsuc n

-- The head of `sendRequest`: a fresh id and its channel.
unfoldable pub send_request : Session → Session
send_request s = record s {
  request_id = increment s.request_id;
  pending = Dict.put s.pending (increment s.request_id) (record { phase = waiting; buffer = none });
}

abbrev pub fill : Session → ℤ → LspResponse → Call → Session
fill s id r call = elim call.buffer [
  | none ↦ record s { pending = Dict.put s.pending id (record call { buffer = some r }) }
  | some held ↦ record s { blocked = some (id, r) }
]

-- `if ch, ok := sm.pending[id]; ok { ch <- response }`
unfoldable pub deliver : Session → ℤ → LspResponse → Session
deliver s id r = elim (Dict.get s.pending id) [ none ↦ s | some call ↦ fill s id r call ]

unfoldable pub read_message : Session → BaseMessage → Session
unfolding dispatch deliver
read_message s m = elim (dispatch m) [ response id r ↦ deliver s id r | _ ↦ s ]

abbrev pub outcome : LspResponse → Outcome
outcome r = elim r.err [ none ↦ returned r.result | some e ↦ lsp_error e ]

-- The waiter of `id` takes the response in the buffer; a reader that is blocked on this channel
-- fills the buffer again and goes on.
abbrev pub refill : Session → ℤ → Outcome → Option (ℤ × LspResponse) → Session
refill s id o none = record s {
  pending = Dict.put s.pending id (record { phase = leaving o; buffer = none });
}
refill s id o (some (j, r)) =
    if int_eq.beq j id
    then record s {
      pending = Dict.put s.pending id (record { phase = leaving o; buffer = some r });
      blocked = none;
    }
    else record s { pending = Dict.put s.pending id (record { phase = leaving o; buffer = none }) }

abbrev pub take_from : Session → ℤ → Phase → Option LspResponse → Option Session
take_from s id waiting (some r) = some (refill s id (outcome r) s.blocked)
take_from s id _ _ = none

-- the case `resp := <-respCh`
unfoldable pub receive : Session → ℤ → Option Session
receive s id = elim (Dict.get s.pending id) [
  | none ↦ none
  | some call ↦ take_from s id call.phase call.buffer
]

abbrev pub give_up : Session → ℤ → Call → Phase → Option Session
give_up s id call waiting =
    some (record s { pending = Dict.put s.pending id (record call { phase = leaving cancelled }) })
give_up s id call (leaving o) = none

-- The case `<-ctx.Done()`, or a write of the request that failed.
unfoldable pub expire : Session → ℤ → Option Session
expire s id = elim (Dict.get s.pending id) [
  | none ↦ none
  | some call ↦ give_up s id call call.phase
]

abbrev pub leave : Session → ℤ → Phase → Option Session
leave s id waiting = none
leave s id (leaving o) =
    some (record s { pending = Dict.remove s.pending id; results = (id, o) ∷ s.results })

-- The deferred `delete(sm.pending, id)`, and the return.
unfoldable pub finish : Session → ℤ → Option Session
finish s id = elim (Dict.get s.pending id) [ none ↦ none | some call ↦ leave s id call.phase ]

pub data Event : Type 0 where
  request : Event
  message : BaseMessage → Event
  reception : ℤ → Event
  expiry : ℤ → Event
  return : ℤ → Event

-- What needs `pendingMu` waits while the reader holds it.
abbrev pub when_unlocked : Option (ℤ × LspResponse) → Option Session → Option Session
when_unlocked none next = next
when_unlocked (some held) next = none

-- One step; `none` when the step cannot be taken now.
unfoldable pub step : Session → Event → Option Session
unfolding send_request read_message receive expire finish
step s request = when_unlocked s.blocked (some (send_request s))
step s (message m) = when_unlocked s.blocked (some (read_message s m))
step s (reception id) = receive s id
step s (expiry id) = expire s id
step s (return id) = when_unlocked s.blocked (finish s id)

unfoldable pub run : Session → List Event → Option Session
unfolding step
run s [] = some s
run s (e ∷ events) = elim (step s e) [ none ↦ none | some t ↦ run t events ]
