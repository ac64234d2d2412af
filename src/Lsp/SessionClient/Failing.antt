-- ===== src/Lsp/SessionClient/Failing.antt =====
-- A lost connection reaches every call in flight.
use mcp_bsl_lsp_bridge.Prelude.{
  Bool, true, false, ◌||◌, Option, none, some, List, [], ◌∷◌, ◌≡◌, refl, ◌∙◌, ap, inl, inr, All,
  arith, Bool-cases,
}
use mcp_bsl_lsp_bridge.Prelude.Int.{ℤ, int_eq}
use mcp_bsl_lsp_bridge.Prelude.Bytes.{Bytes}
use mcp_bsl_lsp_bridge.Prelude.Dict
use mcp_bsl_lsp_bridge.Prelude.Dict.{Dict, Distinct, get-put}
use mcp_bsl_lsp_bridge.Lsp.SessionClient.{
  SessionClient, SessionResponse, Entry, in_flight, returning, CallResult, manager_error, set_entry,
  send_each, ids_of, lost, fail_all_pending, resume, result_of, take_response, receive_response,
  leave_call, end_call, read_failed, reception, end, client_step, client_run, ClientEvent,
}

listed : List ℤ → ℤ → Bool
listed [] j = false
listed (i ∷ ids) j = int_eq.beq i j || listed ids j

abbrev NoRepeat : List ℤ → Type 0
NoRepeat [] = Unit
NoRepeat (i ∷ ids) = (listed ids i ≡ false) × NoRepeat ids

-- The channels of these calls have room.
HasRoom : Dict ℤ Entry → List ℤ → Type 0
HasRoom pending ids =
    (k : ℤ) → listed ids k ≡ true → (e : Entry) × (Dict.get pending k ≡ some e) × (e.channel ≡ none)

abbrev filled : SessionResponse → Bool → Option Entry → Option Entry
filled r true (some e) = some (record e { channel = some r })
filled r true none = none
filled r false entry = entry

HasRoom-put :
    (pending : Dict ℤ Entry) (i : ℤ) (ids : List ℤ) (e : Entry)
    → listed ids i ≡ false
    → HasRoom pending (i ∷ ids)
    → HasRoom (Dict.put pending i e) ids
unfolding HasRoom listed
HasRoom-put pending i ids e apart room k here =
    let (e', found, free) = room k (ground arith) in
    (e', rw (get-put pending i k e) (ground (arith, int_eq.beq_iff i k)), free)

fill_one :
    (s : SessionClient) (r : SessionResponse) (i : ℤ) (ids : List ℤ) (e : Entry)
    → listed ids i ≡ false
    → Dict.get s.pending i ≡ some e
    → (j : ℤ)
    → filled r (listed ids j) (Dict.get (Dict.put s.pending i (record e { channel = some r })) j)
      ≡ filled r (listed (i ∷ ids) j) (Dict.get s.pending j)
unfolding listed
fill_one s r i ids e apart found j =
    rw (get-put s.pending i j (record e { channel = some r })) (elim (Bool-cases (int_eq.beq i j)) [
      | inl same ↦
          let at : i ≡ j = (int_eq.beq_iff i j).0 same in
          let apart_j : listed ids j ≡ false = rw at at apart in
          let found_j : Dict.get s.pending j ≡ some e = rw at at found in
          rw same (rw apart_j (rw found_j refl))
      | inr other ↦ rw other refl
    ])

-- Every one of the calls gets the response, the others are left alone.
send_each-get :
    (s : SessionClient) (r : SessionResponse) (ids : List ℤ)
    → NoRepeat ids
    → HasRoom s.pending ids
    → ((send_each s r ids).held ≡ s.held)
      × ((send_each s r ids).results ≡ s.results)
      × ((j : ℤ)
          → Dict.get (send_each s r ids).pending j ≡ filled r (listed ids j) (Dict.get s.pending j))
unfolding send_each listed HasRoom
send_each-get s r [] once room = (refl, refl, λ j. refl)
send_each-get s r (i ∷ ids) (apart, once) room =
    let (e, found, free) = room i (unfold listed in ground (arith, int_eq.beq_iff i i)) in
    let full : Entry = record e { channel = some r } in
    let (h, g, rest) =
      send_each-get (set_entry s i full) r ids once (HasRoom-put s.pending i ids full apart room) in
    rw (found, send_each)
      (rw (free, send_each) (h, g, λ j. rest j ∙ fill_one s r i ids e apart found j))

listed-get :
    (pending : Dict ℤ Entry) (j : ℤ) (e : Entry)
    → Dict.get pending j ≡ some e
    → listed (ids_of pending) j ≡ true
unfolding listed ids_of Dict.get
listed-get [] j e h = absurd (ground arith)
listed-get ((i, x) ∷ pending) j e h = ground (arith, listed-get pending j e)

listed-absent :
    (pending : Dict ℤ Entry) (j : ℤ) → Dict.get pending j ≡ none → listed (ids_of pending) j ≡ false
unfolding listed ids_of Dict.get
listed-absent [] j h = refl
listed-absent ((i, x) ∷ pending) j h = ground (arith, listed-absent pending j)

NoRepeat-ids_of : (pending : Dict ℤ Entry) → Distinct pending → NoRepeat (ids_of pending)
unfolding ids_of
NoRepeat-ids_of [] d = tt
NoRepeat-ids_of ((i, x) ∷ pending) (d, ds) = (listed-absent pending i d, NoRepeat-ids_of pending ds)

-- Every channel is empty.
abbrev pub Empty : Dict ℤ Entry → Type 0
Empty = All (λ x. x.1.channel ≡ none)

HasRoom-Empty : (pending : Dict ℤ Entry) → Empty pending → HasRoom pending (ids_of pending)
unfolding HasRoom listed ids_of Dict.get
HasRoom-Empty [] h k here = absurd (ground arith)
HasRoom-Empty ((i, x) ∷ pending) (free, h) k here = elim (Bool-cases (int_eq.beq i k)) [
  | inl same ↦ (x, rw same refl, free)
  | inr other ↦
      let (e, found, room) = HasRoom-Empty pending h k (ground arith) in (e, rw other found, room)
]

run-cons :
    (s t : SessionClient) (e : ClientEvent) (es : List ClientEvent)
    → client_step s e ≡ some t
    → client_run s (e ∷ es) ≡ client_run t es
unfolding client_run
run-cons s t e es h = rw (h, client_run) refl

-- A call in flight whose channel holds a response can take it.
receive-held :
    (s : SessionClient) (id : ℤ) (e : Entry) (r : SessionResponse)
    → s.held ≡ none
    → Dict.get s.pending id ≡ some e
    → e.stage ≡ in_flight
    → e.channel ≡ some r
    → receive_response s id
      ≡ some (set_entry s id (record { stage = returning (result_of r); channel = none }))
unfolding receive_response take_response resume
receive-held s id e r free found waits holds =
    rw (found, receive_response)
      (rw waits (rw (holds, take_response) (ap (λ h. some (resume s id (result_of r) h)) free)))

-- A call that is past its `select` can end.
end-returning :
    (s : SessionClient) (id : ℤ) (result : CallResult)
    → end_call (set_entry s id (record { stage = returning result; channel = none })) id
      ≡ some (record s {
        pending =
            Dict.remove
              (Dict.put s.pending id (record { stage = returning result; channel = none }))
              id;
        results = (id, result) ∷ s.results;
      })
unfolding end_call leave_call
end-returning s id result =
    let put = get-put s.pending id id (record { stage = returning result; channel = none }) in
    rw (put, end_call) (rw ((int_eq.beq_iff id id).1 refl) refl)

-- Where no channel holds a response when the connection is lost, every call in flight can take the
-- error at once and return it.
pub read_failed-returns :
    (s : SessionClient) (message : Bytes) (id : ℤ) (entry : Entry)
    → s.held ≡ none
    → Distinct s.pending
    → Empty s.pending
    → Dict.get s.pending id ≡ some entry
    → entry.stage ≡ in_flight
    → (t : SessionClient) × (client_run s (read_failed message ∷ reception id ∷ end id ∷ [])
        ≡ some t)
      × (t.results ≡ (id, manager_error message) ∷ s.results)
unfolding client_step fail_all_pending result_of client_run
read_failed-returns s message id entry free distinct empty found waits =
    let r = lost message in
    let (held, same_results, got) =
      send_each-get s r (ids_of s.pending) (NoRepeat-ids_of s.pending distinct)
        (HasRoom-Empty s.pending empty) in
    let one : SessionClient = send_each s r (ids_of s.pending) in
    let filled_in : Dict.get one.pending id ≡ some (record entry { channel = some r }) =
      got id ∙ rw (listed-get s.pending id entry found) (rw found refl) in
    let first : client_step s (read_failed message) ≡ some one = rw (free, client_step) refl in
    let taken =
      receive-held one id (record entry { channel = some r }) r (held ∙ free) filled_in waits
        refl in
    let two : SessionClient =
      set_entry one id (record { stage = returning (manager_error message); channel = none }) in
    let three = end-returning one id (manager_error message) in
    let open_again : two.held ≡ none = held ∙ free in
    let last : client_step two (end id) ≡ end_call two id = rw (open_again, client_step) refl in
    (
      _,
      run-cons s one (read_failed message) (reception id ∷ end id ∷ []) first
          ∙ run-cons one two (reception id) (end id ∷ []) taken
          ∙ run-cons two _ (end id) [] (last ∙ three),
      ap (λ results. (id, manager_error message) ∷ results) same_results,
    )
