-- ===== src/Lsp/SessionClient/Stuck.antt =====
-- What a lost connection does to a client with a response that its call did not take in time.
use mcp_bsl_lsp_bridge.Prelude.{
  false, Option, none, some, List, [], ◌∷◌, ◌≡◌, refl, sym, ◌∙◌, ap, inl, inr, arith, Bool-cases,
  Option-cases, some-injective,
}
use mcp_bsl_lsp_bridge.Prelude.Int.{ℤ, int_eq}
use mcp_bsl_lsp_bridge.Prelude.Bytes.{Bytes}
use mcp_bsl_lsp_bridge.Prelude.Dict
use mcp_bsl_lsp_bridge.Prelude.Dict.{Dict, get-put}
use mcp_bsl_lsp_bridge.Lsp.SessionClient.{
  SessionClient, SessionResponse, Entry, Stage, in_flight, returning, CallResult, context_done,
  Held, set_entry, send_each, ids_of, lost, fail_all_pending, resume, result_of, take_response,
  receive_response, give_up_call, context_ends, with_mutex, ClientEvent, dialled, redial, closing,
  calling, response_read, read_failed, reception, done, write_error, end, client_step, client_run,
}

-- A reader holds `mu` and waits for a channel whose call is past its `select`.
record IsStuck (s : SessionClient) (results : List (ℤ × CallResult)) : Type 0 where
  holder : Held
  holds : s.held ≡ some holder
  entry : Entry
  found : Dict.get s.pending holder.id ≡ some entry
  verdict : CallResult
  gone : entry.stage ≡ returning verdict
  same : s.results ≡ results

module _ (s : SessionClient) (results : List (ℤ × CallResult)) (stuck : IsStuck s results) where
  -- A call in flight is another one.
  other_call :
      (j : ℤ) (e : Entry)
      → Dict.get s.pending j ≡ some e
      → e.stage ≡ in_flight
      → int_eq.beq stuck.holder.id j ≡ false
  other_call j e found waits = elim (Bool-cases (int_eq.beq stuck.holder.id j)) [
    | inr apart ↦ apart
    | inl at ↦
        let here : stuck.holder.id ≡ j = (int_eq.beq_iff stuck.holder.id j).0 at in
        let again : Dict.get s.pending stuck.holder.id ≡ some e = rw here found in
        let entries : stuck.entry ≡ e = some-injective (sym stuck.found ∙ again) in
        let stages : returning stuck.verdict ≡ in_flight =
          sym stuck.gone ∙ ap (λ x. x.stage) entries ∙ waits in
        absurd (ground arith)
  ]

  -- A change of another entry leaves the client stuck.
  elsewhere :
      (j : ℤ) (e : Entry) → int_eq.beq stuck.holder.id j ≡ false → IsStuck (set_entry s j e) results
  elsewhere j e apart = record {
    holder = stuck.holder;
    holds = stuck.holds;
    entry = stuck.entry;
    found =
        get-put s.pending j stuck.holder.id e
        ∙ (let flipped : int_eq.beq j stuck.holder.id ≡ false =
              ground (arith, int_eq.beq_iff j stuck.holder.id, int_eq.beq_iff stuck.holder.id j) in
            rw flipped stuck.found);
    verdict = stuck.verdict;
    gone = stuck.gone;
    same = stuck.same;
  }

  take-IsStuck :
      (j : ℤ) (e : Entry) (stage : Stage) (channel : Option SessionResponse) (t : SessionClient)
      → Dict.get s.pending j ≡ some e
      → e.stage ≡ stage
      → take_response s j stage channel ≡ some t
      → IsStuck t results
  unfolding take_response resume
  take-IsStuck j e in_flight (some r) t found waits h =
      let apart = other_call j e found waits in
      let d : Entry = record { stage = returning (result_of r); channel = none } in
      let unresumed : resume s j (result_of r) (some stuck.holder) ≡ set_entry s j d =
        rw (apart, resume) refl in
      let next : resume s j (result_of r) s.held ≡ set_entry s j d =
        ap (resume s j (result_of r)) stuck.holds ∙ unresumed in
      rw (sym (some-injective h) ∙ next) (elsewhere j d apart)
  take-IsStuck j e in_flight none t found waits h = absurd (ground arith)
  take-IsStuck j e (returning v) channel t found waits h = absurd (ground arith)

  give_up-IsStuck :
      (j : ℤ) (e : Entry) (stage : Stage) (t : SessionClient)
      → Dict.get s.pending j ≡ some e
      → e.stage ≡ stage
      → give_up_call s j e stage context_done ≡ some t
      → IsStuck t results
  unfolding give_up_call
  give_up-IsStuck j e in_flight t found waits h =
      rw (sym (some-injective h))
        (elsewhere j (record e { stage = returning context_done }) (other_call j e found waits))
  give_up-IsStuck j e (returning v) t found waits h = absurd (ground arith)

  mutex_taken : (next : Option SessionClient) → with_mutex s.held next ≡ none
  mutex_taken next = rw stuck.holds refl

  blocked :
      (next : Option SessionClient) (t : SessionClient)
      → with_mutex s.held next ≡ some t
      → IsStuck t results
  blocked next t h =
      let no_step : none ≡ some t = sym (mutex_taken next) ∙ h in absurd (ground arith)

  step-IsStuck :
      (event : ClientEvent) (t : SessionClient) → client_step s event ≡ some t → IsStuck t results
  unfolding client_step receive_response context_ends
  step-IsStuck (dialled c) t h = blocked _ t h
  step-IsStuck redial t h = blocked _ t h
  step-IsStuck closing t h = blocked _ t h
  step-IsStuck calling t h = blocked _ t h
  step-IsStuck (response_read id r) t h = blocked _ t h
  step-IsStuck (read_failed message) t h = blocked _ t h
  step-IsStuck (reception id) t h = elim (Option-cases (Dict.get s.pending id)) [
    | inl absent ↦ absurd (ground (arith, h, absent))
    | inr (e, found) ↦
        take-IsStuck id e e.stage e.channel t found refl (rw (found, receive_response) at h)
  ]
  step-IsStuck (done id) t h = elim (Option-cases (Dict.get s.pending id)) [
    | inl absent ↦ absurd (ground (arith, h, absent))
    | inr (e, found) ↦ give_up-IsStuck id e e.stage t found refl (rw (found, context_ends) at h)
  ]
  step-IsStuck (write_error id) t h = blocked _ t h
  step-IsStuck (end id) t h = blocked _ t h

run-IsStuck :
    (s : SessionClient) (results : List (ℤ × CallResult)) (events : List ClientEvent)
    (t : SessionClient)
    → IsStuck s results
    → client_run s events ≡ some t
    → IsStuck t results
unfolding client_run
run-IsStuck s results [] t stuck h = rw (sym (some-injective h)) stuck
run-IsStuck s results (event ∷ events) t stuck h = elim (Option-cases (client_step s event)) [
  | inl refused ↦ absurd (ground (arith, h, refused))
  | inr (next, taken) ↦
      run-IsStuck next results events t (step-IsStuck s results stuck event next taken)
        (rw (taken, client_run) at h)
]

-- Where the call of the entry that `failAllPending` comes to first has given up while its channel
-- holds a response, the client is blocked from then on: whatever happens, no call returns and none
-- begins.
pub read_failed-blocks :
    (s : SessionClient) (message : Bytes) (id : ℤ) (entry : Entry) (others : Dict ℤ Entry)
    (verdict : CallResult) (r : SessionResponse) (events : List ClientEvent) (t : SessionClient)
    → s.held ≡ none
    → s.pending ≡ (id, entry) ∷ others
    → entry.stage ≡ returning verdict
    → entry.channel ≡ some r
    → client_run s (read_failed message ∷ events) ≡ some t
    → (t.results ≡ s.results) × (client_step t calling ≡ none)
unfolding client_run client_step fail_all_pending ids_of send_each
read_failed-blocks s message id entry others verdict r events t free first gone full h =
    let found : Dict.get s.pending id ≡ some entry =
      rw first (unfold Dict.get in rw ((int_eq.beq_iff id id).1 refl) refl) in
    let held : Held = record { id = id; response = lost message; rest = ids_of others } in
    let in_order : ids_of s.pending ≡ id ∷ ids_of others = ap ids_of first in
    let sent : send_each s (lost message) (ids_of s.pending) ≡ record s { held = some held } =
      ap (send_each s (lost message)) in_order
      ∙ rw (found, send_each) (rw (full, send_each) refl) in
    let begun : client_step s (read_failed message) ≡ some (record s { held = some held }) =
      ap (λ h. with_mutex h (some (fail_all_pending s message))) free ∙ ap some sent in
    let stuck : IsStuck (record s { held = some held }) s.results = record {
      holder = held;
      holds = refl;
      entry = entry;
      found = found;
      verdict = verdict;
      gone = gone;
      same = refl;
    } in
    let after =
      run-IsStuck (record s { held = some held }) s.results events t stuck
        (rw (begun, client_run) at h) in
    (after.same, rw (after.holds, client_step) refl)
