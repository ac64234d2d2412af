-- ===== src/Session/Requests/Deadlock.antt =====
-- What becomes of the session when a channel is full and its waiter has gone.
use mcp_bsl_lsp_bridge.Prelude.{
  true, false, Option, none, some, List, [], ◌∷◌, ◌≡◌, ◌≢◌, refl, sym, ap, ◌∙◌, arith, Bool-cases,
  Option-cases, some-injective, inl, inr,
}
use mcp_bsl_lsp_bridge.Prelude.Int.{ℤ, int_eq}
use mcp_bsl_lsp_bridge.Prelude.Dict
use mcp_bsl_lsp_bridge.Prelude.Dict.{Dict, get-put}
use mcp_bsl_lsp_bridge.Session.Requests.{
  Session, Call, Outcome, Phase, LspResponse, BaseMessage, waiting, leaving, Event, request,
  message, reception, expiry, return, receive, expire, deliver, finish, step, run, when_unlocked,
  dispatch, is_set, as_int64, take_from, give_up, refill, outcome, cancelled, increment,
  read_message, send_request,
}

-- The reader is blocked on the channel of a call that is past its `select`.
pub record IsStuck (s : Session) (id : ℤ) (r : LspResponse) : Type 0 where
  pub blocked : s.blocked ≡ some (id, r)
  pub call : Call
  pub found : Dict.get s.pending id ≡ some call
  pub verdict : Outcome
  pub gone : call.phase ≡ leaving verdict

int-differ : (a b : ℤ) → a ≢ b → int_eq.beq a b ≡ false
int-differ a b ne = elim (Bool-cases (int_eq.beq a b)) [
  | inl h ↦ absurd (ne ((int_eq.beq_iff a b).0 h))
  | inr h ↦ h
]

beq_refl : (a : ℤ) → int_eq.beq a a ≡ true
beq_refl a = (int_eq.beq_iff a a).1 refl

get-put_same : (m : Dict ℤ Call) (k : ℤ) (c : Call) → Dict.get (Dict.put m k c) k ≡ some c
get-put_same m k c = rw (get-put m k k c) (rw (beq_refl k) refl)

module _ (s : Session) (id : ℤ) (r : LspResponse) (stuck : IsStuck s id r) where
  waiting-differs : (j : ℤ) (c : Call) → Dict.get s.pending j ≡ some c → c.phase ≡ waiting → id ≢ j
  waiting-differs j c e w same =
      let f : Dict.get s.pending id ≡ some c = rw same e in
      let g : stuck.call ≡ c = some-injective (sym stuck.found ∙ f) in
      let p : leaving stuck.verdict ≡ waiting = sym stuck.gone ∙ ap (λ x. x.phase) g ∙ w in
      absurd (ground arith)

  elsewhere :
      (j : ℤ) (c : Call) → id ≢ j → IsStuck (record s { pending = Dict.put s.pending j c }) id r
  elsewhere j c ne = record {
    blocked = stuck.blocked;
    call = stuck.call;
    found = rw (get-put s.pending j id c) (rw (int-differ j id (λ e. ne (sym e))) stuck.found);
    verdict = stuck.verdict;
    gone = stuck.gone;
  }

  take_from-IsStuck :
      (j : ℤ) (c : Call) (p : Phase) (b : Option LspResponse) (t : Session)
      → Dict.get s.pending j ≡ some c
      → c.phase ≡ p
      → take_from s j p b ≡ some t
      → IsStuck t id r × (t.results ≡ s.results)
  take_from-IsStuck j c waiting (some x) t e w h =
      let ne = waiting-differs j c e w in
      let d : Call = record { phase = leaving (outcome x); buffer = none } in
      let same : refill s j (outcome x) s.blocked ≡ record s { pending = Dict.put s.pending j d } =
        rw stuck.blocked (rw (int-differ id j ne) refl) in
      rw (sym (some-injective h)) (rw same (elsewhere j d ne, refl))
  take_from-IsStuck j c waiting none t e w h = absurd (ground arith)
  take_from-IsStuck j c (leaving o) b t e w h = absurd (ground arith)

  give_up-IsStuck :
      (j : ℤ) (c : Call) (p : Phase) (t : Session)
      → Dict.get s.pending j ≡ some c
      → c.phase ≡ p
      → give_up s j c p ≡ some t
      → IsStuck t id r × (t.results ≡ s.results)
  give_up-IsStuck j c waiting t e w h =
      let ne = waiting-differs j c e w in
      rw (sym (some-injective h)) (elsewhere j (record c { phase = leaving cancelled }) ne, refl)
  give_up-IsStuck j c (leaving o) t e w h = absurd (ground arith)

  receive-IsStuck :
      (j : ℤ) (t : Session) → receive s j ≡ some t → IsStuck t id r × (t.results ≡ s.results)
  unfolding receive
  receive-IsStuck j t h = elim (Option-cases (Dict.get s.pending j)) [
    | inl e ↦ let q : none ≡ some t = rw (e, receive) at h in absurd (ground arith)
    | inr (c, e) ↦ take_from-IsStuck j c c.phase c.buffer t e refl (rw (e, receive) at h)
  ]

  expire-IsStuck :
      (j : ℤ) (t : Session) → expire s j ≡ some t → IsStuck t id r × (t.results ≡ s.results)
  unfolding expire
  expire-IsStuck j t h = elim (Option-cases (Dict.get s.pending j)) [
    | inl e ↦ let q : none ≡ some t = rw (e, expire) at h in absurd (ground arith)
    | inr (c, e) ↦ give_up-IsStuck j c c.phase t e refl (rw (e, expire) at h)
  ]

  locked : (next : Option Session) (t : Session) → when_unlocked s.blocked next ≢ some t
  locked next t h = let q : none ≡ some t = rw stuck.blocked at h in ground arith

  step-IsStuck :
      (e : Event) (t : Session) → step s e ≡ some t → IsStuck t id r × (t.results ≡ s.results)
  unfolding step
  step-IsStuck request t h = absurd (locked (some (send_request s)) t h)
  step-IsStuck (message m) t h = absurd (locked (some (read_message s m)) t h)
  step-IsStuck (reception j) t h = receive-IsStuck j t h
  step-IsStuck (expiry j) t h = expire-IsStuck j t h
  step-IsStuck (return j) t h = absurd (locked (finish s j) t h)

  request-locked : step s request ≡ none
  unfolding step
  request-locked = rw stuck.blocked refl

-- A session that is stuck stays so: no call returns any more, and none can begin.
run-IsStuck :
    (s : Session) (id : ℤ) (r : LspResponse)
    → IsStuck s id r
    → (events : List Event) (t : Session) → run s events ≡ some t
    → IsStuck t id r × (t.results ≡ s.results)
unfolding run
run-IsStuck s id r stuck [] t h = rw (sym (some-injective h)) (stuck, refl)
run-IsStuck s id r stuck (e ∷ events) t h = elim (Option-cases (step s e)) [
  | inl n ↦ let q : none ≡ some t = rw (n, run) at h in absurd (ground arith)
  | inr (u, n) ↦
      let (next, same) = step-IsStuck s id r stuck e u n in
      let (last, still) = run-IsStuck u id r next events t (rw (n, run) at h) in
      (last, still ∙ same)
]

run-nil : (s : Session) → run s [] ≡ some s
unfolding run
run-nil s = refl

run-cons :
    (s : Session) (e : Event) (t : Session) (events : List Event)
    → step s e ≡ some t
    → run s (e ∷ events) ≡ run t events
unfolding run
run-cons s e t events h = rw (h, run) refl

-- A message of the server that answers the id.
abbrev pub reply : ℤ → LspResponse → BaseMessage
reply id r = record {
  id = some (record { int_value = some id; str_value = none });
  method = [];
  response = r;
}

-- A new call, two responses to it, and its timeout before it reads the first.
abbrev pub answered_twice : ℤ → LspResponse → LspResponse → List Event
answered_twice id r1 r2 = request ∷ message (reply id r1) ∷ message (reply id r2) ∷ expiry id ∷ []

module _ (n : ℤ) (pending : Dict ℤ Call) (results : List (ℤ × Outcome)) (r1 r2 : LspResponse) where
  -- Any session whose reader is not blocked.
  abbrev pub running : Session
  running = record { request_id = n; pending = pending; blocked = none; results = results }

  -- the id of the call that begins next
  abbrev pub id : ℤ
  id = increment n

  abbrev pub begun : Dict ℤ Call
  begun = Dict.put pending id (record { phase = waiting; buffer = none })

  abbrev pub answered : Dict ℤ Call
  answered = Dict.put begun id (record { phase = waiting; buffer = some r1 })

  abbrev pub stuck_session : Session
  stuck_session = record {
    request_id = id;
    pending = Dict.put answered id (record { phase = leaving cancelled; buffer = some r1 });
    blocked = some (id, r2);
    results = results;
  }

  stuck_session-IsStuck : IsStuck stuck_session id r2
  stuck_session-IsStuck = record {
    blocked = refl;
    call = record { phase = leaving cancelled; buffer = some r1 };
    found = get-put_same answered id _;
    verdict = cancelled;
    gone = refl;
  }

  abbrev first_held : Session
  first_held = record { request_id = id; pending = answered; blocked = none; results = results }

  abbrev second_held : Session
  second_held = record first_held { blocked = some (id, r2) }

  deliver-first : deliver (send_request running) id r1 ≡ first_held
  unfolding deliver send_request
  deliver-first = rw (get-put_same pending id, deliver) refl

  deliver-second : deliver first_held id r2 ≡ second_held
  unfolding deliver
  deliver-second = rw (get-put_same begun id, deliver) refl

  expire-held : expire second_held id ≡ some stuck_session
  unfolding expire
  expire-held = rw (get-put_same begun id, expire) refl

  first_reply : step (send_request running) (message (reply id r1)) ≡ some first_held
  unfolding step read_message dispatch is_set as_int64 send_request
  first_reply = ap some deliver-first

  second_reply : step first_held (message (reply id r2)) ≡ some second_held
  unfolding step read_message dispatch is_set as_int64
  second_reply = ap some deliver-second

  timeout : step second_held (expiry id) ≡ some stuck_session
  unfolding step
  timeout = expire-held

  request_sent : step running request ≡ some (send_request running)
  unfolding step
  request_sent = refl

  run-answered_twice : run running (answered_twice id r1 r2) ≡ some stuck_session
  run-answered_twice =
      run-cons running request (send_request running) _ request_sent
      ∙ run-cons (send_request running) _ first_held _ first_reply
      ∙ run-cons first_held _ second_held _ second_reply
      ∙ run-cons second_held _ stuck_session [] timeout
      ∙ run-nil stuck_session

  -- Two responses to one call that times out block the reader for good: the call begins and the
  -- steps are taken, and after any further events no call has returned and none can begin.
  pub answered_twice-deadlock :
      (events : List Event) (t : Session)
      → run stuck_session events ≡ some t
      → (run running (answered_twice id r1 r2) ≡ some stuck_session)
        × (t.results ≡ results)
        × (step t request ≡ none)
  answered_twice-deadlock events t h =
      let (still, same) = run-IsStuck stuck_session id r2 stuck_session-IsStuck events t h in
      (run-answered_twice, same, request-locked t id r2 still)
