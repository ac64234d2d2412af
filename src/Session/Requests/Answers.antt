-- ===== src/Session/Requests/Answers.antt =====
-- A call returns what the server answered to it.
use mcp_bsl_lsp_bridge.Prelude.{
  Option, none, some, List, [], ◌∷◌, ◌≡◌, refl, sym, ◌⊎◌, inl, inr, arith, All, Bool-cases,
  Option-cases, some-injective,
}
use mcp_bsl_lsp_bridge.Prelude.Int.{ℤ, int_eq}
use mcp_bsl_lsp_bridge.Prelude.Dict
use mcp_bsl_lsp_bridge.Prelude.Dict.{Dict, All-put, All-remove, All-found}
use mcp_bsl_lsp_bridge.Session.Requests.{
  Session, Call, Outcome, Phase, LspResponse, BaseMessage, Dispatch, notification, dropped, waiting,
  leaving, Event, request, message, reception, expiry, return, receive, expire, deliver, finish,
  step, run, take_from, give_up, leave, refill, fill, outcome, cancelled, increment, read_message,
  send_request, dispatch, new_session, when_unlocked,
}

-- `P id r` is read as: the server answered `r` to `id`.
module _ (P : ℤ → LspResponse → Type 0) where
  -- The outcome of a call: it was cancelled, or it is made of an answer to its id.
  abbrev pub Explained : ℤ × Outcome → Type 0
  Explained (id, o) = (o ≡ cancelled) ⊎ ((r : LspResponse) × P id r × (o ≡ outcome r))

  abbrev pub Answers : Dispatch → Type 0
  Answers (Dispatch.response id r) = P id r
  Answers _ = Unit

  -- A message that is a response is an answer.
  abbrev pub Answering : Event → Type 0
  Answering (message m) = Answers (dispatch m)
  Answering _ = Unit

  abbrev Buffered : ℤ → Option LspResponse → Type 0
  Buffered id none = Unit
  Buffered id (some r) = P id r

  abbrev Left : ℤ → Phase → Type 0
  Left id waiting = Unit
  Left id (leaving o) = Explained (id, o)

  abbrev Held : Option (ℤ × LspResponse) → Type 0
  Held none = Unit
  Held (some (id, r)) = P id r

  abbrev InFlight : ℤ × Call → Type 0
  InFlight (id, call) = Buffered id call.buffer × Left id call.phase

  record IsSound (s : Session) : Type 0 where
    pub in_flight : All InFlight s.pending
    pub held : Held s.blocked
    pub explained : All Explained s.results

  put-IsSound :
      (s : Session) (id : ℤ) (call : Call)
      → IsSound s
      → InFlight (id, call)
      → IsSound (record s { pending = Dict.put s.pending id call })
  put-IsSound s id call h p = record {
    in_flight = All-put InFlight s.pending id call h.in_flight p;
    held = h.held;
    explained = h.explained;
  }

  blocked-IsSound :
      (s : Session) (o : Option (ℤ × LspResponse))
      → IsSound s
      → Held o
      → IsSound (record s { blocked = o })
  blocked-IsSound s o h p = record { in_flight = h.in_flight; held = p; explained = h.explained }

  send_request-IsSound : (s : Session) → IsSound s → IsSound (send_request s)
  unfolding send_request
  send_request-IsSound s h = record {
    in_flight = All-put InFlight s.pending (increment s.request_id) _ h.in_flight (tt, tt);
    held = h.held;
    explained = h.explained;
  }

  fill-IsSound :
      (s : Session) (id : ℤ) (r : LspResponse) (call : Call) (b : Option LspResponse)
      → IsSound s
      → P id r
      → InFlight (id, call)
      → call.buffer ≡ b
      → IsSound (fill s id r call)
  fill-IsSound s id r call none h p i e = rw e (put-IsSound s id _ h (p, i.1))
  fill-IsSound s id r call (some held) h p i e = rw e (blocked-IsSound s _ h p)

  deliver-IsSound :
      (s : Session) (id : ℤ) (r : LspResponse) → IsSound s → P id r → IsSound (deliver s id r)
  unfolding deliver
  deliver-IsSound s id r h p = elim (Option-cases (Dict.get s.pending id)) [
    | inl e ↦ rw (e, deliver) h
    | inr (call, e) ↦
        rw (e, deliver)
          (fill-IsSound s id r call call.buffer h p
            (All-found InFlight s.pending id call h.in_flight e) refl)
  ]

  read_message-IsSound :
      (s : Session) (m : BaseMessage) (d : Dispatch)
      → IsSound s
      → Answering (message m)
      → dispatch m ≡ d
      → IsSound (read_message s m)
  unfolding read_message
  read_message-IsSound s m (Dispatch.response id r) h a e =
      let p : P id r = rw e at a in rw (e, read_message) (deliver-IsSound s id r h p)
  read_message-IsSound s m (notification x) h a e = rw (e, read_message) h
  read_message-IsSound s m dropped h a e = rw (e, read_message) h

  refill-IsSound :
      (s : Session) (id : ℤ) (o : Outcome) (b : Option (ℤ × LspResponse))
      → IsSound s
      → Held b
      → Explained (id, o)
      → IsSound (refill s id o b)
  refill-IsSound s id o none h p x = put-IsSound s id _ h (tt, x)
  refill-IsSound s id o (some (j, r)) h p x = elim (Bool-cases (int_eq.beq j id)) [
    | inl e ↦
        let p' : P id r = rw ((int_eq.beq_iff j id).0 e) at p in
        rw e (blocked-IsSound _ none (put-IsSound s id _ h (p', x)) tt)
    | inr e ↦ rw e (put-IsSound s id _ h (tt, x))
  ]

  take_from-IsSound :
      (s : Session) (id : ℤ) (phase : Phase) (b : Option LspResponse) (t : Session)
      → IsSound s
      → Buffered id b
      → take_from s id phase b ≡ some t
      → IsSound t
  take_from-IsSound s id waiting (some r) t h p e =
      rw (sym (some-injective e))
        (refill-IsSound s id (outcome r) s.blocked h h.held (inr (r, p, refl)))
  take_from-IsSound s id waiting none t h p e = absurd (ground arith)
  take_from-IsSound s id (leaving o) b t h p e = absurd (ground arith)

  give_up-IsSound :
      (s : Session) (id : ℤ) (call : Call) (phase : Phase) (t : Session)
      → IsSound s
      → InFlight (id, call)
      → give_up s id call phase ≡ some t
      → IsSound t
  give_up-IsSound s id call waiting t h i e =
      rw (sym (some-injective e)) (put-IsSound s id _ h (i.0, inl refl))
  give_up-IsSound s id call (leaving o) t h i e = absurd (ground arith)

  leave-IsSound :
      (s : Session) (id : ℤ) (phase : Phase) (t : Session)
      → IsSound s
      → Left id phase
      → leave s id phase ≡ some t
      → IsSound t
  leave-IsSound s id waiting t h i e = absurd (ground arith)
  leave-IsSound s id (leaving o) t h i e = rw (sym (some-injective e)) (record {
    in_flight = All-remove InFlight s.pending id h.in_flight;
    held = h.held;
    explained = (i, h.explained);
  })

  receive-IsSound :
      (s : Session) (id : ℤ) (t : Session) → IsSound s → receive s id ≡ some t → IsSound t
  unfolding receive
  receive-IsSound s id t h e = elim (Option-cases (Dict.get s.pending id)) [
    | inl n ↦ let q : none ≡ some t = rw (n, receive) at e in absurd (ground arith)
    | inr (call, n) ↦
        let i = All-found InFlight s.pending id call h.in_flight n in
        take_from-IsSound s id call.phase call.buffer t h i.0 (rw (n, receive) at e)
  ]

  expire-IsSound :
      (s : Session) (id : ℤ) (t : Session) → IsSound s → expire s id ≡ some t → IsSound t
  unfolding expire
  expire-IsSound s id t h e = elim (Option-cases (Dict.get s.pending id)) [
    | inl n ↦ let q : none ≡ some t = rw (n, expire) at e in absurd (ground arith)
    | inr (call, n) ↦
        let i = All-found InFlight s.pending id call h.in_flight n in
        give_up-IsSound s id call call.phase t h i (rw (n, expire) at e)
  ]

  finish-IsSound :
      (s : Session) (id : ℤ) (t : Session) → IsSound s → finish s id ≡ some t → IsSound t
  unfolding finish
  finish-IsSound s id t h e = elim (Option-cases (Dict.get s.pending id)) [
    | inl n ↦ let q : none ≡ some t = rw (n, finish) at e in absurd (ground arith)
    | inr (call, n) ↦
        let i = All-found InFlight s.pending id call h.in_flight n in
        leave-IsSound s id call.phase t h i.1 (rw (n, finish) at e)
  ]

  unlocked :
      (b : Option (ℤ × LspResponse)) (next : Option Session) (t : Session)
      → when_unlocked b next ≡ some t
      → next ≡ some t
  unlocked none next t e = e
  unlocked (some held) next t e = absurd (ground arith)

  step-IsSound :
      (s : Session) (e : Event) (t : Session)
      → IsSound s
      → Answering e
      → step s e ≡ some t
      → IsSound t
  unfolding step
  step-IsSound s request t h a n =
      rw (sym (some-injective (unlocked s.blocked _ t n))) (send_request-IsSound s h)
  step-IsSound s (message m) t h a n =
      rw (sym (some-injective (unlocked s.blocked _ t n)))
        (read_message-IsSound s m (dispatch m) h a refl)
  step-IsSound s (reception id) t h a n = receive-IsSound s id t h n
  step-IsSound s (expiry id) t h a n = expire-IsSound s id t h n
  step-IsSound s (return id) t h a n = finish-IsSound s id t h (unlocked s.blocked _ t n)

  run-IsSound :
      (s : Session) (events : List Event) (t : Session)
      → IsSound s
      → All Answering events
      → run s events ≡ some t
      → IsSound t
  unfolding run
  run-IsSound s [] t h a n = rw (sym (some-injective n)) h
  run-IsSound s (e ∷ events) t h (a, rest) n = elim (Option-cases (step s e)) [
    | inl m ↦ let q : none ≡ some t = rw (m, run) at n in absurd (ground arith)
    | inr (u, m) ↦ run-IsSound u events t (step-IsSound s e u h a m) rest (rw (m, run) at n)
  ]

  -- Whatever the order of requests, messages, timeouts and returns, each call that returned
  -- was cancelled or returned an answer of the server to its own id, where `P` holds of what
  -- the messages answer.
  pub run-Explained :
      (events : List Event) (s : Session)
      → All Answering events
      → run new_session events ≡ some s
      → All Explained s.results
  run-Explained events s a n =
      let sound =
        run-IsSound new_session events s (record { in_flight = tt; held = tt; explained = tt }) a
          n in
      sound.explained
