-- ===== src/Tools/Readiness/Ready.antt =====
-- mcpserver/tools/readiness.go: when `BuildLSPStatus` says that the tools may run.
use mcp_bsl_lsp_bridge.Prelude.{
  suc, ◌+◌, Bool, true, false, not, ◌&&◌, ◌||◌, List, [], ◌∷◌, ◌≡◌, refl, ◌∙◌, ap, inl, inr, arith,
  Bool-cases, length, length-append, ltb, lt→ltb, ◌<◌,
}
use mcp_bsl_lsp_bridge.Prelude.Bytes.{codes, contains}
use mcp_bsl_lsp_bridge.Tools.Readiness.{
  Client, ClientStatus, uninitialized, connecting, connected, failed, restarting, disconnected,
  unknown, is_disconnected, State, error, Scan, is_before, insert_client, sort_clients,
  is_conn_error, scan_client, scan_clients, new_scan, state_of, status_of, build_lsp_status,
}

-- The statuses in which the connection may stand.
abbrev pub may_stand : ClientStatus → Bool
may_stand uninitialized = true
may_stand connecting = true
may_stand connected = true
may_stand failed = true
may_stand restarting = true
may_stand disconnected = false
may_stand unknown = true

-- The client is connected, its status is not `disconnected`, and its last error is none of those
-- that mean that the connection is gone.
abbrev pub is_healthy : Client → Bool
is_healthy c =
    c.is_connected
    && may_stand c.status
    && not (contains c.last_error (codes "EOF"))
    && not (contains c.last_error (codes "connection is closed"))
    && not (contains c.last_error (codes "already disconnected"))

abbrev pub all_healthy : List Client → Bool
all_healthy [] = true
all_healthy (c ∷ clients) = is_healthy c && all_healthy clients

may_stand-is_disconnected : (s : ClientStatus) → not (is_disconnected s) ≡ may_stand s
may_stand-is_disconnected uninitialized = refl
may_stand-is_disconnected connecting = refl
may_stand-is_disconnected connected = refl
may_stand-is_disconnected failed = refl
may_stand-is_disconnected restarting = refl
may_stand-is_disconnected disconnected = refl
may_stand-is_disconnected unknown = refl

de_morgan :
    (a b c d e : Bool) → not (a || not b || c || d || e) ≡ (b && not a && not e && not c && not d)
de_morgan true true c d e = refl
de_morgan true false c d e = refl
de_morgan false false c d e = refl
de_morgan false true true d true = refl
de_morgan false true true d false = refl
de_morgan false true false true true = refl
de_morgan false true false true false = refl
de_morgan false true false false true = refl
de_morgan false true false false false = refl

not-is_conn_error : (c : Client) → not (is_conn_error c) ≡ is_healthy c
unfolding is_conn_error
not-is_conn_error c =
    de_morgan (is_disconnected c.status) c.is_connected
      (contains c.last_error (codes "connection is closed"))
      (contains c.last_error (codes "already disconnected")) (contains c.last_error (codes "EOF"))
    ∙ ap
        (λ h.
          c.is_connected
          && h
          && not (contains c.last_error (codes "EOF"))
          && not (contains c.last_error (codes "connection is closed"))
          && not (contains c.last_error (codes "already disconnected")))
        (may_stand-is_disconnected c.status)

abbrev pub has_clients : List Client → Bool
has_clients [] = false
has_clients (c ∷ clients) = true

abbrev pub is_error : State → Bool
is_error error = true
is_error _ = false

and_swap : (a b c : Bool) → (a && (b && c)) ≡ (b && (a && c))
and_swap true b c = refl
and_swap false true c = refl
and_swap false false c = refl

or-not_and : (a b c : Bool) → ((a || b) || not c) ≡ (a || not (not b && c))
or-not_and true b c = refl
or-not_and false true c = refl
or-not_and false false c = refl

insert_client-healthy :
    (c : Client) (clients : List Client)
    → all_healthy (insert_client c clients) ≡ all_healthy (c ∷ clients)
unfolding insert_client
insert_client-healthy c [] = refl
insert_client-healthy c (d ∷ clients) = elim (Bool-cases (is_before d.server c.server)) [
  | inl h ↦
      rw (h, insert_client-healthy c clients)
        (and_swap (is_healthy d) (is_healthy c) (all_healthy clients))
  | inr h ↦ rw h refl
]

insert_client-length :
    (c : Client) (clients : List Client) → length (insert_client c clients) ≡ suc (length clients)
unfolding insert_client
insert_client-length c [] = refl
insert_client-length c (d ∷ clients) = elim (Bool-cases (is_before d.server c.server)) [
  | inl h ↦ rw h (ap suc (insert_client-length c clients))
  | inr h ↦ rw h refl
]

sort_clients-healthy :
    (clients : List Client) → all_healthy (sort_clients clients) ≡ all_healthy clients
unfolding sort_clients
sort_clients-healthy [] = refl
sort_clients-healthy (c ∷ clients) =
    insert_client-healthy c (sort_clients clients)
    ∙ ap (λ h. is_healthy c && h) (sort_clients-healthy clients)

sort_clients-length : (clients : List Client) → length (sort_clients clients) ≡ length clients
unfolding sort_clients
sort_clients-length [] = refl
sort_clients-length (c ∷ clients) =
    insert_client-length c (sort_clients clients) ∙ ap suc (sort_clients-length clients)

is_healthy-is_connected : (c : Client) → is_healthy c ≡ true → c.is_connected ≡ true
is_healthy-is_connected c h = ground arith

or_false : (a : Bool) → a ≡ (a || false)
or_false true = refl
or_false false = refl

and_true : {a b : Bool} → (a && b) ≡ true → (a ≡ true) × (b ≡ true)
and_true {a = true} h = (refl, h)
and_true {a = false} h = absurd (ground arith)

scan_client-length :
    (c : Client) (s : Scan) → length (scan_client c s).clients ≡ suc (length s.clients)
unfolding scan_client
scan_client-length c s = length-append s.clients _ ∙ omega arith

scan_client-count :
    (c : Client) (s : Scan)
    → is_healthy c ≡ true
    → (scan_client c s).connected_count ≡ suc s.connected_count
unfolding scan_client
scan_client-count c s good = rw (is_healthy-is_connected c good) refl

and-false : (a : Bool) → (a && false) ≡ false
and-false true = refl
and-false false = refl

state_of-error : (s : Scan) → is_error (state_of s) ≡ s.any_error
unfolding state_of
state_of-error s = ground arith

status_of-ready :
    (s : Scan) (healthy : Bool)
    → s.any_error ≡ not healthy
    → (healthy ≡ true → 0 < s.connected_count)
    → (status_of s).is_ready ≡ healthy
unfolding status_of
status_of-ready s true err count = rw (err, lt→ltb 0 s.connected_count (count refl)) refl
status_of-ready s false err count = rw err (and-false (ltb 0 s.connected_count))

scan_clients-error :
    (clients : List Client) (s : Scan)
    → (scan_clients clients s).any_error ≡ (s.any_error || not (all_healthy clients))
unfolding scan_clients scan_client
scan_clients-error [] s = or_false s.any_error
scan_clients-error (c ∷ clients) s =
    scan_clients-error clients (scan_client c s)
    ∙ or-not_and s.any_error (is_conn_error c) (all_healthy clients)
    ∙ ap (λ h. s.any_error || not (h && all_healthy clients)) (not-is_conn_error c)

scan_clients-length :
    (clients : List Client) (s : Scan)
    → length (scan_clients clients s).clients ≡ length clients + length s.clients
unfolding scan_clients scan_client
scan_clients-length [] s = omega arith
scan_clients-length (c ∷ clients) s =
    let rest = scan_clients-length clients (scan_client c s) in
    let row = scan_client-length c s in omega (arith, rest, row)

scan_clients-count :
    (clients : List Client) (s : Scan)
    → all_healthy clients ≡ true
    → (scan_clients clients s).connected_count ≡ length clients + s.connected_count
unfolding scan_clients
scan_clients-count [] s h = omega arith
scan_clients-count (c ∷ clients) s h =
    let (good, others) = and_true h in
    let rest = scan_clients-count clients (scan_client c s) others in
    let one = scan_client-count c s good in omega (arith, rest, one)

-- The clients are reported as ready exactly where there is one and all are healthy, whatever their
-- order and their progress. The state is `error` exactly where one is not healthy, and each client
-- has one row.
pub build_lsp_status-ready :
    (clients : List Client)
    → ((build_lsp_status clients).is_ready ≡ (has_clients clients && all_healthy clients))
      × (is_error (build_lsp_status clients).state ≡ not (all_healthy clients))
      × (length (build_lsp_status clients).clients ≡ length clients)
unfolding build_lsp_status
build_lsp_status-ready [] = (refl, refl, refl)
build_lsp_status-ready (c ∷ clients) =
    let sorted = sort_clients (c ∷ clients) in
    let s = scan_clients sorted new_scan in
    let healthy = sort_clients-healthy (c ∷ clients) in
    let len = sort_clients-length (c ∷ clients) in
    let err : s.any_error ≡ not (all_healthy (c ∷ clients)) =
      scan_clients-error sorted new_scan ∙ ap not healthy in
    let rows = scan_clients-length sorted new_scan in
    (
      status_of-ready s (all_healthy (c ∷ clients)) err (λ h.
          let count = scan_clients-count sorted new_scan (healthy ∙ h) in
          omega (arith, count, len)),
      state_of-error s ∙ err,
      omega (arith, rows, len),
    )
