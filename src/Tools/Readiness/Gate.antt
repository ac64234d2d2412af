-- ===== src/Tools/Readiness/Gate.antt =====
-- mcpserver/tools/readiness.go: `CheckReadyOrReturn` on the concrete bridge, where `BuildLSPStatus`
-- has no error. What the function reads of the bridge at one moment is an observation; the loop
-- reads it every 200 ms for two seconds.
use mcp_bsl_lsp_bridge.Prelude.{
  ℕ, suc, Bool, true, false, not, ◌&&◌, ◌||◌, Option, none, some, List, [], ◌∷◌, ◌++◌, ◌≡◌, refl,
  ◌⊎◌, ◌↔◌, inl, inr, if◌then◌else◌, ◌==◌, Bool-cases, arith,
}
use mcp_bsl_lsp_bridge.Prelude.Bytes.{Bytes}
use mcp_bsl_lsp_bridge.Lsp.JavaOptions.{is_empty}
use mcp_bsl_lsp_bridge.Tools.Readiness.{
  Client, State, starting, error, busy, LspStatus, LspClientStatus, build_lsp_status,
}
use mcp_bsl_lsp_bridge.Tools.Readiness.Ready.{all_healthy, has_clients, build_lsp_status-ready}

pub record Observation : Type 0 where
  pub clients : List Client
  pub in_session_mode : Bool
  pub warmup_running : Bool
  pub warmup_done : Bool
  pub warmup_error : Bytes

-- The tool runs, or it answers with a status and the time of the next try: the status with
-- `warming` for its state, or as it is.
pub data Reply : Type 0 where
  allowed : Reply
  warming : LspStatus → ℕ → Reply
  waiting : LspStatus → ℕ → Reply

pub data Effect : Type 0 where
  start_auto_connect : Effect
  start_warmup : Effect

abbrev connected_rows : List LspClientStatus → ℕ
connected_rows [] = 0
connected_rows (row ∷ rows) =
    let rest = connected_rows rows in if row.is_connected then suc rest else rest

abbrev is_down : State → Bool
is_down starting = true
is_down error = true
is_down _ = false

abbrev is_passing : State → Bool
is_passing busy = true
is_passing starting = true
is_passing _ = false

-- What the call does before the loop.
unfoldable auto_connect : LspStatus → List Effect
auto_connect status =
    if not status.is_ready && (connected_rows status.clients == 0 && is_down status.state)
    then start_auto_connect ∷ []
    else []

abbrev is_warm : Observation → Bool
is_warm o = o.in_session_mode || (o.warmup_done && is_empty o.warmup_error)

-- The gate once the clients are ready.
unfoldable warmup_gate : LspStatus → Observation → Reply × List Effect
warmup_gate status o = if is_warm o then (allowed, []) else (
  warming status 2000,
  if not o.warmup_running && not o.warmup_done then start_warmup ∷ [] else [],
)

-- After the loop.
unfoldable last_try : Observation → Reply × List Effect
unfolding warmup_gate
last_try o =
    let status = build_lsp_status o.clients in
    if status.is_ready
    then warmup_gate status o
    else (waiting status (if is_passing status.state then 2000 else 0), [])

-- The loop answers with the status that was read before it.
unfoldable poll : LspStatus → List Observation → Observation → Reply × List Effect
unfolding warmup_gate last_try
poll status [] last = last_try last
poll status (o ∷ polls) last =
    let rest = poll status polls last in
    if (build_lsp_status o.clients).is_ready then warmup_gate status o else rest

unfoldable pub check_ready_or_return :
    Observation → List Observation → Observation → Reply × List Effect
unfolding poll auto_connect
check_ready_or_return first polls last =
    let status = build_lsp_status first.clients in
    let answer = poll status polls last in (answer.0, auto_connect status ++ answer.1)

abbrev pub is_allowed : Reply → Bool
is_allowed allowed = true
is_allowed _ = false

-- The first moment at which there is a client and all clients are healthy.
abbrev pub first_ready : List Observation → Option Observation
first_ready [] = none
first_ready (o ∷ rest) =
    let later = first_ready rest in
    if has_clients o.clients && all_healthy o.clients then some o else later

-- In session mode, or after a warm-up that ended without an error.
abbrev pub MayRun : Observation → Type 0
MayRun o = (o.in_session_mode ≡ true) ⊎ ((o.warmup_done ≡ true) × (o.warmup_error ≡ []))

abbrev pub MayRunAt : Option Observation → Type 0
MayRunAt none = ⊥
MayRunAt (some o) = MayRun o

abbrev is_warm_at : Option Observation → Bool
is_warm_at none = false
is_warm_at (some o) = is_warm o

is_empty-nil : (s : Bytes) → (is_empty s ≡ true) ↔ (s ≡ [])
is_empty-nil [] = (λ h. refl, λ h. refl)
is_empty-nil (c ∷ s) = (λ h. absurd (ground arith), λ h. absurd (ground arith))

either-both :
    {P : Type 0} (a b c : Bool)
    → (c ≡ true → P)
    → (P → c ≡ true)
    → ((a || (b && c)) ≡ true) ↔ ((a ≡ true) ⊎ ((b ≡ true) × P))
either-both true b c f g = (λ h. inl refl, λ h. refl)
either-both false true c f g =
    (λ h. inr (refl, f h), λ h. elim h [ inl l ↦ absurd (ground arith) | inr (t, p) ↦ g p ])
either-both false false c f g = (
  λ h. absurd (ground arith),
  λ h. elim h [ inl l ↦ absurd (ground arith) | inr (t, p) ↦ absurd (ground arith) ],
)

is_warm-MayRun : (o : Observation) → (is_warm o ≡ true) ↔ MayRun o
is_warm-MayRun o =
    let (nil, is_nil) = is_empty-nil o.warmup_error in
    either-both o.in_session_mode o.warmup_done (is_empty o.warmup_error) nil is_nil

is_warm_at-MayRunAt : (o : Option Observation) → (is_warm_at o ≡ true) ↔ MayRunAt o
is_warm_at-MayRunAt none = (λ h. absurd (ground arith), λ h. absurd h)
is_warm_at-MayRunAt (some o) = is_warm-MayRun o

warmup_gate-allowed :
    (status : LspStatus) (o : Observation) → is_allowed (warmup_gate status o).0 ≡ is_warm o
unfolding warmup_gate
warmup_gate-allowed status o = elim (Bool-cases (is_warm o)) [
  | inl h ↦ rw h refl
  | inr h ↦ rw h refl
]

if-allowed :
    (b c : Bool) (x y : Reply × List Effect) (o : Observation) (later : Option Observation)
    → b ≡ c
    → is_allowed x.0 ≡ is_warm o
    → is_allowed y.0 ≡ is_warm_at later
    → is_allowed (if b then x else y).0 ≡ is_warm_at (if c then some o else later)
if-allowed true true x y o later e p q = p
if-allowed false false x y o later e p q = q
if-allowed true false x y o later e p q = absurd (ground arith)
if-allowed false true x y o later e p q = absurd (ground arith)

poll-allowed :
    (status : LspStatus) (polls : List Observation) (last : Observation)
    → is_allowed (poll status polls last).0 ≡ is_warm_at (first_ready (polls ++ (last ∷ [])))
unfolding poll last_try
poll-allowed status [] last =
    if-allowed (build_lsp_status last.clients).is_ready
      (has_clients last.clients && all_healthy last.clients)
      (warmup_gate (build_lsp_status last.clients) last) _ last none
      (build_lsp_status-ready last.clients).0
      (warmup_gate-allowed (build_lsp_status last.clients) last) refl
poll-allowed status (o ∷ polls) last =
    if-allowed (build_lsp_status o.clients).is_ready
      (has_clients o.clients && all_healthy o.clients) (warmup_gate status o)
      (poll status polls last) o (first_ready (polls ++ (last ∷ [])))
      (build_lsp_status-ready o.clients).0 (warmup_gate-allowed status o)
      (poll-allowed status polls last)

-- The tool runs exactly where, at the first moment after the start at which there are clients and
-- all are healthy, the bridge is in session mode or its warm-up has ended without an error. A later
-- moment is not waited for.
pub check_ready_or_return-allowed :
    (first : Observation) (polls : List Observation) (last : Observation)
    → (is_allowed (check_ready_or_return first polls last).0 ≡ true)
      ↔ MayRunAt (first_ready (polls ++ (last ∷ [])))
unfolding check_ready_or_return
check_ready_or_return-allowed first polls last =
    rw (poll-allowed (build_lsp_status first.clients) polls last)
      (is_warm_at-MayRunAt (first_ready (polls ++ (last ∷ []))))
