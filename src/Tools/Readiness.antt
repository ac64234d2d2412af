-- ===== src/Tools/Readiness.antt =====
-- mcpserver/tools/readiness.go: `BuildLSPStatus`, with the status of lsp/client_status.go. A client
-- is what the function asks of it: its metrics, the active progress when it tracks progress, and
-- the status of the indexing when it is a session adapter that has one.
pub mod Ready
pub mod Gate
use mcp_bsl_lsp_bridge.Prelude.{
  ℕ, suc, Bool, true, false, not, ◌&&◌, ◌||◌, Option, none, some, List, [], ◌∷◌, ◌++◌, String,
  string_eq, if◌then◌else◌, ltb, ◌==◌, map, length,
}
use mcp_bsl_lsp_bridge.Prelude.Int.{ℤ}
use mcp_bsl_lsp_bridge.Prelude.Bytes.{Bytes, codes, contains}
use mcp_bsl_lsp_bridge.Lsp.Progress.{ProgressEvent}

-- `unknown` is any other number.
pub data ClientStatus : Type 0 where
  uninitialized : ClientStatus
  connecting : ClientStatus
  connected : ClientStatus
  failed : ClientStatus
  restarting : ClientStatus
  disconnected : ClientStatus
  unknown : ClientStatus

pub record IndexingProgress : Type 0 where
  pub state : String
  pub current : ℤ
  pub total : ℤ
  pub eta_seconds : ℤ
  pub elapsed_seconds : ℤ
  pub message : Bytes

pub record Client : Type 0 where
  pub server : Bytes
  pub command : Bytes
  pub status : ClientStatus
  pub last_error : Bytes
  pub is_connected : Bool
  pub progress : Option (List ProgressEvent)
  pub indexing : Option IndexingProgress

pub record LspActivity : Type 0 where
  pub server : Bytes
  pub token : String
  pub kind : String
  pub title : Bytes
  pub message : Bytes
  pub percentage : Option ℕ
  pub cancellable : Option Bool

pub record LspClientStatus : Type 0 where
  pub server : Bytes
  pub command : Bytes
  pub is_connected : Bool
  pub status : ClientStatus
  pub last_error : Bytes
  pub active_progress : ℕ

pub data State : Type 0 where
  starting : State
  error : State
  busy : State
  ready : State

pub record LspStatus : Type 0 where
  pub is_ready : Bool
  pub state : State
  pub activity : List LspActivity
  pub clients : List LspClientStatus
  pub indexing : Option IndexingProgress

-- `sort.Strings` compares bytes.
unfoldable pub is_before : Bytes → Bytes → Bool
is_before s [] = false
is_before [] (d ∷ t) = true
is_before (c ∷ s) (d ∷ t) = ltb c d || (c == d && is_before s t)

unfoldable pub insert_client : Client → List Client → List Client
insert_client c [] = c ∷ []
insert_client c (d ∷ clients) =
    if is_before d.server c.server then d ∷ insert_client c clients else c ∷ d ∷ clients

-- The clients in the order of their servers.
unfoldable pub sort_clients : List Client → List Client
unfolding insert_client
sort_clients [] = []
sort_clients (c ∷ clients) = insert_client c (sort_clients clients)

abbrev pub is_disconnected : ClientStatus → Bool
is_disconnected disconnected = true
is_disconnected _ = false

abbrev pub is_starting : ClientStatus → Bool
is_starting connecting = true
is_starting uninitialized = true
is_starting restarting = true
is_starting _ = false

-- `isConnError`
unfoldable pub is_conn_error : Client → Bool
is_conn_error c =
    is_disconnected c.status
    || not c.is_connected
    || contains c.last_error (codes "connection is closed")
    || contains c.last_error (codes "already disconnected")
    || contains c.last_error (codes "EOF")

abbrev activity_of : Bytes → ProgressEvent → LspActivity
activity_of server ev = record {
  server = server;
  token = ev.token_key;
  kind = ev.payload.kind;
  title = ev.payload.title;
  message = ev.payload.message;
  percentage = ev.payload.percentage;
  cancellable = ev.payload.cancellable;
}

abbrev active_events : Option (List ProgressEvent) → List ProgressEvent
active_events none = []
active_events (some events) = events

-- What the loop over the clients has gathered.
pub record Scan : Type 0 where
  pub activity : List LspActivity
  pub clients : List LspClientStatus
  pub indexing : Option IndexingProgress
  pub connected_count : ℕ
  pub any_error : Bool
  pub any_starting : Bool
  pub any_busy : Bool

-- The first client that has an indexing status gives it.
abbrev first_indexing : Option IndexingProgress → Option IndexingProgress → Option IndexingProgress
first_indexing (some old) new = some old
first_indexing none new = new

-- That client is busy while it indexes.
abbrev indexing_is_busy : Option IndexingProgress → Option IndexingProgress → Bool
indexing_is_busy none (some status) = string_eq.beq status.state "indexing"
indexing_is_busy _ _ = false

unfoldable pub scan_client : Client → Scan → Scan
unfolding is_conn_error
scan_client c s =
    let events = active_events c.progress in
    record {
      activity = s.activity ++ map (activity_of c.server) events;
      clients =
          s.clients
          ++ (record {
            server = c.server;
            command = c.command;
            is_connected = c.is_connected;
            status = c.status;
            last_error = c.last_error;
            active_progress = length events;
          }
              ∷ []);
      indexing = first_indexing s.indexing c.indexing;
      connected_count = if c.is_connected then suc s.connected_count else s.connected_count;
      any_error = s.any_error || is_conn_error c;
      any_starting = s.any_starting || is_starting c.status;
      any_busy = s.any_busy || ltb 0 (length events) || indexing_is_busy s.indexing c.indexing;
    }

unfoldable pub scan_clients : List Client → Scan → Scan
unfolding scan_client
scan_clients [] s = s
scan_clients (c ∷ clients) s = scan_clients clients (scan_client c s)

abbrev pub new_scan : Scan
new_scan = record {
  activity = [];
  clients = [];
  indexing = none;
  connected_count = 0;
  any_error = false;
  any_starting = false;
  any_busy = false;
}

-- The switch after the loop.
unfoldable pub state_of : Scan → State
state_of s =
    if s.any_error
    then error
    else if s.any_busy
    then busy
    else if s.any_starting || s.connected_count == 0
    then starting
    else ready

abbrev pub no_clients : LspStatus
no_clients = record {
  is_ready = false;
  state = starting;
  activity = [];
  clients = [];
  indexing = none;
}

unfoldable pub status_of : Scan → LspStatus
unfolding state_of
status_of s = record {
  is_ready = ltb 0 s.connected_count && not s.any_error;
  state = state_of s;
  activity = s.activity;
  clients = s.clients;
  indexing = s.indexing;
}

unfoldable pub build_lsp_status : List Client → LspStatus
unfolding scan_clients sort_clients status_of
build_lsp_status [] = no_clients
build_lsp_status (c ∷ clients) = status_of (scan_clients (sort_clients (c ∷ clients)) new_scan)
