-- ===== src/Session/Api.antt =====
-- cmd/lsp-session-manager/main.go: what `handleAPIRequest` does with each method, and the choice of
-- the file watcher in `startFileWatcher`, `GetFileWatcherMode` and `GetPollingWorkers`. The
-- environment variables and the success of fsnotify are arguments.
pub mod Routes
use mcp_bsl_lsp_bridge.Prelude.{
  ℕ, zero, suc, ◌*◌, Bool, true, false, ◌||◌, Option, none, some, List, [], ◌∷◌, String, string_eq,
  if◌then◌else◌,
}
use mcp_bsl_lsp_bridge.Prelude.Int.{ℤ, is_positive}
use mcp_bsl_lsp_bridge.Prelude.Bytes.{Bytes}
use mcp_bsl_lsp_bridge.Framing.{atoi}

abbrev pub second : ℕ
second = 1000000000

-- `case` with several strings
abbrev pub one_of : List String → String → Bool
one_of [] s = false
one_of (t ∷ cases) s = string_eq.beq s t || one_of cases s

-- The time that the first switch allows a method.
unfoldable pub timeout : String → ℕ
timeout method =
    if string_eq.beq method "workspace/diagnostic"
    then 600 * second
    else if one_of ("textDocument/diagnostic" ∷ "textDocument/formatting" ∷ []) method
    then 300 * second
    else if one_of ("textDocument/rename" ∷ "textDocument/prepareRename" ∷ []) method
    then 120 * second
    else 90 * second

-- What the second switch does: it answers from the state, runs a handler of the documents, sends a
-- request with its timeout, sends a notification, or refuses the method.
pub data Action : Type 0 where
  status : Action
  capabilities : Action
  open_document : Action
  close_document : Action
  send_request : ℕ → Action
  send_notification : Action
  unknown_method : Action

abbrev pub forwarded : List String
forwarded =
    "textDocument/hover" ∷ "textDocument/definition" ∷ "textDocument/references"
    ∷ "textDocument/documentSymbol" ∷ "textDocument/diagnostic" ∷ "textDocument/implementation"
    ∷ "textDocument/codeAction" ∷ "textDocument/formatting" ∷ "textDocument/rename"
    ∷ "textDocument/prepareRename" ∷ "textDocument/prepareCallHierarchy" ∷ []

unfoldable pub handle_api_request : String → Action
unfolding timeout
handle_api_request method =
    if string_eq.beq method "session/status"
    then status
    else if string_eq.beq method "session/capabilities"
    then capabilities
    else if string_eq.beq method "textDocument/didOpen"
    then open_document
    else if string_eq.beq method "textDocument/didClose"
    then close_document
    else if one_of forwarded method
    then send_request (timeout method)
    else if one_of ("callHierarchy/incomingCalls" ∷ "callHierarchy/outgoingCalls" ∷ []) method
    then send_request (timeout method)
    else if string_eq.beq method "workspace/didChangeWatchedFiles"
    then send_notification
    else if string_eq.beq method "workspace/symbol"
    then send_request (timeout method)
    else if string_eq.beq method "workspace/diagnostic"
    then send_request (timeout method)
    else unknown_method

pub data FileWatcherMode : Type 0 where
  off : FileWatcherMode
  polling : FileWatcherMode
  fsnotify : FileWatcherMode
  auto : FileWatcherMode

-- The mode of the variable's value in lower case.
unfoldable pub get_file_watcher_mode : String → FileWatcherMode
get_file_watcher_mode mode =
    if one_of ("off" ∷ "manual" ∷ "disabled" ∷ []) mode
    then off
    else if one_of ("polling" ∷ "poll" ∷ []) mode
    then polling
    else if one_of ("fsnotify" ∷ "inotify" ∷ "native" ∷ []) mode
    then fsnotify
    else auto

abbrev pub workers_or_default : Option ℤ → ℕ
workers_or_default none = 8
workers_or_default (some (ℤ.pos (suc n))) = suc n
workers_or_default (some _) = 8

unfoldable pub get_polling_workers : Bytes → ℕ
unfolding atoi
get_polling_workers [] = 8
get_polling_workers (c ∷ value) = workers_or_default (atoi (c ∷ value))

-- The watcher that runs in the end; `none` is no watcher, and `failed` an error.
pub data Watcher : Type 0 where
  no_watcher : Watcher
  polling_watcher : Watcher
  fsnotify_watcher : Watcher
  failed : Watcher

unfoldable pub start_file_watcher : FileWatcherMode → Bool → Watcher
start_file_watcher off works = no_watcher
start_file_watcher polling works = polling_watcher
start_file_watcher fsnotify works = if works then fsnotify_watcher else failed
start_file_watcher auto works = if works then fsnotify_watcher else polling_watcher
