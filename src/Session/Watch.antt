-- ===== src/Session/Watch.antt =====
-- The file watchers of the session manager: `runFsnotifyWatcher` in cmd/lsp-session-manager/main.go
-- and cmd/lsp-session-manager/polling_watcher.go. Which names end in .bsl or .os, and what the
-- file system holds, are given by the events and the scans.
pub mod Debounce
pub mod Polling
use Prim.Native.Char.{code}
use Prim.Native.String
use Prim.Native.String.{◌++◌ as concat}
use mcp_bsl_lsp_bridge.Prelude.{
  ℕ, ◌==◌, Bool, true, false, not, Option, none, some, List, [], ◌∷◌, ◌++◌, String, string_eq,
  if◌then◌else◌,
}
use mcp_bsl_lsp_bridge.Prelude.Int.{ℤ, int_eq}
use mcp_bsl_lsp_bridge.Prelude.Dict
use mcp_bsl_lsp_bridge.Prelude.Dict.{Dict}

-- The types of LSP's file events: 1, 2 and 3.
pub data FileChangeType : Type 0 where
  created : FileChangeType
  changed : FileChangeType
  deleted : FileChangeType

-- An event of fsnotify with the URI of its file; `source` says that it is a .bsl or .os file, and
-- the other flags are those that `event.Has` reads (`removed` is Remove or Rename).
pub record FileEvent : Type 0 where
  pub uri : String
  pub source : Bool
  pub create : Bool
  pub write : Bool
  pub removed : Bool

-- the case `event := <-sm.watcher.Events`, on the pending changes
unfoldable pub collect : Dict String FileChangeType → FileEvent → Dict String FileChangeType
collect pending e =
    if e.source
    then (if e.create
        then Dict.put pending e.uri created
        else if e.write
        then elim (Dict.get pending e.uri) [
          | none ↦ Dict.put pending e.uri changed
          | some t ↦ pending
        ]
        else if e.removed
        then Dict.put pending e.uri deleted
        else pending)
    else pending

unfoldable pub collect_all :
    Dict String FileChangeType → List FileEvent → Dict String FileChangeType
unfolding collect
collect_all pending [] = pending
collect_all pending (e ∷ events) = collect_all (collect pending e) events

-- the case `<-debounceTimer.C`: the changes that are sent, if any, and the new pending changes
unfoldable pub flush :
    Dict String FileChangeType
    → Option (List (String × FileChangeType)) × Dict String FileChangeType
flush [] = (none, [])
flush (x ∷ pending) = (some (x ∷ pending), [])

pub record FileChange : Type 0 where
  pub uri : String
  pub kind : FileChangeType

abbrev has_slash : String → Bool
has_slash String.[] = false
has_slash (String.◌∷◌ c path) = code c == b'/'

-- `pathToURI`, where the separator is a slash
unfoldable pub path_to_uri : String → String
path_to_uri path = concat "file://" (if has_slash path then path else concat "/" path)

abbrev pub changed_from : String → ℤ → Option ℤ → List FileChange
changed_from path mtime none = record { uri = path_to_uri path; kind = created } ∷ []
changed_from path mtime (some old) =
    if int_eq.beq mtime old then [] else record { uri = path_to_uri path; kind = changed } ∷ []

-- The loop over the new files.
unfoldable pub new_and_changed : Dict String ℤ → Dict String ℤ → List FileChange
new_and_changed old [] = []
new_and_changed old ((path, mtime) ∷ files) =
    changed_from path mtime (Dict.get old path) ++ new_and_changed old files

abbrev pub deleted_unless : String → Option ℤ → List FileChange
deleted_unless path none = record { uri = path_to_uri path; kind = deleted } ∷ []
deleted_unless path (some mtime) = []

-- The loop over the old files.
unfoldable pub gone : Dict String ℤ → Dict String ℤ → List FileChange
gone new [] = []
gone new ((path, mtime) ∷ files) = deleted_unless path (Dict.get new path) ++ gone new files

unfoldable pub compare_files : Dict String ℤ → Dict String ℤ → List FileChange
unfolding new_and_changed gone
compare_files old new = new_and_changed old new ++ gone new old

abbrev pub unless_indexing : Bool → List FileChange → Option (List FileChange)
unless_indexing is_indexing [] = none
unless_indexing is_indexing (c ∷ changes) = if is_indexing then none else some (c ∷ changes)

-- `checkForChanges` on the file map, with what the scan found: the new file map, and the changes
-- that are handed to the notification.
unfoldable pub check_for_changes :
    Bool → Dict String ℤ → Dict String ℤ → Dict String ℤ × Option (List FileChange)
unfolding compare_files
check_for_changes is_indexing file_map scanned =
    (scanned, unless_indexing is_indexing (compare_files file_map scanned))
