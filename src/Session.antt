-- ===== src/Session.antt =====
-- The session manager, cmd/lsp-session-manager/main.go and polling_watcher.go: the calls in
-- flight to the language server, the indexing state, the open documents, and the file watchers.
pub mod Requests
pub mod Indexing
pub mod Documents
pub mod Watch
pub mod Api
