-- ===== src/Lsp.antt =====
-- The LSP client's own state: the semantic tokens of lsp/semantic_tokens.go, the progress tracker
-- of lsp/progress.go, the rate limit of lsp/unhandled_notifications.go, the Java options of
-- lsp/config_env_overrides.go, and the calls of lsp/session_client.go.
pub mod SessionClient
pub mod Tokens
pub mod Progress
pub mod RateLimit
pub mod JavaOptions
