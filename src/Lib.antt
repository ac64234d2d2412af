-- ===== src/Lib.antt =====
-- Verification of mcp-lsp-bridge, a bridge from MCP tools to language servers.
--
-- The program. A session manager (cmd/lsp-session-manager) starts the language server, speaks LSP
-- with it over its standard streams, and serves the bridge over TCP: it keeps the calls in flight,
-- the open documents and the indexing progress, and it watches the files. A proxy (cmd/lsp-proxy)
-- passes messages on. The bridge (bridge, lsp, mcpserver/tools) connects to it, edits texts, decodes
-- what the server answers and formats it for the tools; analysis builds metrics on the symbols and
-- caches them.
--
-- The files.
-- Prelude: numbers, lists, Go's maps as association lists, `int` and byte strings, with the parts
--   of strings, strconv and fmt that the program uses.
-- Framing: readLSPMessage and writeMessage of the session manager, readLSPMessage of the proxy.
-- Session/Requests: sendRequest and readResponses, as steps between the points where a goroutine
--   may wait. Session/Indexing: handleNotification for $/progress, parseProgressMessage and
--   getStatus. Session/Documents: handleDidOpen and handleDidClose. Session/Watch: the debounce of
--   runFsnotifyWatcher and checkForChanges of the polling watcher. Session/Api: the routes of
--   handleAPIRequest and the choice of the watcher.
-- Edits: applyTextEditsToContent of bridge/bridge.go.
-- Analysis/Cache: analysis/cache.go. The others are about analysis/engine.go. Analysis/Graph:
--   isCircularDependency; Analysis/Graph/Depth: calculateDependencyDepth; Analysis/Graph/Patterns:
--   the graph and the patterns of detectAdvancedDependencyPatterns. Analysis/Engine: Analyze, on the
--   cache and on analysis/errors.go. Analysis/Files: the complexity of a file. Analysis/Impact and
--   Analysis/Usage: performEnhancedImpactAnalysis and analyzeComprehensiveUsagePatterns.
-- Lsp: FindTokensByType of lsp/semantic_tokens.go, the tracker of lsp/progress.go, the rate
--   limit of lsp/unhandled_notifications.go with its configuration, and setJavaXmx of lsp/config_env_overrides.go.
--   Lsp/SessionClient: Call, readResponses, failAllPending and reconnect of lsp/session_client.go.
-- Bridge: the throttles and the state of bridge/warmup.go and bridge/auto_connect.go.
-- Tools: ApplyPagination and getRangeContent of mcpserver/tools/utils.go; Tools/CallGraph: the
--   builder of mcpserver/tools/call_graph.go, in Tools/CallGraph/Threads with its goroutines as steps
--   in any order, in Tools/CallGraph/Build with the trees, where each goroutine ends before the next
--   starts and the callers come before the callees; Tools/Readiness: BuildLSPStatus and
--   CheckReadyOrReturn of mcpserver/tools/readiness.go.
-- Utils: Utils/Clean is path.Clean of Go, Utils/PathMap is utils/pathmap.go, and Utils/Allowed is
--   security/path_validation.go.
-- Tests: the functions at concrete inputs, and each property with hypotheses at one.
--
-- Bounds and fuel. The depth-first search of the cycle test runs on fuel: one more than the number
-- of the symbols of the graph is enough, since each call marks another one. The breadth-first search runs on
-- fuel too: a symbol can wait in its queue several times, but only below a depth that is smaller
-- than the number of the symbols, so `rounds` of Analysis/Graph/Depth is enough. `%d` runs on fuel above
-- the number that it prints. Everything else is structural recursion. Sums of `int` and `uint32`
-- wrap around where the source adds them; times are nanoseconds on natural numbers.
--
-- Not modelled: float64, whose operations are parameters; the decoding of JSON, which is given
-- decoded; the file system, the network and the environment; locks, whose sections are single
-- steps except where a goroutine waits inside one; the trees of the call graph in
-- orders of the goroutines other than the one of Tools/CallGraph/Build. Paths have slashes, as on Linux. White space is that of ASCII.
pub mod Prelude
pub mod Framing
pub mod Edits
pub mod Session
pub mod Analysis
pub mod Lsp
pub mod Bridge
pub mod Tools
pub mod Utils
pub mod Tests
