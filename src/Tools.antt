-- ===== src/Tools.antt =====
-- mcpserver/tools/utils.go: the pages of a result, and the text of a range. The
-- call graph is mcpserver/tools/call_graph.go, and the readiness is mcpserver/tools/readiness.go.
pub mod Pagination
pub mod Range
pub mod CallGraph
pub mod Readiness
