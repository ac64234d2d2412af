-- ===== src/Session/Api/Routes.antt =====
-- The routes of the requests, and the choice of the watcher.
use mcp_bsl_lsp_bridge.Prelude.{zero, suc, ◌<◌, Option, none, some, [], ◌∷◌, string_eq, arith}
use mcp_bsl_lsp_bridge.Prelude.Int.{ℤ, pos, negsuc}
use mcp_bsl_lsp_bridge.Prelude.Bytes.{Bytes}
use mcp_bsl_lsp_bridge.Framing.{atoi}
use mcp_bsl_lsp_bridge.Session.Api.{workers_or_default, get_polling_workers}

workers_or_default-positive : (o : Option ℤ) → 0 < workers_or_default o
workers_or_default-positive none = omega arith
workers_or_default-positive (some (pos zero)) = omega arith
workers_or_default-positive (some (pos (suc n))) = omega arith
workers_or_default-positive (some (negsuc n)) = omega arith

-- Whatever the environment says, the polling watcher has a worker, so that its scan can make
-- progress.
pub get_polling_workers-positive : (value : Bytes) → 0 < get_polling_workers value
unfolding get_polling_workers
get_polling_workers-positive [] = omega arith
get_polling_workers-positive (c ∷ value) = workers_or_default-positive (atoi (c ∷ value))
