-- ===== src/Analysis/Engine/Errors.antt =====
-- The error handler, and the keys of the cache.
use Prim.Native.String.{String, ◌++◌ as concat}
use text.Mathlib.TextLemmas.{append_assoc}
use native.Mathlib.Nat.{mul-le-mul_left}
use mcp_bsl_lsp_bridge.Prelude.{
  ℕ, suc, ◌+◌, ◌*◌, ◌<◌, true, false, Option, [], ◌∷◌, ◌++◌, ◌≡◌, length, length-append, arith,
  lt→ltb,
}
use mcp_bsl_lsp_bridge.Prelude.Dict.{Dict}
use mcp_bsl_lsp_bridge.Analysis.Engine.{
  AnalysisRequest, AnalysisMetadata, AnalysisErrorHandler, handle_error, exceeds, cache_key,
}

exceeds-all :
    (part whole n scanned : ℕ)
    → scanned ≡ 0
    → 0 < n
    → part < whole
    → exceeds (part, whole) n (scanned + n) ≡ true
unfolding exceeds
exceeds-all part whole n scanned none_scanned some_failed below =
    let total : scanned + n ≡ n = omega arith in
    let over : part * n < n * whole =
      omega (arith, mul-le-mul_left {m = suc part} {n = whole} n below) in
    rw total (rw (lt→ltb 0 n some_failed) (lt→ltb (part * n) (n * whole) over))

-- Where an analysis has counted no file that it scanned and the threshold is below 1, the handler
-- answers that the analysis must not go on, whatever `continue_on_error` says.
pub handle_error-stops :
    (h : AnalysisErrorHandler) (message : String) (m : AnalysisMetadata)
    → m.files_scanned ≡ 0
    → h.error_threshold.0 < h.error_threshold.1
    → (handle_error h message m).1 ≡ false
unfolding handle_error
handle_error-stops h message m none_scanned below =
    let errors = m.errors ++ (record { message = message; type = "error" } ∷ []) in
    let some_failed : 0 < length errors =
      omega
        (arith, length-append {0} m.errors (record { message = message; type = "error" } ∷ [])) in
    let over =
      exceeds-all h.error_threshold.0 h.error_threshold.1 (length errors) m.files_scanned
        none_scanned some_failed below in
    ground (arith, over)

-- Two requests of one type share a key of the cache where a colon parts the target and the scope
-- of one at another place than those of the other.
pub cache_key-collides :
    (format_options : Dict String (Option String) → String) (r : AnalysisRequest) (a b c : String)
    → cache_key format_options (record r { target = concat a (concat ":" b); scope = c })
      ≡ cache_key format_options (record r { target = a; scope = concat b (concat ":" c) })
unfolding cache_key
cache_key-collides format_options r a b c = simp append_assoc
