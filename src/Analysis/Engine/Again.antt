-- ===== src/Analysis/Engine/Again.antt =====
-- The branches of `Analyze`, and an analysis that failed.
use Prim.Native.String.{String}
use mcp_bsl_lsp_bridge.Prelude.{◌<◌, false, Option, none, some, ◌≡◌, refl, ◌∙◌}
use mcp_bsl_lsp_bridge.Prelude.Dict.{Dict}
use mcp_bsl_lsp_bridge.Analysis.Cache
use mcp_bsl_lsp_bridge.Analysis.Cache.{lifetime}
use mcp_bsl_lsp_bridge.Analysis.Engine.Errors.{handle_error-stops}
use mcp_bsl_lsp_bridge.Analysis.Engine.{
  AnalysisRequest, AnalysisMetadata, AnalysisResult, AnalysisErrorHandler, Analyses, Analysis,
  AnalysisCache, Outcome, done, failed, Clock, hour, new_metadata, cache_key, dispatch,
  handle_error, finish, analyze_fresh, analyze,
}

module _ {D : Type 0} (format_options : Dict String (Option String) → String) where
  pub analyze-hit :
      (analyses : Analyses D) (h : AnalysisErrorHandler) (cache : AnalysisCache D)
      (r : AnalysisRequest) (clock : Clock) (value : Option (AnalysisResult D))
      → (Cache.get cache (cache_key format_options r) clock.read clock.touched).1 ≡ some value
      → (analyze format_options analyses h cache r clock).1 ≡ record { result = value; err = none }
  unfolding analyze
  analyze-hit analyses h cache r clock value hit = rw (hit, analyze) refl

  analyze-miss :
      (analyses : Analyses D) (h : AnalysisErrorHandler) (cache : AnalysisCache D)
      (r : AnalysisRequest) (clock : Clock)
      → (Cache.get cache (cache_key format_options r) clock.read clock.touched).1 ≡ none
      → analyze format_options analyses h cache r clock
        ≡ analyze_fresh format_options analyses h
            (Cache.get cache (cache_key format_options r) clock.read clock.touched).0
            r
            clock
  unfolding analyze
  analyze-miss analyses h cache r clock miss = rw (miss, analyze) refl

  -- The two ends of `finish`.
  pub finish-done :
      (h : AnalysisErrorHandler) (cache : AnalysisCache D) (r : AnalysisRequest) (clock : Clock)
      (out : AnalysisMetadata × Outcome D) (result : AnalysisResult D)
      → out.1 ≡ done result
      → let stamped = record result { metadata = record out.0 { duration = clock.elapsed } } in
        finish format_options h cache r clock out ≡ (
          Cache.set cache
              (cache_key format_options r)
              (some stamped)
              hour
              clock.written
              clock.stored,
          record { result = some stamped; err = none },
        )
  unfolding finish
  finish-done h cache r clock out result ended = rw (ended, finish) refl

  finish-failed :
      (h : AnalysisErrorHandler) (cache : AnalysisCache D) (r : AnalysisRequest) (clock : Clock)
      (out : AnalysisMetadata × Outcome D) (message : String)
      → out.1 ≡ failed message
      → (handle_error h message (record out.0 { duration = clock.elapsed })).1 ≡ false
      → finish format_options h cache r clock out
        ≡ (cache, record { result = none; err = some message })
  unfolding finish
  finish-failed h cache r clock out message ended stops = rw (ended, finish) (rw stops refl)

module _ {D : Type 0} (format_options : Dict String (Option String) → String)
    (analyses : Analyses D) (h : AnalysisErrorHandler) (cache : AnalysisCache D)
    (r : AnalysisRequest) (first : Clock) (analysis : Analysis D)
    (missed : (Cache.get cache (cache_key format_options r) first.read first.touched).1 ≡ none)
    (known : dispatch analyses r ≡ some analysis) where
  abbrev pub outcome : AnalysisMetadata × Outcome D
  outcome = analysis r (record new_metadata { cache_misses = 1 })

  abbrev pub looked_up : AnalysisCache D
  looked_up = (Cache.get cache (cache_key format_options r) first.read first.touched).0

  pub first-finish :
      analyze format_options analyses h cache r first
      ≡ finish format_options h looked_up r first outcome
  unfolding analyze_fresh
  first-finish =
      rw (analyze-miss format_options analyses h cache r first missed)
        (rw (known, analyze_fresh) refl)

  -- After an analysis that failed without having counted a file, where the handler's threshold is
  -- below 1, the reply has the error and nothing is stored: the cache is what the lookup has left.
  pub analyze-uncached :
      (message : String)
      → outcome.1 ≡ failed message
      → outcome.0.files_scanned ≡ 0
      → h.error_threshold.0 < h.error_threshold.1
      → analyze format_options analyses h cache r first
        ≡ (looked_up, record { result = none; err = some message })
  analyze-uncached message ended none_scanned below =
      first-finish
      ∙ finish-failed format_options h looked_up r first outcome message ended (
          handle_error-stops h message (record outcome.0 { duration = first.elapsed }) none_scanned
            below)
