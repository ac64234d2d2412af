-- ===== src/Analysis/Engine.antt =====
-- analysis/engine.go: `Analyze`, with its cache (`Analysis.Cache`) and its error handler
-- (analysis/errors.go). The analyses ask the language servers, so they are the parameter
-- `analyses`; `format_options` is `%v` of `fmt` on the options. The readings of the clock are
-- arguments, and the threshold of the error handler is a fraction.
pub mod Errors
pub mod Again
pub mod Within
use Prim.Native.String.{String, ◌++◌ as concat}
use mcp_bsl_lsp_bridge.Prelude.{
  ℕ, ◌+◌, ◌*◌, Bool, true, false, ◌&&◌, Option, none, some, List, [], ◌∷◌, ◌++◌, string_eq,
  if◌then◌else◌, ltb, leb, length,
}
use mcp_bsl_lsp_bridge.Prelude.Dict.{Dict}
use mcp_bsl_lsp_bridge.Analysis.Cache
use mcp_bsl_lsp_bridge.Analysis.Cache.{InMemoryCache}

pub record AnalysisError : Type 0 where
  pub message : String
  pub type : String

-- `options` holds the text of an option where it is one.
pub record AnalysisRequest : Type 0 where
  pub type : String
  pub target : String
  pub scope : String
  pub depth : String
  pub options : Dict String (Option String)

pub record AnalysisMetadata : Type 0 where
  pub duration : ℕ
  pub files_scanned : ℕ
  pub symbols_found : ℕ
  pub languages_used : List String
  pub cache_hits : ℕ
  pub cache_misses : ℕ
  pub errors : List AnalysisError

pub record AnalysisResult (D : Type 0) : Type 0 where
  pub type : String
  pub target : String
  pub content : D
  pub metadata : AnalysisMetadata

-- The pair `(*AnalysisResult, error)`.
pub record Reply (D : Type 0) : Type 0 where
  pub result : Option (AnalysisResult D)
  pub err : Option String

pub record AnalysisErrorHandler : Type 0 where
  pub max_errors : ℕ
  pub continue_on_error : Bool
  pub error_threshold : ℕ × ℕ

abbrev pub new_error_handler : ℕ → Bool → ℕ × ℕ → AnalysisErrorHandler
new_error_handler max_errors continue_on_error threshold = record {
  max_errors = max_errors;
  continue_on_error = continue_on_error;
  error_threshold = threshold;
}

-- `errorRate > h.errorThreshold`, multiplied out, and false where there was no operation.
unfoldable pub exceeds : ℕ × ℕ → ℕ → ℕ → Bool
exceeds (part, whole) failed total = ltb 0 total && ltb (part * total) (failed * whole)

unfoldable pub handle_error :
    AnalysisErrorHandler → String → AnalysisMetadata → AnalysisMetadata × Bool
handle_error h message metadata =
    let errors = metadata.errors ++ (record { message = message; type = "error" } ∷ []) in
    let failed = length errors in
    (
      record metadata { errors = errors },
      if leb h.max_errors failed
          then false
          else if exceeds h.error_threshold failed (metadata.files_scanned + failed)
          then false
          else h.continue_on_error,
    )

unfoldable pub should_continue : AnalysisErrorHandler → AnalysisMetadata → Bool
should_continue h metadata = ltb (length metadata.errors) h.max_errors

abbrev pub new_metadata : AnalysisMetadata
new_metadata = record {
  duration = 0;
  files_scanned = 0;
  symbols_found = 0;
  languages_used = [];
  cache_hits = 0;
  cache_misses = 0;
  errors = [];
}

-- What an analysis returns: a result or an error.
pub data Outcome (D : Type 0) : Type 0 where
  done : AnalysisResult D → Outcome D
  failed : String → Outcome D

abbrev pub Analysis : Type 0 → Type 0
Analysis D = AnalysisRequest → AnalysisMetadata → AnalysisMetadata × Outcome D

pub record Analyses (D : Type 0) : Type 0 where
  pub workspace : Analysis D
  pub symbol_relationships : Analysis D
  pub file : Analysis D
  pub pattern : Analysis D

-- The readings of the clock in one call: of the lookup, of its access time, the time that the
-- analysis took, of the expiry that is stored, and of the access time that is stored.
pub record Clock : Type 0 where
  pub read : ℕ
  pub touched : ℕ
  pub elapsed : ℕ
  pub written : ℕ
  pub stored : ℕ

-- `1 * time.Hour`
abbrev pub hour : ℕ
hour = 3_600_000_000_000

abbrev pub AnalysisCache : Type 0 → Type 0
AnalysisCache D = InMemoryCache (Option (AnalysisResult D))

unfoldable pub cache_key : (Dict String (Option String) → String) → AnalysisRequest → String
cache_key format_options r =
    let shown = concat r.scope (concat ":" (format_options r.options)) in
    concat r.type (concat ":" (concat r.target (concat ":" shown)))

-- The switch on the type.
unfoldable pub dispatch : {D : Type 0} → Analyses D → AnalysisRequest → Option (Analysis D)
dispatch analyses r =
    if string_eq.beq r.type "workspace_analysis"
    then some analyses.workspace
    else if string_eq.beq r.type "symbol_relationships"
    then some analyses.symbol_relationships
    else if string_eq.beq r.type "file_analysis"
    then some analyses.file
    else if string_eq.beq r.type "pattern_analysis"
    then some analyses.pattern
    else none

module _ {D : Type 0} (format_options : Dict String (Option String) → String) where
  -- The end of `Analyze`, from the error handling on.
  unfoldable pub finish :
      AnalysisErrorHandler
      → AnalysisCache D
      → AnalysisRequest
      → Clock
      → AnalysisMetadata × Outcome D
      → AnalysisCache D × Reply D
  finish h cache r clock (metadata, done result) =
      let metadata = record metadata { duration = clock.elapsed } in
      let result = some (record result { metadata = metadata }) in
      (
        Cache.set cache (cache_key format_options r) result hour clock.written clock.stored,
        record { result = result; err = none },
      )
  finish h cache r clock (metadata, failed message) =
      let reply : Reply D = record { result = none; err = some message } in
      if (handle_error h message (record metadata { duration = clock.elapsed })).1
      then (
        Cache.set cache (cache_key format_options r) none hour clock.written clock.stored,
        reply,
      )
      else (cache, reply)

  -- `Analyze` after a miss of the cache.
  unfoldable pub analyze_fresh :
      Analyses D
      → AnalysisErrorHandler
      → AnalysisCache D
      → AnalysisRequest
      → Clock
      → AnalysisCache D × Reply D
  analyze_fresh analyses h cache r clock = elim (dispatch analyses r) [
    | none ↦
        (cache, record { result = none; err = some (concat "unsupported analysis type: " r.type) })
    | some analysis ↦ finish h cache r clock (analysis r (record new_metadata { cache_misses = 1 }))
  ]

  unfoldable pub analyze :
      Analyses D
      → AnalysisErrorHandler
      → AnalysisCache D
      → AnalysisRequest
      → Clock
      → AnalysisCache D × Reply D
  analyze analyses h cache r clock =
      let (looked_up, found) =
        Cache.get cache (cache_key format_options r) clock.read clock.touched in
      elim found [
        | some result ↦ (looked_up, record { result = result; err = none })
        | none ↦ analyze_fresh analyses h looked_up r clock
      ]
