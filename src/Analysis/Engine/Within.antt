-- ===== src/Analysis/Engine/Within.antt =====
-- The calls of `Analyze` within the hour after an analysis that succeeded.
use mathlib.Core.Path.{subst}
use mcp_bsl_lsp_bridge.Prelude.{
  ℕ, suc, ◌+◌, ◌≤◌, String, false, Option, none, some, List, [], ◌∷◌, ◌≡◌, sym, ap, ◌∙◌, inl, inr,
  string_eq, length, arith, All, Bool-cases, Option-cases,
}
use mcp_bsl_lsp_bridge.Prelude.Dict.{Dict}
use mcp_bsl_lsp_bridge.Analysis.Cache
use mcp_bsl_lsp_bridge.Analysis.Cache.Keeps.{
  Keeps, Holds, get-hit, get-Keeps, set-Keeps, fewer-Keeps, set-Holds_new,
}
use mcp_bsl_lsp_bridge.Analysis.Engine.{
  AnalysisRequest, AnalysisMetadata, AnalysisResult, AnalysisErrorHandler, Analyses, Analysis,
  AnalysisCache, Outcome, done, failed, Reply, Clock, hour, new_metadata, cache_key, dispatch,
  handle_error, finish, analyze_fresh, analyze,
}
use mcp_bsl_lsp_bridge.Analysis.Engine.Again.{
  analyze-hit, finish-done, first-finish, looked_up, outcome,
}

-- A call: what the analyses would answer by then, the handler, the request, and the clock.
pub record Call (D : Type 0) : Type 0 where
  pub analyses : Analyses D
  pub handler : AnalysisErrorHandler
  pub request : AnalysisRequest
  pub clock : Clock

module _ {D : Type 0} (format_options : Dict String (Option String) → String) where
  abbrev pub analyze_call : AnalysisCache D → Call D → AnalysisCache D × Reply D
  analyze_call cache c = analyze format_options c.analyses c.handler cache c.request c.clock

  -- The cache after some calls.
  abbrev pub analyze_all : AnalysisCache D → List (Call D) → AnalysisCache D
  analyze_all cache [] = cache
  analyze_all cache (c ∷ calls) = analyze_all (analyze_call cache c).0 calls

  module _ (key : String) (value : Option (AnalysisResult D)) (expiry : ℕ) where
    finish-Keeps :
        (n : ℕ) (h : AnalysisErrorHandler) (cache : AnalysisCache D) (r : AnalysisRequest)
        (clock : Clock) (metadata : AnalysisMetadata) (out : Outcome D)
        → string_eq.beq (cache_key format_options r) key ≡ false
        → Keeps key value expiry (suc n) cache
        → Keeps key value expiry n (finish format_options h cache r clock (metadata, out)).0
    unfolding finish
    finish-Keeps n h cache r clock metadata (done result) other k =
        set-Keeps key value expiry n cache (cache_key format_options r) _ hour clock.written
          clock.stored other k
    finish-Keeps n h cache r clock metadata (failed message) other k =
        elim (Bool-cases
          (handle_error h message (record metadata { duration = clock.elapsed })).1) [
            | inl goes_on ↦
                rw (goes_on, finish)
                  (set-Keeps key value expiry n cache (cache_key format_options r) none hour
                    clock.written clock.stored other k)
            | inr stops ↦ rw (stops, finish) (fewer-Keeps key value expiry n cache k)
          ]

    analyze_fresh-Keeps :
        (n : ℕ) (c : Call D) (cache : AnalysisCache D)
        → string_eq.beq (cache_key format_options c.request) key ≡ false
        → Keeps key value expiry (suc n) cache
        → Keeps key value expiry n
            (analyze_fresh format_options c.analyses c.handler cache c.request c.clock).0
    unfolding analyze_fresh
    analyze_fresh-Keeps n c cache other k = elim (Option-cases (dispatch c.analyses c.request)) [
      | inl unknown ↦ rw (unknown, analyze_fresh) (fewer-Keeps key value expiry n cache k)
      | inr (analysis, known) ↦
          let out = analysis c.request (record new_metadata { cache_misses = 1 }) in
          rw (known, analyze_fresh)
            (finish-Keeps n c.handler cache c.request c.clock out.0 out.1 other k)
    ]

    analyze-Keeps :
        (n : ℕ) (c : Call D) (cache : AnalysisCache D)
        → c.clock.read ≤ expiry
        → Keeps key value expiry (suc n) cache
        → Keeps key value expiry n (analyze_call cache c).0
    unfolding analyze
    analyze-Keeps n c cache alive k =
        let own = cache_key format_options c.request in
        let found = Cache.get cache own c.clock.read c.clock.touched in
        let looked_up =
          get-Keeps key value expiry (suc n) cache own c.clock.read c.clock.touched alive k in
        elim (Option-cases found.1) [
          | inr (result, hit) ↦ rw (hit, analyze) (fewer-Keeps key value expiry n found.0 looked_up)
          | inl miss ↦ elim (Bool-cases (string_eq.beq own key)) [
            | inr other ↦ rw (miss, analyze) (analyze_fresh-Keeps n c found.0 other looked_up)
            | inl same ↦
                let hit =
                  get-hit key value expiry cache c.clock.read c.clock.touched alive k.holds in
                let at =
                  ap (λ j. (Cache.get cache j c.clock.read c.clock.touched).1)
                    ((string_eq.beq_iff own key).0 same) in
                let q : none ≡ some value = sym miss ∙ at ∙ hit in absurd (ground arith)
          ]
        ]

    analyze_all-Holds :
        (calls : List (Call D)) (cache : AnalysisCache D)
        → All (λ c. c.clock.read ≤ expiry) calls
        → Keeps key value expiry (length calls) cache
        → Holds key value expiry (analyze_all cache calls)
    analyze_all-Holds [] cache within k = k.holds
    analyze_all-Holds (c ∷ calls) cache (alive, within) k =
        analyze_all-Holds calls (analyze_call cache c).0 within
          (analyze-Keeps (length calls) c cache alive k)

  reply-within :
      (out : AnalysisCache D × Reply D) (looked_up : AnalysisCache D) (r : AnalysisRequest)
      (written stored : ℕ) (value : Option (AnalysisResult D)) (between : List (Call D))
      (last : Call D)
      → out ≡ (
        Cache.set looked_up (cache_key format_options r) value hour written stored,
        record { result = value; err = none },
      )
      → All (λ c. c.clock.read ≤ written + hour) between
      → length out.0.items + length between ≤ out.0.max_size
      → last.request ≡ r
      → last.clock.read ≤ written + hour
      → (analyze_call (analyze_all out.0 between) last).1 ≡ out.1
  reply-within out looked_up r written stored value between last e within fits asks alive =
      let key = cache_key format_options r in
      let begun : Holds key value (written + hour) out.0 =
        subst (λ o. Holds key value (written + hour) o.0) (sym e)
          (set-Holds_new looked_up key value hour written stored) in
      let kept =
        analyze_all-Holds key value (written + hour) between out.0 within
          (record { holds = begun; fits = fits }) in
      let hit =
        get-hit key value (written + hour) (analyze_all out.0 between) last.clock.read
          last.clock.touched alive kept in
      let at =
        ap
          (λ q.
            (Cache.get (analyze_all out.0 between) (cache_key format_options q) last.clock.read
              last.clock.touched).1)
          asks in
      analyze-hit format_options last.analyses last.handler (analyze_all out.0 between) last.request
        last.clock value (at ∙ hit)
      ∙ sym (ap (λ o. o.1) e)

-- After an analysis that succeeded, the same request within the hour has the same reply, whatever
-- was asked in between, for this request or others, and whatever the analyses would answer by then:
-- where the calls in between come within the hour too, and the cache has room for as many items as
-- there are such calls, so that nothing is evicted.
pub analyze-again :
    {D : Type 0} (format_options : Dict String (Option String) → String) (analyses : Analyses D)
    (h : AnalysisErrorHandler) (cache : AnalysisCache D) (r : AnalysisRequest) (first : Clock)
    (analysis : Analysis D) (result : AnalysisResult D) (between : List (Call D)) (last : Call D)
    → (Cache.get cache (cache_key format_options r) first.read first.touched).1 ≡ none
    → dispatch analyses r ≡ some analysis
    → (analysis r (record new_metadata { cache_misses = 1 })).1 ≡ done result
    → All (λ c. c.clock.read ≤ first.written + hour) between
    → length (analyze format_options analyses h cache r first).0.items + length between
      ≤ (analyze format_options analyses h cache r first).0.max_size
    → last.request ≡ r
    → last.clock.read ≤ first.written + hour
    → (analyze_call format_options
        (analyze_all format_options (analyze format_options analyses h cache r first).0 between)
        last).1
      ≡ (analyze format_options analyses h cache r first).1
analyze-again format_options analyses h cache r first analysis result between last missed known
      ended within fits asks alive =
    reply-within format_options (analyze format_options analyses h cache r first) _ r first.written
      first.stored _ between last
      (first-finish format_options analyses h cache r first analysis missed known
        ∙ finish-done format_options h
            (looked_up format_options analyses h cache r first analysis missed known) r first
            (outcome format_options analyses h cache r first analysis missed known) result ended)
      within fits asks alive
