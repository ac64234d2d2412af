-- ===== src/Session/Indexing/Ending.antt =====
-- What the status says after each kind of notification.
use mcp_bsl_lsp_bridge.Prelude.{
  ℕ, ◌<◌, true, false, none, ◌≡◌, refl, ◌∙◌, arith, Bool-cases, inl, inr, string_eq, if◌then◌else◌,
}
use mcp_bsl_lsp_bridge.Prelude.Int.{ℤ, pos, negsuc, is_positive, is_below}
use mcp_bsl_lsp_bridge.Session.Indexing.{
  Float64, Indexing, Progress, indexing, complete, idle, handle_progress, end_indexing,
  report_indexing, get_status, is_active, is_complete, is_indexing, parse_progress_message,
}

irreflexive : (a : ℤ) → is_below a a ≡ false
irreflexive (pos n) = ground arith
irreflexive (negsuc n) = ground arith

module _ {F : Type 0} (float : Float64 F) (now : ℕ) (p : Progress) (s : Indexing F) where
  end-is_active : is_active float (end_indexing float now p s) ≡ false
  unfolding is_active end_indexing
  end-is_active = elim (Bool-cases (is_positive s.total)) [
    | inl h ↦ rw h (rw (irreflexive s.total) refl)
    | inr h ↦ rw h refl
  ]

  end-is_complete : is_complete float (end_indexing float now p s) ≡ is_positive s.total
  unfolding is_complete end_indexing
  end-is_complete = elim (Bool-cases (is_positive s.total)) [
    | inl h ↦ rw h (rw (irreflexive s.total) refl)
    | inr h ↦ rw h refl
  ]

  handle_progress-end : p.kind ≡ "end" → handle_progress float now p s ≡ end_indexing float now p s
  unfolding handle_progress
  handle_progress-end k = rw k refl

  -- Once the end of the indexing is notified, the status is no longer "indexing", there is no
  -- estimate, and it is "complete" exactly when a total had been reported.
  pub end-get_status :
      (later : ℕ)
      → p.kind ≡ "end"
      → ((get_status float later (handle_progress float now p s)).state
          ≡ (if is_positive s.total then complete else idle))
        × ((get_status float later (handle_progress float now p s)).eta_seconds ≡ none)
  unfolding get_status
  end-get_status later k =
      rw (handle_progress-end k) (rw end-is_active (rw end-is_complete (refl, refl)))

module _ {F : Type 0} (float : Float64 F) (n m : ℕ) (h : n < m) where
  is_active-below :
      (t : Indexing F) → t.current ≡ pos n → t.total ≡ pos m → is_active float t ≡ true
  unfolding is_active
  is_active-below t c e = rw c (rw e (ground arith))

  module _ (now : ℕ) (p : Progress) (s : Indexing F)
      (e : parse_progress_message p.message ≡ (pos n, pos m)) where
    total-positive : is_positive (parse_progress_message p.message).1 ≡ true
    total-positive = rw e (ground arith)

    report-current : (report_indexing float now p s).current ≡ pos n
    unfolding report_indexing
    report-current = rw total-positive (rw e refl)

    report-total : (report_indexing float now p s).total ≡ pos m
    unfolding report_indexing
    report-total = rw total-positive (rw e refl)

    report-active : (report_indexing float now p s).active ≡ s.active
    unfolding report_indexing
    report-active = refl

    handle_progress-report :
        p.kind ≡ "report" → handle_progress float now p s ≡ report_indexing float now p s
    unfolding handle_progress
    handle_progress-report k = rw k refl

-- A report that comes after the end, with "N/M" and N below M, leaves the two answers of the
-- session apart: the status says "indexing", and `IsIndexing` says no.
pub late_report-disagrees :
    {F : Type 0} (float : Float64 F) (now later n m : ℕ) (p : Progress) (s : Indexing F)
    → s.active ≡ false
    → p.kind ≡ "report"
    → parse_progress_message p.message ≡ (pos n, pos m)
    → n < m
    → ((get_status float later (handle_progress float now p s)).state ≡ indexing)
      × (is_indexing float (handle_progress float now p s) ≡ false)
unfolding get_status is_indexing
late_report-disagrees {F} float now later n m p s done k e h =
    let busy =
      is_active-below float n m h (report_indexing float now p s)
        (report-current float n m h now p s e) (report-total float n m h now p s e) in
    rw (handle_progress-report float n m h now p s e k)
      (rw busy (refl, report-active float n m h now p s e ∙ done))
