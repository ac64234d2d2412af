-- ===== src/Lsp/Progress/Tokens.antt =====
-- The active progress of one token.
use mcp_bsl_lsp_bridge.Prelude.{
  ℕ, Bool, true, false, ◌||◌, Option, none, some, List, [], ◌∷◌, String, string_eq, if◌then◌else◌,
  ◌≡◌, refl, sym, ap, ◌∙◌, Bool-cases, inl, inr,
}
use mcp_bsl_lsp_bridge.Prelude.Int.{ℤ}
use mcp_bsl_lsp_bridge.Prelude.Dict
use mcp_bsl_lsp_bridge.Prelude.Dict.{Dict, get-put, get-remove}
use mcp_bsl_lsp_bridge.Lsp.Progress.{
  Payload, ProgressEvent, ProgressTracker, new_progress_tracker, marker, named, keep_known, track,
  ProgressToken, number, text, number_text, progress_token_key, event_of, update,
}

-- A notification: its time, its token, and its payload.
pub record Notice : Type 0 where
  pub now : ℕ
  pub token : ProgressToken
  pub payload : Option Payload

unfoldable pub update_all : ProgressTracker → List Notice → ProgressTracker
unfolding update
update_all pt [] = pt
update_all pt (n ∷ notices) = update_all (update pt n.now n.token n.payload) notices

abbrev pub if_known : Option ProgressEvent → ProgressEvent → Option ProgressEvent
if_known none ev = none
if_known (some old) ev = some ev

-- What an event of the token makes of the event that is active for it.
abbrev pub next_event : Option ProgressEvent → ProgressEvent → Option ProgressEvent
next_event before ev =
    if string_eq.beq ev.payload.kind "begin" || string_eq.beq ev.payload.kind "report"
    then some ev
    else if string_eq.beq ev.payload.kind "end"
    then none
    else if_known before ev

abbrev pub after_payload :
    Option ProgressEvent → ℕ → ProgressToken → Option Payload → Option ProgressEvent
after_payload before now token none = before
after_payload before now token (some p) = next_event before (event_of now token (named p))

-- The active event under a key, from the notifications whose token has that key alone.
abbrev pub active_of : String → Option ProgressEvent → List Notice → Option ProgressEvent
active_of key before [] = before
active_of key before (n ∷ notices) =
    active_of key
      (if string_eq.beq (progress_token_key n.token) key
        then after_payload before n.now n.token n.payload
        else before)
      notices

module _ (active : Dict String ProgressEvent) (k key : String) (ev : ProgressEvent) where
  if_same : (b : Bool) (o : Option ProgressEvent) → o ≡ (if b then o else o)
  if_same true o = refl
  if_same false o = refl

  get-keep_known :
      (o : Option ProgressEvent)
      → Dict.get active k ≡ o
      → Dict.get (keep_known active k ev o) key
        ≡ (if string_eq.beq k key then if_known (Dict.get active key) ev else Dict.get active key)
  get-keep_known none h = elim (Bool-cases (string_eq.beq k key)) [
    | inl same ↦
        let here : Dict.get active key ≡ none = rw (sym ((string_eq.beq_iff k key).0 same)) h in
        rw same (rw here refl)
    | inr other ↦ rw other refl
  ]
  get-keep_known (some old) h = elim (Bool-cases (string_eq.beq k key)) [
    | inl same ↦
        let here : Dict.get active key ≡ some old = rw (sym ((string_eq.beq_iff k key).0 same)) h in
        get-put active k key ev ∙ rw same (rw here refl)
    | inr other ↦ get-put active k key ev ∙ rw other refl
  ]

  get-track :
      Dict.get (track active k ev) key
      ≡ (if string_eq.beq k key then next_event (Dict.get active key) ev else Dict.get active key)
  unfolding track
  get-track =
      elim (Bool-cases
        (string_eq.beq ev.payload.kind "begin" || string_eq.beq ev.payload.kind "report")) [
          | inl running ↦ rw running (get-put active k key ev)
          | inr other ↦ rw other (elim (Bool-cases (string_eq.beq ev.payload.kind "end")) [
            | inl ended ↦ rw ended (get-remove active k key)
            | inr unknown ↦ rw unknown (get-keep_known (Dict.get active k) refl)
          ])
        ]

update-active_of :
    (pt : ProgressTracker) (now : ℕ) (token : ProgressToken) (key : String) (p : Option Payload)
    → Dict.get (update pt now token p).active key ≡ (
        if string_eq.beq (progress_token_key token) key
        then after_payload (Dict.get pt.active key) now token p
        else Dict.get pt.active key)
unfolding update
update-active_of pt now token key none =
    if_same pt.active (progress_token_key token) key (event_of now token marker)
      (string_eq.beq (progress_token_key token) key) (Dict.get pt.active key)
update-active_of pt now token key (some p) =
    get-track pt.active (progress_token_key token) key (event_of now token (named p))

update_all-from :
    (pt : ProgressTracker) (notices : List Notice) (key : String)
    → Dict.get (update_all pt notices).active key ≡ active_of key (Dict.get pt.active key) notices
unfolding update_all
update_all-from pt [] key = refl
update_all-from pt (n ∷ notices) key =
    update_all-from (update pt n.now n.token n.payload) notices key
    ∙ ap (λ o. active_of key o notices) (update-active_of pt n.now n.token key n.payload)

-- An integer token and the string that spells it share a key.
progress_token_key-shared :
    (n : ℤ) → progress_token_key (number n) ≡ progress_token_key (text (number_text n))
unfolding progress_token_key
progress_token_key-shared n = refl

-- What is active under a key depends only on the notifications whose token has that key:
-- the last begin or report stays until an end, and a payload of another kind counts only while one
-- is active.
pub update_all-active_of :
    (notices : List Notice) (key : String)
    → Dict.get (update_all new_progress_tracker notices).active key ≡ active_of key none notices
unfolding Dict.get
update_all-active_of notices key = update_all-from new_progress_tracker notices key
