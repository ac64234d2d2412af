-- ===== src/Session/Watch/Debounce.antt =====
-- The debounced changes, file by file.
use mcp_bsl_lsp_bridge.Prelude.{
  Bool, true, false, Option, none, some, List, [], ◌∷◌, ◌≡◌, refl, sym, ap, ◌∙◌, String, string_eq,
  if◌then◌else◌, Bool-cases, inl, inr,
}
use mcp_bsl_lsp_bridge.Prelude.Dict
use mcp_bsl_lsp_bridge.Prelude.Dict.{Dict, get-put}
use mcp_bsl_lsp_bridge.Session.Watch.{
  FileChangeType, created, changed, deleted, FileEvent, collect, collect_all,
}

-- What one event of the file makes of the change that is pending for it.
abbrev pub follow : FileEvent → Option FileChangeType → Option FileChangeType
follow e before =
    if e.create
    then some created
    else if e.write
    then elim before [ none ↦ some changed | some t ↦ some t ]
    else if e.removed
    then some deleted
    else before

-- An event of another file, or of a file that is no source, leaves it.
abbrev pub after_event : FileEvent → String → Option FileChangeType → Option FileChangeType
after_event e uri before =
    if e.source then (if string_eq.beq e.uri uri then follow e before else before) else before

-- The change of one file, from its own events alone.
abbrev pub follow_all : String → Option FileChangeType → List FileEvent → Option FileChangeType
follow_all uri before [] = before
follow_all uri before (e ∷ events) = follow_all uri (after_event e uri before) events

module _ (pending : Dict String FileChangeType) (e : FileEvent) (uri : String) where
  written : Option FileChangeType → Option FileChangeType
  written o = elim o [ none ↦ some changed | some t ↦ some t ]

  at_write :
      (o : Option FileChangeType)
      → Dict.get pending uri ≡ o
      → string_eq.beq e.uri uri ≡ true
      → Dict.get (elim o [ none ↦ Dict.put pending e.uri changed | some t ↦ pending ]) uri
        ≡ written o
  unfolding written
  at_write none h same = get-put pending e.uri uri changed ∙ rw same refl
  at_write (some t) h same = h

  elsewhere :
      (o : Option FileChangeType)
      → string_eq.beq e.uri uri ≡ false
      → Dict.get (elim o [ none ↦ Dict.put pending e.uri changed | some t ↦ pending ]) uri
        ≡ Dict.get pending uri
  elsewhere none other = get-put pending e.uri uri changed ∙ rw other refl
  elsewhere (some t) other = refl

  if_same : (b : Bool) (o : Option FileChangeType) → o ≡ (if b then o else o)
  if_same true o = refl
  if_same false o = refl

  -- The lookup after a write, where `o` is pending for the file that was written.
  get-write :
      (o : Option FileChangeType)
      → Dict.get pending e.uri ≡ o
      → Dict.get (elim o [ none ↦ Dict.put pending e.uri changed | some t ↦ pending ]) uri
        ≡ (if string_eq.beq e.uri uri then written (Dict.get pending uri) else Dict.get pending uri)
  unfolding written
  get-write o n = elim (Bool-cases (string_eq.beq e.uri uri)) [
    | inl same ↦
        let here : Dict.get pending uri ≡ o = rw (sym ((string_eq.beq_iff e.uri uri).0 same)) n in
        rw same (rw here (at_write o here same))
    | inr other ↦ rw other (elsewhere o other)
  ]

  collect-follow : Dict.get (collect pending e) uri ≡ after_event e uri (Dict.get pending uri)
  unfolding collect written
  collect-follow = elim (Bool-cases e.source) [
    | inr s ↦ rw s refl
    | inl s ↦ rw s (elim (Bool-cases e.create) [
      | inl c ↦ rw c (get-put pending e.uri uri created)
      | inr c ↦ rw c (elim (Bool-cases e.write) [
        | inl w ↦ rw w (get-write (Dict.get pending e.uri) refl)
        | inr w ↦ rw w (elim (Bool-cases e.removed) [
          | inl r ↦ rw r (get-put pending e.uri uri deleted)
          | inr r ↦ rw r (if_same (string_eq.beq e.uri uri) (Dict.get pending uri))
        ])
      ])
    ])
  ]

-- What is pending for a file depends only on the events of that file: a creation or a removal
-- decides, and a write counts only when nothing is pending.
pub collect_all-follow_all :
    (pending : Dict String FileChangeType) (events : List FileEvent) (uri : String)
    → Dict.get (collect_all pending events) uri ≡ follow_all uri (Dict.get pending uri) events
unfolding collect_all
collect_all-follow_all pending [] uri = refl
collect_all-follow_all pending (e ∷ events) uri =
    collect_all-follow_all (collect pending e) events uri
    ∙ ap (λ o. follow_all uri o events) (collect-follow pending e uri)
