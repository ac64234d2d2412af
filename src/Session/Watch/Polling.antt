-- ===== src/Session/Watch/Polling.antt =====
-- What the comparison of two scans reports.
use mcp_bsl_lsp_bridge.Prelude.{
  Bool, true, Option, none, some, List, [], ◌∷◌, ◌++◌, ◌≡◌, ◌≢◌, ◌⊎◌, refl, sym, ap, arith, String,
  string_eq, if◌then◌else◌, All, All-append, Bool-cases, inl, inr, some-injective,
}
use mcp_bsl_lsp_bridge.Prelude.Int.{ℤ, int_eq}
use mcp_bsl_lsp_bridge.Prelude.Dict
use mcp_bsl_lsp_bridge.Prelude.Dict.{Dict, Distinct, All-get}
use mcp_bsl_lsp_bridge.Session.Watch.{
  FileChangeType, created, changed, deleted, FileChange, path_to_uri, changed_from, new_and_changed,
  deleted_unless, gone, compare_files, check_for_changes, unless_indexing,
}

-- What happened to a path between two scans, by its modification times.
abbrev pub change_between : Option ℤ → Option ℤ → Option FileChangeType
change_between none none = none
change_between none (some new) = some created
change_between (some old) none = some deleted
change_between (some old) (some new) = if int_eq.beq new old then none else some changed

-- The list has a change with the URI of the path, of the kind.
abbrev pub Reports : String → FileChangeType → List FileChange → Type 0
Reports path kind [] = ⊥
Reports path kind (c ∷ changes) =
    ((c.uri ≡ path_to_uri path) × (c.kind ≡ kind)) ⊎ Reports path kind changes

module _ (old new : Dict String ℤ) where
  abbrev pub IsChange : FileChange → Type 0
  IsChange c =
      (path : String) × (c.uri ≡ path_to_uri path)
      × (change_between (Dict.get old path) (Dict.get new path) ≡ some c.kind)

  changed_from-IsChange :
      (path : String) (mtime : ℤ) (o : Option ℤ)
      → Dict.get new path ≡ some mtime
      → Dict.get old path ≡ o
      → All IsChange (changed_from path mtime o)
  changed_from-IsChange path mtime none n e = ((path, refl, rw e (rw n refl)), tt)
  changed_from-IsChange path mtime (some t) n e = elim (Bool-cases (int_eq.beq mtime t)) [
    | inl h ↦ rw h tt
    | inr h ↦ rw h ((path, refl, rw e (rw n (rw h refl))), tt)
  ]

  new_and_changed-IsChange :
      (files : Dict String ℤ)
      → All (λ f. Dict.get new f.0 ≡ some f.1) files
      → All IsChange (new_and_changed old files)
  unfolding new_and_changed
  new_and_changed-IsChange [] h = tt
  new_and_changed-IsChange ((path, mtime) ∷ files) (p, h) =
      All-append IsChange (changed_from path mtime (Dict.get old path)) (new_and_changed old files)
        (changed_from-IsChange path mtime (Dict.get old path) p refl)
        (new_and_changed-IsChange files h)

  deleted_unless-IsChange :
      (path : String) (mtime : ℤ) (o : Option ℤ)
      → Dict.get old path ≡ some mtime
      → Dict.get new path ≡ o
      → All IsChange (deleted_unless path o)
  deleted_unless-IsChange path mtime none e n = ((path, refl, rw e (rw n refl)), tt)
  deleted_unless-IsChange path mtime (some t) e n = tt

  gone-IsChange :
      (files : Dict String ℤ)
      → All (λ f. Dict.get old f.0 ≡ some f.1) files
      → All IsChange (gone new files)
  unfolding gone
  gone-IsChange [] h = tt
  gone-IsChange ((path, mtime) ∷ files) (p, h) =
      All-append IsChange (deleted_unless path (Dict.get new path)) (gone new files)
        (deleted_unless-IsChange path mtime (Dict.get new path) p refl) (gone-IsChange files h)

  -- Every change that the comparison reports has the URI of a path to which it did happen between
  -- the two scans.
  pub compare_files-IsChange : Distinct old → Distinct new → All IsChange (compare_files old new)
  unfolding compare_files
  compare_files-IsChange o n =
      All-append IsChange (new_and_changed old new) (gone new old)
        (new_and_changed-IsChange new (All-get new n)) (gone-IsChange old (All-get old o))

  Reports-left :
      (path : String) (kind : FileChangeType) (xs ys : List FileChange)
      → Reports path kind xs
      → Reports path kind (xs ++ ys)
  Reports-left path kind [] ys h = absurd h
  Reports-left path kind (x ∷ xs) ys (inl h) = inl h
  Reports-left path kind (x ∷ xs) ys (inr h) = inr (Reports-left path kind xs ys h)

  Reports-right :
      (path : String) (kind : FileChangeType) (xs ys : List FileChange)
      → Reports path kind ys
      → Reports path kind (xs ++ ys)
  Reports-right path kind [] ys h = h
  Reports-right path kind (x ∷ xs) ys h = inr (Reports-right path kind xs ys h)

  changed_from-Reports :
      (path : String) (kind : FileChangeType) (mtime : ℤ) (o : Option ℤ)
      → change_between o (some mtime) ≡ some kind
      → Reports path kind (changed_from path mtime o)
  changed_from-Reports path kind mtime none h = inl (refl, some-injective h)
  changed_from-Reports path kind mtime (some t) h = elim (Bool-cases (int_eq.beq mtime t)) [
    | inl e ↦ let q : none ≡ some kind = rw e at h in absurd (ground arith)
    | inr e ↦ let q : some changed ≡ some kind = rw e at h in rw e (inl (refl, some-injective q))
  ]

  new_and_changed-Reports :
      (path : String) (kind : FileChangeType) (files : Dict String ℤ) (mtime : ℤ)
      → Dict.get files path ≡ some mtime
      → change_between (Dict.get old path) (some mtime) ≡ some kind
      → Reports path kind (new_and_changed old files)
  unfolding new_and_changed Dict.get
  new_and_changed-Reports path kind [] mtime f h = absurd (ground arith)
  new_and_changed-Reports path kind ((p, t) ∷ files) mtime f h =
      elim (Bool-cases (string_eq.beq p path)) [
        | inl same ↦
            let q : some t ≡ some mtime = rw same at f in
            rw ((string_eq.beq_iff p path).0 same) (
              rw (some-injective q) (
                Reports-left path kind (changed_from path mtime (Dict.get old path))
                  (new_and_changed old files)
                  (changed_from-Reports path kind mtime (Dict.get old path) h)))
        | inr other ↦
            Reports-right path kind (changed_from p t (Dict.get old p)) (new_and_changed old files)
              (new_and_changed-Reports path kind files mtime (rw other at f) h)
      ]

  deleted_unless-Reports :
      (path : String) (o : Option ℤ) → o ≡ none → Reports path deleted (deleted_unless path o)
  deleted_unless-Reports path none h = inl (refl, refl)
  deleted_unless-Reports path (some t) h = absurd (ground arith)

  gone-Reports :
      (path : String) (files : Dict String ℤ) (mtime : ℤ)
      → Dict.get files path ≡ some mtime
      → Dict.get new path ≡ none
      → Reports path deleted (gone new files)
  unfolding gone Dict.get
  gone-Reports path [] mtime f h = absurd (ground arith)
  gone-Reports path ((p, t) ∷ files) mtime f h = elim (Bool-cases (string_eq.beq p path)) [
    | inl same ↦ rw ((string_eq.beq_iff p path).0 same) (
        Reports-left path deleted (deleted_unless path (Dict.get new path)) (gone new files)
          (deleted_unless-Reports path (Dict.get new path) h))
    | inr other ↦
        Reports-right path deleted (deleted_unless p (Dict.get new p)) (gone new files)
          (gone-Reports path files mtime (rw other at f) h)
  ]

  by_new :
      (path : String) (kind : FileChangeType) (o n : Option ℤ)
      → Dict.get old path ≡ o
      → Dict.get new path ≡ n
      → change_between o n ≡ some kind
      → Reports path kind (compare_files old new)
  unfolding compare_files
  by_new path kind none none e f h = absurd (ground arith)
  by_new path kind (some t) none e f h = rw (sym (some-injective h)) (
      Reports-right path deleted (new_and_changed old new) (gone new old)
        (gone-Reports path old t e f))
  by_new path kind o (some t) e f h =
      Reports-left path kind (new_and_changed old new) (gone new old)
        (new_and_changed-Reports path kind new t f (rw e h))

  -- Every path that was created, deleted, or written with another time between the two scans is
  -- reported by its URI, with that kind.
  pub compare_files-Reports :
      (path : String) (kind : FileChangeType)
      → change_between (Dict.get old path) (Dict.get new path) ≡ some kind
      → Reports path kind (compare_files old new)
  compare_files-Reports path kind h =
      by_new path kind (Dict.get old path) (Dict.get new path) refl refl h

no_change : (o : Option ℤ) (kind : FileChangeType) → change_between o o ≢ some kind
no_change none kind h = absurd (ground arith)
no_change (some t) kind h =
    let q : none ≡ some kind = rw ((int_eq.beq_iff t t).1 refl) at h in absurd (ground arith)

unchanged-nil :
    (files : Dict String ℤ) (changes : List FileChange)
    → All (IsChange files files) changes
    → changes ≡ []
unchanged-nil files [] h = refl
unchanged-nil files (c ∷ changes) ((path, same, p), h) =
    absurd (no_change (Dict.get files path) c.kind p)

unless_indexing-true : (changes : List FileChange) → unless_indexing true changes ≡ none
unless_indexing-true [] = refl
unless_indexing-true (c ∷ changes) = refl

-- A scan while the server indexes sends nothing and keeps its result, so that a second scan that
-- finds the same files sends nothing either: the changes are never reported.
pub check_for_changes-lost :
    (busy : Bool) (old new : Dict String ℤ)
    → Distinct new
    → ((check_for_changes true old new).1 ≡ none)
      × ((check_for_changes busy (check_for_changes true old new).0 new).1 ≡ none)
unfolding check_for_changes
check_for_changes-lost busy old new d =
    let same = unchanged-nil new (compare_files new new) (compare_files-IsChange new new d d) in
    (unless_indexing-true (compare_files old new), ap (unless_indexing busy) same)
