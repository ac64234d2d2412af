-- ===== src/Tools/CallGraph/Threads/Limits.antt =====
-- What the sections under a lock keep of the shared state.
use mcp_bsl_lsp_bridge.Prelude.{
  ℕ, ◌≤◌, String, Bool, true, false, List, [], ◌∷◌, ◌++◌, ◌≡◌, ◌≢◌, All, All-append, inl, inr,
  if◌then◌else◌, ltb, string_eq, arith, Bool-cases, Option-cases,
}
use mcp_bsl_lsp_bridge.Tools.CallGraph.{
  Direction, up, down, root, Reason, Builder, has_entry, add_entry_point, set_truncated,
  raise_depth, note_entry, is_entry_point,
}

-- No name stands twice.
abbrev pub NoRepeat : List String → Type 0
NoRepeat [] = Unit
NoRepeat (x ∷ xs) = All (λ y. x ≢ y) xs × NoRepeat xs

has_entry-head : (x n : String) (xs : List String) → has_entry (x ∷ xs) n ≡ false → x ≢ n
unfolding has_entry
has_entry-head x n xs absent same =
    let found = (string_eq.beq_iff x n).1 same in absurd (ground arith)

has_entry-tail :
    (x n : String) (xs : List String) → has_entry (x ∷ xs) n ≡ false → has_entry xs n ≡ false
unfolding has_entry
has_entry-tail x n xs absent = ground arith

NoRepeat-append :
    (xs : List String) (n : String)
    → NoRepeat xs
    → has_entry xs n ≡ false
    → NoRepeat (xs ++ (n ∷ []))
NoRepeat-append [] n d absent = (tt, tt)
NoRepeat-append (x ∷ xs) n (d, ds) absent = (
  All-append (λ y. x ≢ y) xs (n ∷ []) d (has_entry-head x n xs absent, tt),
  NoRepeat-append xs n ds (has_entry-tail x n xs absent),
)

module _ (up_limit down_limit : ℕ) where
  pub record Bounded (b : Builder) : Type 0 where
    pub ups : b.max_depth_up ≤ up_limit
    pub downs : b.max_depth_down ≤ down_limit
    pub distinct : NoRepeat b.entry_points

  unfoldable pub limit_of : Direction → ℕ
  limit_of up = up_limit
  limit_of down = down_limit
  limit_of root = 0

  pub raise-Bounded :
      (d : Direction) (b : Builder) (n : ℕ)
      → n ≤ limit_of d
      → Bounded b
      → Bounded (raise_depth d n b)
  unfolding raise_depth limit_of
  raise-Bounded up b n le h = elim (Bool-cases (ltb b.max_depth_up n)) [
    | inl deeper ↦
        rw (deeper, raise_depth) (record { ups = le; downs = h.downs; distinct = h.distinct })
    | inr same ↦ rw (same, raise_depth) h
  ]
  raise-Bounded down b n le h = elim (Bool-cases (ltb b.max_depth_down n)) [
    | inl deeper ↦
        rw (deeper, raise_depth) (record { ups = h.ups; downs = le; distinct = h.distinct })
    | inr same ↦ rw (same, raise_depth) h
  ]
  raise-Bounded root b n le h = h

  entry-Bounded : (b : Builder) (name : String) → Bounded b → Bounded (add_entry_point b name)
  unfolding add_entry_point
  entry-Bounded b name h = elim (Bool-cases (has_entry b.entry_points name)) [
    | inl old ↦ rw (old, add_entry_point) h
    | inr new ↦
        rw (new, add_entry_point)
          (record {
            ups = h.ups;
            downs = h.downs;
            distinct = NoRepeat-append b.entry_points name h.distinct new;
          })
  ]

  either : Builder → String → Builder × Bool
  either b name = if is_entry_point name then (add_entry_point b name, true) else (b, false)

  noted : (b : Builder) (name : String) → Bounded b → Bounded (either b name).0
  unfolding either
  noted b name h = elim (Bool-cases (is_entry_point name)) [
    | inl entry ↦ rw (entry, either) (entry-Bounded b name h)
    | inr other ↦ rw (other, either) h
  ]

  pub note-Bounded :
      (d : Direction) (b : Builder) (name : String) → Bounded b → Bounded (note_entry d name b).0
  unfolding note_entry either
  note-Bounded up b name h = noted b name h
  note-Bounded down b name h = h
  note-Bounded root b name h = noted b name h

  pub truncate-Bounded : (b : Builder) (r : Reason) → Bounded b → Bounded (set_truncated b r)
  unfolding set_truncated
  truncate-Bounded b r h = elim (Option-cases b.truncated) [
    | inl e ↦ rw (e, set_truncated) (record { ups = h.ups; downs = h.downs; distinct = h.distinct })
    | inr (first, e) ↦ rw (e, set_truncated) h
  ]
