-- ===== src/Edits/Lines.antt =====
-- Splitting a text into lines and joining them again.
use mcp_bsl_lsp_bridge.Prelude.{
  ℕ, List, [], ◌∷◌, ◌≡◌, refl, sym, ap, ◌∙◌, ◌==◌, ==_iff, Bool-cases, inl, inr,
}
use mcp_bsl_lsp_bridge.Prelude.Bytes.{Bytes}
use mcp_bsl_lsp_bridge.Edits.{split_lines, join_lines, cons_first}

split_lines-cons : (s : Bytes) → (x : Bytes) × (rest : List Bytes) × (split_lines s ≡ x ∷ rest)
unfolding split_lines
split_lines-cons [] = ([], [], refl)
split_lines-cons (c ∷ s) =
    let (x, rest, e) = split_lines-cons s in
    elim (Bool-cases (c == 10)) [
      | inl h ↦ ([], split_lines s, rw h refl)
      | inr h ↦ (c ∷ x, rest, rw h (rw e refl))
    ]

join_lines-cons_first :
    (c : ℕ) (x : Bytes) (rest : List Bytes)
    → join_lines (cons_first c (x ∷ rest)) ≡ c ∷ join_lines (x ∷ rest)
unfolding join_lines
join_lines-cons_first c x [] = refl
join_lines-cons_first c x (y ∷ rest) = refl

join_lines-empty_line :
    (x : Bytes) (rest : List Bytes) → join_lines ([] ∷ x ∷ rest) ≡ 10 ∷ join_lines (x ∷ rest)
unfolding join_lines
join_lines-empty_line x rest = refl

-- Joining the lines of a text gives the text.
pub join_lines-split_lines : (s : Bytes) → join_lines (split_lines s) ≡ s
unfolding split_lines
join_lines-split_lines [] = unfold join_lines in refl
join_lines-split_lines (c ∷ s) =
    let (x, rest, e) = split_lines-cons s in
    let whole : join_lines (x ∷ rest) ≡ s = sym (ap join_lines e) ∙ join_lines-split_lines s in
    elim (Bool-cases (c == 10)) [
      | inl h ↦ rw h (
          rw e (
            join_lines-empty_line x rest
            ∙ ap (◌∷◌ 10) whole
            ∙ ap (λ d. d ∷ s) (sym ((==_iff c 10).0 h))))
      | inr h ↦ rw h (rw e (join_lines-cons_first c x rest ∙ ap (◌∷◌ c) whole))
    ]
