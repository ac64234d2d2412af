-- ===== src/Edits.antt =====
-- bridge/bridge.go: `applyTextEditsToContent`. Positions are a line and a byte of the line, as
-- the source takes them; out of range nothing is edited.
pub mod Splice
pub mod Lines
pub mod Order
use mcp_bsl_lsp_bridge.Prelude.{
  ℕ, zero, suc, ◌+◌, ◌-◌, Bool, true, false, ◌&&◌, ◌||◌, List, [], ◌∷◌, ◌++◌, if◌then◌else◌, ltb,
  leb, ◌==◌, length, take, drop, set,
}
use mcp_bsl_lsp_bridge.Prelude.Bytes.{Bytes}

pub record TextEdit : Type 0 where
  pub start_line : ℕ
  pub start_char : ℕ
  pub end_line : ℕ
  pub end_char : ℕ
  pub new_text : Bytes

abbrev pub cons_first : ℕ → List Bytes → List Bytes
cons_first c [] = (c ∷ []) ∷ []
cons_first c (line ∷ lines) = (c ∷ line) ∷ lines

-- `strings.Split(content, "\n")`
unfoldable pub split_lines : Bytes → List Bytes
split_lines [] = [] ∷ []
split_lines (c ∷ s) = let rest = split_lines s in if c == 10 then [] ∷ rest else cons_first c rest

-- `strings.Join(lines, "\n")`
unfoldable pub join_lines : List Bytes → Bytes
join_lines [] = []
join_lines (line ∷ []) = line
join_lines (line ∷ next ∷ lines) = line ++ 10 ∷ join_lines (next ∷ lines)

-- `lines[i]`, where `i` is known to be in range
abbrev pub line_at : List Bytes → ℕ → Bytes
line_at [] i = []
line_at (line ∷ lines) zero = line
line_at (line ∷ lines) (suc i) = line_at lines i

-- the test of the sort: the first edit starts before the second
unfoldable pub starts_before : TextEdit → TextEdit → Bool
starts_before a b =
    ltb a.start_line b.start_line || (a.start_line == b.start_line && ltb a.start_char b.start_char)

-- The inner loop for one `i`: the edit at `i` against each later one, with the swap in place.
unfoldable pub exchange : TextEdit → List TextEdit → TextEdit × List TextEdit
exchange current [] = (current, [])
exchange current (other ∷ edits) =
    let swap = starts_before current other in
    let (first, rest) = exchange (if swap then other else current) edits in
    (first, (if swap then current else other) ∷ rest)

-- The outer loop, by the rounds that are left.
unfoldable pub sort_rounds : ℕ → List TextEdit → List TextEdit
sort_rounds zero edits = edits
sort_rounds (suc rounds) [] = []
sort_rounds (suc rounds) (edit ∷ edits) =
    let (first, rest) = exchange edit edits in first ∷ sort_rounds rounds rest

unfoldable pub sort_edits : List TextEdit → List TextEdit
sort_edits edits = sort_rounds (length edits - 1) edits

-- the single-line branch of the loop over the edits
unfoldable pub edit_one_line : List Bytes → TextEdit → List Bytes
edit_one_line lines e =
    let line = line_at lines e.start_line in
    if ltb (length line) e.start_char || ltb (length line) e.end_char
    then lines
    else set lines e.start_line (take e.start_char line ++ e.new_text ++ drop e.end_char line)

-- the multi-line branch
unfoldable pub edit_many_lines : List Bytes → TextEdit → List Bytes
edit_many_lines lines e =
    let first = line_at lines e.start_line in
    let last = line_at lines e.end_line in
    if ltb (length first) e.start_char || ltb (length last) e.end_char
    then lines
    else take e.start_line lines
      ++ (take e.start_char first ++ e.new_text ++ drop e.end_char last)
        ∷ drop (suc e.end_line) lines

-- one round of the loop over the sorted edits
unfoldable pub apply_edit : List Bytes → TextEdit → List Bytes
unfolding edit_one_line edit_many_lines
apply_edit lines e =
    if leb (length lines) e.start_line || leb (length lines) e.end_line
    then lines
    else if e.start_line == e.end_line
    then edit_one_line lines e
    else edit_many_lines lines e

unfoldable pub apply_sorted : List Bytes → List TextEdit → List Bytes
apply_sorted lines [] = lines
apply_sorted lines (e ∷ edits) = apply_sorted (apply_edit lines e) edits

unfoldable pub apply_text_edits_to_content : Bytes → List TextEdit → Bytes
apply_text_edits_to_content content [] = content
apply_text_edits_to_content content (e ∷ edits) =
    join_lines (apply_sorted (split_lines content) (sort_edits (e ∷ edits)))
