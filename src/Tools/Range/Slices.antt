-- ===== src/Tools/Range/Slices.antt =====
-- A range on one line, as a slice of the text.
use mcp_bsl_lsp_bridge.Prelude.{
  ℕ, suc, ◌-◌, ◌<◌, ◌≤◌, ◌^◌, Bool, true, false, ◌++◌, ◌≡◌, refl, sym, ap, ◌∙◌, arith, ltb, leb,
  ◌==◌, length, take, drop, length-drop, ltb-false, leb-false, leb→le, ==_iff, Bool-cases, inl, inr,
}
use mcp_bsl_lsp_bridge.Prelude.Bytes.{Bytes}
use mcp_bsl_lsp_bridge.Edits.{split_lines, line_at}
use mcp_bsl_lsp_bridge.Edits.Lines.{join_lines-split_lines}
use mcp_bsl_lsp_bridge.Edits.Splice.{offset, after, take-append_le, drop-offset}
use mcp_bsl_lsp_bridge.Tools.Range.{ok, safe_uint32, clamp, slice, single_line, get_range_content}

pub safe_uint32-ok : (n : ℕ) → n < 2 ^ 32 → safe_uint32 n ≡ ok n
unfolding safe_uint32
safe_uint32-ok n h = rw (ltb-false n (2 ^ 32 - 1) (omega arith)) refl

pub clamp-ok :
    (strict : Bool) (line : Bytes) (at : ℕ)
    → length line < 2 ^ 32
    → at ≤ length line
    → clamp strict line at ≡ ok at
unfolding clamp
clamp-ok strict line at h k =
    rw (safe_uint32-ok (length line) h) (rw (ltb-false at (length line) k) refl)

slice-ok :
    (start end : ℕ) (line : Bytes)
    → start ≤ end
    → end ≤ length line
    → slice start end (length line) line ≡ ok (take (end - start) (drop start line))
slice-ok start end line h k =
    rw (ltb-false start end h) (elim (Bool-cases (leb (length line) start)) [
      | inl past ↦
          let none : end - start ≡ 0 = omega (arith, leb→le (length line) start past) in
          rw past (rw none refl)
      | inr within ↦ rw within refl
    ])

single_line-ok :
    (strict : Bool) (line : Bytes) (start end : ℕ)
    → length line < 2 ^ 32
    → start ≤ end
    → end ≤ length line
    → single_line strict line start end ≡ ok (take (end - start) (drop start line))
unfolding single_line
single_line-ok strict line start end small h k =
    rw (clamp-ok strict line start small (omega arith)) (
      rw (clamp-ok strict line end small k)
        (rw (safe_uint32-ok (length line) small) (slice-ok start end line h k)))

module _ (content : Bytes) (line start end : ℕ) (strict : Bool)
    (few : length (split_lines content) < 2 ^ 32) (here : line < length (split_lines content))
    (small : length (line_at (split_lines content) line) < 2 ^ 32) (ordered : start ≤ end)
    (fits : end ≤ length (line_at (split_lines content) line)) where
  get_range_content-line :
      get_range_content content line start line end strict
      ≡ ok (take (end - start) (drop start (line_at (split_lines content) line)))
  unfolding get_range_content
  get_range_content-line =
      let inside = leb-false line (length (split_lines content)) here in
      let same : (line == line) ≡ true = (==_iff line line).1 refl in
      let later : ltb line line ≡ false = ltb-false line line (omega arith) in
      rw (safe_uint32-ok (length (split_lines content)) few) (
        rw inside (
          rw same (
            rw later (
              rw (ltb-false start end ordered) (
                single_line-ok strict (line_at (split_lines content) line) start end small ordered
                  fits)))))

  line-slice :
      take (end - start) (drop start (line_at (split_lines content) line))
      ≡ take (end - start) (drop (offset (split_lines content) line start) content)
  line-slice =
      let lines = split_lines content in
      let rest = after (drop (suc line) lines) in
      let text : drop (offset lines line start) content ≡ drop start (line_at lines line) ++ rest =
        ap (drop (offset lines line start)) (sym (join_lines-split_lines content))
        ∙ drop-offset lines line start here (omega arith) in
      sym (
        ap (take (end - start)) text
        ∙ take-append_le (end - start) (drop start (line_at lines line)) rest
            (omega (arith, length-drop start (line_at lines line))))

  -- A range that lies in one line, strict or not, gives the bytes of the text from its start to its
  -- end, the end excluded, where the numbers of lines and of bytes of the line fit 32 bits.
  pub get_range_content-slice :
      get_range_content content line start line end strict
      ≡ ok (take (end - start) (drop (offset (split_lines content) line start) content))
  get_range_content-slice = get_range_content-line ∙ ap ok line-slice
