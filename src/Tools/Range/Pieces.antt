-- ===== src/Tools/Range/Pieces.antt =====
-- A range over several lines, as a slice of the text.
use mathlib.Core.List.{append_assoc, append-nil}
use mcp_bsl_lsp_bridge.Prelude.{
  ℕ, zero, suc, ◌+◌, ◌-◌, ◌<◌, ◌≤◌, ◌^◌, Bool, false, List, [], ◌∷◌, ◌++◌, ◌≡◌, refl, sym, ap, ◌∙◌,
  arith, leb, ◌==◌, length, take, drop, ltb-false, leb-false, leb→le, Bool-cases, inl, inr,
}
use mcp_bsl_lsp_bridge.Prelude.Bytes.{Bytes}
use mcp_bsl_lsp_bridge.Edits.{split_lines, join_lines, line_at}
use mcp_bsl_lsp_bridge.Edits.Lines.{join_lines-split_lines}
use mcp_bsl_lsp_bridge.Edits.Splice.{
  offset, after, before, after-append, join_lines-middle, join_lines-cons, take-offset,
  drop-append_le, drop-past,
}
use mcp_bsl_lsp_bridge.Tools.Range.Slices.{safe_uint32-ok, clamp-ok}
use mcp_bsl_lsp_bridge.Tools.Range.{ok, tail_of, last_line, many_lines, get_range_content}

-- The text of the first line from a byte on, the lines between, and the last line up to a byte.
abbrev pieces : List Bytes → ℕ → ℕ → ℕ → ℕ → Bytes
pieces lines l c m d = join_lines (
    drop c (line_at lines l) ∷ take (m - suc l) (drop (suc l) lines)
    ++ take d (line_at lines m) ∷ [])

drop-take : (n m : ℕ) (s : Bytes) → n ≤ m → drop n (take m s) ≡ take (m - n) (drop n s)
drop-take zero m s h = ap (λ k. take k s) (omega arith)
drop-take (suc n) zero s h = absurd (omega arith)
drop-take (suc n) (suc m) [] h = sym (take-nil (suc m - suc n))
  where
    take-nil : (k : ℕ) → take {A = ℕ} k [] ≡ []
    take-nil zero = refl
    take-nil (suc k) = refl
drop-take (suc n) (suc m) (x ∷ s) h =
    drop-take n m s (omega arith) ∙ ap (λ k. take k (drop n s)) (omega arith)

module _ (x : Bytes) (rest : List Bytes) (c m d : ℕ) (hc : c ≤ length x) (hm : m < length rest)
    (hd : d ≤ length (line_at rest m)) where
  abbrev last : Bytes
  last = take d (line_at rest m)

  abbrev next : Bytes
  next = 10 ∷ (before m rest ++ last)

  pieces-next : pieces (x ∷ rest) 0 c (suc m) d ≡ drop c x ++ next
  unfolding after
  pieces-next =
      let n : suc m - 1 ≡ m = omega arith in
      rw n (
        join_lines-cons (drop c x) (take m rest ++ last ∷ [])
        ∙ ap (λ t. drop c x ++ t) (after-append (take m rest) last [])
        ∙ ap (λ t. drop c x ++ 10 ∷ t)
            (join_lines-middle m rest last [] hm ∙ ap (λ t. before m rest ++ t) (append-nil last)))

  drop-next : drop c (take (offset (x ∷ rest) (suc m) d) (join_lines (x ∷ rest))) ≡ drop c x ++ next
  unfolding before
  drop-next =
      ap (drop c) (
        take-offset (x ∷ rest) (suc m) d (omega arith) hd
        ∙ append_assoc x (10 ∷ before m rest) last)
      ∙ drop-append_le c x next hc

  pieces-first :
      pieces (x ∷ rest) 0 c (suc m) d
      ≡ take (offset (x ∷ rest) (suc m) d - c) (drop c (join_lines (x ∷ rest)))
  pieces-first =
      pieces-next
      ∙ sym drop-next
      ∙ drop-take c (offset (x ∷ rest) (suc m) d) (join_lines (x ∷ rest)) (omega arith)

pieces-slice :
    (lines : List Bytes) (l c m d : ℕ)
    → l < m
    → m < length lines
    → c ≤ length (line_at lines l)
    → d ≤ length (line_at lines m)
    → pieces lines l c m d
      ≡ take (offset lines m d - offset lines l c) (drop (offset lines l c) (join_lines lines))
unfolding join_lines
pieces-slice [] l c m d lm h hc hd = absurd (omega arith)
pieces-slice (x ∷ rest) l c zero d lm h hc hd = absurd (omega arith)
pieces-slice (x ∷ rest) zero c (suc m) d lm h hc hd = pieces-first x rest c m d hc (omega arith) hd
pieces-slice (x ∷ []) (suc l) c (suc m) d lm h hc hd = absurd (omega arith)
pieces-slice (x ∷ y ∷ rest) (suc l) c (suc m) d lm h hc hd =
    let n : suc m - suc (suc l) ≡ m - suc l = omega arith in
    let lines = y ∷ rest in
    let k : suc (length x + offset lines m d) - suc (length x + offset lines l c)
        ≡ offset lines m d - offset lines l c =
      omega arith in
    rw n (
      rw k (
        pieces-slice lines l c m d (omega arith) (omega arith) hc hd
        ∙ ap (take (offset lines m d - offset lines l c))
            (sym (drop-past (offset lines l c) x (join_lines lines) 10))))

drop-all : (n : ℕ) (s : Bytes) → length s ≤ n → drop n s ≡ []
drop-all zero [] h = refl
drop-all (suc n) [] h = refl
drop-all zero (x ∷ s) h = absurd (omega arith)
drop-all (suc n) (x ∷ s) h = drop-all n s (omega arith)

tail_of-ok :
    (line : Bytes) (start : ℕ) → length line < 2 ^ 32 → tail_of line start ≡ ok (drop start line)
unfolding tail_of
tail_of-ok line start small =
    rw (safe_uint32-ok (length line) small) (elim (Bool-cases (leb (length line) start)) [
      | inl past ↦ rw past (rw (drop-all start line (leb→le (length line) start past)) refl)
      | inr within ↦ rw within refl
    ])

last_line-ok :
    (strict : Bool) (line : Bytes) (end : ℕ)
    → length line < 2 ^ 32
    → suc end ≤ length line
    → last_line strict line (suc end) ≡ ok (take end line)
unfolding last_line
last_line-ok strict line end small fits =
    let n : suc end - 1 ≡ end = omega arith in
    rw (safe_uint32-ok (length line) small)
      (rw (ltb-false (suc end) (length line) fits) (rw n refl))

different : (l m : ℕ) → l < m → (l == m) ≡ false
different l m h = ground arith

module _ (content : Bytes) (line start last_number end : ℕ) (strict : Bool)
    (few : length (split_lines content) < 2 ^ 32) (several : line < last_number)
    (here : last_number < length (split_lines content))
    (small : length (line_at (split_lines content) line) < 2 ^ 32)
    (small_last : length (line_at (split_lines content) last_number) < 2 ^ 32)
    (fits : start ≤ length (line_at (split_lines content) line))
    (fits_last : suc end ≤ length (line_at (split_lines content) last_number)) where
  abbrev lines : List Bytes
  lines = split_lines content

  many_lines-pieces :
      many_lines strict lines line start last_number (suc end)
      ≡ ok (pieces lines line start last_number end)
  unfolding many_lines
  many_lines-pieces = rw (clamp-ok strict (line_at lines line) start small fits) (
      rw (tail_of-ok (line_at lines line) start small)
        (rw (last_line-ok strict (line_at lines last_number) end small_last fits_last) refl))

  get_range_content-pieces :
      get_range_content content line start last_number (suc end) strict
      ≡ ok (pieces lines line start last_number end)
  unfolding get_range_content
  get_range_content-pieces = rw (safe_uint32-ok (length lines) few) (
      rw (leb-false line (length lines) (omega arith)) (
        rw (leb-false last_number (length lines) here) (
          rw (ltb-false line last_number (omega arith))
            (rw (different line last_number several) many_lines-pieces))))

  -- A range over several lines whose end has a byte before it in its line gives the bytes of the
  -- text from its start to the byte before its end: one byte less than the end excluded, where the
  -- numbers of lines and of bytes of the two lines fit 32 bits.
  pub get_range_content-short :
      get_range_content content line start last_number (suc end) strict
      ≡ ok (
          take
            (offset (split_lines content) last_number end - offset (split_lines content) line start)
            (drop (offset (split_lines content) line start) content))
  get_range_content-short =
      get_range_content-pieces
      ∙ ap ok (
          pieces-slice lines line start last_number end several here fits (omega arith)
          ∙ ap
              (λ s.
                take (offset lines last_number end - offset lines line start)
                  (drop (offset lines line start) s))
              (join_lines-split_lines content))
