-- ===== src/Edits/Splice.antt =====
-- An edit of the lines is a splice of the text.
use mathlib.Core.List.{append_assoc, append-nil}
use native.Mathlib.Nat.{zero-add, suc-add}
use mcp_bsl_lsp_bridge.Prelude.{
  ℕ, zero, suc, ◌+◌, ◌≤◌, ◌<◌, true, false, List, [], ◌∷◌, ◌++◌, ◌≡◌, refl, ap, sym, ltb, leb, ◌==◌,
  length, take, drop, set, arith, Bool-cases, inl, inr, leb-false, ltb-false, ==_iff,
}
use mcp_bsl_lsp_bridge.Prelude.Bytes.{Bytes}
use mcp_bsl_lsp_bridge.Edits.{
  TextEdit, join_lines, line_at, edit_one_line, edit_many_lines, apply_edit,
}

-- The byte of the text at which a position of the lines stands.
abbrev pub offset : List Bytes → ℕ → ℕ → ℕ
offset lines zero char = char
offset [] (suc line) char = char
offset (x ∷ lines) (suc line) char = suc (length x + offset lines line char)

-- `text[:from] + new + text[to:]`
abbrev pub splice : ℕ → ℕ → Bytes → Bytes → Bytes
splice from to new text = take from text ++ new ++ drop to text

-- The edit lies in the lines.
pub record InRange (lines : List Bytes) (e : TextEdit) : Type 0 where
  pub start_line : e.start_line < length lines
  pub end_line : e.end_line < length lines
  pub start_char : e.start_char ≤ length (line_at lines e.start_line)
  pub end_char : e.end_char ≤ length (line_at lines e.end_line)

-- What follows a line in the joined text.
unfoldable pub after : List Bytes → Bytes
after [] = []
after (x ∷ lines) = 10 ∷ join_lines (x ∷ lines)

-- The lines before a line, each with its line end.
unfoldable pub before : ℕ → List Bytes → Bytes
before zero lines = []
before (suc n) [] = []
before (suc n) (x ∷ lines) = x ++ 10 ∷ before n lines

pub join_lines-cons : (x : Bytes) (lines : List Bytes) → join_lines (x ∷ lines) ≡ x ++ after lines
unfolding join_lines after
join_lines-cons x [] = sym (append-nil x)
join_lines-cons x (y ∷ lines) = refl

pub after-append :
    (xs : List Bytes) (y : Bytes) (rest : List Bytes)
    → after (xs ++ y ∷ rest) ≡ 10 ∷ join_lines (xs ++ y ∷ rest)
unfolding after
after-append [] y rest = refl
after-append (x ∷ xs) y rest = refl

pub join_lines-middle :
    (n : ℕ) (lines : List Bytes) (y : Bytes) (rest : List Bytes)
    → n < length lines
    → join_lines (take n lines ++ y ∷ rest) ≡ before n lines ++ (y ++ after rest)
unfolding before
join_lines-middle zero lines y rest h = join_lines-cons y rest
join_lines-middle (suc n) [] y rest h = absurd (omega arith)
join_lines-middle (suc n) (x ∷ lines) y rest h = rw (join_lines-cons x (take n lines ++ y ∷ rest)) (
    rw (after-append (take n lines) y rest) (
      rw (join_lines-middle n lines y rest (omega arith))
        (sym (append_assoc x (10 ∷ before n lines) (y ++ after rest)))))

module _ {A : Type 0} where
  pub take-append_le : (n : ℕ) (xs ys : List A) → n ≤ length xs → take n (xs ++ ys) ≡ take n xs
  take-append_le zero xs ys h = refl
  take-append_le (suc n) [] ys h = absurd (omega arith)
  take-append_le (suc n) (x ∷ xs) ys h = ap (◌∷◌ x) (take-append_le n xs ys (omega arith))

  pub drop-append_le :
      (n : ℕ) (xs ys : List A) → n ≤ length xs → drop n (xs ++ ys) ≡ drop n xs ++ ys
  drop-append_le zero xs ys h = refl
  drop-append_le (suc n) [] ys h = absurd (omega arith)
  drop-append_le (suc n) (x ∷ xs) ys h = drop-append_le n xs ys (omega arith)

  take-past :
      (n : ℕ) (xs ys : List A) (y : A)
      → take (suc (length xs + n)) (xs ++ y ∷ ys) ≡ xs ++ y ∷ take n ys
  take-past n [] ys y = rw zero-add refl
  take-past n (x ∷ xs) ys y = rw suc-add (ap (◌∷◌ x) (take-past n xs ys y))

  pub drop-past :
      (n : ℕ) (xs ys : List A) (y : A) → drop (suc (length xs + n)) (xs ++ y ∷ ys) ≡ drop n ys
  drop-past n [] ys y = rw zero-add refl
  drop-past n (x ∷ xs) ys y = rw suc-add (drop-past n xs ys y)

-- The text up to a position, and from it on.
pub take-offset :
    (lines : List Bytes) (l c : ℕ)
    → l < length lines
    → c ≤ length (line_at lines l)
    → take (offset lines l c) (join_lines lines) ≡ before l lines ++ take c (line_at lines l)
unfolding before join_lines
take-offset [] l c h k = absurd (omega arith)
take-offset (x ∷ lines) zero c h k = rw join_lines-cons (take-append_le c x (after lines) k)
take-offset (x ∷ []) (suc l) c h k = absurd (omega arith)
take-offset (x ∷ y ∷ lines) (suc l) c h k =
    rw (take-past (offset (y ∷ lines) l c) x (join_lines (y ∷ lines)) 10) (
      rw (take-offset (y ∷ lines) l c (omega arith) k)
        (sym (append_assoc x (10 ∷ before l (y ∷ lines)) (take c (line_at (y ∷ lines) l)))))

pub drop-offset :
    (lines : List Bytes) (l c : ℕ)
    → l < length lines
    → c ≤ length (line_at lines l)
    → drop (offset lines l c) (join_lines lines)
      ≡ drop c (line_at lines l) ++ after (drop (suc l) lines)
unfolding join_lines
drop-offset [] l c h k = absurd (omega arith)
drop-offset (x ∷ lines) zero c h k = rw join_lines-cons (drop-append_le c x (after lines) k)
drop-offset (x ∷ []) (suc l) c h k = absurd (omega arith)
drop-offset (x ∷ y ∷ lines) (suc l) c h k =
    rw (drop-past (offset (y ∷ lines) l c) x (join_lines (y ∷ lines)) 10)
      (drop-offset (y ∷ lines) l c (omega arith) k)

set-eq :
    (lines : List Bytes) (n : ℕ) (y : Bytes)
    → n < length lines
    → set lines n y ≡ take n lines ++ y ∷ drop (suc n) lines
set-eq [] n y h = absurd (omega arith)
set-eq (x ∷ lines) zero y h = refl
set-eq (x ∷ lines) (suc n) y h = ap (◌∷◌ x) (set-eq lines n y (omega arith))

module _ (lines : List Bytes) (e : TextEdit) (r : InRange lines e) where
  edited : List Bytes
  edited =
      take e.start_line lines
      ++ (take e.start_char (line_at lines e.start_line)
          ++ e.new_text
          ++ drop e.end_char (line_at lines e.end_line))
        ∷ drop (suc e.end_line) lines

  start_in : leb (length lines) e.start_line ≡ false
  start_in = leb-false e.start_line (length lines) r.start_line

  end_in : leb (length lines) e.end_line ≡ false
  end_in = leb-false e.end_line (length lines) r.end_line

  start_char_in : ltb (length (line_at lines e.start_line)) e.start_char ≡ false
  start_char_in = ltb-false e.start_char (length (line_at lines e.start_line)) r.start_char

  end_char_in : ltb (length (line_at lines e.end_line)) e.end_char ≡ false
  end_char_in = ltb-false e.end_char (length (line_at lines e.end_line)) r.end_char

  edit_one_line-eq : (e.start_line == e.end_line) ≡ true → edit_one_line lines e ≡ edited
  unfolding edit_one_line edited
  edit_one_line-eq same =
      let here : e.end_line ≡ e.start_line = sym ((==_iff e.start_line e.end_line).0 same) in
      rw start_char_in (
        rw (sym (ap (λ n. ltb (length (line_at lines n)) e.end_char) here))
          (rw end_char_in (rw here (set-eq lines e.start_line _ r.start_line))))

  edit_many_lines-eq : edit_many_lines lines e ≡ edited
  unfolding edit_many_lines edited
  edit_many_lines-eq = rw (start_char_in, end_char_in) refl

  -- In range, both branches put one line in the place of the lines of the edit.
  apply_edit-eq : apply_edit lines e ≡ edited
  unfolding apply_edit
  apply_edit-eq =
      rw (start_in, end_in)
        (elim (Bool-cases (e.start_line == e.end_line)) [
          | inl h ↦ rw h (edit_one_line-eq h)
          | inr h ↦ rw h edit_many_lines-eq
        ])

-- Applying an edit that lies in the lines replaces, in the joined text, the bytes between its two
-- positions by its new text, and nothing else.
pub join_lines-apply_edit :
    (lines : List Bytes) (e : TextEdit)
    → InRange lines e
    → join_lines (apply_edit lines e)
      ≡ splice
          (offset lines e.start_line e.start_char)
          (offset lines e.end_line e.end_char)
          e.new_text
          (join_lines lines)
unfolding edited
join_lines-apply_edit lines e r = rw (apply_edit-eq lines e r) (
    rw (join_lines-middle e.start_line lines _ (drop (suc e.end_line) lines) r.start_line) (
      rw (take-offset lines e.start_line e.start_char r.start_line r.start_char)
        (rw (drop-offset lines e.end_line e.end_char r.end_line r.end_char) (simp append_assoc))))
