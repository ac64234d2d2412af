-- ===== src/Tools/Range.antt =====
-- mcpserver/tools/utils.go: `getRangeContent`, from the content of the file on. The lookup of the
-- path and the reading of the file stand before it and are not modelled.
pub mod Slices
pub mod Pieces
use mcp_bsl_lsp_bridge.Prelude.{
  ℕ, suc, ◌-◌, ◌^◌, Bool, ◌&&◌, ◌||◌, List, [], ◌∷◌, ◌++◌, if◌then◌else◌, ltb, leb, ◌==◌, length,
  take, drop,
}
use mcp_bsl_lsp_bridge.Prelude.Bytes.{Bytes}
use mcp_bsl_lsp_bridge.Edits.{split_lines, join_lines, line_at}

pub data RangeError : Type 0 where
  too_large : RangeError
  out_of_bounds : RangeError
  invalid_order : RangeError
  invalid_character : RangeError
  invalid_range : RangeError

pub data Result (A : Type 0) : Type 0 where
  ok : A → Result A
  failed : RangeError → Result A

infixl 5 ◌>>=◌
abbrev pub ◌>>=◌ : {A B : Type 0} → Result A → (A → Result B) → Result B
ok a >>= f = f a
failed e >>= f = failed e

unfoldable pub safe_uint32 : ℕ → Result ℕ
safe_uint32 n = if ltb (2 ^ 32 - 1) n then failed too_large else ok n

-- the closure `clamp`
unfoldable pub clamp : Bool → Bytes → ℕ → Result ℕ
unfolding safe_uint32
clamp strict line at = do
  line_len ← safe_uint32 (length line)
  if ltb line_len at then (if strict then failed invalid_character else ok line_len) else ok at

-- `line[start:]`, with nothing at the end of the line or past it
unfoldable pub tail_of : Bytes → ℕ → Result Bytes
unfolding safe_uint32
tail_of line start = do
  line_len ← safe_uint32 (length line)
  ok (if leb line_len start then [] else drop start line)

-- `line[start:end]`, with nothing from the end of the line on
abbrev pub slice : ℕ → ℕ → ℕ → Bytes → Result Bytes
slice start end line_len line =
    if ltb end start
    then failed invalid_range
    else ok (if leb line_len start then [] else take (end - start) (drop start line))

unfoldable pub single_line : Bool → Bytes → ℕ → ℕ → Result Bytes
unfolding clamp safe_uint32
single_line strict line start_char end_char = do
  start ← clamp strict line start_char
  end ← clamp strict line end_char
  line_len ← safe_uint32 (length line)
  slice start end line_len line

abbrev pub cut_last : Bool → ℕ → Bytes → ℕ → Result Bytes
cut_last strict line_len last end_char =
    if ltb line_len end_char
    then (if strict then failed invalid_character else ok last)
    else ok (take (end_char - 1) last)

-- What the last line of several gives.
unfoldable pub last_line : Bool → Bytes → ℕ → Result Bytes
unfolding safe_uint32
last_line strict last end_char = do
  line_len ← safe_uint32 (length last)
  cut_last strict line_len last end_char

unfoldable pub many_lines : Bool → List Bytes → ℕ → ℕ → ℕ → ℕ → Result Bytes
unfolding clamp tail_of last_line
many_lines strict lines start_line start_char end_line end_char = do
  start ← clamp strict (line_at lines start_line) start_char
  first ← tail_of (line_at lines start_line) start
  last ← last_line strict (line_at lines end_line) end_char
  ok (
      join_lines
        (first ∷ take (end_line - suc start_line) (drop (suc start_line) lines) ++ last ∷ []))

unfoldable pub get_range_content : Bytes → ℕ → ℕ → ℕ → ℕ → Bool → Result Bytes
unfolding safe_uint32 single_line many_lines
get_range_content content start_line start_char end_line end_char strict =
    let lines = split_lines content in
    safe_uint32 (length lines) >>= λ lines_len.
    if leb lines_len start_line || leb lines_len end_line
    then failed out_of_bounds
    else if ltb end_line start_line || (start_line == end_line && ltb end_char start_char)
    then failed invalid_order
    else if start_line == end_line
    then single_line strict (line_at lines start_line) start_char end_char
    else many_lines strict lines start_line start_char end_line end_char
