-- ===== src/Lsp/Tokens.antt =====
-- lsp/semantic_tokens.go: the tokens are relative to each other, five numbers each. Positions are
-- `uint32`, which wrap around.
pub mod Decoding
use mcp_bsl_lsp_bridge.Prelude.{
  ℕ, zero, suc, ◌+◌, ◌%◌, ◌^◌, Bool, true, false, ◌&&◌, ◌||◌, Option, none, some, List, [], ◌∷◌,
  String, string_eq, if◌then◌else◌, ltb, get_elem?,
}

pub record TokenPosition : Type 0 where
  pub token_type : String
  pub line : ℕ
  pub start : ℕ
  pub end_char : ℕ

abbrev pub add_uint32 : ℕ → ℕ → ℕ
add_uint32 a b = (a + b) % 2 ^ 32

-- `targetTypeSet[tokenType]`
abbrev pub is_target : List String → String → Bool
is_target [] t = false
is_target (s ∷ targets) t = string_eq.beq s t || is_target targets t

-- What one token adds to the results: nothing when its type is unknown or not asked for.
abbrev pub found : List String → ℕ → ℕ → ℕ → Option String → List TokenPosition → List TokenPosition
found targets line char length none rest = rest
found targets line char length (some t) rest =
    if is_target targets t
    then record { token_type = t; line = line; start = char; end_char = add_uint32 char length }
      ∷ rest
    else rest

abbrev pub add_found :
    List String
    → ℕ
    → ℕ
    → ℕ
    → Option String
    → Option (List TokenPosition)
    → Option (List TokenPosition)
add_found targets line char length type none = none
add_found targets line char length type (some rest) =
    some (found targets line char length type rest)

abbrev pub next_line : ℕ → ℕ → ℕ
next_line line delta_line = if ltb 0 delta_line then add_uint32 line delta_line else line

abbrev pub next_char : ℕ → ℕ → ℕ → ℕ
next_char char delta_line delta_start =
    if ltb 0 delta_line then delta_start else add_uint32 char delta_start

-- The loop of `FindTokensByType` from a position on. It never reads the fifth number of a token,
-- so the last may lack it; `none` is the panic of an index past the end of the data.
unfoldable pub tokens_from :
    List String → List String → ℕ → ℕ → List ℕ → Option (List TokenPosition)
tokens_from types targets line char [] = some []
tokens_from types targets line char (delta_line ∷ delta_start ∷ size ∷ type ∷ modifiers ∷ rest) =
    let at_line = next_line line delta_line in
    let at_char = next_char char delta_line delta_start in
    add_found targets at_line at_char size (get_elem? types type)
      (tokens_from types targets at_line at_char rest)
tokens_from types targets line char (delta_line ∷ delta_start ∷ size ∷ type ∷ []) = some (
    found targets (next_line line delta_line) (next_char char delta_line delta_start) size
      (get_elem? types type) [])
tokens_from types targets line char _ = none

unfoldable pub find_tokens_by_type :
    List String → List ℕ → List String → ℕ → ℕ → Option (List TokenPosition)
unfolding tokens_from
find_tokens_by_type types tokens targets line char = tokens_from types targets line char tokens

unfoldable pub find_function_names : List String → List ℕ → ℕ → ℕ → Option (List TokenPosition)
unfolding find_tokens_by_type
find_function_names types tokens = find_tokens_by_type types tokens ("function" ∷ "method" ∷ [])

unfoldable pub find_types : List String → List ℕ → ℕ → ℕ → Option (List TokenPosition)
unfolding find_tokens_by_type
find_types types tokens =
    find_tokens_by_type types tokens ("type" ∷ "class" ∷ "interface" ∷ "struct" ∷ [])
