-- ===== src/Lsp/Tokens/Decoding.antt =====
-- The encoding of LSP, and what the loop makes of it.
use mcp_bsl_lsp_bridge.Prelude.{
  ℕ, ◌+◌, ◌-◌, ◌<◌, ◌≤◌, ◌^◌, ◌%◌, Option, none, some, List, [], ◌∷◌, ◌++◌, String, string_eq, ◌≡◌,
  ◌⊎◌, if◌then◌else◌, ltb, get_elem?,
}
use mcp_bsl_lsp_bridge.Lsp.Tokens.{TokenPosition}

-- A token at its absolute position, with the index of its type and its modifiers.
pub record Token : Type 0 where
  pub line : ℕ
  pub start : ℕ
  pub size : ℕ
  pub type : ℕ
  pub modifiers : ℕ

-- The encoding that LSP prescribes, relative to a position.
unfoldable pub encode : ℕ → ℕ → List Token → List ℕ
encode line char [] = []
encode line char (t ∷ tokens) =
    (t.line - line)
    ∷ (if ltb line t.line then t.start else t.start - char)
    ∷ t.size
    ∷ t.type
    ∷ t.modifiers
    ∷ encode t.line t.start tokens

-- The tokens follow each other from the position on, and fit 32 bits.
abbrev pub Ordered : ℕ → ℕ → List Token → Type 0
Ordered line char [] = Unit
Ordered line char (t ∷ tokens) =
    ((line < t.line) ⊎ ((line ≡ t.line) × (char ≤ t.start)))
    × (t.line < 2 ^ 32)
    × (t.start < 2 ^ 32)
    × Ordered t.line t.start tokens

-- How often a type is asked for.
abbrev pub times_asked : String → List String → ℕ
times_asked name [] = 0
times_asked name (target ∷ targets) =
    (if string_eq.beq target name then 1 else 0) + times_asked name targets

-- The position of a token of the given type, whose end is a `uint32`.
abbrev pub position_of : String → Token → TokenPosition
position_of name t = record {
  token_type = name;
  line = t.line;
  start = t.start;
  end_char = (t.start + t.size) % 2 ^ 32;
}

-- A token whose type has no name is left out.
abbrev pub position_if_asked : List String → Option String → Token → List TokenPosition
position_if_asked targets none t = []
position_if_asked targets (some name) t =
    if ltb 0 (times_asked name targets) then position_of name t ∷ [] else []

-- The positions of the tokens whose types are asked for.
abbrev pub positions : List String → List String → List Token → List TokenPosition
positions types targets [] = []
positions types targets (t ∷ tokens) =
    position_if_asked targets (get_elem? types t.type) t ++ positions types targets tokens

module _ (line char : ℕ) (t : Token) where
  abbrev delta_start : ℕ
  delta_start = if ltb line t.line then t.start else t.start - char
