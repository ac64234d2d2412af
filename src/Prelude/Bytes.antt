-- ===== src/Prelude/Bytes.antt =====
-- Byte strings, and what the program uses of Go's `strings`, `strconv` and `fmt` on them. The
-- white space is that of ASCII: a text that begins or ends with another space of Unicode is
-- trimmed by Go and not here.
pub mod Decimal
pub mod Trim
use Prim.Native.Char.{code}
use Prim.Native.Nat.{ℕ, zero, suc, ◌+◌, ◌-◌, ◌*◌, ◌/◌, ◌%◌}
use Prim.Native.String
use Prim.Native.String.{String}
use mathlib.Core.Bool.{Bool, true, false, ◌&&◌, ◌||◌}
use mathlib.Core.Option.{Option, none, some}
use mathlib.Core.List.{List, [], ◌∷◌, reverse}
use mcp_bsl_lsp_bridge.Prelude.Tests.{ltb, leb, ◌==◌, if◌then◌else◌}

abbrev pub Bytes : Type 0
Bytes = List ℕ

-- The bytes of an ASCII literal.
abbrev pub codes : String → Bytes
codes String.[] = []
codes (String.◌∷◌ c s) = code c ∷ codes s

abbrev pub is_digit : ℕ → Bool
is_digit c = leb b'0' c && leb c b'9'

abbrev pub is_space : ℕ → Bool
is_space c = c == 32 || (leb 9 c && leb c 13)

-- `strings.HasPrefix`
unfoldable pub has_prefix : Bytes → Bytes → Bool
has_prefix s [] = true
has_prefix [] (p ∷ prefix) = false
has_prefix (c ∷ s) (p ∷ prefix) = c == p && has_prefix s prefix

-- `strings.TrimPrefix`
unfoldable pub trim_prefix : Bytes → Bytes → Option Bytes
trim_prefix s [] = some s
trim_prefix [] (p ∷ prefix) = none
trim_prefix (c ∷ s) (p ∷ prefix) = if c == p then trim_prefix s prefix else none

unfoldable pub trim_left : Bytes → Bytes
trim_left [] = []
trim_left (c ∷ s) = if is_space c then trim_left s else c ∷ s

unfoldable pub trim_right : Bytes → Bytes
trim_right [] = []
trim_right (c ∷ s) = elim (trim_right s) [
  | [] ↦ if is_space c then [] else c ∷ []
  | d ∷ r ↦ c ∷ d ∷ r
]

-- `strings.TrimSpace`
unfoldable pub trim_space : Bytes → Bytes
unfolding trim_left trim_right
trim_space s = trim_right (trim_left s)

-- The digits of a number before `acc`, on fuel above the number.
unfoldable pub digits_from : ℕ → ℕ → Bytes → Bytes
digits_from zero n acc = acc
digits_from (suc fuel) n acc =
    let rest = digits_from fuel (n / 10) ((b'0' + n % 10) ∷ acc) in
    if ltb n 10 then (b'0' + n) ∷ acc else rest

-- `%d` of a number that is not negative.
unfoldable pub decimal : ℕ → Bytes
unfolding digits_from
decimal n = digits_from (suc n) n []

-- The number that a run of digits stands for, begun at `acc`; `none` at any other byte.
unfoldable pub number_from : ℕ → Bytes → Option ℕ
number_from acc [] = some acc
number_from acc (c ∷ s) = if is_digit c then number_from (acc * 10 + (c - b'0')) s else none

-- `strings.Contains`
unfoldable pub contains : Bytes → Bytes → Bool
unfolding has_prefix
contains [] p = has_prefix [] p
contains (c ∷ s) p = has_prefix (c ∷ s) p || contains s p
