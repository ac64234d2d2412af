-- ===== src/Prelude/Int.antt =====
-- Go's signed integers, under the library's names (its ℤ stands on the unary ℕ).
use Prim.Native.Nat.{ℕ, suc, ◌+◌, ◌-◌, ◌≤◌}
use mathlib.Core.Bool.{Bool, true, false}
use mathlib.Core.Path.{◌≡◌}
use mathlib.Core.Logic.{◌↔◌}
use native.Mathlib.Omega.{arith}
use mcp_bsl_lsp_bridge.Prelude.Equality.{Eq}
use mcp_bsl_lsp_bridge.Prelude.Tests.{◌==◌, ltb, if◌then◌else◌}

-- `negsuc n` is -(n + 1).
pub data ℤ : Type 0 where
  pos : ℕ → ℤ
  negsuc : ℕ → ℤ

abbrev pub pos_part : ℤ → ℕ
pos_part (pos n) = n
pos_part (negsuc n) = 0

abbrev pub neg_part : ℤ → ℕ
neg_part (pos n) = 0
neg_part (negsuc n) = suc n

infix 50 ◌≤ℤ◌
abbrev pub ◌≤ℤ◌ : ℤ → ℤ → Type 0
a ≤ℤ b = pos_part a + neg_part b ≤ pos_part b + neg_part a

abbrev int_beq : ℤ → ℤ → Bool
int_beq (pos a) (pos b) = a == b
int_beq (negsuc a) (negsuc b) = a == b
int_beq a b = false

pub int_beq_iff : (a b : ℤ) → (int_beq a b ≡ true) ↔ (a ≡ b)
int_beq_iff (pos a) (pos b) = ground arith
int_beq_iff (pos a) (negsuc b) = ground arith
int_beq_iff (negsuc a) (pos b) = ground arith
int_beq_iff (negsuc a) (negsuc b) = ground arith

instance abbrev pub int_eq : Eq ℤ
int_eq = record { beq = int_beq; beq_iff = int_beq_iff }

abbrev pub is_positive : ℤ → Bool
is_positive (pos n) = ltb 0 n
is_positive (negsuc n) = false

abbrev pub is_below : ℤ → ℤ → Bool
is_below (pos a) (pos b) = ltb a b
is_below (pos a) (negsuc b) = false
is_below (negsuc a) (pos b) = true
is_below (negsuc a) (negsuc b) = ltb b a

-- The difference of two naturals.
abbrev pub diff : ℕ → ℕ → ℤ
diff a b = if ltb a b then negsuc (b - suc a) else pos (a - b)

infixl 65 ◌-ℤ◌
abbrev pub ◌-ℤ◌ : ℤ → ℤ → ℤ
a -ℤ b = diff (pos_part a + neg_part b) (neg_part a + pos_part b)
