-- ===== src/Prelude/Equality.antt =====
-- Go's `==` on comparable keys, as an interface with a law.
use Prim.Native.Nat.{ℕ}
use Prim.Native.String.{String}
use mathlib.Core.Path.{◌≡◌}
use mathlib.Core.Logic.{◌↔◌}
use mathlib.Core.Bool.{Bool, true}
use text.Mathlib.Text.{◌==◌ as str_eq}
use text.Mathlib.TextEquality.{eq_iff}
use mcp_bsl_lsp_bridge.Prelude.Tests.{◌==◌, ==_iff}

pub record Eq {ℓ} (A : Type ℓ) : Type ℓ where
  pub beq : A → A → Bool
  pub beq_iff : (a b : A) → (beq a b ≡ true) ↔ (a ≡ b)

instance abbrev pub nat_eq : Eq ℕ
nat_eq = record { beq = ◌==◌; beq_iff = ==_iff }

instance abbrev pub string_eq : Eq String
string_eq = record { beq = str_eq; beq_iff = eq_iff }
