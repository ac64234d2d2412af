-- ===== src/Prelude/Bytes/Trim.antt =====
-- Trimming a text that ends with a number and white space.
use Prim.Native.Nat.{ℕ}
use mathlib.Core.Logic.{◌≢◌}
use mathlib.Core.Path.{◌≡◌, refl}
use mathlib.Core.Bool.{true, false}
use mathlib.Core.List.{[], ◌∷◌, ◌++◌}
use native.Mathlib.Omega.{arith}
use mcp_bsl_lsp_bridge.Prelude.Lists.{All}
use mcp_bsl_lsp_bridge.Prelude.Bytes.{Bytes, is_space, trim_left, trim_right}
use mcp_bsl_lsp_bridge.Prelude.Bytes.Decimal.{IsDigits}

abbrev pub IsWord : Bytes → Type 0
IsWord = All (λ c. is_space c ≡ false)

pub IsDigits-IsWord : (ds : Bytes) → IsDigits ds → IsWord ds
IsDigits-IsWord [] h = tt
IsDigits-IsWord (c ∷ ds) (p, h) = (ground arith, IsDigits-IsWord ds h)

pub IsWord-no-newline : (ds : Bytes) → IsWord ds → All (λ c. c ≢ 10) ds
IsWord-no-newline [] h = tt
IsWord-no-newline (c ∷ ds) (p, h) = (ground arith, IsWord-no-newline ds h)

pub trim_right-spaces : (ws : Bytes) → All (λ c. is_space c ≡ true) ws → trim_right ws ≡ []
unfolding trim_right
trim_right-spaces [] h = refl
trim_right-spaces (c ∷ ws) (p, h) = rw (trim_right-spaces ws h, trim_right) (rw p refl)

pub trim_right-word :
    (ds ws : Bytes) → IsWord ds → All (λ c. is_space c ≡ true) ws → trim_right (ds ++ ws) ≡ ds
unfolding trim_right
trim_right-word [] ws h k = trim_right-spaces ws k
trim_right-word (c ∷ []) ws (p, h) k = rw (trim_right-spaces ws k, trim_right) (rw p refl)
trim_right-word (c ∷ d ∷ ds) ws (p, h) k = rw (trim_right-word (d ∷ ds) ws h k, trim_right) refl

-- What stands before a text that is not all white space stays.
pub trim_right-append :
    (xs ys : Bytes) (c : ℕ) (r : Bytes)
    → trim_right ys ≡ c ∷ r
    → trim_right (xs ++ ys) ≡ xs ++ c ∷ r
unfolding trim_right
trim_right-append [] ys c r h = h
trim_right-append (x ∷ []) ys c r h = rw (h, trim_right) refl
trim_right-append (x ∷ y ∷ xs) ys c r h = rw (trim_right-append (y ∷ xs) ys c r h, trim_right) refl

pub trim_left-word : (c : ℕ) (r : Bytes) → is_space c ≡ false → trim_left (c ∷ r) ≡ c ∷ r
unfolding trim_left
trim_left-word c r h = rw h refl
