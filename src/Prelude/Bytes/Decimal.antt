-- ===== src/Prelude/Bytes/Decimal.antt =====
-- A printed number is read back.
use Prim.Native.Nat.{ℕ, zero, suc, ◌+◌, ◌-◌, ◌*◌, ◌/◌, ◌%◌, ◌<◌}
use mathlib.Core.Path.{◌≡◌, refl, ◌∙◌}
use mathlib.Core.Bool.{true}
use mathlib.Core.Option.{some}
use mathlib.Core.Logic.{inl, inr}
use mathlib.Core.List.{[], ◌∷◌}
use native.Mathlib.Omega.{arith}
use mcp_bsl_lsp_bridge.Prelude.Tests.{ltb, Bool-cases, ltb→lt}
use mcp_bsl_lsp_bridge.Prelude.Lists.{All}
use mcp_bsl_lsp_bridge.Prelude.Bytes.{Bytes, is_digit, digits_from, decimal, number_from}

last_digit :
    (n : ℕ) (acc : Bytes) → number_from (n / 10) ((b'0' + n % 10) ∷ acc) ≡ number_from n acc
unfolding number_from
last_digit n acc =
    let digit : is_digit (b'0' + n % 10) ≡ true = ground arith in
    let value : n / 10 * 10 + (b'0' + n % 10 - b'0') ≡ n = omega arith in rw digit (rw value refl)

small_digit : (n : ℕ) (acc : Bytes) → n < 10 → number_from 0 ((b'0' + n) ∷ acc) ≡ number_from n acc
unfolding number_from
small_digit n acc h =
    let digit : is_digit (b'0' + n) ≡ true = ground arith in
    let value : 0 * 10 + (b'0' + n - b'0') ≡ n = omega arith in rw digit (rw value refl)

number_from-digits_from :
    (fuel n : ℕ) (acc : Bytes)
    → n < fuel
    → number_from 0 (digits_from fuel n acc) ≡ number_from n acc
unfolding digits_from
number_from-digits_from zero n acc h = elim h [ ]
number_from-digits_from (suc fuel) n acc h = elim (Bool-cases (ltb n 10)) [
  | inl small ↦ rw small (small_digit n acc (ltb→lt n 10 small))
  | inr large ↦
      let shorter : n / 10 < fuel = ground arith in
      rw large (number_from-digits_from fuel (n / 10) _ shorter ∙ last_digit n acc)
]

pub number_from-decimal : (n : ℕ) → number_from 0 (decimal n) ≡ some n
unfolding decimal number_from
number_from-decimal n = number_from-digits_from (suc n) n [] (omega arith)

abbrev pub IsDigits : Bytes → Type 0
IsDigits = All (λ c. is_digit c ≡ true)

digits_from-IsDigits : (fuel n : ℕ) (acc : Bytes) → IsDigits acc → IsDigits (digits_from fuel n acc)
unfolding digits_from
digits_from-IsDigits zero n acc h = h
digits_from-IsDigits (suc fuel) n acc h = elim (Bool-cases (ltb n 10)) [
  | inl small ↦ let lt = ltb→lt n 10 small in rw small (ground arith, h)
  | inr large ↦
      rw large (digits_from-IsDigits fuel (n / 10) ((b'0' + n % 10) ∷ acc) (ground arith, h))
]

pub decimal-IsDigits : (n : ℕ) → IsDigits (decimal n)
unfolding decimal
decimal-IsDigits n = digits_from-IsDigits (suc n) n [] tt

digits_from-cons :
    (fuel n c : ℕ) (acc : Bytes) → (d : ℕ) × (r : Bytes) × (digits_from fuel n (c ∷ acc) ≡ d ∷ r)
unfolding digits_from
digits_from-cons zero n c acc = (c, acc, refl)
digits_from-cons (suc fuel) n c acc = elim (Bool-cases (ltb n 10)) [
  | inl small ↦ (b'0' + n, c ∷ acc, rw small refl)
  | inr large ↦
      let (d, r, e) = digits_from-cons fuel (n / 10) (b'0' + n % 10) (c ∷ acc) in (d, r, rw large e)
]

-- A printed number is not the empty text.
pub decimal-cons : (n : ℕ) → (d : ℕ) × (r : Bytes) × (decimal n ≡ d ∷ r)
unfolding decimal digits_from
decimal-cons n = elim (Bool-cases (ltb n 10)) [
  | inl small ↦ (b'0' + n, [], rw small refl)
  | inr large ↦ let (d, r, e) = digits_from-cons n (n / 10) (b'0' + n % 10) [] in (d, r, rw large e)
]
