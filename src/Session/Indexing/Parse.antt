-- ===== src/Session/Indexing/Parse.antt =====
-- The progress message: what is printed as "N/M" is read back.
use mcp_bsl_lsp_bridge.Prelude.{
  ℕ, ◌<◌, ◌^◌, true, false, ◌||◌, some, [], ◌∷◌, ◌++◌, ◌≡◌, refl, ap, ◌==◌, arith, All,
}
use mcp_bsl_lsp_bridge.Prelude.Int.{ℤ, pos, is_positive}
use mcp_bsl_lsp_bridge.Prelude.Bytes.{Bytes, is_digit, is_space, decimal}
use mcp_bsl_lsp_bridge.Prelude.Bytes.Decimal.{IsDigits, decimal-IsDigits, decimal-cons}
use mcp_bsl_lsp_bridge.Framing.{atoi}
use mcp_bsl_lsp_bridge.Framing.RoundTrip.{atoi-decimal}
use mcp_bsl_lsp_bridge.Session.Indexing.{
  skip_space, digits, after_digits, scan_int, scan_pair, parse_progress_message, signed,
}

-- No digit begins the text, so a number before it ends there.
abbrev pub EndsNumber : Bytes → Type 0
EndsNumber [] = Unit
EndsNumber (c ∷ s) = is_digit c ≡ false

abbrev pub HasNoDigit : Bytes → Type 0
HasNoDigit = All (λ c. is_digit c ≡ false)

digits-end : (r : Bytes) → EndsNumber r → digits r ≡ []
unfolding digits
digits-end [] h = refl
digits-end (c ∷ r) h = rw h refl

after_digits-end : (r : Bytes) → EndsNumber r → after_digits r ≡ r
unfolding after_digits
after_digits-end [] h = refl
after_digits-end (c ∷ r) h = rw h refl

digits-append : (ds r : Bytes) → IsDigits ds → EndsNumber r → digits (ds ++ r) ≡ ds
unfolding digits
digits-append [] r d h = digits-end r h
digits-append (c ∷ ds) r (d, rest) h = rw d (ap (◌∷◌ c) (digits-append ds r rest h))

after_digits-append : (ds r : Bytes) → IsDigits ds → EndsNumber r → after_digits (ds ++ r) ≡ r
unfolding after_digits
after_digits-append [] r d h = after_digits-end r h
after_digits-append (c ∷ ds) r (d, rest) h = rw d (after_digits-append ds r rest h)

digit-plain :
    (c : ℕ)
    → is_digit c ≡ true
    → ((c == 10) ≡ false) × (is_space c ≡ false) × ((c == b'-' || c == b'+') ≡ false)
digit-plain c h = (ground arith, ground arith, ground arith)

signed-digits :
    (c n : ℕ) (ds r : Bytes)
    → IsDigits (c ∷ ds)
    → EndsNumber r
    → atoi (c ∷ ds) ≡ some (pos n)
    → signed (c ∷ ds ++ r) ≡ some (pos n, r)
signed-digits c n ds r d h e =
    let (line_end, space, sign) = digit-plain c d.0 in
    rw sign
      (rw (digits-append (c ∷ ds) r d h) (rw (after_digits-append (c ∷ ds) r d h) (rw e refl)))

scan_int-decimal :
    (n : ℕ) (r : Bytes) → n < 2 ^ 63 → EndsNumber r → scan_int (decimal n ++ r) ≡ some (pos n, r)
unfolding scan_int
scan_int-decimal n r small h =
    let (c, ds, e) = decimal-cons n in
    let d : IsDigits (c ∷ ds) = rw e at (decimal-IsDigits n) in
    let (line_end, space, sign) = digit-plain c d.0 in
    let value : atoi (c ∷ ds) ≡ some (pos n) = rw e at (atoi-decimal n small) in
    let kept : skip_space (c ∷ ds ++ r) ≡ some (c ∷ ds ++ r) =
      unfold skip_space in rw line_end (rw space refl) in
    rw e (rw (kept, scan_int) (signed-digits c n ds r d h value))

scan_pair-eq :
    (s q r : Bytes) (a b : ℤ)
    → scan_int s ≡ some (a, b'/' ∷ q)
    → scan_int q ≡ some (b, r)
    → scan_pair s ≡ some (a, b)
unfolding scan_pair
scan_pair-eq s q r a b e f = rw (e, scan_pair) (rw (f, scan_pair) refl)

scan_pair-decimal :
    (n m : ℕ) (r : Bytes)
    → n < 2 ^ 63
    → m < 2 ^ 63
    → EndsNumber r
    → scan_pair (decimal n ++ (b'/' ∷ (decimal m ++ r))) ≡ some (pos n, pos m)
scan_pair-decimal n m r hn hm h =
    scan_pair-eq _ (decimal m ++ r) r (pos n) (pos m)
      (scan_int-decimal n (b'/' ∷ (decimal m ++ r)) hn refl) (scan_int-decimal m r hm h)

parse-digits :
    (c : ℕ) (r : Bytes) (a b : ℤ)
    → is_digit c ≡ true
    → scan_pair (c ∷ r) ≡ some (a, b)
    → is_positive b ≡ true
    → parse_progress_message (c ∷ r) ≡ (a, b)
unfolding parse_progress_message
parse-digits c r a b d e p = rw d (rw (e, parse_progress_message) (rw p refl))

-- A message that has "N/M" after a text without digits is read as N and M, where M is not zero
-- and both fit 63 bits.
pub parse_progress_message-decimal :
    (before after : Bytes) (n m : ℕ)
    → HasNoDigit before
    → EndsNumber after
    → n < 2 ^ 63
    → 0 < m
    → m < 2 ^ 63
    → parse_progress_message (before ++ (decimal n ++ (b'/' ∷ (decimal m ++ after))))
      ≡ (pos n, pos m)
unfolding parse_progress_message
parse_progress_message-decimal [] after n m b a hn pm hm =
    let (c, ds, e) = decimal-cons n in
    let d : IsDigits (c ∷ ds) = rw e at (decimal-IsDigits n) in
    let pair : scan_pair (c ∷ ds ++ (b'/' ∷ (decimal m ++ after))) ≡ some (pos n, pos m) =
      rw e at (scan_pair-decimal n m after hn hm a) in
    rw e
      (parse-digits c (ds ++ (b'/' ∷ (decimal m ++ after))) (pos n) (pos m) d.0 pair (ground arith))
parse_progress_message-decimal (c ∷ before) after n m (b, bs) a hn pm hm =
    rw b (parse_progress_message-decimal before after n m bs a hn pm hm)
