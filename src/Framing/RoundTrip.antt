-- ===== src/Framing/RoundTrip.antt =====
-- What is written is read back, whatever follows it on the stream.
use mathlib.Core.List.{append_assoc, append-nil}
use mcp_bsl_lsp_bridge.Prelude.{
  ℕ, ◌-◌, ◌^◌, ◌≤◌, ◌<◌, true, false, some, [], ◌∷◌, ◌++◌, ◌≡◌, ◌≢◌, refl, ltb, leb, ◌==◌, length,
  All, All-append, arith, take-length-append, drop-length-append, length-append,
}
use mcp_bsl_lsp_bridge.Prelude.Int.{ℤ, pos}
use mcp_bsl_lsp_bridge.Prelude.Bytes.{
  Bytes, is_digit, is_space, trim_prefix, trim_space, trim_left, trim_right, decimal, number_from,
}
use mcp_bsl_lsp_bridge.Prelude.Bytes.Decimal.{
  IsDigits, decimal-IsDigits, decimal-cons, number_from-decimal,
}
use mcp_bsl_lsp_bridge.Prelude.Bytes.Trim.{
  IsWord, IsDigits-IsWord, IsWord-no-newline, trim_right-word, trim_right-append, trim_left-word,
}
use mcp_bsl_lsp_bridge.Framing.{
  magnitude, atoi, Line, end_of_headers, next, content_length, header, Headers, done, read_headers,
  ok, read_body, read_message, newline, header_of, write_message, proxy_read_message,
}

digit-not-sign : (c : ℕ) → is_digit c ≡ true → ((c == b'-') ≡ false) × ((c == b'+') ≡ false)
digit-not-sign c h = (ground arith, ground arith)

pub magnitude-digits :
    (bound n c : ℕ) (r : Bytes)
    → number_from 0 (c ∷ r) ≡ some n
    → n ≤ bound
    → magnitude bound (c ∷ r) ≡ some n
unfolding magnitude
magnitude-digits bound n c r e h =
    let fits : leb n bound ≡ true = ground arith in rw (magnitude, e) (rw fits refl)

-- `Atoi` reads a printed number that fits 63 bits.
pub atoi-decimal : (n : ℕ) → n < 2 ^ 63 → atoi (decimal n) ≡ some (pos n)
atoi-decimal n h =
    let (c, r, e) = decimal-cons n in
    let (digit, rest) : IsDigits (c ∷ r) = rw e at (decimal-IsDigits n) in
    let (minus, plus) = digit-not-sign c digit in
    let value : number_from 0 (c ∷ r) ≡ some n = rw e at (number_from-decimal n) in
    let whole = magnitude-digits (2 ^ 63 - 1) n c r value (omega arith) in
    rw e (unfold atoi in rw minus (rw plus (rw whole refl)))

crlf_spaces : All (λ c. is_space c ≡ true) newline
crlf_spaces = (refl, (refl, tt))

-- The header line with a value.
pub header_line : Bytes → Bytes
header_line value = content_length ++ 32 ∷ value

trim_space-value : (value : Bytes) → IsWord value → trim_space (32 ∷ value) ≡ value
unfolding trim_space trim_left trim_right
trim_space-value [] w = refl
trim_space-value (c ∷ r) w =
    let left = trim_left-word c r w.0 in
    let right = trim_right-word (c ∷ r) [] w tt in rw left (rw append-nil at right)

trim_space-header_line :
    (c : ℕ) (r : Bytes)
    → IsWord (c ∷ r)
    → trim_space (header_line (c ∷ r) ++ newline) ≡ header_line (c ∷ r)
unfolding header_line trim_space trim_left
trim_space-header_line c r w =
    trim_right-append (content_length ++ 32 ∷ []) ((c ∷ r) ++ newline) c r
      (trim_right-word (c ∷ r) newline w crlf_spaces)

header-header_line :
    (value : Bytes) (l n : ℤ)
    → IsWord value
    → atoi value ≡ some n
    → header l (header_line value) ≡ next n
unfolding header_line header trim_prefix
header-header_line value l n w e = rw (trim_space-value value w) (rw e refl)

module _ (l : ℤ) where
  after : Line → Bytes → Headers
  after end_of_headers s = done l s
  after Line.invalid s = Headers.invalid
  after (next n) s = read_headers n [] s

  -- The loop reads on to the end of the line.
  read_headers-line :
      (line xs s : Bytes)
      → All (λ c. c ≢ 10) xs
      → read_headers l line (xs ++ 10 ∷ s)
        ≡ after (header l (trim_space (line ++ (xs ++ 10 ∷ [])))) s
  unfolding read_headers after
  read_headers-line line [] s h = ground arith
  read_headers-line line (c ∷ xs) s (p, h) =
      let within : (c == 10) ≡ false = ground arith in
      rw (read_headers, within) (rw append_assoc at (read_headers-line (line ++ c ∷ []) xs s h))

blank_line : (l : ℤ) (s : Bytes) → read_headers l [] (13 ∷ 10 ∷ s) ≡ done l s
unfolding read_headers trim_space trim_left trim_right
blank_line l s = refl

-- A header with one line whose value is a number, and the empty line.
pub read_headers-header_line :
    (c : ℕ) (r : Bytes) (n : ℤ) (s : Bytes)
    → IsWord (c ∷ r)
    → atoi (c ∷ r) ≡ some n
    → read_headers (pos 0) [] ((header_line (c ∷ r) ++ 13 ∷ []) ++ 10 ∷ 13 ∷ 10 ∷ s) ≡ done n s
read_headers-header_line c r n s w e =
    let value = c ∷ r in
    let plain = IsWord-no-newline value w in
    let short : All (λ c. c ≢ 10) (content_length ++ 32 ∷ []) = omega arith in
    let text : All (λ c. c ≢ 10) (header_line value) =
      unfold header_line in
      All-append (λ c. c ≢ 10) (content_length ++ 32 ∷ []) value short plain in
    let first = All-append (λ c. c ≢ 10) (header_line value) (13 ∷ []) text (omega arith) in
    let one = read_headers-line (pos 0) [] (header_line value ++ 13 ∷ []) (13 ∷ 10 ∷ s) first in
    let line : (header_line value ++ 13 ∷ []) ++ 10 ∷ [] ≡ header_line value ++ newline =
      append_assoc (header_line value) (13 ∷ []) (10 ∷ []) in
    rw one (
      rw line (
        rw (trim_space-header_line c r w)
          (rw (header-header_line value (pos 0) n w e) (unfold after in blank_line n s))))

-- The two lines of a written header, with their line ends.
header_of-lines :
    (n : ℕ) (s : Bytes)
    → header_of n ++ s ≡ (header_line (decimal n) ++ 13 ∷ []) ++ 10 ∷ 13 ∷ 10 ∷ s
unfolding header_of header_line
header_of-lines n s = simp append_assoc

read_headers-header_of :
    (n : ℕ) (s : Bytes) → n < 2 ^ 63 → read_headers (pos 0) [] (header_of n ++ s) ≡ done (pos n) s
read_headers-header_of n s h =
    let (c, r, e) = decimal-cons n in
    let word : IsWord (c ∷ r) = rw e at (IsDigits-IsWord (decimal n) (decimal-IsDigits n)) in
    let number : atoi (c ∷ r) ≡ some (pos n) = rw e at (atoi-decimal n h) in
    rw header_of-lines (rw e (read_headers-header_line c r (pos n) s word number))

pub read_message-done :
    (input : Bytes) (l : ℤ) (s : Bytes)
    → read_headers (pos 0) [] input ≡ done l s
    → read_message input ≡ read_body l s
unfolding read_message read_body
read_message-done input l s e = rw (read_message, e) refl

write_message-append :
    (body rest : Bytes) → write_message body ++ rest ≡ header_of (length body) ++ (body ++ rest)
unfolding write_message
write_message-append body rest = append_assoc (header_of (length body)) body rest

read_body-append :
    (body rest : Bytes)
    → 0 < length body
    → read_body (pos (length body)) (body ++ rest) ≡ ok body rest
unfolding read_body
read_body-append [] rest h = absurd (omega arith)
read_body-append (c ∷ body) rest h =
    let enough : ltb (length (c ∷ body ++ rest)) (length (c ∷ body)) ≡ false =
      ground (arith, length-append (c ∷ body) rest) in
    let taken = take-length-append (c ∷ body) rest in
    let left = drop-length-append (c ∷ body) rest in rw enough (rw taken (rw left refl))

module _ (body rest : Bytes) (some_body : 0 < length body) (fits : length body < 2 ^ 63) where
  -- The session manager reads back the body that it has written, and leaves the rest of the
  -- stream, for every body that is not empty and whose length fits an `int`.
  pub read_message-write_message : read_message (write_message body ++ rest) ≡ ok body rest
  read_message-write_message =
      let headers = read_headers-header_of (length body) (body ++ rest) fits in
      rw write_message-append
        (rw (read_message-done _ _ _ headers) (read_body-append body rest some_body))

  -- The proxy passes a written message on byte for byte, and leaves the rest of the stream, for a
  -- body that is not empty and whose length fits an `int`.
  pub proxy_read_message-write_message :
      proxy_read_message (write_message body ++ rest) ≡ ok (write_message body) rest
  unfolding proxy_read_message write_message
  proxy_read_message-write_message = rw (read_message-write_message, proxy_read_message) refl
