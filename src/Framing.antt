-- ===== src/Framing.antt =====
-- The wire format of LSP, as cmd/lsp-session-manager/main.go and cmd/lsp-proxy/main.go read and
-- write it: a `Content-Length` header, an empty line, and the body. A reader is the list of the
-- bytes that are still to come.
pub mod RoundTrip
pub mod Errors
use mcp_bsl_lsp_bridge.Prelude.{
  ℕ, zero, suc, ◌+◌, ◌-◌, ◌^◌, Bool, true, false, Option, none, some, List, [], ◌∷◌, ◌++◌,
  if◌then◌else◌, ltb, leb, ◌==◌, length, take, drop,
}
use mcp_bsl_lsp_bridge.Prelude.Int.{ℤ, pos, negsuc}
use mcp_bsl_lsp_bridge.Prelude.Bytes.{
  Bytes, codes, has_prefix, trim_prefix, trim_space, decimal, number_from,
}

-- The digits after the sign, where the largest magnitude is `bound`.
unfoldable pub magnitude : ℕ → Bytes → Option ℕ
magnitude bound [] = none
magnitude bound (c ∷ s) = elim (number_from 0 (c ∷ s)) [
  | none ↦ none
  | some n ↦ if leb n bound then some n else none
]

abbrev pub negate : ℕ → ℤ
negate zero = pos 0
negate (suc n) = negsuc n

abbrev positive : Option ℕ → Option ℤ
positive none = none
positive (some n) = some (pos n)

abbrev negative : Option ℕ → Option ℤ
negative none = none
negative (some n) = some (negate n)

-- `strconv.Atoi`, where `int` has 64 bits
unfoldable pub atoi : Bytes → Option ℤ
unfolding magnitude
atoi [] = none
atoi (c ∷ s) =
    if c == b'-'
    then negative (magnitude (2 ^ 63) s)
    else if c == b'+'
    then positive (magnitude (2 ^ 63 - 1) s)
    else positive (magnitude (2 ^ 63 - 1) (c ∷ s))

-- The outcome of a header line.
pub data Line : Type 0 where
  end_of_headers : Line
  invalid : Line
  next : ℤ → Line

abbrev pub content_length : Bytes
content_length = codes "Content-Length:"

abbrev parsed : Option ℤ → Line
parsed none = invalid
parsed (some n) = next n

-- A line that is trimmed: the header's value is what follows the prefix.
unfoldable pub header : ℤ → Bytes → Line
unfolding atoi
header length_so_far [] = end_of_headers
header length_so_far (c ∷ line) = elim (trim_prefix (c ∷ line) content_length) [
  | none ↦ next length_so_far
  | some value ↦ parsed (atoi (trim_space value))
]

-- The outcome of the loop over the header lines.
pub data Headers : Type 0 where
  eof : Headers
  invalid : Headers
  done : ℤ → Bytes → Headers

-- The loop: `line` is what `ReadString('\n')` has read of the current line.
unfoldable pub read_headers : ℤ → Bytes → Bytes → Headers
unfolding header
read_headers length_so_far line [] = eof
read_headers length_so_far line (c ∷ input) = elim (c == 10) [
  | false ↦ read_headers length_so_far (line ++ c ∷ []) input
  | true ↦ elim (header length_so_far (trim_space (line ++ c ∷ []))) [
    | end_of_headers ↦ done length_so_far input
    | invalid ↦ invalid
    | next n ↦ read_headers n [] input
  ]
]

-- The outcome of `readLSPMessage`: a message and the input behind it, an error, or the panic of
-- `make` at a negative length.
pub data Message : Type 0 where
  ok : Bytes → Bytes → Message
  read_error : Message
  invalid_length : Message
  missing_length : Message
  panic : Message

-- `make([]byte, contentLength)` and `io.ReadFull`
unfoldable pub read_body : ℤ → Bytes → Message
read_body (pos zero) input = missing_length
read_body (pos (suc n)) input =
    if ltb (length input) (suc n) then read_error else ok (take (suc n) input) (drop (suc n) input)
read_body (negsuc n) input = panic

-- `readLSPMessage` of the session manager: the body of the message
unfoldable pub read_message : Bytes → Message
unfolding read_headers read_body
read_message input = elim (read_headers (pos 0) [] input) [
  | eof ↦ read_error
  | invalid ↦ invalid_length
  | done n rest ↦ read_body n rest
]

abbrev pub newline : Bytes
newline = 13 ∷ 10 ∷ []

-- `fmt.Sprintf("Content-Length: %d\r\n\r\n", n)`
unfoldable pub header_of : ℕ → Bytes
header_of n = codes "Content-Length: " ++ decimal n ++ newline ++ newline

-- the bytes that `writeMessage` sends for a marshalled body
unfoldable pub write_message : Bytes → Bytes
unfolding header_of
write_message body = header_of (length body) ++ body

-- `readLSPMessage` of the proxy puts a header before the body that it has read
unfoldable pub proxy_read_message : Bytes → Message
unfolding read_message header_of
proxy_read_message input = elim (read_message input) [
  | ok body rest ↦ ok (header_of (length body) ++ body) rest
  | read_error ↦ read_error
  | invalid_length ↦ invalid_length
  | missing_length ↦ missing_length
  | panic ↦ panic
]
