-- ===== src/Framing/Errors.antt =====
-- What a reader does with a header that it should refuse.
use mcp_bsl_lsp_bridge.Prelude.{ℕ, suc, ◌^◌, ◌≤◌, some, [], ◌∷◌, ◌++◌, ◌≡◌, refl}
use mcp_bsl_lsp_bridge.Prelude.Int.{negsuc}
use mcp_bsl_lsp_bridge.Prelude.Bytes.{Bytes, decimal, number_from}
use mcp_bsl_lsp_bridge.Prelude.Bytes.Decimal.{decimal-IsDigits, decimal-cons, number_from-decimal}
use mcp_bsl_lsp_bridge.Prelude.Bytes.Trim.{IsDigits-IsWord}
use mcp_bsl_lsp_bridge.Framing.{atoi, panic, read_body, read_message, proxy_read_message}
use mcp_bsl_lsp_bridge.Framing.RoundTrip.{
  magnitude-digits, header_line, read_headers-header_line, read_message-done,
}

-- `-n`, where n is not 0.
atoi-negative : (n : ℕ) → suc n ≤ 2 ^ 63 → atoi (b'-' ∷ decimal (suc n)) ≡ some (negsuc n)
unfolding atoi
atoi-negative n h =
    let (c, r, e) = decimal-cons (suc n) in
    let value : number_from 0 (c ∷ r) ≡ some (suc n) = rw e at (number_from-decimal (suc n)) in
    rw e (rw (magnitude-digits (2 ^ 63) (suc n) c r value h) refl)

-- The header `Content-Length: -n`, the empty line, and whatever follows.
abbrev pub negative_header : ℕ → Bytes → Bytes
negative_header n rest = (header_line (b'-' ∷ decimal n) ++ 13 ∷ []) ++ 10 ∷ 13 ∷ 10 ∷ rest

proxy_read_message-panic :
    (input : Bytes) → read_message input ≡ panic → proxy_read_message input ≡ panic
unfolding proxy_read_message
proxy_read_message-panic input e = rw (e, proxy_read_message) refl

-- Both readers panic at every negative content length that fits an `int`: they test it for 0
-- only, and hand it to `make`.
pub negative_length-panic :
    (n : ℕ) (rest : Bytes)
    → suc n ≤ 2 ^ 63
    → (read_message (negative_header (suc n) rest) ≡ panic)
      × (proxy_read_message (negative_header (suc n) rest) ≡ panic)
negative_length-panic n rest h =
    let digits = IsDigits-IsWord (decimal (suc n)) (decimal-IsDigits (suc n)) in
    let headers =
      read_headers-header_line b'-' (decimal (suc n)) (negsuc n) rest (refl, digits)
        (atoi-negative n h) in
    let done = read_message-done (negative_header (suc n) rest) (negsuc n) rest headers in
    let panics : read_message (negative_header (suc n) rest) ≡ panic =
      rw done (unfold read_body in refl) in
    (panics, proxy_read_message-panic _ panics)
