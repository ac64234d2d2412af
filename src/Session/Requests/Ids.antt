-- ===== src/Session/Requests/Ids.antt =====
-- The ids of JSON-RPC.
use mcp_bsl_lsp_bridge.Prelude.{ℕ, ◌<◌, ◌^◌, Option, none, some, ◌≡◌, refl, arith}
use mcp_bsl_lsp_bridge.Prelude.Int.{ℤ, pos}
use mcp_bsl_lsp_bridge.Prelude.Bytes.{decimal}
use mcp_bsl_lsp_bridge.Framing.RoundTrip.{atoi-decimal}
use mcp_bsl_lsp_bridge.Session.Requests.{
  Json, null, int, text, other, JsonrpcId, unmarshal_json, marshal_json, as_int64,
}

abbrev pub key : Option JsonrpcId → Option ℤ
key none = none
key (some id) = some (as_int64 id)

-- An id that was read, printed again and read once more names the same entry of `pending`.
pub key-round_trip :
    (j : Json) (id : JsonrpcId)
    → unmarshal_json j ≡ some id
    → key (unmarshal_json (marshal_json id)) ≡ key (some id)
unfolding unmarshal_json marshal_json as_int64
key-round_trip null id h = ground arith
key-round_trip (int i) id h = ground arith
key-round_trip (text s) id h = ground arith
key-round_trip other id h = ground arith

-- A number that comes back as a string, as some servers send it, names the same entry as the
-- number itself, as long as it fits 63 bits.
pub key-decimal :
    (n : ℕ)
    → n < 2 ^ 63
    → key (unmarshal_json (text (decimal n))) ≡ key (unmarshal_json (int (pos n)))
unfolding unmarshal_json as_int64
key-decimal n h = rw (atoi-decimal n h) refl
