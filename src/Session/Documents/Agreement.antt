-- ===== src/Session/Documents/Agreement.antt =====
-- The session's table and the documents that the language server holds.
use mcp_bsl_lsp_bridge.Prelude.{
  Bool, true, false, Option, none, some, List, [], ◌∷◌, ◌≡◌, refl, ap, ◌∙◌, String, string_eq,
  if◌then◌else◌, Bool-cases, Option-cases, inl, inr,
}
use mcp_bsl_lsp_bridge.Prelude.Bytes.{Bytes}
use mcp_bsl_lsp_bridge.Prelude.Dict
use mcp_bsl_lsp_bridge.Prelude.Dict.{Dict, get-put, get-remove}
use mcp_bsl_lsp_bridge.Session.Documents.{
  Notification, did_open, did_close, is_open, handle_did_open, handle_did_close, flag,
}

abbrev pub opened_by :
    Dict String Bytes → String → Bytes → Option Bytes → Option (Dict String Bytes)
opened_by server uri text none = some (Dict.put server uri text)
opened_by server uri text (some old) = none

abbrev pub closed_by : Dict String Bytes → String → Option Bytes → Option (Dict String Bytes)
closed_by server uri none = none
closed_by server uri (some old) = some (Dict.remove server uri)

-- The server's side of LSP: opening an open document and closing a closed one are errors.
abbrev pub receive : Dict String Bytes → Notification → Option (Dict String Bytes)
receive server (did_open uri text) = opened_by server uri text (Dict.get server uri)
receive server (did_close uri) = closed_by server uri (Dict.get server uri)

unfoldable pub replay : Dict String Bytes → List Notification → Option (Dict String Bytes)
replay server [] = some server
replay server (n ∷ rest) = elim (receive server n) [ none ↦ none | some next ↦ replay next rest ]

abbrev pub present : Option Bytes → Bool
present none = false
present (some text) = true

-- The table has the documents that the server holds.
abbrev pub Agrees : Dict String Bool → Dict String Bytes → Type 0
Agrees docs server = (uri : String) → flag (Dict.get docs uri) ≡ present (Dict.get server uri)

replay-cons :
    (server next : Dict String Bytes) (n : Notification) (rest : List Notification)
    → receive server n ≡ some next
    → replay server (n ∷ rest) ≡ replay next rest
unfolding replay
replay-cons server next n rest h = rw (h, replay) refl

replay-refused :
    (server : Dict String Bytes) (n : Notification) (rest : List Notification)
    → receive server n ≡ none
    → replay server (n ∷ rest) ≡ none
unfolding replay
replay-refused server n rest h = rw (h, replay) refl

replay-nil : (server : Dict String Bytes) → replay server [] ≡ some server
unfolding replay
replay-nil server = refl

module _ (docs : Dict String Bool) (server : Dict String Bytes) (a : Agrees docs server)
    (uri : String) where
  put-Agrees : (text : Bytes) → Agrees (Dict.put docs uri true) (Dict.put server uri text)
  put-Agrees text other = rw get-put (
      rw get-put (elim (Bool-cases (string_eq.beq uri other)) [
        | inl h ↦ rw h refl
        | inr h ↦ rw h (a other)
      ]))

  put_removed-Agrees :
      (text : Bytes) → Agrees (Dict.put docs uri true) (Dict.put (Dict.remove server uri) uri text)
  put_removed-Agrees text other = rw get-put (
      rw get-put (elim (Bool-cases (string_eq.beq uri other)) [
        | inl h ↦ rw h refl
        | inr h ↦ rw h (rw get-remove (rw h (a other)))
      ]))

  remove-Agrees : Agrees (Dict.remove docs uri) (Dict.remove server uri)
  remove-Agrees other = rw get-remove (
      rw get-remove (elim (Bool-cases (string_eq.beq uri other)) [
        | inl h ↦ rw h refl
        | inr h ↦ rw h (a other)
      ]))

  uri_refl : string_eq.beq uri uri ≡ true
  uri_refl = (string_eq.beq_iff uri uri).1 refl

  get-put_self :
      (m : Dict String Bytes) (text : Bytes) → Dict.get (Dict.put m uri text) uri ≡ some text
  get-put_self m text = rw get-put (rw uri_refl refl)

  get-remove_self : (m : Dict String Bytes) → Dict.get (Dict.remove m uri) uri ≡ none
  get-remove_self m = rw get-remove (rw uri_refl refl)

module _ (write : Notification → Bool) (succeeds : (n : Notification) → write n ≡ true)
    (docs : Dict String Bool) (server : Dict String Bytes) (a : Agrees docs server)
    (uri : String) where
  first_open :
      (text : Bytes)
      → is_open docs uri ≡ false
      → handle_did_open write docs uri text
        ≡ record { open_docs = Dict.put docs uri true; written = did_open uri text ∷ []; ok = true }
  unfolding handle_did_open
  first_open text h = rw h (rw succeeds refl)

  second_open :
      (text : Bytes)
      → is_open docs uri ≡ true
      → handle_did_open write docs uri text ≡ record {
        open_docs = Dict.put docs uri true;
        written = did_close uri ∷ did_open uri text ∷ [];
        ok = true;
      }
  unfolding handle_did_open
  second_open text h = rw h (rw (succeeds (did_close uri)) (rw (succeeds (did_open uri text)) refl))

  close-written : (handle_did_close write docs uri).written ≡ did_close uri ∷ []
  unfolding handle_did_close
  close-written = rw succeeds refl

  close-open_docs : (handle_did_close write docs uri).open_docs ≡ Dict.remove docs uri
  unfolding handle_did_close
  close-open_docs = refl

  -- Where every write succeeds, opening a document, open or not, is accepted by the server, which
  -- then holds the new text, and the table agrees with the server again.
  pub handle_did_open-Agrees :
      (text : Bytes)
      → (next : Dict String Bytes) × (replay server (handle_did_open write docs uri text).written
          ≡ some next)
        × (Dict.get next uri ≡ some text)
        × Agrees (handle_did_open write docs uri text).open_docs next
  handle_did_open-Agrees text = elim (Option-cases (Dict.get server uri)) [
    | inl n ↦ rw (first_open text (a uri ∙ ap present n)) (
      Dict.put server uri text,
      replay-cons server _ _ [] (ap (opened_by server uri text) n) ∙ replay-nil _,
      get-put_self docs server a uri server text,
      put-Agrees docs server a uri text,
    )
    | inr (old, n) ↦
        let gone = Dict.remove server uri in
        let missing = get-remove_self docs server a uri server in
        rw (second_open text (a uri ∙ ap present n)) (
          Dict.put gone uri text,
          replay-cons server gone _ _ (ap (closed_by server uri) n)
              ∙ replay-cons gone _ _ [] (ap (opened_by gone uri text) missing)
              ∙ replay-nil _,
          get-put_self docs server a uri gone text,
          put_removed-Agrees docs server a uri text,
        )
  ]

  -- Where every write succeeds, closing a document that is open is accepted by the server, and the
  -- table agrees with it again; closing one that is not is passed on all the same, and the server
  -- refuses it.
  pub handle_did_close-Agrees :
      (replay server (handle_did_close write docs uri).written
        ≡ (if is_open docs uri then some (Dict.remove server uri) else none))
      × Agrees (handle_did_close write docs uri).open_docs (Dict.remove server uri)
  handle_did_close-Agrees = rw close-written (
      rw close-open_docs (
        elim (Option-cases (Dict.get server uri)) [
          | inl n ↦
              rw (a uri ∙ ap present n) (replay-refused server _ [] (ap (closed_by server uri) n))
          | inr (old, n) ↦
              rw (a uri ∙ ap present n)
                (replay-cons server _ _ [] (ap (closed_by server uri) n) ∙ replay-nil _)
        ],
        remove-Agrees docs server a uri,
      ))
