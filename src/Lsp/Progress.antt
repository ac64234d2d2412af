-- ===== src/Lsp/Progress.antt =====
-- lsp/progress.go: `ProgressTracker`. The payload of a notification is given decoded; a payload
-- that cannot be printed as JSON is `none`. A token that is neither an `int32` nor a string comes
-- with its JSON text.
pub mod Tokens
use Prim.Native.String.{◌++◌ as concat}
use mcp_bsl_lsp_bridge.Prelude.{
  ℕ, suc, ◌==◌, Bool, true, false, ◌||◌, Option, none, some, List, [], ◌∷◌, String, string_eq,
  if◌then◌else◌,
}
use mcp_bsl_lsp_bridge.Prelude.Int.{ℤ, pos, negsuc}
use mcp_bsl_lsp_bridge.Prelude.Bytes.{Bytes, decimal}
use mcp_bsl_lsp_bridge.Prelude.Dict
use mcp_bsl_lsp_bridge.Prelude.Dict.{Dict}

-- The fields that the begin, report and end payloads share.
pub record Payload : Type 0 where
  pub kind : String
  pub title : Bytes
  pub message : Bytes
  pub percentage : Option ℕ
  pub cancellable : Option Bool
  pub raw : Bytes

pub record ProgressEvent : Type 0 where
  pub token_key : String
  pub payload : Payload
  pub time : ℕ

pub record ProgressTracker : Type 0 where
  pub active : Dict String ProgressEvent
  pub last : Option ProgressEvent

abbrev pub new_progress_tracker : ProgressTracker
new_progress_tracker = record { active = []; last = none }

-- The marker event of a payload that cannot be printed.
abbrev pub marker : Payload
marker = record {
  kind = "unknown";
  title = [];
  message = [];
  percentage = none;
  cancellable = none;
  raw = [];
}

abbrev pub named : Payload → Payload
named p = if string_eq.beq p.kind "" then record p { kind = "unknown" } else p

-- Any other kind replaces an event that is there.
abbrev pub keep_known :
    Dict String ProgressEvent
    → String
    → ProgressEvent
    → Option ProgressEvent
    → Dict String ProgressEvent
keep_known active key ev none = active
keep_known active key ev (some old) = Dict.put active key ev

-- The switch on the kind of the event.
unfoldable pub track :
    Dict String ProgressEvent → String → ProgressEvent → Dict String ProgressEvent
track active key ev =
    if string_eq.beq ev.payload.kind "begin" || string_eq.beq ev.payload.kind "report"
    then Dict.put active key ev
    else if string_eq.beq ev.payload.kind "end"
    then Dict.remove active key
    else keep_known active key ev (Dict.get active key)

pub data ProgressToken : Type 0 where
  number : ℤ → ProgressToken
  text : String → ProgressToken
  other : String → ProgressToken

-- The text of a decimal digit, given its byte.
abbrev digit_text : ℕ → String
digit_text c =
    if c == b'0'
    then "0"
    else if c == b'1'
    then "1"
    else if c == b'2'
    then "2"
    else if c == b'3'
    then "3"
    else if c == b'4'
    then "4"
    else if c == b'5'
    then "5"
    else if c == b'6'
    then "6"
    else if c == b'7'
    then "7"
    else if c == b'8'
    then "8"
    else "9"

unfoldable digits_text : Bytes → String
digits_text [] = ""
digits_text (c ∷ digits) = concat (digit_text c) (digits_text digits)

-- `%d`
unfoldable number_text : ℤ → String
unfolding digits_text
number_text (pos n) = digits_text (decimal n)
number_text (negsuc n) = concat "-" (digits_text (decimal (suc n)))

unfoldable pub progress_token_key : ProgressToken → String
unfolding number_text
progress_token_key (number n) = number_text n
progress_token_key (text s) = s
progress_token_key (other json) = json

-- The event of a notification: its key is that of the token.
abbrev pub event_of : ℕ → ProgressToken → Payload → ProgressEvent
event_of now token payload = record {
  token_key = progress_token_key token;
  payload = payload;
  time = now;
}

unfoldable pub update : ProgressTracker → ℕ → ProgressToken → Option Payload → ProgressTracker
unfolding track
update pt now token none = record pt { last = some (event_of now token marker) }
update pt now token (some payload) =
    let key = progress_token_key token in
    let ev = event_of now token (named payload) in
    record { active = track pt.active key ev; last = some ev }

abbrev events : Dict String ProgressEvent → List ProgressEvent
events [] = []
events ((key, ev) ∷ active) = ev ∷ events active

-- The active events, the last one, and its time (`none` is the zero time).
unfoldable pub snapshot : ProgressTracker → List ProgressEvent × (Option ProgressEvent × Option ℕ)
snapshot pt = (events pt.active, (pt.last, elim pt.last [ none ↦ none | some ev ↦ some ev.time ]))
