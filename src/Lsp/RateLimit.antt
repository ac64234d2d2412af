-- ===== src/Lsp/RateLimit.antt =====
-- lsp/unhandled_notifications.go: the rate limit on the log of unhandled notifications. Times are
-- nanoseconds. The lock is given up while the summary of a window is logged; here the call is one
-- step.
pub mod Burst
pub mod Settings
use mcp_bsl_lsp_bridge.Prelude.{
  ℕ, zero, suc, ◌+◌, ◌-◌, ◌*◌, Bool, true, false, not, ◌&&◌, ◌||◌, Option, none, some, List, [],
  ◌∷◌, ◌++◌, String, string_eq, if◌then◌else◌, ltb, leb, ◌==◌, length, take,
}
use mcp_bsl_lsp_bridge.Prelude.Bytes.{Bytes}
use mcp_bsl_lsp_bridge.Prelude.Dict
use mcp_bsl_lsp_bridge.Prelude.Dict.{Dict}

pub data Level : Type 0 where
  off : Level
  debug : Level
  info : Level

pub record Config : Type 0 where
  pub level : Level
  pub window : ℕ
  pub burst_per_key : ℕ
  pub max_param_bytes : ℕ

pub record Bucket : Type 0 where
  pub window_start : ℕ
  pub emitted : ℕ
  pub suppressed : ℕ
  pub suppress_msg : Bool

-- What is logged: the summary of a window, the notice of a flood, or the notification with its
-- parameters.
pub data LogLine : Type 0 where
  summary : String → ℕ → LogLine
  flood : String → ℕ → LogLine
  message : String → Option Bytes → LogLine
  truncated : String → Bytes → LogLine
  no_params : String → LogLine

abbrev pub new_bucket : ℕ → Bucket
new_bucket now = record { window_start = now; emitted = 0; suppressed = 0; suppress_msg = false }

abbrev pub rolls_over : Config → ℕ → Bucket → Bool
rolls_over cfg now b = ltb 0 cfg.window && leb cfg.window (now - b.window_start)

-- The text of the message, by the parameters.
abbrev pub message_line : Config → String → Bytes → LogLine
message_line cfg method [] = no_params method
message_line cfg method (c ∷ params) =
    if cfg.max_param_bytes == 0
    then message method none
    else if ltb cfg.max_param_bytes (length (c ∷ params))
    then truncated method (take cfg.max_param_bytes (c ∷ params))
    else message method (some (c ∷ params))

abbrev pub limited : Config → Bucket → Bool
limited cfg b = cfg.burst_per_key == 0 || leb cfg.burst_per_key b.emitted

abbrev pub need_flood : Config → Bucket → Bool
need_flood cfg b = not b.suppress_msg && ltb 0 cfg.burst_per_key

-- From the test of the limit on: the bucket, and what is logged.
unfoldable pub admit : Config → String → Bytes → Bucket → Bucket × List LogLine
admit cfg method params b =
    if limited cfg b
    then (
      record b { suppressed = suc b.suppressed; suppress_msg = b.suppress_msg || need_flood cfg b },
      if need_flood cfg b then flood method cfg.burst_per_key ∷ [] else [],
    )
    else (record b { emitted = suc b.emitted }, message_line cfg method params ∷ [])

-- The whole call on the bucket of the method. The parameters are empty when there are none.
unfoldable pub log_in_bucket : Config → ℕ → String → Bytes → Bucket → Bucket × List LogLine
unfolding admit
log_in_bucket cfg now method params b =
    if rolls_over cfg now b
    then (
      (admit cfg method params (new_bucket now)).0,
      (if ltb 0 b.suppressed then summary method b.suppressed ∷ [] else [])
          ++ (admit cfg method params (new_bucket now)).1,
    )
    else admit cfg method params b

abbrev pub bucket_of : ℕ → Option Bucket → Bucket
bucket_of now none = new_bucket now
bucket_of now (some b) = b

-- `logUnhandledNotification`: the buckets, and what is logged at the level of the configuration.
unfoldable pub log_unhandled_notification :
    Config → ℕ → String → Bytes → Dict String Bucket → Dict String Bucket × List LogLine
unfolding log_in_bucket
log_unhandled_notification cfg now method params buckets = elim cfg.level [
  | off ↦ (buckets, [])
  | _ ↦
      let done = log_in_bucket cfg now method params (bucket_of now (Dict.get buckets method)) in
      (Dict.put buckets method done.0, done.1)
]
