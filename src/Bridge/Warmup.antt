-- ===== src/Bridge/Warmup.antt =====
-- bridge/warmup.go and bridge/auto_connect.go: the start and the end of the warm-up, and the
-- throttle of the connection. Times are nanoseconds, `none` is Go's zero time; the work itself is
-- not modelled, only that it is launched.
pub mod Single
use mcp_bsl_lsp_bridge.Prelude.{
  ℕ, zero, suc, ◌+◌, ◌-◌, ◌*◌, Bool, true, false, not, ◌&&◌, ◌||◌, Option, none, some, List, [],
  ◌∷◌, if◌then◌else◌, ltb,
}
use mcp_bsl_lsp_bridge.Prelude.Bytes.{Bytes}

pub record Warmup : Type 0 where
  pub started_at : Option ℕ
  pub finished_at : Option ℕ
  pub last_attempt : Option ℕ
  pub running : Bool
  pub done : Bool
  pub err : Bytes

abbrev pub new_warmup : Warmup
new_warmup = record {
  started_at = none;
  finished_at = none;
  last_attempt = none;
  running = false;
  done = false;
  err = [];
}

abbrev pub second : ℕ
second = 1000000000

-- `!last.IsZero() && now.Sub(last) < d`
abbrev pub within : ℕ → ℕ → Option ℕ → Bool
within d now none = false
within d now (some last) = ltb (now - last) d

-- `if startedAt.IsZero() { startedAt = now }`
abbrev pub first_time : ℕ → Option ℕ → Option ℕ
first_time now none = some now
first_time now (some t) = some t

abbrev pub launch : ℕ → Warmup → Warmup
launch now w = record w {
  last_attempt = some now;
  running = true;
  started_at = first_time now w.started_at;
  err = [];
}

-- The state after the call, and whether `runWarmup` was launched.
unfoldable pub start_warmup : ℕ → Warmup → Warmup × Bool
start_warmup now w =
    if within (10 * second) now w.last_attempt
    then (w, false)
    else if w.done || w.running
    then (record w { last_attempt = some now }, false)
    else (launch now w, true)

unfoldable pub sync_warmup : ℕ → Warmup → Warmup × Bool
sync_warmup now w = if w.done || w.running then (w, false) else (launch now w, true)

-- `none` is no error.
unfoldable pub finish_warmup : ℕ → Option Bytes → Warmup → Warmup
finish_warmup now none w = record w {
  running = false;
  finished_at = some now;
  err = [];
  done = true;
}
finish_warmup now (some e) w = record w {
  running = false;
  finished_at = some now;
  err = e;
  done = false;
}

pub record AutoConnect : Type 0 where
  pub started_at : Option ℕ
  pub last_attempt : Option ℕ

-- The state after the call, and whether the connection was launched.
unfoldable pub start_auto_connect : ℕ → AutoConnect → AutoConnect × Bool
start_auto_connect now a =
    if within (5 * second) now a.last_attempt
    then (a, false)
    else (record { started_at = first_time now a.started_at; last_attempt = some now }, true)
