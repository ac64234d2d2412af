-- ===== src/Lsp/RateLimit/Settings.antt =====
-- lsp/unhandled_notifications.go: `loadUnhandledNotifConfig`, which reads the configuration of the
-- rate limit from the environment. A variable that is not set is the empty text.
-- `time.ParseDuration` is a parameter.
use mcp_bsl_lsp_bridge.Prelude.{
  ℕ, zero, suc, ◌*◌, ◌^◌, ◌<◌, Option, none, some, [], ◌∷◌, String, arith, if◌then◌else◌,
}
use mcp_bsl_lsp_bridge.Prelude.Int.{ℤ, pos, negsuc}
use mcp_bsl_lsp_bridge.Prelude.Bytes.{Bytes, codes}
use mcp_bsl_lsp_bridge.Framing.{atoi}
use mcp_bsl_lsp_bridge.Lsp.JavaOptions.{same_bytes}
use mcp_bsl_lsp_bridge.Lsp.RateLimit.{Config, Level}

abbrev default_config : Config
default_config = record {
  level = Level.debug;
  window = 10 * 10 ^ 9;
  burst_per_key = 3;
  max_param_bytes = 4096;
}

-- The level, unless the text is another one.
unfoldable level_of : Level → Bytes → Level
level_of old v =
    if same_bytes v (codes "off")
    then Level.off
    else if same_bytes v (codes "debug")
    then Level.debug
    else if same_bytes v (codes "info")
    then Level.info
    else old

-- A number that is at least 0.
abbrev natural_or : ℕ → Option ℤ → ℕ
natural_or old (some (pos n)) = n
natural_or old _ = old

-- A number that is above 0.
abbrev positive_or : ℕ → Option ℤ → ℕ
positive_or old (some (pos (suc n))) = suc n
positive_or old _ = old

-- The value `read` gives for a text that is not empty.
abbrev when_set : {A : Type 0} → A → (Bytes → A) → Bytes → A
when_set old read [] = old
when_set old read (c ∷ v) = read (c ∷ v)

unfoldable load_unhandled_notif_config : (Bytes → Option ℤ) → (String → Bytes) → Config
unfolding level_of
load_unhandled_notif_config parse_duration getenv = record {
  level =
      when_set default_config.level (level_of default_config.level)
        (getenv "MCP_LSP_UNHANDLED_NOTIFICATIONS_LEVEL");
  window =
      when_set default_config.window (λ v. positive_or default_config.window (parse_duration v))
        (getenv "MCP_LSP_UNHANDLED_NOTIFICATIONS_WINDOW");
  burst_per_key =
      when_set default_config.burst_per_key (λ v. natural_or default_config.burst_per_key (atoi v))
        (getenv "MCP_LSP_UNHANDLED_NOTIFICATIONS_BURST");
  max_param_bytes =
      when_set default_config.max_param_bytes
        (λ v. natural_or default_config.max_param_bytes (atoi v))
        (getenv "MCP_LSP_UNHANDLED_NOTIFICATIONS_MAX_PARAM_BYTES");
}

positive_or-positive : (old : ℕ) (n : Option ℤ) → 0 < old → 0 < positive_or old n
positive_or-positive old none h = h
positive_or-positive old (some (pos zero)) h = h
positive_or-positive old (some (pos (suc n))) h = omega arith
positive_or-positive old (some (negsuc n)) h = h

when_set-positive :
    (old : ℕ) (read : Bytes → ℕ) (v : Bytes)
    → 0 < old
    → ((s : Bytes) → 0 < read s)
    → 0 < when_set old read v
when_set-positive old read [] h k = h
when_set-positive old read (c ∷ v) h k = k (c ∷ v)

-- Whatever the environment says, a window has a length, so that every bucket starts again.
load_unhandled_notif_config-window :
    (parse_duration : Bytes → Option ℤ) (getenv : String → Bytes)
    → 0 < (load_unhandled_notif_config parse_duration getenv).window
unfolding load_unhandled_notif_config
load_unhandled_notif_config-window parse_duration getenv =
    let default : 0 < default_config.window = omega arith in
    when_set-positive default_config.window
      (λ v. positive_or default_config.window (parse_duration v))
      (getenv "MCP_LSP_UNHANDLED_NOTIFICATIONS_WINDOW") default
      (λ s. positive_or-positive default_config.window (parse_duration s) default)
