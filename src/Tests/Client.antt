-- ===== src/Tests/Client.antt =====
-- Tests of the tokens, the progress, the rate limit, the warm-up and the pages.
use mcp_bsl_lsp_bridge.Prelude.{
  ℕ, ◌+◌, ◌*◌, ◌≤◌, true, false, List, [], ◌∷◌, ◌++◌, ◌≡◌, refl, arith, some, none, String,
  string_eq, length, drop,
}
use mcp_bsl_lsp_bridge.Prelude.Int.{pos, negsuc}
use mcp_bsl_lsp_bridge.Prelude.Bytes.{Bytes, codes}
use mcp_bsl_lsp_bridge.Prelude.{take, ◌<◌, ◌^◌, ◌-◌}
use mcp_bsl_lsp_bridge.Edits.{split_lines, join_lines, line_at}
use mcp_bsl_lsp_bridge.Edits.Splice.{offset}
use mcp_bsl_lsp_bridge.Session.Api.{get_polling_workers}
use mcp_bsl_lsp_bridge.Session.Api.Routes.{get_polling_workers-positive}
use mcp_bsl_lsp_bridge.Tools.Range.{ok, get_range_content}
use mcp_bsl_lsp_bridge.Tools.Range.Pieces.{get_range_content-short}
use mcp_bsl_lsp_bridge.Tools.Range.Slices.{get_range_content-slice}
use mcp_bsl_lsp_bridge.Prelude.Dict
use mcp_bsl_lsp_bridge.Lsp.Tokens.Decoding.{Token}
use mcp_bsl_lsp_bridge.Lsp.Progress.{ProgressToken, new_progress_tracker, marker}
use mcp_bsl_lsp_bridge.Lsp.Progress.Tokens.{Notice, update_all, active_of, update_all-active_of}
use mcp_bsl_lsp_bridge.Lsp.RateLimit.{Config, Level, new_bucket}
use mcp_bsl_lsp_bridge.Lsp.RateLimit.Burst.{messages, floods, log_all, log_all-burst}
use mcp_bsl_lsp_bridge.Bridge.Warmup.{
  new_warmup, finish_warmup, second, AutoConnect, start_auto_connect,
}
use mcp_bsl_lsp_bridge.Bridge.Warmup.Single.{
  Work, Event, start, sync, finish, run, one_if, run-single, start_auto_connect-throttled,
}
use mcp_bsl_lsp_bridge.Tools.Pagination.{panic, apply_pagination}
use mcp_bsl_lsp_bridge.Tools.Pagination.Pages.{
  items_of, next_offset, apply_pagination-cover, apply_pagination-panic,
}

abbrev types : List String
types = "function" ∷ "variable" ∷ []

abbrev tokens : List Token
tokens =
    record { line = 0; start = 4; size = 3; type = 0; modifiers = 0 }
    ∷ record { line = 0; start = 9; size = 1; type = 1; modifiers = 0 }
    ∷ record { line = 2; start = 1; size = 5; type = 0; modifiers = 0 }
    ∷ []

abbrev notices : List Notice
notices =
    record {
      now = 1;
      token = ProgressToken.text "t";
      payload = some (record marker { kind = "begin" });
    }
    ∷ record {
      now = 2;
      token = ProgressToken.number (pos 5);
      payload = some (record marker { kind = "end" });
    }
    ∷ []

update_all-active_of_example :
    Dict.get (update_all new_progress_tracker notices).active "t" ≡ active_of "t" none notices
update_all-active_of_example = update_all-active_of notices "t"

abbrev config : Config
config = record { level = Level.debug; window = 100; burst_per_key = 1; max_param_bytes = 8 }

abbrev calls : List (ℕ × Bytes)
calls = (0, codes "a") ∷ (1, codes "b") ∷ (2, []) ∷ []

log_all-burst_example :
    (messages (log_all config "m" calls (new_bucket 0)).1 ≤ 1)
    × ((log_all config "m" calls (new_bucket 0)).0.suppressed
          + messages (log_all config "m" calls (new_bucket 0)).1
        ≡ 3)
    × (floods (log_all config "m" calls (new_bucket 0)).1 ≤ 1)
log_all-burst_example =
    log_all-burst config "m" calls 0 (omega arith, (omega arith, (omega arith, tt)))

abbrev fresh : Work
fresh = record { warmup = new_warmup; jobs = 0 }

abbrev starts : List Event
starts = start 1 ∷ sync 2 ∷ finish 3 none ∷ start (20 * second) ∷ []

abbrev warmed : Work
warmed = record {
  warmup = record {
    started_at = some 1;
    finished_at = some 3;
    last_attempt = some (20 * second);
    running = false;
    done = true;
    err = [];
  };
  jobs = 0;
}

starts-run : run fresh starts ≡ some warmed
unfolding run finish_warmup
starts-run = refl

run-single_example : (warmed.jobs ≤ 1) × (warmed.jobs ≡ one_if warmed.warmup.running)
run-single_example = run-single starts warmed starts-run

abbrev unconnected : AutoConnect
unconnected = record { started_at = none; last_attempt = none }

start_auto_connect-throttled_example : 7 + 5 * second ≤ 9 * second
unfolding start_auto_connect
start_auto_connect-throttled_example =
    start_auto_connect-throttled unconnected 7 (9 * second) (omega arith) refl refl

abbrev items : List ℕ
items = 10 ∷ 11 ∷ 12 ∷ 13 ∷ []

apply_pagination-cover_example :
    (items_of (apply_pagination items (pos 1) (pos 2))
        ++ drop (next_offset (apply_pagination items (pos 1) (pos 2))) items
      ≡ drop 1 items)
    × (1 + length (items_of (apply_pagination items (pos 1) (pos 2)))
        ≡ next_offset (apply_pagination items (pos 1) (pos 2)))
    × (length (items_of (apply_pagination items (pos 1) (pos 2))) ≤ 2)
apply_pagination-cover_example =
    apply_pagination-cover items 1 2 (omega arith) (omega arith) (omega arith)

apply_pagination-panic_example : apply_pagination items (pos 1) (negsuc 0) ≡ panic
apply_pagination-panic_example = apply_pagination-panic items 1 0 (omega arith)

abbrev java_args : List Bytes
java_args = codes "-Xmx1g" ∷ codes "-jar" ∷ codes "bsl.jar" ∷ []

abbrev text : Bytes
text = codes "ab\ncdef"

few_lines : length (split_lines text) < 2 ^ 32
unfolding split_lines
few_lines = omega arith

second_line : 1 < length (split_lines text)
unfolding split_lines
second_line = omega arith

short_line : length (line_at (split_lines text) 1) < 2 ^ 32
unfolding split_lines
short_line = omega arith

long_enough : 3 ≤ length (line_at (split_lines text) 1)
unfolding split_lines
long_enough = omega arith

get_range_content-slice_example :
    get_range_content text 1 1 1 3 true ≡ ok (take 2 (drop (offset (split_lines text) 1 1) text))
get_range_content-slice_example =
    get_range_content-slice text 1 1 3 true few_lines second_line short_line (omega arith)
      long_enough

get_polling_workers-positive_example : 0 < get_polling_workers (codes "-3")
get_polling_workers-positive_example = get_polling_workers-positive (codes "-3")

first_line : length (line_at (split_lines text) 0) < 2 ^ 32
unfolding split_lines
first_line = omega arith

start_fits : 1 ≤ length (line_at (split_lines text) 0)
unfolding split_lines
start_fits = omega arith

get_range_content-short_example :
    get_range_content text 0 1 1 3 true
    ≡ ok (
        take
          (offset (split_lines text) 1 2 - offset (split_lines text) 0 1)
          (drop (offset (split_lines text) 0 1) text))
get_range_content-short_example =
    get_range_content-short text 0 1 1 2 true few_lines (omega arith) second_line first_line
      short_line start_fits long_enough

-- Characters 1 of the first line to 3 of the second, of which the last is lost.
short_range_example : get_range_content text 0 1 1 3 true ≡ ok (codes "b\ncd")
unfolding get_range_content split_lines join_lines
short_range_example = refl
