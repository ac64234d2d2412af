-- ===== src/Session/Indexing.antt =====
-- cmd/lsp-session-manager/main.go: the indexing state, as `$/progress` notifications change it and
-- `getStatus` reports it. Times are nanoseconds, and `none` is Go's zero time. The speed is a
-- `float64`: its type and its arithmetic are parameters.
pub mod Parse
pub mod Ending
use mcp_bsl_lsp_bridge.Prelude.{
  ℕ, zero, suc, ◌+◌, ◌-◌, ◌*◌, ◌/◌, ◌^◌, Bool, true, false, not, ◌&&◌, ◌||◌, Option, none, some,
  List, [], ◌∷◌, ◌++◌, if◌then◌else◌, ltb, ◌==◌, String, string_eq,
}
use mcp_bsl_lsp_bridge.Prelude.Int.{ℤ, pos, negsuc, is_positive, is_below, ◌-ℤ◌}
use mcp_bsl_lsp_bridge.Prelude.Bytes.{Bytes, is_digit, is_space}
use mcp_bsl_lsp_bridge.Framing.{atoi}

-- The white space that `Sscanf` skips before a number; it fails at a line end.
unfoldable pub skip_space : Bytes → Option Bytes
skip_space [] = some []
skip_space (c ∷ s) =
    let rest = skip_space s in if c == 10 then none else if is_space c then rest else some (c ∷ s)

unfoldable pub digits : Bytes → Bytes
digits [] = []
digits (c ∷ s) = let rest = digits s in if is_digit c then c ∷ rest else []

unfoldable pub after_digits : Bytes → Bytes
after_digits [] = []
after_digits (c ∷ s) = let rest = after_digits s in if is_digit c then rest else c ∷ s

-- A number and what stands after it, the sign apart.
abbrev pub with_rest : Option ℤ → Bytes → Option (ℤ × Bytes)
with_rest none s = none
with_rest (some n) s = some (n, s)

abbrev pub signed : Bytes → Option (ℤ × Bytes)
signed [] = none
signed (c ∷ s) =
    if c == b'-' || c == b'+'
    then with_rest (atoi (c ∷ digits s)) (after_digits s)
    else with_rest (atoi (digits (c ∷ s))) (after_digits (c ∷ s))

-- the verb `%d` of `Sscanf`
unfoldable pub scan_int : Bytes → Option (ℤ × Bytes)
unfolding skip_space digits after_digits
scan_int s = elim (skip_space s) [ none ↦ none | some r ↦ signed r ]

abbrev pub slash : Bytes → Option Bytes
slash [] = none
slash (c ∷ s) = if c == b'/' then some s else none

abbrev pub first_of : ℤ → Option (ℤ × Bytes) → Option (ℤ × ℤ)
first_of c none = none
first_of c (some r) = some (c, r.0)

-- `fmt.Sscanf(s, "%d/%d", &c, &t)`
unfoldable pub scan_pair : Bytes → Option (ℤ × ℤ)
unfolding scan_int
scan_pair s = elim (scan_int s) [
  | none ↦ none
  | some r ↦ elim (slash r.1) [ none ↦ none | some q ↦ first_of r.0 (scan_int q) ]
]

abbrev pub if_total : Option (ℤ × ℤ) → ℤ × ℤ → ℤ × ℤ
if_total none other = other
if_total (some r) other = if is_positive r.1 then r else other

unfoldable pub parse_progress_message : Bytes → ℤ × ℤ
unfolding scan_pair
parse_progress_message [] = (pos 0, pos 0)
parse_progress_message (c ∷ s) =
    let rest = parse_progress_message s in
    if is_digit c then if_total (scan_pair (c ∷ s)) rest else rest

-- The payload of a `$/progress` notification.
pub record Progress : Type 0 where
  pub kind : String
  pub title : Bytes
  pub message : Bytes
  pub percentage : ℤ

-- What the code does with `float64`.
pub record Float64 (F : Type 0) : Type 0 where
  pub zero_speed : F
  pub above_zero : F → Bool
  pub per_second : ℤ → ℕ → F
  pub rolling : F → F → F
  pub seconds_for : ℤ → F → ℤ

pub record Indexing (F : Type 0) : Type 0 where
  pub active : Bool
  pub title : Bytes
  pub message : Bytes
  pub percentage : ℤ
  pub started_at : Option ℕ
  pub first_started_at : Option ℕ
  pub last_update : Option ℕ
  pub current : ℤ
  pub total : ℤ
  pub speed : F

abbrev pub second : ℕ
second = 1000000000

-- `now.Sub(t)`, which stops at the largest duration when `t` is the zero time.
abbrev pub since : ℕ → Option ℕ → ℕ
since now none = 2 ^ 63 - 1
since now (some t) = now - t

abbrev pub is_zero_time : Option ℕ → Bool
is_zero_time none = true
is_zero_time (some t) = false

pub data State : Type 0 where
  idle : State
  indexing : State
  complete : State

pub record Status : Type 0 where
  pub state : State
  pub current : ℤ
  pub total : ℤ
  pub message : Bytes
  pub eta_seconds : Option ℤ
  pub elapsed_seconds : Option ℕ

module _ {F : Type 0} (float : Float64 F) where
  -- the case "begin"
  unfoldable pub begin_indexing : ℕ → Progress → Indexing F → Indexing F
  begin_indexing now p s =
      let is_new_cycle =
        is_zero_time s.first_started_at || ltb (30 * second) (since now s.last_update) in
      record {
        active = true;
        title = p.title;
        message = p.message;
        percentage = p.percentage;
        started_at = some now;
        first_started_at = if is_new_cycle then some now else s.first_started_at;
        last_update = some now;
        current = if is_new_cycle then pos 0 else s.current;
        total = if is_new_cycle then pos 0 else s.total;
        speed = if is_new_cycle then float.zero_speed else s.speed;
      }

  -- The speed after `current` files.
  unfoldable pub next_speed : ℕ → ℤ → Indexing F → F
  next_speed now current s =
      let elapsed = since now s.last_update in
      let instant = float.per_second (current -ℤ s.current) elapsed in
      if is_positive s.current && is_below s.current current && ltb 0 elapsed
      then (if float.above_zero s.speed then float.rolling s.speed instant else instant)
      else s.speed

  -- the case "report"
  unfoldable pub report_indexing : ℕ → Progress → Indexing F → Indexing F
  unfolding parse_progress_message next_speed
  report_indexing now p s =
      let parsed = parse_progress_message p.message in
      record {
        active = s.active;
        title = s.title;
        message = p.message;
        percentage = p.percentage;
        started_at = s.started_at;
        first_started_at = s.first_started_at;
        last_update = some now;
        current = if is_positive parsed.1 then parsed.0 else s.current;
        total = if is_positive parsed.1 then parsed.1 else s.total;
        speed = if is_positive parsed.1 then next_speed now parsed.0 s else s.speed;
      }

  -- the case "end"
  unfoldable pub end_indexing : ℕ → Progress → Indexing F → Indexing F
  end_indexing now p s = record {
    active = false;
    title = elim p.message [ [] ↦ s.title | c ∷ rest ↦ p.message ];
    message = p.message;
    percentage = pos 100;
    started_at = s.started_at;
    first_started_at = s.first_started_at;
    last_update = some now;
    current = if is_positive s.total then s.total else s.current;
    total = s.total;
    speed = s.speed;
  }

  -- the case "$/progress" of `handleNotification`
  unfoldable pub handle_progress : ℕ → Progress → Indexing F → Indexing F
  unfolding begin_indexing report_indexing end_indexing
  handle_progress now p s =
      if string_eq.beq p.kind "begin"
      then begin_indexing now p s
      else if string_eq.beq p.kind "report"
      then report_indexing now p s
      else if string_eq.beq p.kind "end"
      then end_indexing now p s
      else s

  -- `IsIndexing`, which the polling watcher asks
  unfoldable pub is_indexing : Indexing F → Bool
  is_indexing s = s.active

  unfoldable pub is_active : Indexing F → Bool
  is_active s = s.active || (is_positive s.total && is_below s.current s.total)

  unfoldable pub is_complete : Indexing F → Bool
  is_complete s = is_positive s.total && not (is_below s.current s.total)

  abbrev pub start_time : Indexing F → Option ℕ
  start_time s = elim s.first_started_at [ none ↦ s.started_at | some t ↦ some t ]

  abbrev pub elapsed : Bool → Bool → ℕ → Option ℕ → Option ℕ → Option ℕ
  elapsed active done now none last = none
  elapsed true done now (some start) last = some ((now - start) / second)
  elapsed false true now (some start) none = some 0
  elapsed false true now (some start) (some last) = some ((last - start) / second)
  elapsed false false now (some start) last = none

  -- the field "indexing" of `getStatus`
  unfoldable pub get_status : ℕ → Indexing F → Status
  unfolding is_active is_complete
  get_status now s = record {
    state = if is_active s then indexing else if is_complete s then complete else idle;
    current = s.current;
    total = s.total;
    message = s.message;
    eta_seconds =
        if is_active s && float.above_zero s.speed && is_below s.current s.total
        then some (float.seconds_for (s.total -ℤ s.current) s.speed)
        else none;
    elapsed_seconds = elapsed (is_active s) (is_complete s) now (start_time s) s.last_update;
  }
