-- ===== src/Lsp/RateLimit/Burst.antt =====
-- How much one window logs.
use mcp_bsl_lsp_bridge.Prelude.{
  ℕ, suc, ◌+◌, ◌-◌, ◌<◌, ◌≤◌, Bool, true, false, not, ◌&&◌, ◌||◌, List, [], ◌∷◌, ◌++◌, String, ◌≡◌,
  refl, ◌∙◌, arith, All, if◌then◌else◌, ltb, ◌==◌, Bool-cases, inl, inr, length, leb-false,
}
use mcp_bsl_lsp_bridge.Prelude.Bytes.{Bytes}
use mcp_bsl_lsp_bridge.Lsp.RateLimit.{
  Config, Bucket, LogLine, summary, flood, message, truncated, no_params, message_line, limited,
  need_flood, rolls_over, admit, log_in_bucket, new_bucket,
}

-- The notifications among the lines, and the notices of a flood.
abbrev pub messages : List LogLine → ℕ
messages [] = 0
messages (summary m n ∷ lines) = messages lines
messages (flood m n ∷ lines) = messages lines
messages (_ ∷ lines) = suc (messages lines)

abbrev pub floods : List LogLine → ℕ
floods [] = 0
floods (flood m n ∷ lines) = suc (floods lines)
floods (_ ∷ lines) = floods lines

-- Calls at the given times with the given parameters, on one bucket.
unfoldable pub log_all : Config → String → List (ℕ × Bytes) → Bucket → Bucket × List LogLine
unfolding log_in_bucket
log_all cfg method [] b = (b, [])
log_all cfg method ((now, params) ∷ calls) b =
    let done = log_in_bucket cfg now method params b in
    let rest = log_all cfg method calls done.0 in (rest.0, done.1 ++ rest.1)

message_line-counts :
    (cfg : Config) (method : String) (params : Bytes)
    → (messages (message_line cfg method params ∷ []) ≡ 1)
      × (floods (message_line cfg method params ∷ []) ≡ 0)
message_line-counts cfg method [] = (refl, refl)
message_line-counts cfg method (c ∷ params) = elim (Bool-cases (cfg.max_param_bytes == 0)) [
  | inl h ↦ rw h (refl, refl)
  | inr h ↦ rw h (elim (Bool-cases (ltb cfg.max_param_bytes (length (c ∷ params)))) [
    | inl l ↦ rw l (refl, refl)
    | inr l ↦ rw l (refl, refl)
  ])
]

messages-append : (xs ys : List LogLine) → messages (xs ++ ys) ≡ messages xs + messages ys
messages-append [] ys = omega arith
messages-append (summary m n ∷ xs) ys = messages-append xs ys
messages-append (flood m n ∷ xs) ys = messages-append xs ys
messages-append (message m p ∷ xs) ys = omega (arith, messages-append xs ys)
messages-append (truncated m p ∷ xs) ys = omega (arith, messages-append xs ys)
messages-append (no_params m ∷ xs) ys = omega (arith, messages-append xs ys)

floods-append : (xs ys : List LogLine) → floods (xs ++ ys) ≡ floods xs + floods ys
floods-append [] ys = omega arith
floods-append (summary m n ∷ xs) ys = floods-append xs ys
floods-append (flood m n ∷ xs) ys = omega (arith, floods-append xs ys)
floods-append (message m p ∷ xs) ys = floods-append xs ys
floods-append (truncated m p ∷ xs) ys = floods-append xs ys
floods-append (no_params m ∷ xs) ys = floods-append xs ys

abbrev pub one_if : Bool → ℕ
one_if true = 1
one_if false = 0

-- What some lines and two states of a bucket have to do with each other when `calls` calls lie
-- between them, all in the bucket's window.
record Counts (cfg : Config) (calls : ℕ) (b : Bucket) (lines : List LogLine) (after : Bucket)
    : Type 0 where
  pub window : after.window_start ≡ b.window_start
  pub emitted : after.emitted ≡ b.emitted + messages lines
  pub suppressed : after.suppressed + messages lines ≡ b.suppressed + calls
  pub flooded : one_if after.suppress_msg ≡ one_if b.suppress_msg + floods lines
  pub bounded : b.emitted ≤ cfg.burst_per_key → after.emitted ≤ cfg.burst_per_key

flood-counts :
    (cfg : Config) (method : String) (told : Bool) (need : Bool)
    → need ≡ (not told && ltb 0 cfg.burst_per_key)
    → (messages (if need then flood method cfg.burst_per_key ∷ [] else []) ≡ 0)
      × (one_if (told || need)
          ≡ one_if told + floods (if need then flood method cfg.burst_per_key ∷ [] else []))
flood-counts cfg method true true e = absurd (ground arith)
flood-counts cfg method true false e = (refl, refl)
flood-counts cfg method false true e = (refl, refl)
flood-counts cfg method false false e = (refl, refl)

limited-false : (cfg : Config) (b : Bucket) → limited cfg b ≡ false → b.emitted < cfg.burst_per_key
limited-false cfg b h = ground arith

admit-Counts :
    (cfg : Config) (method : String) (params : Bytes) (b : Bucket)
    → Counts cfg 1 b (admit cfg method params b).1 (admit cfg method params b).0
unfolding admit
admit-Counts cfg method params b = elim (Bool-cases (limited cfg b)) [
  | inl full ↦
      let (silent, told) = flood-counts cfg method b.suppress_msg (need_flood cfg b) refl in
      rw full (record {
        window = refl;
        emitted = omega (arith, silent);
        suppressed = omega (arith, silent);
        flooded = told;
        bounded = λ h. h;
      })
  | inr room ↦
      let (one, quiet) = message_line-counts cfg method params in
      let below = limited-false cfg b room in
      rw room (record {
        window = refl;
        emitted = omega (arith, one);
        suppressed = omega (arith, one);
        flooded = omega (arith, quiet);
        bounded = λ h. omega (arith, below);
      })
]

Counts-append :
    (cfg : Config) (m : ℕ) (a b c : Bucket) (xs ys : List LogLine)
    → Counts cfg 1 a xs b
    → Counts cfg m b ys c
    → Counts cfg (suc m) a (xs ++ ys) c
Counts-append cfg m a b c xs ys p q = record {
  window = q.window ∙ p.window;
  emitted = omega (arith, p.emitted, q.emitted, messages-append xs ys);
  suppressed = omega (arith, p.suppressed, q.suppressed, messages-append xs ys);
  flooded = omega (arith, p.flooded, q.flooded, floods-append xs ys);
  bounded = λ h. q.bounded (p.bounded h);
}

-- The calls fall into the window that began at `start`.
abbrev pub InWindow : Config → ℕ → List (ℕ × Bytes) → Type 0
InWindow cfg start calls = All (λ c. c.0 - start < cfg.window) calls

log_in_bucket-window :
    (cfg : Config) (now : ℕ) (method : String) (params : Bytes) (b : Bucket)
    → now - b.window_start < cfg.window
    → log_in_bucket cfg now method params b ≡ admit cfg method params b
unfolding log_in_bucket
log_in_bucket-window cfg now method params b h =
    let stays : rolls_over cfg now b ≡ false =
      ground (arith, leb-false (now - b.window_start) cfg.window h) in
    rw stays refl

log_all-Counts :
    (cfg : Config) (method : String) (calls : List (ℕ × Bytes)) (b : Bucket)
    → InWindow cfg b.window_start calls
    → Counts cfg (length calls) b (log_all cfg method calls b).1 (log_all cfg method calls b).0
unfolding log_all
log_all-Counts cfg method [] b h = record {
  window = refl;
  emitted = omega arith;
  suppressed = omega arith;
  flooded = omega arith;
  bounded = λ h. h;
}
log_all-Counts cfg method ((now, params) ∷ calls) b (h, hs) =
    let one = admit-Counts cfg method params b in
    let next = (admit cfg method params b).0 in
    let rest = log_all-Counts cfg method calls next (rw one.window hs) in
    rw (log_in_bucket-window cfg now method params b h) (
      Counts-append cfg (length calls) b next (log_all cfg method calls next).0
        (admit cfg method params b).1 (log_all cfg method calls next).1 one rest)

-- Calls that fall into the window of a new bucket: at most the burst of them is logged, each of the
-- others is counted as suppressed, and the flood is noted at most once.
pub log_all-burst :
    (cfg : Config) (method : String) (calls : List (ℕ × Bytes)) (start : ℕ)
    → InWindow cfg start calls
    → (messages (log_all cfg method calls (new_bucket start)).1 ≤ cfg.burst_per_key)
      × ((log_all cfg method calls (new_bucket start)).0.suppressed
            + messages (log_all cfg method calls (new_bucket start)).1
          ≡ length calls)
      × (floods (log_all cfg method calls (new_bucket start)).1 ≤ 1)
log_all-burst cfg method calls start h =
    let c = log_all-Counts cfg method calls (new_bucket start) h in
    (
      omega (arith, c.bounded (omega arith), c.emitted),
      omega (arith, c.suppressed),
      flood_once (log_all cfg method calls (new_bucket start)).0.suppress_msg _ c.flooded,
    )
  where
    flood_once : (told : Bool) (n : ℕ) → one_if told ≡ 0 + n → n ≤ 1
    flood_once true n e = omega arith
    flood_once false n e = omega arith
