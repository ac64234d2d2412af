-- ===== src/Bridge/Warmup/Single.antt =====
-- No two warm-ups run at once.
use mcp_bsl_lsp_bridge.Prelude.{
  ℕ, zero, suc, ◌+◌, ◌-◌, ◌*◌, ◌≤◌, Bool, true, false, ◌||◌, Option, none, some, List, [], ◌∷◌, ◌≡◌,
  refl, sym, ◌∙◌, arith, ltb, Bool-cases, inl, inr, some-injective, Option-cases, ltb-le,
}
use mcp_bsl_lsp_bridge.Prelude.Bytes.{Bytes}
use mcp_bsl_lsp_bridge.Bridge.Warmup.{
  Warmup, new_warmup, within, second, launch, start_warmup, sync_warmup, finish_warmup, AutoConnect,
  start_auto_connect,
}

pub data Event : Type 0 where
  start : ℕ → Event
  sync : ℕ → Event
  finish : ℕ → Option Bytes → Event

-- The bridge and the number of warm-ups that are under way.
pub record Work : Type 0 where
  pub warmup : Warmup
  pub jobs : ℕ

abbrev pub one_if : Bool → ℕ
one_if true = 1
one_if false = 0

abbrev pub launched : Work → Warmup × Bool → Work
launched w r = record { warmup = r.0; jobs = w.jobs + one_if r.1 }

abbrev pub ended : ℕ → Option Bytes → Warmup → ℕ → Option Work
ended now err w zero = none
ended now err w (suc jobs) = some (record { warmup = finish_warmup now err w; jobs = jobs })

-- One call; a warm-up that is not under way cannot end.
unfoldable pub step : Work → Event → Option Work
unfolding start_warmup sync_warmup
step w (start now) = some (launched w (start_warmup now w.warmup))
step w (sync now) = some (launched w (sync_warmup now w.warmup))
step w (finish now err) = ended now err w.warmup w.jobs

unfoldable pub run : Work → List Event → Option Work
unfolding step
run w [] = some w
run w (e ∷ events) = elim (step w e) [ none ↦ none | some next ↦ run next events ]

-- The flag tells whether one is under way.
abbrev pub IsSingle : Work → Type 0
IsSingle w = w.jobs ≡ one_if w.warmup.running

module _ (w : Work) (h : IsSingle w) where
  idle : (w.warmup.done || w.warmup.running) ≡ false → w.warmup.running ≡ false
  idle b = ground arith

  launch-IsSingle :
      (now : ℕ) → w.warmup.running ≡ false → IsSingle (launched w (launch now w.warmup, true))
  launch-IsSingle now r = let none : w.jobs ≡ 0 = rw r at h in omega arith

  sync-IsSingle : (now : ℕ) → IsSingle (launched w (sync_warmup now w.warmup))
  unfolding sync_warmup
  sync-IsSingle now = elim (Bool-cases (w.warmup.done || w.warmup.running)) [
    | inl b ↦ rw b (omega (arith, h))
    | inr b ↦ rw b (launch-IsSingle now (idle b))
  ]

  start-IsSingle : (now : ℕ) → IsSingle (launched w (start_warmup now w.warmup))
  unfolding start_warmup
  start-IsSingle now = elim (Bool-cases (within (10 * second) now w.warmup.last_attempt)) [
    | inl t ↦ rw t (omega (arith, h))
    | inr t ↦ rw t (elim (Bool-cases (w.warmup.done || w.warmup.running)) [
      | inl b ↦ rw b (omega (arith, h))
      | inr b ↦ rw b (launch-IsSingle now (idle b))
    ])
  ]

finish-running :
    (w : Warmup) (now : ℕ) (err : Option Bytes) → (finish_warmup now err w).running ≡ false
unfolding finish_warmup
finish-running w now none = refl
finish-running w now (some x) = refl

one_if-suc : (running : Bool) (jobs : ℕ) → suc jobs ≡ one_if running → jobs ≡ 0
one_if-suc true jobs q = omega (arith, q)
one_if-suc false jobs q = absurd (omega (arith, q))

ended-IsSingle :
    (w : Work) (now : ℕ) (err : Option Bytes) (jobs : ℕ) (next : Work)
    → IsSingle w
    → w.jobs ≡ jobs
    → ended now err w.warmup jobs ≡ some next
    → IsSingle next
ended-IsSingle w now err zero next h j e = absurd (ground arith)
ended-IsSingle w now err (suc jobs) next h j e =
    rw (sym (some-injective e))
      (rw (finish-running w.warmup now err) (one_if-suc w.warmup.running jobs (sym j ∙ h)))

step-IsSingle :
    (w : Work) (e : Event) (next : Work) → IsSingle w → step w e ≡ some next → IsSingle next
unfolding step
step-IsSingle w (start now) next h e = rw (sym (some-injective e)) (start-IsSingle w h now)
step-IsSingle w (sync now) next h e = rw (sym (some-injective e)) (sync-IsSingle w h now)
step-IsSingle w (finish now err) next h e = ended-IsSingle w now err w.jobs next h refl e

run-IsSingle :
    (w : Work) (events : List Event) (last : Work)
    → IsSingle w
    → run w events ≡ some last
    → IsSingle last
unfolding run
run-IsSingle w [] last h r = rw (sym (some-injective r)) h
run-IsSingle w (e ∷ events) last h r = elim (Option-cases (step w e)) [
  | inl n ↦ let q : none ≡ some last = rw (n, run) at r in absurd (ground arith)
  | inr (next, n) ↦ run-IsSingle next events last (step-IsSingle w e next h n) (rw (n, run) at r)
]

one_if-le : (b : Bool) → one_if b ≤ 1
one_if-le true = omega arith
one_if-le false = omega arith

-- Whatever the order of background starts, synchronous starts and ends, at most one warm-up is
-- under way, and the flag `warmupRunning` is set exactly while one is.
pub run-single :
    (events : List Event) (w : Work)
    → run (record { warmup = new_warmup; jobs = 0 }) events ≡ some w
    → (w.jobs ≤ 1) × (w.jobs ≡ one_if w.warmup.running)
run-single events w r =
    let h = run-IsSingle (record { warmup = new_warmup; jobs = 0 }) events w refl r in
    (rw h (one_if-le w.warmup.running), h)

-- Two connections that the throttle lets through one after the other are five seconds apart, where
-- the clock does not go back.
pub start_auto_connect-throttled :
    (a : AutoConnect) (first later : ℕ)
    → first ≤ later
    → (start_auto_connect first a).1 ≡ true
    → (start_auto_connect later (start_auto_connect first a).0).1 ≡ true
    → first + 5 * second ≤ later
unfolding start_auto_connect
start_auto_connect-throttled a first later c h k =
    elim (Bool-cases (within (5 * second) first a.last_attempt)) [
      | inl t ↦ let q : false ≡ true = rw t at h in absurd (ground arith)
      | inr t ↦ elim (Bool-cases (ltb (later - first) (5 * second))) [
        | inl short ↦ let q : false ≡ true = rw short at (rw t at k) in absurd (ground arith)
        | inr long ↦ omega (arith, ltb-le (later - first) (5 * second) long)
      ]
    ]
