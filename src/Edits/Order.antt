-- ===== src/Edits/Order.antt =====
-- The sort of the edits.
use mcp_bsl_lsp_bridge.Prelude.{
  ℕ, zero, suc, ◌+◌, ◌-◌, ◌≤◌, Bool, true, false, List, [], ◌∷◌, ◌≡◌, refl, ap, arith,
  if◌then◌else◌, length, All, Bool-cases, inl, inr,
}
use mcp_bsl_lsp_bridge.Edits.{TextEdit, starts_before, exchange, sort_rounds, sort_edits}

-- The first edit does not start before the second.
abbrev pub NotBefore : TextEdit → TextEdit → Type 0
NotBefore a b = starts_before a b ≡ false

-- No edit starts before one that stands behind it.
abbrev pub Descending : List TextEdit → Type 0
Descending [] = Unit
Descending (e ∷ edits) = All (NotBefore e) edits × Descending edits

abbrev one_if : Bool → ℕ
one_if true = 1
one_if false = 0

-- How many edits pass a test.
abbrev pub count : (TextEdit → Bool) → List TextEdit → ℕ
count p [] = 0
count p (e ∷ edits) = one_if (p e) + count p edits

NotBefore-trans : (a b c : TextEdit) → NotBefore a b → NotBefore b c → NotBefore a c
unfolding starts_before
NotBefore-trans a b c h k = ground arith

NotBefore-swap : (a b : TextEdit) → starts_before a b ≡ true → NotBefore b a
unfolding starts_before
NotBefore-swap a b h = ground arith

NotBefore-refl : (a : TextEdit) → NotBefore a a
unfolding starts_before
NotBefore-refl a = ground arith

module _ (current other : TextEdit) where
  abbrev later : TextEdit
  later = if starts_before current other then other else current

  abbrev earlier : TextEdit
  earlier = if starts_before current other then current else other

  later-NotBefore : NotBefore later earlier × NotBefore later current
  later-NotBefore = elim (Bool-cases (starts_before current other)) [
    | inl h ↦ rw h (NotBefore-swap current other h, NotBefore-swap current other h)
    | inr h ↦ rw h (h, NotBefore-refl current)
  ]

  both : (P : TextEdit → Type 0) → P current → P other → P later × P earlier
  both P p q = elim (Bool-cases (starts_before current other)) [
    | inl h ↦ rw h (q, p)
    | inr h ↦ rw h (p, q)
  ]

  count-both :
      (p : TextEdit → Bool)
      → one_if (p later) + one_if (p earlier) ≡ one_if (p current) + one_if (p other)
  count-both p = elim (Bool-cases (starts_before current other)) [
    | inl h ↦ rw h (omega arith)
    | inr h ↦ rw h refl
  ]

exchange-All :
    (P : TextEdit → Type 0) (current : TextEdit) (edits : List TextEdit)
    → P current
    → All P edits
    → P (exchange current edits).0 × All P (exchange current edits).1
unfolding exchange
exchange-All P current [] p h = (p, tt)
exchange-All P current (other ∷ edits) p (q, h) =
    let (l, e) = both current other P p q in
    let (f, rest) = exchange-All P (later current other) edits l h in (f, (e, rest))

exchange-first :
    (current : TextEdit) (edits : List TextEdit)
    → NotBefore (exchange current edits).0 current
      × All (NotBefore (exchange current edits).0) (exchange current edits).1
unfolding exchange
exchange-first current [] = (NotBefore-refl current, tt)
exchange-first current (other ∷ edits) =
    let (f, rest) = exchange-first (later current other) edits in
    let (e, c) = later-NotBefore current other in
    let first = (exchange (later current other) edits).0 in
    (
      NotBefore-trans first (later current other) current f c,
      (NotBefore-trans first (later current other) (earlier current other) f e, rest),
    )

exchange-count :
    (p : TextEdit → Bool) (current : TextEdit) (edits : List TextEdit)
    → one_if (p (exchange current edits).0) + count p (exchange current edits).1
      ≡ one_if (p current) + count p edits
unfolding exchange
exchange-count p current [] = refl
exchange-count p current (other ∷ edits) =
    omega (arith, exchange-count p (later current other) edits, count-both current other p)

exchange-length :
    (current : TextEdit) (edits : List TextEdit) → length (exchange current edits).1 ≡ length edits
unfolding exchange
exchange-length current [] = refl
exchange-length current (other ∷ edits) = ap suc (exchange-length (later current other) edits)

sort_rounds-All :
    (P : TextEdit → Type 0) (n : ℕ) (edits : List TextEdit)
    → All P edits
    → All P (sort_rounds n edits)
unfolding sort_rounds
sort_rounds-All P zero edits h = h
sort_rounds-All P (suc n) [] h = tt
sort_rounds-All P (suc n) (e ∷ edits) (p, h) =
    let (f, rest) = exchange-All P e edits p h in (f, sort_rounds-All P n (exchange e edits).1 rest)

sort_rounds-Descending :
    (n : ℕ) (edits : List TextEdit) → length edits ≤ suc n → Descending (sort_rounds n edits)
unfolding sort_rounds
sort_rounds-Descending zero [] h = tt
sort_rounds-Descending zero (e ∷ []) h = (tt, tt)
sort_rounds-Descending zero (e ∷ d ∷ edits) h = absurd (omega arith)
sort_rounds-Descending (suc n) [] h = tt
sort_rounds-Descending (suc n) (e ∷ edits) h =
    let rest = (exchange e edits).1 in
    let (self, all) = exchange-first e edits in
    (
      sort_rounds-All (NotBefore (exchange e edits).0) n rest all,
      sort_rounds-Descending n rest (omega (arith, exchange-length e edits)),
    )

sort_rounds-count :
    (p : TextEdit → Bool) (n : ℕ) (edits : List TextEdit)
    → count p (sort_rounds n edits) ≡ count p edits
unfolding sort_rounds
sort_rounds-count p zero edits = refl
sort_rounds-count p (suc n) [] = refl
sort_rounds-count p (suc n) (e ∷ edits) =
    omega (arith, sort_rounds-count p n (exchange e edits).1, exchange-count p e edits)

-- The sorted edits are those that were given, each as often, and none starts before one that stands
-- behind it.
pub sort_edits-Descending :
    (edits : List TextEdit)
    → Descending (sort_edits edits)
      × ((p : TextEdit → Bool) → count p (sort_edits edits) ≡ count p edits)
unfolding sort_edits
sort_edits-Descending edits = (
  sort_rounds-Descending (length edits - 1) edits (omega arith),
  λ p. sort_rounds-count p (length edits - 1) edits,
)
