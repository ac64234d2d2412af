-- ===== src/Utils/Clean/Elements.antt =====
-- A path that is made of names is what `path.Clean` leaves of it.
use mathlib.Core.List.{append_assoc}
use mcp_bsl_lsp_bridge.Prelude.{
  ℕ, Bool, true, false, List, [], ◌∷◌, ◌++◌, ◌≡◌, refl, sym, ◌∙◌, ap, inl, inr, ◌==◌, All, arith,
  Bool-cases,
}
use mcp_bsl_lsp_bridge.Prelude.Bytes.{Bytes}
use mcp_bsl_lsp_bridge.Utils.Clean.{
  slash, split, join, name, kind_of, walk, is_rooted, render, reverse_onto, clean,
}

abbrev pub backslash : ℕ
backslash = 92

-- No slash of either kind.
abbrev pub Plain : Bytes → Type 0
Plain = All (λ c. ((c == slash) ≡ false) × ((c == backslash) ≡ false))

-- An element that is not empty, not "." and not "..", and has no slash.
abbrev pub IsName : Bytes → Type 0
IsName element = (kind_of element ≡ name) × Plain element

split-cases : (s : Bytes) → (element : Bytes) × (rest : List Bytes) × (split s ≡ element ∷ rest)
unfolding split
split-cases [] = ([], [], refl)
split-cases (c ∷ s) =
    let (element, rest, e) = split-cases s in
    elim (Bool-cases (c == slash)) [
      | inl at ↦ ([], element ∷ rest, rw (e, split) (rw at refl))
      | inr off ↦ (c ∷ element, rest, rw (e, split) (rw off refl))
    ]

pub split-slash : (s : Bytes) → split (slash ∷ s) ≡ [] ∷ split s
unfolding split
split-slash s = let (element, rest, e) = split-cases s in rw (e, split) refl

split-Plain : (element : Bytes) → Plain element → split element ≡ element ∷ []
unfolding split
split-Plain [] h = refl
split-Plain (c ∷ element) ((off, _), h) = rw (split-Plain element h, split) (rw off refl)

pub split-append :
    (element s : Bytes) → Plain element → split (element ++ (slash ∷ s)) ≡ element ∷ split s
unfolding split
split-append [] s h = split-slash s
split-append (c ∷ element) s ((off, _), h) = rw (split-append element s h, split) (rw off refl)

pub split-join :
    (element : Bytes) (rest : List Bytes)
    → All IsName (element ∷ rest)
    → split (join (element ∷ rest)) ≡ element ∷ rest
unfolding join
split-join element [] (p, h) = split-Plain element p.1
split-join element (other ∷ rest) (p, h) =
    split-append element (join (other ∷ rest)) p.1 ∙ ap (◌∷◌ element) (split-join other rest h)

-- Names are kept in their order.
walk-names :
    (rooted : Bool) (kept elements : List Bytes)
    → All IsName elements
    → reverse_onto (walk rooted kept elements) [] ≡ reverse_onto kept elements
unfolding walk
walk-names rooted kept [] h = refl
walk-names rooted kept (element ∷ elements) (p, h) =
    rw (p.0, walk) (walk-names rooted (element ∷ kept) elements h)

is_rooted-name : (element s : Bytes) → IsName element → is_rooted (element ++ s) ≡ false
unfolding is_rooted kind_of
is_rooted-name [] s (k, h) = ground arith
is_rooted-name (c ∷ element) s (k, ((off, _), h)) = off

pub is_rooted-join :
    (element : Bytes) (rest : List Bytes)
    → All IsName (element ∷ rest)
    → is_rooted (join (element ∷ rest)) ≡ false
unfolding join is_rooted kind_of
is_rooted-join [] [] (p, h) = refl
is_rooted-join (c ∷ element) [] (p, h) = p.1.0.0
is_rooted-join element (other ∷ rest) (p, h) =
    is_rooted-name element (slash ∷ join (other ∷ rest)) p

pub clean-render :
    (rooted : Bool) (element : Bytes) (rest : List Bytes)
    → All IsName (element ∷ rest)
    → clean (render rooted (element ∷ rest)) ≡ render rooted (element ∷ rest)
unfolding clean render walk is_rooted kind_of
clean-render true element rest h =
    let parts = split-slash (join (element ∷ rest)) ∙ ap (◌∷◌ []) (split-join element rest h) in
    rw (parts, clean) (ap (render true) (walk-names true [] (element ∷ rest) h))
clean-render false element rest h =
    let flat = is_rooted-join element rest h in
    rw (flat, clean)
      (rw (split-join element rest h) (ap (render false) (walk-names false [] (element ∷ rest) h)))

-- The text of two lists of names after one another.
pub join-append :
    (element other : Bytes) (rest others : List Bytes)
    → join ((element ∷ rest) ++ (other ∷ others))
      ≡ join (element ∷ rest) ++ (slash ∷ join (other ∷ others))
unfolding join
join-append element other [] others = refl
join-append element other (next ∷ rest) others =
    ap (λ s. element ++ (slash ∷ s)) (join-append next other rest others)
    ∙ sym (append_assoc element (slash ∷ join (next ∷ rest)) (slash ∷ join (other ∷ others)))

pub render-append :
    (rooted : Bool) (element other : Bytes) (rest others : List Bytes)
    → render rooted ((element ∷ rest) ++ (other ∷ others))
      ≡ render rooted (element ∷ rest) ++ (slash ∷ join (other ∷ others))
unfolding render
render-append true element other rest others =
    ap (◌∷◌ slash) (join-append element other rest others)
render-append false element other rest others = join-append element other rest others
