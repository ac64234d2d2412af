-- ===== src/Utils/PathMap/Roots.antt =====
-- Paths that are made of names below a root.
use mcp_bsl_lsp_bridge.Prelude.{
  ℕ, Bool, true, false, some, List, [], ◌∷◌, ◌++◌, map, ◌≡◌, refl, ◌∙◌, ap, ◌==◌, All, All-append,
  All-imp, arith, ==_iff,
}
use mcp_bsl_lsp_bridge.Prelude.Bytes.{Bytes, has_prefix, trim_prefix}
use mcp_bsl_lsp_bridge.Utils.Clean.{slash, join, kind_of, render, clean, join_path}
use mcp_bsl_lsp_bridge.Utils.Clean.Elements.{backslash, Plain, IsName, clean-render, render-append}
use mcp_bsl_lsp_bridge.Utils.PathMap.{to_slash, normalize_path_separators, without_prefix, under}

Forward : Bytes → Type 0
Forward = All (λ c. (c == backslash) ≡ false)

Forward-Plain : (element : Bytes) → Plain element → Forward element
unfolding Forward
Forward-Plain = All-imp (λ c. ((c == slash) ≡ false) × ((c == backslash) ≡ false)) _ (λ c p. p.1)

Forward-join : (elements : List Bytes) → All IsName elements → Forward (join elements)
unfolding join Forward
Forward-join [] h = tt
Forward-join (element ∷ []) (p, h) = Forward-Plain element p.1
Forward-join (element ∷ other ∷ rest) (p, h) =
    All-append (λ c. (c == backslash) ≡ false) element (slash ∷ join (other ∷ rest))
      (Forward-Plain element p.1) (refl, Forward-join (other ∷ rest) h)

to_slash-Forward : (p : Bytes) → Forward p → map to_slash p ≡ p
unfolding to_slash Forward
to_slash-Forward [] h = refl
to_slash-Forward (c ∷ p) (q, h) = rw (to_slash-Forward p h) (rw q refl)

Forward-render :
    (rooted : Bool) (element : Bytes) (rest : List Bytes)
    → All IsName (element ∷ rest)
    → Forward (render rooted (element ∷ rest))
unfolding render Forward
Forward-render true element rest h = (refl, Forward-join (element ∷ rest) h)
Forward-render false element rest h = Forward-join (element ∷ rest) h

pub normalize-render :
    (rooted : Bool) (element : Bytes) (rest : List Bytes)
    → All IsName (element ∷ rest)
    → normalize_path_separators (render rooted (element ∷ rest)) ≡ render rooted (element ∷ rest)
unfolding normalize_path_separators
normalize-render rooted element rest h =
    rw (to_slash-Forward (render rooted (element ∷ rest)) (Forward-render rooted element rest h))
      (clean-render rooted element rest h)

-- The text is not empty.
pub join-cons :
    (element : Bytes) (rest : List Bytes)
    → IsName element
    → (c : ℕ) × (s : Bytes) × (join (element ∷ rest) ≡ c ∷ s)
unfolding join kind_of
join-cons [] rest p = absurd (ground arith)
join-cons (c ∷ element) [] p = (c, element, refl)
join-cons (c ∷ element) (other ∷ rest) p = (c, element ++ (slash ∷ join (other ∷ rest)), refl)

pub render-cons :
    (rooted : Bool) (element : Bytes) (rest : List Bytes)
    → IsName element
    → (c : ℕ) × (s : Bytes) × (render rooted (element ∷ rest) ≡ c ∷ s)
unfolding render
render-cons true element rest p = (slash, join (element ∷ rest), refl)
render-cons false element rest p = join-cons element rest p

join_path-cons :
    (a b : Bytes) (c d : ℕ) (s t : Bytes)
    → a ≡ c ∷ s
    → b ≡ d ∷ t
    → join_path a b ≡ clean (a ++ (slash ∷ b))
unfolding join_path
join_path-cons a b c d s t e e' = rw e (rw e' refl)

under-cons :
    (root relative : Bytes) (d : ℕ) (t : Bytes)
    → relative ≡ d ∷ t
    → under root relative ≡ clean (join_path root relative)
unfolding under
under-cons root relative d t e = rw e refl

-- The path below a root, where names lead on from it.
pub under-render :
    (rooted : Bool) (element r : Bytes) (rest rs : List Bytes)
    → All IsName (element ∷ rest)
    → All IsName (r ∷ rs)
    → under (render rooted (element ∷ rest)) (join (r ∷ rs))
      ≡ render rooted ((element ∷ rest) ++ (r ∷ rs))
under-render rooted element r rest rs h k =
    let (c, s, e) = render-cons rooted element rest h.0 in
    let (d, t, e') = join-cons r rs k.0 in
    let fixed =
      clean-render rooted element (rest ++ (r ∷ rs))
        (All-append IsName (element ∷ rest) (r ∷ rs) h k) in
    under-cons (render rooted (element ∷ rest)) (join (r ∷ rs)) d t e'
    ∙ (rw (join_path-cons (render rooted (element ∷ rest)) (join (r ∷ rs)) c d s t e e')
        (rw (← render-append rooted element r rest rs) (ap clean fixed ∙ fixed)))

pub has_prefix-append : (p s : Bytes) → has_prefix (p ++ s) p ≡ true
unfolding has_prefix
has_prefix-append [] s = refl
has_prefix-append (c ∷ p) s = rw ((==_iff c c).1 refl) (has_prefix-append p s)

trim_prefix-append : (p s : Bytes) → trim_prefix (p ++ s) p ≡ some s
unfolding trim_prefix
trim_prefix-append [] s = refl
trim_prefix-append (c ∷ p) s = rw ((==_iff c c).1 refl) (trim_prefix-append p s)

pub without_prefix-append : (p s : Bytes) → without_prefix (p ++ s) p ≡ s
unfolding without_prefix
without_prefix-append p s = rw (trim_prefix-append p s, without_prefix) refl

pub without_slash :
    (element : Bytes) → IsName element → without_prefix element (slash ∷ []) ≡ element
unfolding without_prefix trim_prefix
without_slash [] p = refl
without_slash (c ∷ element) (k, ((off, _), h)) = rw (off, trim_prefix, without_prefix) refl
