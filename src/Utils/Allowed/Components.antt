-- ===== src/Utils/Allowed/Components.antt =====
-- The test of a path against an allowed directory compares the names of the two.
use mathlib.Core.List.{append_assoc, append-nil}
use mcp_bsl_lsp_bridge.Prelude.{
  true, false, ◌||◌, ==_iff, List, [], ◌∷◌, ◌++◌, ◌≡◌, refl, sym, ◌∙◌, ap, ◌↔◌, inl, inr, All,
  arith, Bool-cases,
}
use mcp_bsl_lsp_bridge.Prelude.Bytes.{Bytes, has_prefix}
use mcp_bsl_lsp_bridge.Utils.Clean.{slash, split, join, is_rooted, render, clean, walk, kind_of}
use mcp_bsl_lsp_bridge.Utils.Clean.Elements.{
  IsName, clean-render, split-append, split-join, render-append, split-slash, is_rooted-join,
}
use mcp_bsl_lsp_bridge.Utils.PathMap.Roots.{has_prefix-append, join-cons}
use mcp_bsl_lsp_bridge.Utils.Allowed.{same, abs, is_within_allowed_directory}

pub same_iff : (a b : Bytes) → (same a b ≡ true) ↔ (a ≡ b)
unfolding same
same_iff [] [] = ground arith
same_iff [] (d ∷ b) = ground arith
same_iff (c ∷ a) [] = ground arith
same_iff (c ∷ a) (d ∷ b) = ground (arith, same_iff a b, ==_iff c d)

has_prefix-rest : (s p : Bytes) → has_prefix s p ≡ true → (t : Bytes) × (s ≡ p ++ t)
unfolding has_prefix
has_prefix-rest s [] h = (s, refl)
has_prefix-rest [] (p ∷ prefix) h = absurd (ground arith)
has_prefix-rest (c ∷ s) (p ∷ prefix) h =
    let first : c ≡ p = ground (arith, ==_iff c p) in
    let (t, e) = has_prefix-rest s prefix (ground arith) in (t, rw first (ap (◌∷◌ p) e))

-- The elements of a path of names and of what follows it.
split-join_append :
    (b : Bytes) (bs : List Bytes) (t : Bytes)
    → All IsName (b ∷ bs)
    → split (join (b ∷ bs) ++ (slash ∷ t)) ≡ (b ∷ bs) ++ split t
unfolding join
split-join_append b [] t (p, h) = split-append b t p.1
split-join_append b (other ∷ bs) t (p, h) =
    rw (append_assoc b (slash ∷ join (other ∷ bs)) (slash ∷ t)) (
      split-append b (join (other ∷ bs) ++ (slash ∷ t)) p.1
      ∙ ap (◌∷◌ b) (split-join_append other bs t h))

split-render :
    (e : Bytes) (es : List Bytes)
    → All IsName (e ∷ es)
    → split (render true (e ∷ es)) ≡ [] ∷ (e ∷ es)
unfolding render
split-render e es h = split-slash (join (e ∷ es)) ∙ ap (◌∷◌ []) (split-join e es h)

split-render_append :
    (b : Bytes) (bs : List Bytes) (t : Bytes)
    → All IsName (b ∷ bs)
    → split (render true (b ∷ bs) ++ (slash ∷ t)) ≡ [] ∷ ((b ∷ bs) ++ split t)
unfolding render
split-render_append b bs t h =
    split-slash (join (b ∷ bs) ++ (slash ∷ t)) ∙ ap (◌∷◌ []) (split-join_append b bs t h)

rest_of : List Bytes → List Bytes
rest_of [] = []
rest_of (e ∷ es) = es

module _ (cwd : Bytes) (b : Bytes) (bs : List Bytes) (base : All IsName (b ∷ bs)) where
  abs-render :
      (e : Bytes) (es : List Bytes)
      → All IsName (e ∷ es)
      → clean (abs cwd (render true (e ∷ es))) ≡ render true (e ∷ es)
  unfolding abs render is_rooted
  abs-render e es h = ap clean (clean-render true e es h) ∙ clean-render true e es h

  within-test :
      (e : Bytes) (es : List Bytes)
      → All IsName (e ∷ es)
      → is_within_allowed_directory cwd (render true (e ∷ es)) (render true (b ∷ bs)) ≡ (
          same (render true (e ∷ es)) (render true (b ∷ bs))
          || has_prefix (render true (e ∷ es)) (render true (b ∷ bs) ++ (slash ∷ [])))
  unfolding is_within_allowed_directory
  within-test e es names = rw (abs-render b bs base) (rw (abs-render e es names) refl)

  begins :
      (e : Bytes) (es : List Bytes) (t : Bytes)
      → All IsName (e ∷ es)
      → render true (e ∷ es) ≡ render true (b ∷ bs) ++ (slash ∷ t)
      → e ∷ es ≡ (b ∷ bs) ++ split t
  unfolding rest_of
  begins e es t names h =
      ap rest_of (sym (split-render e es names) ∙ (ap split h ∙ split-render_append b bs t base))

  equals :
      (e : Bytes) (es : List Bytes)
      → All IsName (e ∷ es)
      → render true (e ∷ es) ≡ render true (b ∷ bs)
      → e ∷ es ≡ (b ∷ bs) ++ []
  unfolding rest_of
  equals e es names h =
      ap rest_of (sym (split-render e es names) ∙ (ap split h ∙ split-render b bs base))
      ∙ sym (append-nil (b ∷ bs))

  inside :
      (e : Bytes) (es rest : List Bytes)
      → e ∷ es ≡ (b ∷ bs) ++ rest
      → (same (render true (e ∷ es)) (render true (b ∷ bs))
          || has_prefix (render true (e ∷ es)) (render true (b ∷ bs) ++ (slash ∷ [])))
        ≡ true
  inside e es [] h =
      let path : render true (e ∷ es) ≡ render true (b ∷ bs) =
        ap (render true) (h ∙ append-nil (b ∷ bs)) in
      rw ((same_iff (render true (e ∷ es)) (render true (b ∷ bs))).1 path) refl
  inside e es (r ∷ rest) h =
      let path : render true (e ∷ es) ≡ (render true (b ∷ bs) ++ (slash ∷ [])) ++ join (r ∷ rest) =
        ap (render true) h
        ∙ (render-append true b r bs rest
            ∙ sym (append_assoc (render true (b ∷ bs)) (slash ∷ []) (join (r ∷ rest)))) in
      let after : has_prefix (render true (e ∷ es)) (render true (b ∷ bs) ++ (slash ∷ [])) ≡ true =
        rw path (has_prefix-append (render true (b ∷ bs) ++ (slash ∷ [])) (join (r ∷ rest))) in
      ground (arith, after)

  -- A path of names is within a directory of names exactly where the names of the directory are the
  -- first names of the path.
  pub is_within_allowed_directory-components :
      (e : Bytes) (es : List Bytes)
      → All IsName (e ∷ es)
      → (is_within_allowed_directory cwd (render true (e ∷ es)) (render true (b ∷ bs)) ≡ true)
        ↔ ((rest : List Bytes) × (e ∷ es ≡ (b ∷ bs) ++ rest))
  is_within_allowed_directory-components e es names =
      let path = render true (e ∷ es) in
      let dir = render true (b ∷ bs) in
      let test = within-test e es names in
      (
        λ h. elim (Bool-cases (same path dir)) [
          | inl equal ↦ ([], equals e es names ((same_iff path dir).0 equal))
          | inr differs ↦
              let after : has_prefix path (dir ++ (slash ∷ [])) ≡ true = ground (arith, test) in
              let (t, parts) = has_prefix-rest path (dir ++ (slash ∷ [])) after in
              (split t, begins e es t names (parts ∙ append_assoc dir (slash ∷ []) t))
        ],
        λ (rest, names_rest). test ∙ inside e es rest names_rest,
      )

clean-root : (cwd : Bytes) → clean (abs cwd (slash ∷ [])) ≡ slash ∷ []
unfolding clean abs is_rooted split walk kind_of render join
clean-root cwd = refl

-- With the root as the allowed directory no path of names is within it: the prefix that is asked
-- for has two slashes.
pub is_within_allowed_directory-root :
    (cwd e : Bytes) (es : List Bytes)
    → All IsName (e ∷ es)
    → is_within_allowed_directory cwd (render true (e ∷ es)) (slash ∷ []) ≡ false
unfolding is_within_allowed_directory is_rooted render same has_prefix
is_within_allowed_directory-root cwd e es names =
    let (x, s, text) = join-cons e es names.0 in
    let flat : is_rooted (x ∷ s) ≡ false = rw text at (is_rooted-join e es names) in
    let path = abs-render cwd e es names e es names in
    rw (clean-root cwd, is_within_allowed_directory) (rw path (rw text (rw flat refl)))
