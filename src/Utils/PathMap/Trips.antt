-- ===== src/Utils/PathMap/Trips.antt =====
-- Paths below the mounted directory, to the container and back.
use mcp_bsl_lsp_bridge.Prelude.{
  ℕ, Bool, true, false, List, [], ◌∷◌, ◌++◌, ◌≡◌, refl, ◌∙◌, ap, ltb, length, length-append,
  take-length-append, drop-length-append, ltb-false, All, All-append, arith,
}
use mcp_bsl_lsp_bridge.Prelude.Bytes.{Bytes, has_prefix}
use mcp_bsl_lsp_bridge.Utils.Clean.{slash, join, render}
use mcp_bsl_lsp_bridge.Utils.Clean.Elements.{IsName, render-append}
use mcp_bsl_lsp_bridge.Utils.PathMap.{
  DockerPathMapper, Result, ok, file_scheme, normalize_path_separators, without_prefix, under,
  container_to_host, has_prefix_fold, map_path, host_to_container,
}
use mcp_bsl_lsp_bridge.Utils.PathMap.Roots.{
  normalize-render, render-cons, under-render, has_prefix-append, without_prefix-append,
  without_slash,
}

-- A clean path that begins with the host's root is mapped by what follows the root.
map_path-prefix :
    (equal_fold : Bytes → Bytes → Bool)
    → ((p : Bytes) → equal_fold p p ≡ true)
    → (m : DockerPathMapper) (p s : Bytes) → normalize_path_separators p ≡ m.host_root ++ s
    → map_path equal_fold m p ≡ ok (under m.container_root (without_prefix s (slash ∷ [])))
unfolding map_path has_prefix_fold
map_path-prefix equal_fold folds m p s e =
    let long : ltb (length (m.host_root ++ s)) (length m.host_root) ≡ false =
      ltb-false (length m.host_root) (length (m.host_root ++ s))
        (omega (arith, length-append {0} m.host_root s)) in
    rw (e, map_path)
      (rw (long, has_prefix_fold)
        (rw (take-length-append m.host_root s)
          (rw (folds m.host_root) (rw (drop-length-append m.host_root s) refl))))

-- Likewise for the container's root.
container_to_host-prefix :
    (m : DockerPathMapper)
    → m.enabled ≡ true
    → (c : ℕ) (p s : Bytes) → normalize_path_separators (c ∷ p) ≡ m.container_root ++ s
    → container_to_host m (c ∷ p) ≡ ok (under m.host_root (without_prefix s (slash ∷ [])))
unfolding container_to_host
container_to_host-prefix m on c p s e =
    rw (e, container_to_host)
      (rw on (
        rw (has_prefix-append m.container_root s)
          (rw (without_prefix-append m.container_root s) refl)))

host_to_container-path :
    (equal_fold : Bytes → Bytes → Bool) (file_uri_to_path : Bytes → Result Bytes)
    (m : DockerPathMapper) (p : Bytes) (c : ℕ) (s : Bytes)
    → p ≡ c ∷ s
    → m.enabled ≡ true
    → has_prefix p file_scheme ≡ false
    → host_to_container equal_fold file_uri_to_path m p ≡ map_path equal_fold m p
unfolding host_to_container
host_to_container-path equal_fold file_uri_to_path m p c s e on plain =
    let plain' : has_prefix (c ∷ s) file_scheme ≡ false = rw e at plain in
    rw e (rw (plain', host_to_container) (rw on refl))

module _ (equal_fold : Bytes → Bytes → Bool) (folds : (p : Bytes) → equal_fold p p ≡ true)
    (m : DockerPathMapper) (on : m.enabled ≡ true) (host_rooted : Bool) (h : Bytes)
    (hs : List Bytes) (host_names : All IsName (h ∷ hs))
    (host : m.host_root ≡ render host_rooted (h ∷ hs)) (c : Bytes) (cs : List Bytes)
    (container_names : All IsName (c ∷ cs))
    (container : m.container_root ≡ render true (c ∷ cs)) where
  map_path-below :
      (r : Bytes) (rs : List Bytes)
      → All IsName (r ∷ rs)
      → map_path equal_fold m (render host_rooted ((h ∷ hs) ++ (r ∷ rs)))
        ≡ ok (render true ((c ∷ cs) ++ (r ∷ rs)))
  map_path-below r rs names =
      let p = render host_rooted ((h ∷ hs) ++ (r ∷ rs)) in
      let clean_p : normalize_path_separators p ≡ m.host_root ++ (slash ∷ join (r ∷ rs)) =
        normalize-render host_rooted h (hs ++ (r ∷ rs))
          (All-append IsName (h ∷ hs) (r ∷ rs) host_names names)
        ∙ rw host (render-append host_rooted h r hs rs) in
      map_path-prefix equal_fold folds m p (slash ∷ join (r ∷ rs)) clean_p
      ∙ ap ok (
          rw (without_prefix-append (slash ∷ []) (join (r ∷ rs)))
            (rw container (under-render true c r cs rs container_names names)))

  container_to_host-below :
      (r : Bytes) (rs : List Bytes)
      → All IsName (r ∷ rs)
      → container_to_host m (render true ((c ∷ cs) ++ (r ∷ rs)))
        ≡ ok (render host_rooted ((h ∷ hs) ++ (r ∷ rs)))
  unfolding render
  container_to_host-below r rs names =
      let q = join ((c ∷ cs) ++ (r ∷ rs)) in
      let clean_q : normalize_path_separators (slash ∷ q)
          ≡ m.container_root ++ (slash ∷ join (r ∷ rs)) =
        normalize-render true c (cs ++ (r ∷ rs))
          (All-append IsName (c ∷ cs) (r ∷ rs) container_names names)
        ∙ rw container (render-append true c r cs rs) in
      container_to_host-prefix m on slash q (slash ∷ join (r ∷ rs)) clean_q
      ∙ ap ok (
          rw (without_prefix-append (slash ∷ []) (join (r ∷ rs)))
            (rw host (under-render host_rooted h r hs rs host_names names)))

  -- A path of names below the host's root is mapped to the same names below the container's root,
  -- and that path is mapped back to it. `equal_fold` holds of every text and itself, and the path
  -- is not a URI.
  pub host_to_container-round :
      (file_uri_to_path : Bytes → Result Bytes) (r : Bytes) (rs : List Bytes)
      → All IsName (r ∷ rs)
      → has_prefix (render host_rooted ((h ∷ hs) ++ (r ∷ rs))) file_scheme ≡ false
      → (host_to_container equal_fold file_uri_to_path m (render host_rooted ((h ∷ hs) ++ (r ∷ rs)))
          ≡ ok (render true ((c ∷ cs) ++ (r ∷ rs))))
        × (container_to_host m (render true ((c ∷ cs) ++ (r ∷ rs)))
            ≡ ok (render host_rooted ((h ∷ hs) ++ (r ∷ rs))))
  host_to_container-round file_uri_to_path r rs names plain =
      let (x, s, e) = render-cons host_rooted h (hs ++ (r ∷ rs)) host_names.0 in
      (
        host_to_container-path equal_fold file_uri_to_path m _ x s e on plain
            ∙ map_path-below r rs names,
        container_to_host-below r rs names,
      )

-- No slash has to follow the host's root: a path beside it whose text begins with that of the root,
-- and goes on with a name, is accepted and mapped below the container's root.
pub map_path-sibling :
    (equal_fold : Bytes → Bytes → Bool)
    → ((p : Bytes) → equal_fold p p ≡ true)
    → (m : DockerPathMapper) (rest : Bytes) (c : Bytes) (cs : List Bytes) → All IsName (c ∷ cs)
    → m.container_root ≡ render true (c ∷ cs)
    → IsName rest
    → normalize_path_separators (m.host_root ++ rest) ≡ m.host_root ++ rest
    → map_path equal_fold m (m.host_root ++ rest) ≡ ok (render true ((c ∷ cs) ++ (rest ∷ [])))
unfolding join
map_path-sibling equal_fold folds m rest c cs names container is_name clean_p =
    map_path-prefix equal_fold folds m (m.host_root ++ rest) rest clean_p
    ∙ ap ok (
        rw (without_slash rest is_name)
          (rw container (under-render true c rest cs [] names (is_name, tt))))
