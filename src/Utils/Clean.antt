-- ===== src/Utils/Clean.antt =====
-- What the program uses of Go's `path` on byte strings: `path.Clean` as its documentation
-- describes it, by the elements between the slashes, and `path.Join` of two elements.
pub mod Elements
use mcp_bsl_lsp_bridge.Prelude.{ℕ, Bool, true, false, List, [], ◌∷◌, ◌++◌, if◌then◌else◌, ◌==◌}
use mcp_bsl_lsp_bridge.Prelude.Bytes.{Bytes}

abbrev pub slash : ℕ
slash = b'/'

abbrev pub dot : ℕ
dot = b'.'

-- The texts between the slashes.
unfoldable pub split : Bytes → List Bytes
split [] = [] ∷ []
split (c ∷ s) = elim (split s) [
  | [] ↦ (c ∷ []) ∷ []
  | element ∷ rest ↦ if c == slash then [] ∷ (element ∷ rest) else (c ∷ element) ∷ rest
]

unfoldable pub join : List Bytes → Bytes
join [] = []
join (element ∷ []) = element
join (element ∷ other ∷ rest) = element ++ (slash ∷ join (other ∷ rest))

-- An element as `Clean` reads it.
pub data Kind : Type 0 where
  nothing up : Kind
  name : Kind

unfoldable pub kind_of : Bytes → Kind
kind_of [] = nothing
kind_of (c ∷ []) = if c == dot then nothing else name
kind_of (c ∷ d ∷ []) = if c == dot then (if d == dot then up else name) else name
kind_of (c ∷ d ∷ e ∷ s) = name

-- The effect of ".." on the elements kept so far, the last one first: it removes a name; where
-- none is left it stays in a relative path and is dropped at the root.
unfoldable pub go_up : Bool → List Bytes → List Bytes
go_up rooted [] = if rooted then [] else (dot ∷ dot ∷ []) ∷ []
go_up rooted (last ∷ kept) = elim (kind_of last) [
  | up ↦ (dot ∷ dot ∷ []) ∷ last ∷ kept
  | nothing ↦ kept
  | name ↦ kept
]

unfoldable pub walk : Bool → List Bytes → List Bytes → List Bytes
walk rooted kept [] = kept
walk rooted kept (element ∷ rest) = elim (kind_of element) [
  | nothing ↦ walk rooted kept rest
  | up ↦ walk rooted (go_up rooted kept) rest
  | name ↦ walk rooted (element ∷ kept) rest
]

unfoldable pub is_rooted : Bytes → Bool
is_rooted [] = false
is_rooted (c ∷ s) = c == slash

-- The text of a cleaned path.
unfoldable pub render : Bool → List Bytes → Bytes
render true elements = slash ∷ join elements
render false [] = dot ∷ []
render false (element ∷ rest) = join (element ∷ rest)

abbrev pub reverse_onto : List Bytes → List Bytes → List Bytes
reverse_onto [] elements = elements
reverse_onto (last ∷ kept) elements = reverse_onto kept (last ∷ elements)

-- `path.Clean`
unfoldable pub clean : Bytes → Bytes
clean p = render (is_rooted p) (reverse_onto (walk (is_rooted p) [] (split p)) [])

-- `path.Join(a, b)`
unfoldable pub join_path : Bytes → Bytes → Bytes
join_path [] [] = []
join_path [] (d ∷ b) = clean (d ∷ b)
join_path (c ∷ a) [] = clean (c ∷ a)
join_path (c ∷ a) (d ∷ b) = clean ((c ∷ a) ++ (slash ∷ d ∷ b))
