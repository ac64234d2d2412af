-- ===== src/Tools/CallGraph.antt =====
-- mcpserver/tools/call_graph.go: what the goroutines of the call graph share, and the sections
-- under a lock. Where the source prints an identifier, the parts stand here, and `kind` is the
-- protocol's number, whose name the source prints.
pub mod Build
pub mod Threads
use mcp_bsl_lsp_bridge.Prelude.{
  ℕ, zero, suc, ◌+◌, String, Bool, true, false, ◌&&◌, ◌||◌, ◌==◌, Option, none, some, List, [], ◌∷◌,
  ◌++◌, if◌then◌else◌, ltb, leb, string_eq,
}
use mcp_bsl_lsp_bridge.Prelude.Bytes.{codes, contains}
use mcp_bsl_lsp_bridge.Prelude.Int.{ℤ, pos, negsuc, int_eq}

abbrev pub hard_limit_nodes : ℕ
hard_limit_nodes = 500

-- The optional arguments of the tool, `none` where the request has none.
unfoldable pub depth_limit : Option ℤ → ℤ
depth_limit none = pos 5
depth_limit (some n) = if int_eq.beq n (pos 0) then pos hard_limit_nodes else n

unfoldable pub node_limit : Option ℤ → ℤ
node_limit none = pos 100
node_limit (some (pos n)) = if n == 0 || ltb hard_limit_nodes n then pos hard_limit_nodes else pos n
node_limit (some (negsuc n)) = negsuc n

abbrev pub bsl_entry_points : List String
bsl_entry_points =
    "ПриЗаписи" ∷ "ПриПроведении" ∷ "ПриОтменеПроведения" ∷ "ПередЗаписью" ∷ "ПередУдалением"
    ∷ "ПриУстановкеНовогоНомера" ∷ "ПриКопировании" ∷ "ОбработкаЗаполнения"
    ∷ "ОбработкаПроверкиЗаполнения" ∷ "ПриСозданииНаСервере" ∷ "ПриОткрытии" ∷ "ПриЗакрытии"
    ∷ "ПередЗаписьюНаСервере" ∷ "ПриЗаписиНаСервере" ∷ "ПослеЗаписиНаСервере" ∷ "ПриЧтенииНаСервере"
    ∷ "ОбработкаОповещения" ∷ "ОбработкаНавигационнойСсылки" ∷ "ОбработкаКоманды" ∷ "ПриВыполнении"
    ∷ "ПриНачалеРаботыСистемы" ∷ "ПриЗавершенииРаботыСистемы" ∷ "ПередНачаломРаботыСистемы"
    ∷ "ПередЗавершениемРаботыСистемы" ∷ "ОбработчикРегламентногоЗадания"
    ∷ "ОбработкаВызоваHTTPСервиса" ∷ "ОбработкаВызоваWebСервиса" ∷ "OnWrite" ∷ "Posting" ∷ "OnOpen"
    ∷ "OnCreateAtServer" ∷ "BeforeWrite" ∷ "OnClose" ∷ []

pub record CallHierarchyItem : Type 0 where
  pub name : String
  pub uri : String
  pub kind : ℕ
  pub line : ℕ
  pub character : ℕ

pub data Direction : Type 0 where
  up down root : Direction

pub data NodeId : Type 0 where
  position : String → ℕ → ℕ → NodeId

-- A node of the graph without its children.
pub record CallGraphNode : Type 0 where
  pub id : NodeId
  pub name : String
  pub kind : ℕ
  pub uri : String
  pub line : ℕ
  pub character : ℕ
  pub is_entry_point : Bool
  pub is_cycle : Bool
  pub depth : ℕ
  pub direction : Direction

mutual
  pub data Tree : Type 0 where
    node : CallGraphNode → Forest → Tree

  pub data Forest : Type 0 where
    leaf : Forest
    grow : Tree → Forest → Forest

pub data Reason : Type 0 where
  timeout : Reason
  max_nodes_reached : ℤ → Reason

abbrev pub Key : Type 0
Key = String × ℕ × ℕ

-- What the goroutines share, and the number of readings of the context so far.
pub record Builder : Type 0 where
  pub visited : List Key
  pub node_count : ℕ
  pub max_nodes : ℤ
  pub cycles_found : ℕ
  pub entry_points : List String
  pub max_depth_up : ℕ
  pub max_depth_down : ℕ
  pub truncated : Option Reason
  pub readings : ℕ

unfoldable pub matches_entry_point : List String → String → Bool
matches_entry_point [] name = false
matches_entry_point (entry ∷ entries) name =
    (string_eq.beq name entry || contains (codes name) (codes entry))
    || matches_entry_point entries name

unfoldable pub is_entry_point : String → Bool
is_entry_point name = matches_entry_point bsl_entry_points name

unfoldable pub has_entry : List String → String → Bool
has_entry [] name = false
has_entry (entry ∷ entries) name = string_eq.beq entry name || has_entry entries name

unfoldable pub add_entry_point : Builder → String → Builder
add_entry_point b name =
    if has_entry b.entry_points name
    then b
    else record b { entry_points = b.entry_points ++ (name ∷ []) }

unfoldable pub set_truncated : Builder → Reason → Builder
set_truncated b reason = elim b.truncated [
  | none ↦ record b { truncated = some reason }
  | some first ↦ b
]

abbrev pub node_key : CallHierarchyItem → Key
node_key item = (item.uri, item.line, item.character)

unfoldable pub is_visited : List Key → Key → Bool
is_visited [] key = false
is_visited ((uri, line, character) ∷ keys) key =
    (string_eq.beq uri key.0 && (line == key.1 && character == key.2)) || is_visited keys key

abbrev pub node_of : CallHierarchyItem → ℕ → Direction → CallGraphNode
node_of item depth direction = record {
  id = position item.uri item.line item.character;
  name = item.name;
  kind = item.kind;
  uri = item.uri;
  line = item.line;
  character = item.character;
  is_entry_point = false;
  is_cycle = false;
  depth = depth;
  direction = direction;
}

-- `itemToNode`
unfoldable pub item_to_node : Builder → CallHierarchyItem → ℕ → Direction → Builder × CallGraphNode
item_to_node b item depth direction =
    (record b { node_count = b.node_count + 1 }, node_of item depth direction)

-- `nodeCount >= maxNodes`
unfoldable pub is_full : Builder → Bool
is_full b = elim b.max_nodes [ pos n ↦ leb n b.node_count | negsuc n ↦ true ]

unfoldable pub raise_depth : Direction → ℕ → Builder → Builder
raise_depth up depth b = if ltb b.max_depth_up depth then record b { max_depth_up = depth } else b
raise_depth down depth b =
    if ltb b.max_depth_down depth then record b { max_depth_down = depth } else b
raise_depth root depth b = b

-- The entry points are looked for among the callers only.
unfoldable pub note_entry : Direction → String → Builder → Builder × Bool
note_entry up name b = if is_entry_point name then (add_entry_point b name, true) else (b, false)
note_entry down name b = (b, false)
note_entry root name b = if is_entry_point name then (add_entry_point b name, true) else (b, false)
