-- ===== src/Edn/Node.antt =====
-- edn/node.go: the syntax tree, with the accessors that the query parser reads it by.
use litelog.Prelude.{ℕ, suc, Bytes, Bool, false, [], ◌∷◌, ◌==◌, if◌then◌else◌}

pub data NodeType : Type 0 where
  node_nil node_bool node_int node_float node_string node_symbol node_keyword : NodeType
  node_list node_vector node_map node_set : NodeType

infixr 5 ◌▸◌
mutual
  -- The fields `Type`, `Value`, `IntVal`, `FloatVal`, `Children`, `Line` and `Col`, in this order.
  -- The two numbers are bit patterns of 64 bits.
  pub data Node : Type 0 where
    node : NodeType → Bytes → ℕ → ℕ → Nodes → ℕ → ℕ → Node

  -- `[]Node`
  pub data Nodes : Type 0 where
    no_nodes : Nodes
    ◌▸◌ : Node → Nodes → Nodes

-- `len`
abbrev pub count : Nodes → ℕ
count no_nodes = 0
count (n ▸ ns) = suc (count ns)

abbrev pub type_of : Node → NodeType
type_of (node type value int_val float_val children line col) = type

abbrev pub children_of : Node → Nodes
children_of (node type value int_val float_val children line col) = children

-- strings.TrimPrefix(s, ":")
abbrev trim_colon : Bytes → Bytes
trim_colon [] = []
trim_colon (b ∷ s) = if b == b':' then s else b ∷ s

abbrev pub as_keyword : Node → Bytes
as_keyword (node node_keyword value _ _ _ _ _) = trim_colon value
as_keyword _ = []

abbrev pub as_symbol : Node → Bytes
as_symbol (node node_symbol value _ _ _ _ _) = value
as_symbol _ = []

abbrev pub as_int : Node → ℕ
as_int (node type value int_val float_val children line col) = int_val

abbrev pub as_string : Node → Bytes
as_string (node node_string value _ _ _ _ _) = value
as_string _ = []

abbrev pub is_variable : Node → Bool
is_variable (node node_symbol (b ∷ value) _ _ _ _ _) = b == b'?'
is_variable _ = false
