-- ===== src/Query/Parser.antt =====
-- query/parser.go: queries and rules out of EDN nodes. `parse_float` is the parameter of the EDN
-- parser.
pub mod Print
use litelog.Prelude.{
  ℕ, suc, ◌+◌, Bytes, Bool, true, false, ◌&&◌, ◌||◌, Option, some, none, List, [], ◌∷◌, ◌++◌, ◌==◌,
  leb, ltb, bytes_eq, text, if◌then◌else◌, bytes_key, insert, lookup,
}
use litelog.Result.{
  Result, ok, err, ◌>>=◌, not_a_vector, before_first_keyword, missing_find, bad_find, bad_aggregate,
  bad_clause, empty_clause, bad_pattern, empty_expression, bad_order_by, empty_rule, bad_rule_head,
}
use litelog.Types.{GoValue, int64, string, float64, bool}
use litelog.Edn.Node.{
  Node, node, Nodes, no_nodes, ◌▸◌, count, NodeType, node_nil, node_bool, node_int, node_float,
  node_string, node_symbol, node_keyword, node_list, node_vector, node_map, node_set, is_variable,
}
use litelog.Edn.Parser.{parse}
use litelog.Query.Ast.{
  FindElem, PatternElem, Clause, pattern_clause, expr_clause, not_clause, or_clause,
  rule_application, Clauses, no_clauses, ◌▹◌, Branches, no_branches, branch, InputSpec, OrderClause,
  ParsedQuery, Rule,
}

abbrev pub value_of : Node → Bytes
value_of (node type value int_val float_val children line col) = value

abbrev pub blank_elem : PatternElem
blank_elem = record { variable = []; constant = none; blank = true }

abbrev pub variable_elem : Bytes → PatternElem
variable_elem v = record { variable = v; constant = none; blank = false }

abbrev pub constant_elem : Option GoValue → PatternElem
constant_elem c = record { variable = []; constant = c; blank = false }

-- The cases of `nodeToPatternElem` by the type of the node.
abbrev pub constant_of : Node → Option GoValue
constant_of (node node_int value int_val float_val children line col) = some (int64 int_val)
constant_of (node node_float value int_val float_val children line col) = some (float64 float_val)
constant_of (node node_bool value int_val float_val children line col) =
    some (bool (bytes_eq value (text "true")))
constant_of (node node_nil value int_val float_val children line col) = none
constant_of (node type value int_val float_val children line col) = some (string value)

pub node_to_pattern_elem : Node → PatternElem
node_to_pattern_elem n =
    if bytes_eq (value_of n) (text "_")
    then blank_elem
    else if is_variable n
    then variable_elem (value_of n)
    else constant_elem (constant_of n)

pub pattern_elems : Nodes → List PatternElem
pattern_elems no_nodes = []
pattern_elems (n ▸ ns) = node_to_pattern_elem n ∷ pattern_elems ns

-- The data pattern of `parseVectorClause`: two to four elements.
pub data_pattern : Nodes → Result Clause
data_pattern (e ▸ a ▸ no_nodes) = ok (
    pattern_clause (node_to_pattern_elem e) (node_to_pattern_elem a) blank_elem
      (constant_elem none))
data_pattern (e ▸ a ▸ v ▸ no_nodes) = ok (
    pattern_clause (node_to_pattern_elem e) (node_to_pattern_elem a) (node_to_pattern_elem v)
      (constant_elem none))
data_pattern (e ▸ a ▸ v ▸ tx ▸ no_nodes) = ok (
    pattern_clause (node_to_pattern_elem e) (node_to_pattern_elem a) (node_to_pattern_elem v)
      (node_to_pattern_elem tx))
data_pattern _ = err bad_pattern

-- The binding of an expression clause, the second element if there is one.
abbrev binding_of : Nodes → PatternElem
binding_of no_nodes = constant_elem none
binding_of (n ▸ ns) = node_to_pattern_elem n

-- `parseExpressionClause`, from the elements of the list in front and the elements behind it.
pub parse_expression_clause : Nodes → Nodes → Result Clause
parse_expression_clause no_nodes rest = err empty_expression
parse_expression_clause (fn ▸ args) rest =
    ok (expr_clause (value_of fn) (pattern_elems args) (binding_of rest))

pub parse_vector_clause : Nodes → Result Clause
parse_vector_clause no_nodes = err empty_clause
parse_vector_clause (node node_list value int_val float_val children line col ▸ rest) =
    parse_expression_clause children rest
parse_vector_clause (n ▸ rest) = data_pattern (n ▸ rest)

-- Each alternative of an `or` is a branch of its own.
pub branches_of : Clauses → Branches
branches_of no_clauses = no_branches
branches_of (c ▹ cs) = branch (c ▹ no_clauses) (branches_of cs)

-- `parseListClause` by the value of its head, with the clauses and the arguments behind that.
pub list_clause : Bytes → Result Clauses → List PatternElem → Result Clause
list_clause head clauses args =
    if bytes_eq head (text "not")
    then (clauses >>= λ cs. ok (not_clause cs))
    else if bytes_eq head (text "or")
    then (clauses >>= λ cs. ok (or_clause (branches_of cs)))
    else ok (rule_application head args)

mutual
  pub parse_clause : Node → Result Clause
  parse_clause (node node_vector value int_val float_val children line col) =
      parse_vector_clause children
  parse_clause (node node_list value int_val float_val no_nodes line col) = err empty_clause
  parse_clause (node node_list value int_val float_val (head ▸ rest) line col) =
      list_clause (value_of head) (parse_where rest) (pattern_elems rest)
  parse_clause _ = err bad_clause

  -- `parseWhere`, and the same loop in `parseListClause` and `parseRuleNode`
  pub parse_where : Nodes → Result Clauses
  parse_where no_nodes = ok no_clauses
  parse_where (n ▸ ns) = parse_clause n >>= λ c. parse_where ns >>= λ cs. ok (c ▹ cs)

pub find_elem : Node → Result FindElem
find_elem (node node_symbol value int_val float_val children line col) =
    ok (record { variable = value; aggregate = []; agg_arg = [] })
find_elem (node node_list value int_val float_val (fn ▸ arg ▸ rest) line col) =
    ok (record { variable = []; aggregate = value_of fn; agg_arg = value_of arg })
find_elem (node node_list value int_val float_val children line col) = err bad_aggregate
find_elem _ = err bad_find

pub parse_find : Nodes → Result (List FindElem)
parse_find no_nodes = ok []
parse_find (n ▸ ns) = find_elem n >>= λ e. parse_find ns >>= λ es. ok (e ∷ es)

abbrev starts_with_dollar : Bytes → Bool
starts_with_dollar [] = false
starts_with_dollar (b ∷ s) = b == b'$'

pub parse_in : Nodes → List InputSpec
parse_in no_nodes = []
parse_in (n ▸ ns) =
    record { variable = value_of n; source = starts_with_dollar (value_of n) } ∷ parse_in ns

pub order_clause : Node → Result OrderClause
order_clause (node node_vector value int_val float_val (variable ▸ dir ▸ no_nodes) line col) =
    ok (record { variable = value_of variable; desc = bytes_eq (value_of dir) (text ":desc") })
order_clause (node node_symbol value int_val float_val children line col) =
    ok (record { variable = value; desc = false })
order_clause _ = err bad_order_by

pub parse_order_by : Nodes → Result (List OrderClause)
parse_order_by no_nodes = ok []
parse_order_by (n ▸ ns) = order_clause n >>= λ c. parse_order_by ns >>= λ cs. ok (c ∷ cs)

-- `parseRuleNode`, from the head's elements and the nodes of the body.
pub rule_of : Nodes → Nodes → Result Rule
rule_of no_nodes body = err bad_rule_head
rule_of (name ▸ args) body = parse_where body >>= λ clauses.
    ok (record { name = value_of name; head = pattern_elems args; body = clauses })

pub parse_rule_node : Node → Result Rule
parse_rule_node (node node_vector value int_val float_val no_nodes line col) = err empty_rule
parse_rule_node (node node_vector _ _ _ (node node_list _ _ _ head _ _ ▸ body) line col) =
    rule_of head body
parse_rule_node (node node_vector value int_val float_val (n ▸ body) line col) = err bad_rule_head
parse_rule_node _ = err not_a_vector

pub rule_nodes : Nodes → Result (List Rule)
rule_nodes no_nodes = ok []
rule_nodes (n ▸ ns) = parse_rule_node n >>= λ r. rule_nodes ns >>= λ rs. ok (r ∷ rs)

-- `append(nodes, n)`
pub snoc : Nodes → Node → Nodes
snoc no_nodes n = n ▸ no_nodes
snoc (m ▸ ms) n = m ▸ snoc ms n

-- Go's `sections` map, and an access to it: a missing key reads as the empty slice.
abbrev pub Sections : Type 0
Sections = List (Bytes × Nodes)

abbrev pub or_empty : Option Nodes → Nodes
or_empty none = no_nodes
or_empty (some ns) = ns

abbrev pub is_keyword : Node → Bool
is_keyword (node node_keyword value int_val float_val children line col) = true
is_keyword _ = false

-- The loop of `ParseQuery` over the elements, with the current keyword, which is empty at first.
pub split_sections : Bytes → Sections → Nodes → Result Sections
split_sections key sections no_nodes = ok sections
split_sections key sections (n ▸ ns) =
    if is_keyword n
    then split_sections (value_of n) (insert (value_of n) no_nodes sections) ns
    else if bytes_eq key []
    then err before_first_keyword
    else split_sections key (insert key (snoc (or_empty (lookup key sections)) n) sections) ns

-- A section that may be missing.
pub optional {ℓ} : {A : Type ℓ} → A → (Nodes → Result A) → Option Nodes → Result A
optional default parser none = ok default
optional default parser (some ns) = parser ns

pub find_section : Option Nodes → Result (List FindElem)
find_section none = err missing_find
find_section (some ns) = parse_find ns

-- `ParseQuery` behind the loop.
pub query_of : Sections → Result ParsedQuery
query_of sections = find_section (lookup (text ":find") sections) >>= λ elems.
    optional no_clauses parse_where (lookup (text ":where") sections) >>= λ clauses.
    optional [] (λ ns. ok (parse_in ns)) (lookup (text ":in") sections) >>= λ specs.
    optional [] parse_order_by (lookup (text ":order-by") sections) >>= λ orders.
    ok (record { find_elems = elems; where_clauses = clauses; in_specs = specs; order_by = orders })

pub query_node : Node → Result ParsedQuery
query_node (node node_vector value int_val float_val children line col) =
    split_sections [] [] children >>= query_of
query_node _ = err not_a_vector

pub rules_node : Node → Result (List Rule)
rules_node (node node_vector value int_val float_val children line col) = rule_nodes children
rules_node _ = err not_a_vector

module _ (parse_float : Bytes → Option ℕ) where
  pub parse_query : Bytes → Result ParsedQuery
  parse_query input = parse parse_float input >>= query_node

  pub parse_rule : Bytes → Result Rule
  parse_rule input = parse parse_float input >>= parse_rule_node

  pub parse_rules : Bytes → Result (List Rule)
  parse_rules input = parse parse_float input >>= rules_node
