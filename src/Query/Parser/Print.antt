-- ===== src/Query/Parser/Print.antt =====
-- query/parser.go: the written form of where clauses.
use litelog.Prelude.{
  ℕ, Bytes, Bool, true, false, some, none, List, [], ◌∷◌, ◌≡◌, refl, bytes_eq, text, ◌∙◌,
}
use litelog.Result.{ok}
use litelog.Types.{int64, string, float64, bool}
use litelog.Edn.Node.{
  Node, node, Nodes, no_nodes, ◌▸◌, NodeType, node_nil, node_bool, node_int, node_float,
  node_string, node_symbol, node_keyword, node_list, is_variable, node_vector,
}
use litelog.Query.Ast.{
  PatternElem, Clause, pattern_clause, expr_clause, not_clause, or_clause, rule_application,
  Clauses, no_clauses, ◌▹◌,
}
use litelog.Query.Parser.{
  blank_elem, variable_elem, constant_elem, node_to_pattern_elem, pattern_elems, data_pattern,
  parse_expression_clause, parse_vector_clause, branches_of, list_clause, parse_clause, parse_where,
}

abbrev leaf : NodeType → Bytes → Node
leaf type value = node type value 0 0 no_nodes 0 0

abbrev symbol : Bytes → Node
symbol value = leaf node_symbol value

abbrev form : NodeType → Nodes → Node
form type children = node type [] 0 0 children 0 0

-- The elements that a clause can have: a blank, a variable, or a constant. An atom that is a constant
-- has any text but an underscore, which the parser takes for a blank, also in a string; a plain symbol
-- is one that is no variable.
pub data Elem : Type 0 where
  blank : Elem
  variable : Bytes → Elem
  nil : Elem
  keyword : (s : Bytes) → bytes_eq s (text "_") ≡ false → Elem
  plain : (s : Bytes) → bytes_eq s (text "_") ≡ false → is_variable (symbol s) ≡ false → Elem
  integer : (s : Bytes) → ℕ → bytes_eq s (text "_") ≡ false → Elem
  float : (s : Bytes) → ℕ → bytes_eq s (text "_") ≡ false → Elem
  boolean : Bool → Elem
  quoted : (s : Bytes) → bytes_eq s (text "_") ≡ false → Elem

-- The element as the parser represents it.
pub elem_of : Elem → PatternElem
elem_of blank = blank_elem
elem_of (variable v) = variable_elem (b'?' ∷ v)
elem_of nil = constant_elem none
elem_of (keyword s h) = constant_elem (some (string s))
elem_of (plain s h k) = constant_elem (some (string s))
elem_of (integer s i h) = constant_elem (some (int64 i))
elem_of (float s f h) = constant_elem (some (float64 f))
elem_of (boolean b) = constant_elem (some (bool b))
elem_of (quoted s h) = constant_elem (some (string s))

-- The node of an element.
pub print_elem : Elem → Node
print_elem blank = symbol (text "_")
print_elem (variable v) = symbol (b'?' ∷ v)
print_elem nil = leaf node_nil (text "nil")
print_elem (keyword s h) = leaf node_keyword s
print_elem (plain s h k) = symbol s
print_elem (integer s i h) = node node_int s i 0 no_nodes 0 0
print_elem (float s f h) = node node_float s 0 f no_nodes 0 0
print_elem (boolean true) = leaf node_bool (text "true")
print_elem (boolean false) = leaf node_bool (text "false")
print_elem (quoted s h) = leaf node_string s

pub node_to_pattern_elem-print_elem : (e : Elem) → node_to_pattern_elem (print_elem e) ≡ elem_of e
unfolding node_to_pattern_elem print_elem elem_of bytes_eq
node_to_pattern_elem-print_elem blank = refl
node_to_pattern_elem-print_elem (variable v) = refl
node_to_pattern_elem-print_elem nil = refl
node_to_pattern_elem-print_elem (keyword s h) = rw h refl
node_to_pattern_elem-print_elem (plain s h k) = rw (h, k) refl
node_to_pattern_elem-print_elem (integer s i h) = rw h refl
node_to_pattern_elem-print_elem (float s f h) = rw h refl
node_to_pattern_elem-print_elem (boolean true) = refl
node_to_pattern_elem-print_elem (boolean false) = refl
node_to_pattern_elem-print_elem (quoted s h) = rw h refl

elems_of : List Elem → List PatternElem
elems_of [] = []
elems_of (e ∷ es) = elem_of e ∷ elems_of es

print_elems : List Elem → Nodes
print_elems [] = no_nodes
print_elems (e ∷ es) = print_elem e ▸ print_elems es

pattern_elems-print_elems : (es : List Elem) → pattern_elems (print_elems es) ≡ elems_of es
unfolding pattern_elems print_elems elems_of
pattern_elems-print_elems [] = refl
pattern_elems-print_elems (e ∷ es) =
    rw (node_to_pattern_elem-print_elem e, pattern_elems-print_elems es) refl

-- The written forms of clauses: data patterns of two, three and four
-- elements, expressions without and with a binding, negations, alternatives and rule applications.
mutual
  pub data Written : Type 0 where
    pattern_of_two : (e a : Elem) → Written
    pattern_of_three : (e a v : Elem) → Written
    pattern_of_four : (e a v tx : Elem) → Written
    predicate : (fn : Bytes) (args : List Elem) → Written
    binding : (fn : Bytes) (args : List Elem) (result : Elem) → Written
    negation : Writtens → Written
    alternatives : Writtens → Written
    application :
        (name : Bytes) (args : List Elem)
        → bytes_eq name (text "not") ≡ false
        → bytes_eq name (text "or") ≡ false
        → Written

  pub data Writtens : Type 0 where
    nothing : Writtens
    also : Written → Writtens → Writtens

-- The clause that each stands for.
mutual
  pub clause_of : Written → Clause
  clause_of (pattern_of_two e a) =
      pattern_clause (elem_of e) (elem_of a) blank_elem (constant_elem none)
  clause_of (pattern_of_three e a v) =
      pattern_clause (elem_of e) (elem_of a) (elem_of v) (constant_elem none)
  clause_of (pattern_of_four e a v tx) =
      pattern_clause (elem_of e) (elem_of a) (elem_of v) (elem_of tx)
  clause_of (predicate fn args) = expr_clause fn (elems_of args) (constant_elem none)
  clause_of (binding fn args result) = expr_clause fn (elems_of args) (elem_of result)
  clause_of (negation ws) = not_clause (clauses_of ws)
  clause_of (alternatives ws) = or_clause (branches_of (clauses_of ws))
  clause_of (application name args _ _) = rule_application name (elems_of args)

  pub clauses_of : Writtens → Clauses
  clauses_of nothing = no_clauses
  clauses_of (also w ws) = clause_of w ▹ clauses_of ws

-- The node of each.
mutual
  pub print_clause : Written → Node
  print_clause (pattern_of_two e a) = form node_vector (print_elem e ▸ print_elem a ▸ no_nodes)
  print_clause (pattern_of_three e a v) =
      form node_vector (print_elem e ▸ print_elem a ▸ print_elem v ▸ no_nodes)
  print_clause (pattern_of_four e a v tx) =
      form node_vector (print_elem e ▸ print_elem a ▸ print_elem v ▸ print_elem tx ▸ no_nodes)
  print_clause (predicate fn args) =
      form node_vector (form node_list (symbol fn ▸ print_elems args) ▸ no_nodes)
  print_clause (binding fn args result) =
      form node_vector
        (form node_list (symbol fn ▸ print_elems args) ▸ print_elem result ▸ no_nodes)
  print_clause (negation ws) = form node_list (symbol (text "not") ▸ print_where ws)
  print_clause (alternatives ws) = form node_list (symbol (text "or") ▸ print_where ws)
  print_clause (application name args _ _) = form node_list (symbol name ▸ print_elems args)

  pub print_where : Writtens → Nodes
  print_where nothing = no_nodes
  print_where (also w ws) = print_clause w ▸ print_where ws

-- An element in front makes a vector a data pattern.
vector_clause-print_elem :
    (e : Elem) (rest : Nodes)
    → parse_vector_clause (print_elem e ▸ rest) ≡ data_pattern (print_elem e ▸ rest)
unfolding parse_vector_clause print_elem
vector_clause-print_elem blank rest = refl
vector_clause-print_elem (variable v) rest = refl
vector_clause-print_elem nil rest = refl
vector_clause-print_elem (keyword s h) rest = refl
vector_clause-print_elem (plain s h k) rest = refl
vector_clause-print_elem (integer s i h) rest = refl
vector_clause-print_elem (float s f h) rest = refl
vector_clause-print_elem (boolean true) rest = refl
vector_clause-print_elem (boolean false) rest = refl
vector_clause-print_elem (quoted s h) rest = refl

mutual
  unfolding parse_clause parse_where print_clause print_where clause_of clauses_of data_pattern
      parse_expression_clause parse_vector_clause list_clause bytes_eq

  reads : (w : Written) → parse_clause (print_clause w) ≡ ok (clause_of w)
  reads (pattern_of_two e a) =
      vector_clause-print_elem e _
      ∙ rw (node_to_pattern_elem-print_elem e, node_to_pattern_elem-print_elem a) refl
  reads (pattern_of_three e a v) =
      vector_clause-print_elem e _
      ∙ rw
          (
            node_to_pattern_elem-print_elem e,
            node_to_pattern_elem-print_elem a,
            node_to_pattern_elem-print_elem v,
          )
          refl
  reads (pattern_of_four e a v tx) =
      vector_clause-print_elem e _
      ∙ rw
          (
            node_to_pattern_elem-print_elem e,
            node_to_pattern_elem-print_elem a,
            node_to_pattern_elem-print_elem v,
            node_to_pattern_elem-print_elem tx,
          )
          refl
  reads (predicate fn args) = rw (pattern_elems-print_elems args) refl
  reads (binding fn args result) =
      rw (pattern_elems-print_elems args, node_to_pattern_elem-print_elem result) refl
  reads (negation ws) = rw (reads_all ws) refl
  reads (alternatives ws) = rw (reads_all ws) refl
  reads (application name args not_not not_or) =
      rw (not_not, not_or, pattern_elems-print_elems args) refl

  reads_all : (ws : Writtens) → parse_where (print_where ws) ≡ ok (clauses_of ws)
  reads_all nothing = refl
  reads_all (also w ws) = rw (reads w, reads_all ws) refl

-- A clause in any of the written forms reads as the clause that it stands for, to any depth of `not`
-- and `or`: a data pattern of two to four elements, an expression of any arguments without or with a
-- binding, a negation, an alternative, and the application of a rule of another name. The elements are
-- blanks, variables, keywords, plain symbols, numbers, Booleans, nil and strings, but for a text that
-- is just an underscore.
pub parse_clause-print_clause : (w : Written) → parse_clause (print_clause w) ≡ ok (clause_of w)
parse_clause-print_clause w = reads w

-- The same for a whole where section, whose clauses come in order and without loss.
pub parse_where-print_where : (ws : Writtens) → parse_where (print_where ws) ≡ ok (clauses_of ws)
parse_where-print_where ws = reads_all ws
