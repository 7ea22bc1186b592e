-- ===== src/Query/Ast.antt =====
-- query/ast.go: the parsed queries. A slice of clauses inside a clause is `Clauses`, and a slice of
-- such slices `Branches`.
use litelog.Prelude.{Bytes, Bool, Option, List}
use litelog.Types.{GoValue}

pub record FindElem : Type 0 where
  pub variable : Bytes
  pub aggregate : Bytes
  pub agg_arg : Bytes

-- `Constant` is an `any`: `none` is nil.
pub record PatternElem : Type 0 where
  pub variable : Bytes
  pub constant : Option GoValue
  pub blank : Bool

-- A data pattern. The clause `pattern_clause` has its four elements as its own.
pub record Pattern : Type 0 where
  pub e : PatternElem
  pub a : PatternElem
  pub v : PatternElem
  pub tx : PatternElem

infixr 5 ◌▹◌
mutual
  pub data Clause : Type 0 where
    pattern_clause : (e a v tx : PatternElem) → Clause
    expr_clause : (fn : Bytes) (args : List PatternElem) (binding : PatternElem) → Clause
    not_clause : Clauses → Clause
    or_clause : Branches → Clause
    rule_application : (name : Bytes) (args : List PatternElem) → Clause

  pub data Clauses : Type 0 where
    no_clauses : Clauses
    ◌▹◌ : Clause → Clauses → Clauses

  pub data Branches : Type 0 where
    no_branches : Branches
    branch : Clauses → Branches → Branches

pub record InputSpec : Type 0 where
  pub variable : Bytes
  pub source : Bool

pub record OrderClause : Type 0 where
  pub variable : Bytes
  pub desc : Bool

pub record ParsedQuery : Type 0 where
  pub find_elems : List FindElem
  pub where_clauses : Clauses
  pub in_specs : List InputSpec
  pub order_by : List OrderClause

pub record Rule : Type 0 where
  pub name : Bytes
  pub head : List PatternElem
  pub body : Clauses
