-- ===== src/Query/Algebra.antt =====
-- query/algebrize.go, its data: the algebraic queries that the translator reads. An `any` that may
-- be nil is an `Option`.
use litelog.Prelude.{ℕ, Bytes, Bool, Option, List, text, if◌then◌else◌, ◌==◌, ◌||◌}
use litelog.Types.{GoValue}
use litelog.Query.Ast.{Pattern}

-- `TypedColumn`, on the seven value types and 0 for none.
unfoldable pub typed_column : ℕ → Bytes
typed_column vtype =
    if vtype == 1 || vtype == 5 || vtype == 4 || vtype == 7
    then text "v_int"
    else if vtype == 2
    then text "v_text"
    else if vtype == 3
    then text "v_float"
    else text ""

-- The index of a table, or -1, the mark of an input variable.
pub data TableRef : Type 0 where
  table_input : TableRef
  table_at : ℕ → TableRef

pub record FindMapping : Type 0 where
  pub variable : Bytes
  pub table : TableRef
  pub column : Bytes
  pub value_type : ℕ
  pub aggregate : Bytes
  pub agg_arg : Bytes

pub record TableBinding : Type 0 where
  pub alias : Bytes
  pub table : Bytes
  pub attr_id : ℕ
  pub attr_ident : Bytes
  pub value_type : ℕ
  pub e_bound : Option GoValue
  pub v_bound : Option GoValue
  pub tx_bound : Option GoValue
  pub pattern : Pattern
  pub index_hint : Bytes

pub record JoinCondition : Type 0 where
  pub variable : Bytes
  pub left_table : TableRef
  pub left_col : Bytes
  pub right_table : TableRef
  pub right_col : Bytes

pub record FilterArg : Type 0 where
  pub variable : Bytes
  pub table : TableRef
  pub column : Bytes
  pub constant : Option GoValue
  pub value_type : ℕ

pub record Filter : Type 0 where
  pub fn : Bytes
  pub args : List FilterArg
  pub binding : Option FilterArg

-- A parameter is an `any`, so that nil is `none`.
pub record RawFilter : Type 0 where
  pub sql : Bytes
  pub params : List (Option GoValue)

pub record OrderMapping : Type 0 where
  pub variable : Bytes
  pub table : TableRef
  pub column : Bytes
  pub desc : Bool

mutual
  -- The fields `Find`, `Tables`, `Joins`, `Filters`, `RawFilters`, `NotClauses`, `OrClauses`, `OrderBy`
  -- and `HasAggregates`, in this order.
  pub data AlgebraicQuery : Type 0 where
    algebraic :
        List FindMapping
        → List TableBinding
        → List JoinCondition
        → List Filter
        → List RawFilter
        → Queries
        → Alternatives
        → List OrderMapping
        → Bool
        → AlgebraicQuery

  -- The inner queries of `NotClauses`, or the branches of an `AlgebraicOr`.
  pub data Queries : Type 0 where
    no_queries : Queries
    query : AlgebraicQuery → Queries → Queries

  -- `[]AlgebraicOr`
  pub data Alternatives : Type 0 where
    no_alternatives : Alternatives
    alternative : Queries → Alternatives → Alternatives
