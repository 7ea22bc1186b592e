-- ===== src/Query/Translate.antt =====
-- query/translate.go: the SQL text of an algebraic query, with the parameters of its placeholders.
pub mod Marks
pub mod Columns
pub mod Inputs
pub mod Selected
pub mod Statement
pub mod Tests
use litelog.Prelude.{
  ℕ, zero, suc, ◌+◌, ◌-◌, Bytes, Bool, true, false, not, ◌&&◌, ◌||◌, Option, some, none, List, [],
  ◌∷◌, ◌++◌, map, ◌==◌, leb, ltb, bytes_eq, text, if◌then◌else◌, length,
}
use litelog.Result.{Result, ok, err, ◌>>=◌, no_tables, empty_subquery, index_out_of_range}
use litelog.Types.{GoValue, int64}
use litelog.Query.Algebra.{
  typed_column, TableRef, table_input, table_at, FindMapping, TableBinding, JoinCondition,
  FilterArg, Filter, RawFilter, OrderMapping, AlgebraicQuery, algebraic, Queries, no_queries, query,
  Alternatives, no_alternatives, alternative,
}

-- strings.Join
unfoldable pub join : Bytes → List Bytes → Bytes
join sep [] = []
join sep (s ∷ []) = s
join sep (s ∷ t ∷ ss) = s ++ sep ++ join sep (t ∷ ss)

-- strings.ToUpper, on ASCII
unfoldable pub to_upper : Bytes → Bytes
to_upper [] = []
to_upper (b ∷ s) = (if leb b'a' b && leb b b'z' then b - 32 else b) ∷ to_upper s

-- `tables[i]`, whose panic is an error here.
unfoldable pub nth_table : ℕ → List TableBinding → Result TableBinding
nth_table i [] = err index_out_of_range
nth_table zero (tb ∷ tables) = ok tb
nth_table (suc i) (tb ∷ tables) = nth_table i tables

unfoldable pub table_of : TableRef → List TableBinding → Result TableBinding
table_of table_input tables = err index_out_of_range
table_of (table_at i) tables = nth_table i tables

-- Is this the empty string?
abbrev pub is_empty : Bytes → Bool
is_empty [] = true
is_empty (b ∷ s) = false

-- The typed column of a value, where its type has one, or else the column itself.
abbrev pub typed_or : Bytes → Bytes → Bytes
typed_or [] col = col
typed_or (b ∷ tc) col = b ∷ tc

pub resolve_join_col : Bytes → ℕ → Bytes
resolve_join_col col value_type =
    if bytes_eq col (text "v") then typed_or (typed_column value_type) col else col

-- The column of a find element or of a filter's variable: typed where it is a value of a known type.
unfoldable pub column_of : Bytes → ℕ → Bytes
column_of col value_type =
    if bytes_eq col (text "v") && not (value_type == 0)
    then typed_or (typed_column value_type) col
    else col

abbrev pub ref_of : Bytes → Bytes → Bytes
ref_of alias col = alias ++ text "." ++ col

-- The columns of one find element: a value comes with the type that it is decoded by.
unfoldable pub select_columns : Bytes → FindMapping → List Bytes
select_columns alias fm =
    let column = ref_of alias (column_of fm.column fm.value_type) in
    if not (is_empty fm.aggregate)
    then (to_upper fm.aggregate ++ text "(" ++ column ++ text ")") ∷ []
    else if bytes_eq fm.column (text "v")
    then column ∷ ref_of alias (text "v_type") ∷ []
    else column ∷ []

unfoldable pub find_columns : List TableBinding → List FindMapping → Result (List Bytes)
find_columns tables [] = ok []
find_columns tables (fm ∷ fms) = table_of fm.table tables >>= λ tb.
    find_columns tables fms >>= λ cols. ok (select_columns tb.alias fm ++ cols)

unfoldable pub build_select : List TableBinding → Bool → List FindMapping → Result Bytes
build_select tables has_aggregates fms = find_columns tables fms >>= λ cols.
    ok
      (text "SELECT " ++ (if has_aggregates then [] else text "DISTINCT ") ++ join (text ", ") cols)

unfoldable pub from_entry : TableBinding → Bytes
from_entry tb =
    let entry = tb.table ++ text " AS " ++ tb.alias in
    if is_empty tb.index_hint then entry else entry ++ text " INDEXED BY " ++ tb.index_hint

unfoldable pub build_from : List TableBinding → Bytes
build_from tables = text "FROM " ++ join (text ", ") (map from_entry tables)

-- Fragments of a WHERE with their parameters, in the order in which both are appended.
pub record Conditions : Type 0 where
  pub frags : List Bytes
  pub params : List (Option GoValue)

abbrev pub no_conditions : Conditions
no_conditions = record { frags = []; params = [] }

infixr 5 ◌<+>◌
abbrev pub ◌<+>◌ : Conditions → Conditions → Conditions
c <+> d = record { frags = c.frags ++ d.frags; params = c.params ++ d.params }

-- `col = ?`, where there is a value.
abbrev pub bound : Bytes → Option GoValue → Conditions
bound ref none = no_conditions
bound ref (some v) = record { frags = (ref ++ text " = ?") ∷ []; params = some v ∷ [] }

-- The conditions of one table: the same code stands in `buildWhere` and in `buildNotExists`.
unfoldable pub table_conditions : TableBinding → Conditions
table_conditions tb =
    bound (ref_of tb.alias (text "a")) (if tb.attr_id == 0 then none else some (int64 tb.attr_id))
    <+> bound (ref_of tb.alias (text "e")) tb.e_bound
    <+> bound (ref_of tb.alias (typed_or (typed_column tb.value_type) (text "v"))) tb.v_bound
    <+> bound (ref_of tb.alias (text "tx")) tb.tx_bound

unfoldable pub tables_conditions : List TableBinding → Conditions
tables_conditions [] = no_conditions
tables_conditions (tb ∷ tables) = table_conditions tb <+> tables_conditions tables

abbrev pub equals : Bytes → Bytes → Conditions
equals left right = record { frags = (left ++ text " = " ++ right) ∷ []; params = [] }

unfoldable pub join_conditions : List TableBinding → List JoinCondition → Result Conditions
join_conditions tables [] = ok no_conditions
join_conditions tables (jc ∷ jcs) = table_of jc.left_table tables >>= λ l.
    table_of jc.right_table tables >>= λ r. join_conditions tables jcs >>= λ rest. ok (
      equals (ref_of l.alias (resolve_join_col jc.left_col l.value_type))
        (ref_of r.alias (resolve_join_col jc.right_col r.value_type))
      <+> rest)

-- `filterOps`, whose operators are written as they are named.
unfoldable pub is_builtin : Bytes → Bool
is_builtin fn =
    bytes_eq fn (text ">")
    || bytes_eq fn (text "<")
    || bytes_eq fn (text ">=")
    || bytes_eq fn (text "<=")
    || bytes_eq fn (text "=")
    || bytes_eq fn (text "!=")

-- The operands of a filter, with the parameters of the constants among them.
unfoldable pub filter_refs : List TableBinding → List FilterArg → Result Conditions
filter_refs tables [] = ok no_conditions
filter_refs tables (arg ∷ args) =
    if is_empty arg.variable
    then (filter_refs tables args >>= λ rest.
        ok (record { frags = text "?" ∷ rest.frags; params = arg.constant ∷ rest.params }))
    else (table_of arg.table tables >>= λ tb. filter_refs tables args >>= λ rest. ok (record {
      frags = ref_of tb.alias (column_of arg.column arg.value_type) ∷ rest.frags;
      params = rest.params;
    }))

unfoldable pub filter_text : Bytes → List Bytes → Bytes
filter_text fn refs =
    if is_builtin fn
    then join (text " " ++ fn ++ text " ") refs
    else text "\"" ++ fn ++ text "\"(" ++ join (text ", ") refs ++ text ")"

unfoldable pub build_filter : List TableBinding → Filter → Result Conditions
build_filter tables f = filter_refs tables f.args >>= λ refs.
    ok (record { frags = filter_text f.fn refs.frags ∷ []; params = refs.params })

unfoldable pub filter_conditions : List TableBinding → List Filter → Result Conditions
filter_conditions tables [] = ok no_conditions
filter_conditions tables (f ∷ fs) =
    build_filter tables f >>= λ c. filter_conditions tables fs >>= λ rest. ok (c <+> rest)

unfoldable pub raw_conditions : List RawFilter → Conditions
raw_conditions [] = no_conditions
raw_conditions (rf ∷ rfs) =
    record { frags = rf.sql ∷ []; params = rf.params } <+> raw_conditions rfs

unfoldable pub build_where :
    List TableBinding → List JoinCondition → List Filter → List RawFilter → Result Conditions
build_where tables joins filters raw = join_conditions tables joins >>= λ j.
    filter_conditions tables filters >>= λ f.
    ok (tables_conditions tables <+> j <+> f <+> raw_conditions raw)

-- A join inside a NOT: the left table is taken for one of the inner query's wherever its index is
-- below their number, and for one of the outer query's else.
pub is_inner : TableRef → List TableBinding → Bool
is_inner table_input inner = true
is_inner (table_at i) inner = ltb i (length inner)

pub not_join : List TableBinding → List TableBinding → JoinCondition → Result Conditions
not_join outer inner jc =
    table_of jc.left_table (if is_inner jc.left_table inner then inner else outer) >>= λ l.
    table_of jc.right_table inner >>= λ r.
    ok (equals (ref_of l.alias jc.left_col) (ref_of r.alias jc.right_col))

pub not_joins : List TableBinding → List TableBinding → List JoinCondition → Result Conditions
not_joins outer inner [] = ok no_conditions
not_joins outer inner (jc ∷ jcs) =
    not_join outer inner jc >>= λ c. not_joins outer inner jcs >>= λ rest. ok (c <+> rest)

-- " WHERE " or "WHERE ", where there are fragments at all.
abbrev pub where_of : Bytes → List Bytes → Bytes
where_of keyword [] = []
where_of keyword (f ∷ fs) = keyword ++ join (text " AND ") (f ∷ fs)

abbrev pub inner_entry : TableBinding → Bytes
inner_entry tb = tb.table ++ text " AS " ++ tb.alias

pub build_not_exists : List TableBinding → AlgebraicQuery → Result Conditions
build_not_exists outer (algebraic _ [] _ _ _ _ _ _ _) = err empty_subquery
build_not_exists outer (algebraic _ (tb ∷ tables) joins filters _ _ _ _ _) =
    let inner = tb ∷ tables in
    not_joins outer inner joins >>= λ j. filter_conditions inner filters >>= λ f.
    let c = tables_conditions inner <+> j <+> f in
    ok (record {
      frags =
          (text "NOT EXISTS (SELECT 1 FROM "
            ++ join (text ", ") (map inner_entry inner)
            ++ where_of (text " WHERE ") c.frags
            ++ text ")")
          ∷ [];
      params = c.params;
    })

unfoldable pub not_conditions : List TableBinding → Queries → Result Conditions
not_conditions outer no_queries = ok no_conditions
not_conditions outer (query q qs) =
    build_not_exists outer q >>= λ c. not_conditions outer qs >>= λ rest. ok (c <+> rest)

pub group_columns : List TableBinding → List FindMapping → Result (List Bytes)
group_columns tables [] = ok []
group_columns tables (fm ∷ fms) =
    if is_empty fm.aggregate
    then (table_of fm.table tables >>= λ tb.
        group_columns tables fms >>= λ cols. ok (ref_of tb.alias fm.column ∷ cols))
    else group_columns tables fms

unfoldable pub order_columns : List TableBinding → List OrderMapping → Result (List Bytes)
order_columns tables [] = ok []
order_columns tables (om ∷ oms) = table_of om.table tables >>= λ tb.
    order_columns tables oms >>= λ cols. ok (
      (ref_of tb.alias om.column ++ text " " ++ (if om.desc then text "DESC" else text "ASC"))
      ∷ cols)

-- A part of the statement that may be missing: keyword and columns.
abbrev pub part : Bytes → Bytes → List Bytes → List Bytes
part keyword sep [] = []
part keyword sep (c ∷ cs) = (keyword ++ join sep (c ∷ cs)) ∷ []

pub record SqlQuery : Type 0 where
  pub sql : Bytes
  pub params : List (Option GoValue)

unfoldable pub translate_core :
    List FindMapping
    → List TableBinding
    → List JoinCondition
    → List Filter
    → List RawFilter
    → Queries
    → List OrderMapping
    → Bool
    → Result SqlQuery
translate_core fms tables joins filters raw nots orders has_aggregates =
    build_select tables has_aggregates fms >>= λ select.
    build_where tables joins filters raw >>= λ own. not_conditions tables nots >>= λ negated.
    (if has_aggregates then group_columns tables fms else ok []) >>= λ groups.
    order_columns tables orders >>= λ order.
    let c = own <+> negated in
    ok (record {
      sql = join (text "\n") (
          select
          ∷ build_from tables
          ∷ (part (text "WHERE ") (text " AND ") c.frags
              ++ part (text "GROUP BY ") (text ", ") groups
              ++ part (text "ORDER BY ") (text ", ") order));
      params = c.params;
    })

abbrev pub params_of : List SqlQuery → List (Option GoValue)
params_of [] = []
params_of (q ∷ qs) = q.params ++ params_of qs

abbrev pub sqls_of : List SqlQuery → List Bytes
sqls_of [] = []
sqls_of (q ∷ qs) = q.sql ∷ sqls_of qs

-- The UNION ALL of the branches of the first OR clause: that clause alone is translated.
pub union_all : List SqlQuery → SqlQuery
union_all qs = record { sql = join (text "\nUNION ALL\n") (sqls_of qs); params = params_of qs }

unfoldable mutual
  pub translate : AlgebraicQuery → Result SqlQuery
  translate (algebraic fms [] joins filters raw nots ors orders agg) = err no_tables
  translate (algebraic fms (tb ∷ tables) joins filters raw nots no_alternatives orders agg) =
      translate_core fms (tb ∷ tables) joins filters raw nots orders agg
  translate
        (algebraic fms (tb ∷ tables) joins filters raw nots (alternative branches ors) orders agg) =
      translate_branches branches >>= λ qs. ok (union_all qs)

  pub translate_branches : Queries → Result (List SqlQuery)
  translate_branches no_queries = ok []
  translate_branches (query q qs) =
      translate q >>= λ s. translate_branches qs >>= λ rest. ok (s ∷ rest)
