-- ===== src/Query/Translate/Tests.antt =====
-- query/translate.go on a small query, and its theorems there.
use litelog.Prelude.{◌≡◌, refl, text, true, [], ◌∷◌, false, none, some, length, bytes_eq}
use litelog.Result.{ok}
use litelog.Types.{int64}
use litelog.Query.Ast.{Pattern, PatternElem}
use litelog.Query.Algebra.{
  typed_column, table_at, FindMapping, TableBinding, JoinCondition, Filter, AlgebraicQuery,
  algebraic, no_queries, query, no_alternatives,
}
use litelog.Query.Translate.{
  translate, SqlQuery, translate_core, build_select, find_columns, table_of, nth_table,
  select_columns, column_of, to_upper, join, build_where, join_conditions, filter_conditions,
  build_filter, filter_refs, filter_text, is_builtin, raw_conditions, tables_conditions,
  table_conditions, not_conditions, build_not_exists, not_joins, not_join, is_inner, build_from,
  from_entry, order_columns, resolve_join_col,
}
use litelog.Query.Translate.Marks.{marks, IsCleanTable}
use litelog.Query.Translate.Statement.{translate-marks, IsCleanQuery, AreClean, AllClean}

-- The translator does not read the patterns.
abbrev blank : PatternElem
blank = record { variable = []; constant = none; blank = true }

abbrev any_pattern : Pattern
any_pattern = record { e = blank; a = blank; v = blank; tx = blank }

-- `?e :user/age ?age`, with an integer attribute.
abbrev ages : TableBinding
ages = record {
  alias = text "d0";
  table = text "current_datoms";
  attr_id = 3;
  attr_ident = text ":user/age";
  value_type = 1;
  e_bound = none;
  v_bound = none;
  tx_bound = none;
  pattern = any_pattern;
  index_hint = [];
}

-- `?e :user/banned true`, as the inner query of a NOT.
abbrev banned : TableBinding
banned = record {
  alias = text "d0";
  table = text "current_datoms";
  attr_id = 4;
  attr_ident = text ":user/banned";
  value_type = 4;
  e_bound = none;
  v_bound = some (int64 1);
  tx_bound = none;
  pattern = any_pattern;
  index_hint = [];
}

abbrev same_entity : JoinCondition
same_entity = record {
  variable = text "?e";
  left_table = table_at 0;
  left_col = text "e";
  right_table = table_at 0;
  right_col = text "e";
}

abbrev not_banned : AlgebraicQuery
not_banned = algebraic [] (banned ∷ []) (same_entity ∷ []) [] [] no_queries no_alternatives [] false

-- `(> ?age 21)`
abbrev adult : Filter
adult = record {
  fn = text ">";
  args =
      record {
        variable = text "?age";
        table = table_at 0;
        column = text "v";
        constant = none;
        value_type = 1;
      }
      ∷ record {
        variable = [];
        table = table_at 0;
        column = [];
        constant = some (int64 21);
        value_type = 1;
      }
      ∷ [];
  binding = none;
}

abbrev entity : FindMapping
entity = record {
  variable = text "?e";
  table = table_at 0;
  column = text "e";
  value_type = 0;
  aggregate = [];
  agg_arg = [];
}

abbrev adults : AlgebraicQuery
adults =
    algebraic (entity ∷ []) (ages ∷ []) [] (adult ∷ []) [] (query not_banned no_queries)
      no_alternatives [] false

abbrev adults_sql : SqlQuery
adults_sql = record {
  sql =
      text
        "SELECT DISTINCT d0.e\nFROM current_datoms AS d0\nWHERE d0.a = ? AND d0.v_int > ? AND NOT EXISTS (SELECT 1 FROM current_datoms AS d0 WHERE d0.a = ? AND d0.v_int = ? AND d0.e = d0.e)";
  params = some (int64 3) ∷ some (int64 21) ∷ some (int64 4) ∷ some (int64 1) ∷ [];
}

-- The whole translation. The NOT compares a column with itself.
translate-adults : translate adults ≡ ok adults_sql
unfolding translate translate_core build_select find_columns table_of nth_table select_columns
    column_of to_upper join build_where join_conditions filter_conditions build_filter filter_refs
    filter_text is_builtin raw_conditions tables_conditions table_conditions not_conditions
    build_not_exists not_joins not_join is_inner build_from from_entry order_columns
    resolve_join_col bytes_eq typed_column
translate-adults = refl

adults-IsClean : IsCleanQuery adults
unfolding IsCleanQuery AreClean AllClean marks
adults-IsClean =
    let names : IsCleanTable ages = (refl, refl, refl) in
    let inner : IsCleanQuery not_banned =
      (tt, ((refl, refl, refl), tt), ((refl, refl), tt), tt, tt, tt, tt, tt) in
    (((refl, refl), tt), (names, tt), tt, ((refl, (refl, (refl, tt))), tt), tt, (inner, tt), tt, tt)

translate-marks_example : marks adults_sql.sql ≡ length adults_sql.params
translate-marks_example = translate-marks adults adults_sql adults-IsClean translate-adults
