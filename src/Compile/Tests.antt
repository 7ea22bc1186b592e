-- ===== src/Compile/Tests.antt =====
-- query_api.go: `[:find ?e :in $ ?min :where [?e :user/age ?age] [(> ?age ?min)]]` as of transaction 7,
-- with the argument 21.
use litelog.Prelude.{
  Bytes, List, ◌≡◌, ◌≤◌, refl, text, true, false, [], ◌∷◌, none, some, length, bytes_eq,
}
use litelog.Result.{ok}
use litelog.Types.{int64, string}
use litelog.Temporal.{as_of}
use litelog.Query.Ast.{PatternElem, InputSpec}
use litelog.Query.Algebra.{
  typed_column, table_input, table_at, FindMapping, TableBinding, FilterArg, AlgebraicQuery,
  algebraic, no_queries, no_alternatives,
}
use litelog.Query.Translate.{
  translate, SqlQuery, translate_core, build_select, find_columns, table_of, nth_table,
  select_columns, column_of, to_upper, join, build_where, join_conditions, filter_conditions,
  build_filter, filter_refs, filter_text, is_builtin, raw_conditions, tables_conditions,
  table_conditions, not_conditions, build_from, from_entry, order_columns,
}
use litelog.Query.Translate.Marks.{marks, IsClean}
use litelog.Query.Translate.Inputs.{refers_to, own_refs, has_alternatives}
use litelog.Query.Translate.Statement.{IsCleanQuery, AreClean, AllClean}
use litelog.Compile.Inputs.{
  input_vars, bind_table, first_type, filter_value, bind_arg, bind_filters, bind_input, bind_inputs,
  bind_input_args,
}
use litelog.Compile.Inputs.Counts.{occurrences}
use litelog.Compile.Views.{
  on_history, not_retracted, view_filters, view_raw, all_view_filters, all_view_raw, apply_as_of,
}
use litelog.Compile.Params.{
  encode_bound, encode_tables, encode_constant, encode_args, encode_filters, encode_params,
}
use litelog.Compile.Whole.{compile_algebraic, is_as_of}
use litelog.Compile.Whole.Placeholders.{compile_algebraic-marks}
use litelog.Compile.Whole.Leftover.{compile_algebraic-refs}
use litelog.Compile.{encode_any, encode_untyped, type_of_number}

abbrev variable : Bytes → PatternElem
variable v = record { variable = v; constant = none; blank = false }

abbrev ages : TableBinding
ages = record {
  alias = text "d0";
  table = text "current_datoms";
  attr_id = 3;
  attr_ident = text ":user/age";
  value_type = 1;
  e_bound = none;
  v_bound = none;
  tx_bound = none;
  pattern = record {
    e = variable (text "?e");
    a = record { variable = []; constant = some (string (text ":user/age")); blank = false };
    v = variable (text "?age");
    tx = variable [];
  };
  index_hint = text "aevt";
}

abbrev age : FilterArg
age = record {
  variable = text "?age";
  table = table_at 0;
  column = text "v";
  constant = none;
  value_type = 1;
}

abbrev least : FilterArg
least = record {
  variable = text "?min";
  table = table_input;
  column = text "input";
  constant = none;
  value_type = 0;
}

abbrev entity : FindMapping
entity = record {
  variable = text "?e";
  table = table_at 0;
  column = text "e";
  value_type = 0;
  aggregate = [];
  agg_arg = [];
}

abbrev older : AlgebraicQuery
older =
    algebraic (entity ∷ []) (ages ∷ []) []
      (record { fn = text ">"; args = age ∷ least ∷ []; binding = none } ∷ []) [] no_queries
      no_alternatives [] false

abbrev specs : List InputSpec
specs =
    record { variable = text "$"; source = true }
    ∷ record { variable = text "?min"; source = false }
    ∷ []

abbrev older_sql : SqlQuery
older_sql = record {
  sql =
      text
        "SELECT DISTINCT d0.e\nFROM datoms AS d0\nWHERE d0.a = ? AND d0.v_int > ? AND d0.added = ? AND d0.tx <= ? AND NOT EXISTS (SELECT 1 FROM datoms AS d0_r WHERE d0_r.e = d0.e AND d0_r.a = d0.a AND d0_r.v = d0.v AND d0_r.added = 0 AND d0_r.tx <= ?)";
  params = some (int64 3) ∷ some (int64 21) ∷ some (int64 1) ∷ some (int64 7) ∷ some (int64 7) ∷ [];
}

compile-older :
    compile_algebraic (as_of 7) (text "datoms") specs (some (int64 21) ∷ []) older
    ≡ ok (older_sql, entity ∷ [])
unfolding compile_algebraic bind_input_args input_vars bind_inputs bind_input bind_table
    bind_filters bind_arg first_type filter_value refers_to encode_untyped encode_any type_of_number
    is_as_of apply_as_of on_history all_view_filters all_view_raw view_filters view_raw
    not_retracted encode_params encode_tables encode_bound encode_filters encode_args
    encode_constant translate translate_core build_select find_columns table_of nth_table
    select_columns column_of to_upper join build_where join_conditions filter_conditions
    build_filter filter_refs filter_text is_builtin raw_conditions tables_conditions
    table_conditions not_conditions build_from from_entry order_columns bytes_eq typed_column
compile-older = refl

older-IsClean : IsCleanQuery older
unfolding IsCleanQuery AreClean AllClean marks
older-IsClean = (
  ((refl, refl), tt),
  ((refl, refl, refl), tt),
  tt,
  ((refl, (refl, (refl, tt))), tt),
  tt,
  tt,
  tt,
  tt,
)

datoms-IsClean : IsClean (text "datoms")
unfolding marks
datoms-IsClean = refl

compile_algebraic-marks_example : marks older_sql.sql ≡ length older_sql.params
compile_algebraic-marks_example =
    compile_algebraic-marks (as_of 7) (text "datoms") specs (some (int64 21) ∷ []) older older_sql
      (entity ∷ []) datoms-IsClean older-IsClean compile-older

compile_algebraic-refs_example :
    own_refs (text "?min") older ≤ occurrences (text "?min") (input_vars specs)
unfolding has_alternatives
compile_algebraic-refs_example =
    compile_algebraic-refs (text "?min") (as_of 7) (text "datoms") specs (some (int64 21) ∷ [])
      older older_sql (entity ∷ []) refl refl compile-older
