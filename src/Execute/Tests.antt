-- ===== src/Execute/Tests.antt =====
-- query_api.go: a row with the age 30, compared with and read.
use litelog.Prelude.{◌≡◌, refl, inl, inr, [], ◌∷◌, none, some, text, if◌then◌else◌, bytes_eq, arith}
use litelog.Result.{ok, err, ◌>>=◌, unsupported_param}
use litelog.Types.{int64, type_int}
use litelog.Values.{encode_int64, encode_value}
use litelog.Store.{CurrentRow}
use litelog.Transact.{bind_typed_columns}
use litelog.Query.Algebra.{typed_column, table_at, FindMapping}
use litelog.Query.Translate.{typed_or}
use litelog.Compile.{number_of, encode_untyped}
use litelog.Execute.{
  SqlValue, sql_null, sql_int, sql_float, sql_text, sql_blob, Cell, null_cell, bind_param, read_row,
}
use litelog.Execute.Rows.{column_value, Holds, IsCells}
use litelog.Execute.Binding.{is_time, bind_param-column_value}
use litelog.Execute.Reading.{
  Fits, Source, none_fit, also_fits, column_texts, row_cells, row_asked, select_all,
  read_row-select_columns,
}

abbrev pub thirty : CurrentRow
thirty = record {
  e = 1;
  a = 3;
  v = encode_int64 30;
  v_type = type_int;
  typed = bind_typed_columns (int64 30) type_int;
  tx = 7;
  valid_from = 0;
  valid_to = none;
}

pub thirty-Holds : Holds thirty (int64 30)
unfolding encode_value
thirty-Holds = record { in_range = omega arith; encoded = refl; typed = refl }

bind_param-column_value_example :
    (encode_untyped (some (int64 30)) (number_of type_int) >>= bind_param) ≡ (
      if is_time (int64 30)
      then err unsupported_param
      else ok (column_value (typed_or (typed_column (number_of type_int)) (text "v")) thirty))
bind_param-column_value_example = bind_param-column_value (int64 30) thirty thirty-Holds

-- SQLite's readings of values of their own type, and of no other.
abbrev cell_of : SqlValue → Cell
cell_of sql_null = null_cell
cell_of (sql_int n) = record null_cell { as_int = n }
cell_of (sql_float f) = record null_cell { as_float = f }
cell_of (sql_text s) = record null_cell { as_text = s }
cell_of (sql_blob bs) = record null_cell { as_blob = bs }

cell_of-IsCells : IsCells cell_of
cell_of-IsCells = record {
  int_as_int = λ n. refl;
  float_as_float = λ f. refl;
  null_as_float = refl;
  text_as_text = λ s. refl;
  blob_as_blob = λ bs. refl;
}

abbrev age : FindMapping
age = record {
  variable = text "?age";
  table = table_at 0;
  column = text "v";
  value_type = 1;
  aggregate = [];
  agg_arg = [];
}

abbrev entity : FindMapping
entity = record {
  variable = text "?e";
  table = table_at 0;
  column = text "e";
  value_type = 0;
  aggregate = [];
  agg_arg = [];
}

abbrev source : Source
source = record { alias = text "d0"; row = thirty; value = int64 30 }

age-Fits : Fits age thirty (int64 30)
unfolding number_of bytes_eq
age-Fits = record { holds = thirty-Holds; plain = refl; named = inl refl; typed = inr refl }

entity-Fits : Fits entity thirty (int64 30)
entity-Fits = record {
  holds = thirty-Holds;
  plain = refl;
  named = inr (inl refl);
  typed = inl refl;
}

read_row-select_columns_example :
    (select_all (age ∷ entity ∷ []) (source ∷ source ∷ [])
      ≡ column_texts (age ∷ entity ∷ []) (source ∷ source ∷ []))
    × (read_row (age ∷ entity ∷ []) (row_cells cell_of (age ∷ entity ∷ []) (source ∷ source ∷ []))
        ≡ ok (row_asked (age ∷ entity ∷ []) (source ∷ source ∷ [])))
read_row-select_columns_example =
    read_row-select_columns cell_of (age ∷ entity ∷ []) (source ∷ source ∷ []) cell_of-IsCells
      (also_fits age-Fits (also_fits entity-Fits none_fit))
