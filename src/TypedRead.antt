-- ===== src/TypedRead.antt =====
-- query_api.go and pull.go: the reading of a value from its typed column.
pub mod Agree
pub mod Tests
use litelog.Prelude.{ℕ, Bytes, Bool, not, Option, none, some, [], ◌==◌}
use litelog.Types.{
  GoValue, int64, string, float64, bool, time, ValueType, type_int, type_string, type_float,
  type_bool, type_ref, type_inst,
}
use litelog.Store.{TypedColumns, or_zero}

-- SQLite's answers for a column that is NULL: 0 (`or_zero`; the pattern of 0.0 is 0, too), and the
-- empty text.
abbrev or_empty : Option Bytes → Bytes
or_empty none = []
or_empty (some s) = s

-- `readTypedColumn`, on the columns of a row; which of them the statement selects is `TypedColumn`'s
-- choice, and all types without one of their own are read as integers.
unfoldable pub read_typed_column : TypedColumns → ValueType → GoValue
read_typed_column c type_int = int64 (or_zero c.v_int)
read_typed_column c type_ref = int64 (or_zero c.v_int)
read_typed_column c type_string = string (or_empty c.v_text)
read_typed_column c type_float = float64 (or_zero c.v_float)
read_typed_column c type_bool = bool (not (or_zero c.v_int == 0))
read_typed_column c type_inst = time (or_zero c.v_int) 0
read_typed_column c _ = int64 (or_zero c.v_int)

-- `readTypedColumnFromPull`: the same, but nil (`none`) for the types without a typed column.
unfoldable pub read_typed_column_from_pull : TypedColumns → ValueType → Option GoValue
read_typed_column_from_pull c type_int = some (int64 (or_zero c.v_int))
read_typed_column_from_pull c type_ref = some (int64 (or_zero c.v_int))
read_typed_column_from_pull c type_bool = some (bool (not (or_zero c.v_int == 0)))
read_typed_column_from_pull c type_inst = some (time (or_zero c.v_int) 0)
read_typed_column_from_pull c type_string = some (string (or_empty c.v_text))
read_typed_column_from_pull c type_float = some (float64 (or_zero c.v_float))
read_typed_column_from_pull c _ = none
