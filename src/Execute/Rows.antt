-- ===== src/Execute/Rows.antt =====
-- schema.go: the columns of a row of `current_datoms`, as SQLite's values.
use litelog.Prelude.{ℕ, ◌≡◌, Bytes, Option, none, some, bytes_eq, text, if◌then◌else◌}
use litelog.Result.{ok}
use litelog.Types.{GoValue}
use litelog.Values.{encode_value}
use litelog.Values.RoundTrip.{InRange}
use litelog.Store.{CurrentRow}
use litelog.Transact.{bind_typed_columns}
use litelog.Compile.{number_of}
use litelog.Execute.{SqlValue, sql_null, sql_int, sql_float, sql_text, sql_blob, Cell}

abbrev pub int_or_null : Option ℕ → SqlValue
int_or_null none = sql_null
int_or_null (some n) = sql_int n

abbrev pub float_or_null : Option ℕ → SqlValue
float_or_null none = sql_null
float_or_null (some n) = sql_float n

abbrev pub text_or_null : Option Bytes → SqlValue
text_or_null none = sql_null
text_or_null (some s) = sql_text s

unfoldable pub column_value : Bytes → CurrentRow → SqlValue
column_value name r =
    if bytes_eq name (text "e")
    then sql_int r.e
    else if bytes_eq name (text "a")
    then sql_int r.a
    else if bytes_eq name (text "v")
    then sql_blob r.v
    else if bytes_eq name (text "v_type")
    then sql_int (number_of r.v_type)
    else if bytes_eq name (text "v_int")
    then int_or_null r.typed.v_int
    else if bytes_eq name (text "v_text")
    then text_or_null r.typed.v_text
    else if bytes_eq name (text "v_float")
    then float_or_null r.typed.v_float
    else if bytes_eq name (text "tx")
    then sql_int r.tx
    else sql_null

-- A row that a transaction writes for the value `v`.
pub record Holds (r : CurrentRow) (v : GoValue) : Type 0 where
  pub in_range : InRange v
  pub encoded : encode_value v r.v_type ≡ ok r.v
  pub typed : r.typed ≡ bind_typed_columns v r.v_type

-- What SQLite documents of the four readings of a column that holds a value of their own type, and of
-- a float's reading of NULL.
pub record IsCells (cell_of : SqlValue → Cell) : Type 0 where
  pub int_as_int : (n : ℕ) → (cell_of (sql_int n)).as_int ≡ n
  pub float_as_float : (f : ℕ) → (cell_of (sql_float f)).as_float ≡ f
  pub null_as_float : (cell_of sql_null).as_float ≡ 0
  pub text_as_text : (s : Bytes) → (cell_of (sql_text s)).as_text ≡ s
  pub blob_as_blob : (bs : Bytes) → (cell_of (sql_blob bs)).as_blob ≡ bs
