-- ===== src/Functions/Arguments.antt =====
-- udf.go, query/translate.go and transact.go: what a function is given for a variable of a query.
use litelog.Prelude.{◌≡◌, ap, bytes_eq, Option, none, some, [], ◌∷◌, if◌then◌else◌, text, arith}
use litelog.Result.{ok, ◌>>=◌}
use litelog.Types.{GoValue, int64, int, float64, bool, time, ValueType}
use litelog.Values.{encode_value}
use litelog.Store.{CurrentRow, real_column}
use litelog.Transact.{bind_typed_columns}
use litelog.Query.Algebra.{typed_column}
use litelog.Query.Translate.{column_of}
use litelog.Compile.{number_of}
use litelog.Execute.Rows.{column_value, Holds}
use litelog.Functions.{UdfFunc, go_arg, go_value_to_sqlite, scalar}

-- A stored value as a function sees it: a Boolean is 1 or 0, an instant its milliseconds, a NaN nil,
-- and -0.0 the number 0.0.
abbrev pub seen : GoValue → Option GoValue
seen (int n) = some (int64 n)
seen (bool b) = some (int64 (if b then 1 else 0))
seen (time ms ns) = some (int64 ms)
seen (float64 f) = elim (real_column f) [ none ↦ none | some g ↦ some (float64 g) ]
seen v = some v

arg_seen :
    (v : GoValue) (r : CurrentRow) (t : ValueType)
    → encode_value v t ≡ ok r.v
    → r.typed ≡ bind_typed_columns v t
    → go_arg (column_value (column_of (text "v") (number_of t)) r) ≡ seen v
unfolding number_of typed_column column_value column_of go_arg bytes_eq encode_value
    bind_typed_columns
arg_seen v r t e h = ground (arith, e, h)

-- A function of a variable that stands for a value of a known type is called on the value that the row
-- holds, as an int64 where that is a Boolean or an instant, and as nil where it is a NaN; and what it
-- returns goes to SQLite.
pub scalar-column_value :
    (fn : UdfFunc) (v : GoValue) (r : CurrentRow)
    → Holds r v
    → scalar fn (column_value (column_of (text "v") (number_of r.v_type)) r ∷ [])
      ≡ (fn (seen v ∷ []) >>= go_value_to_sqlite)
unfolding scalar
scalar-column_value fn v r h =
    ap (λ arg. fn (arg ∷ []) >>= go_value_to_sqlite) (arg_seen v r r.v_type h.encoded h.typed)
