-- ===== src/Execute/Binding.antt =====
-- query_api.go and transact.go: a value that a query compares with, and the column that it is
-- compared with.
use litelog.Prelude.{◌≡◌, Bytes, Bool, true, false, some, text, bytes_eq, if◌then◌else◌, arith}
use litelog.Result.{ok, err, ◌>>=◌, unsupported_param}
use litelog.Types.{GoValue, time, ValueType}
use litelog.Values.{encode_value}
use litelog.Store.{CurrentRow}
use litelog.Transact.{bind_typed_columns}
use litelog.Query.Algebra.{typed_column}
use litelog.Query.Translate.{typed_or}
use litelog.Compile.{number_of, type_of_number, encode_any, encode_untyped}
use litelog.Execute.{bind_param}
use litelog.Execute.Rows.{column_value, Holds}

abbrev pub is_time : GoValue → Bool
is_time (time ms ns) = true
is_time _ = false

-- The column of a row with these values.
abbrev compared : ValueType → Bytes
compared t = typed_or (typed_column (number_of t)) (text "v")

bound_as_stored :
    (v : GoValue) (r : CurrentRow) (t : ValueType)
    → encode_value v t ≡ ok r.v
    → r.typed ≡ bind_typed_columns v t
    → (encode_untyped (some v) (number_of t) >>= bind_param)
      ≡ (if is_time v then err unsupported_param else ok (column_value (compared t) r))
unfolding encode_untyped encode_any number_of type_of_number typed_column column_value bind_param
    bytes_eq encode_value bind_typed_columns
bound_as_stored v r t e h = ground (arith, e, h)

-- The parameter that a value becomes, in the place of an input or of a constant, is what a row that
-- holds the value has in the column that the statement compares, whether typed or a blob; but an
-- instant, which has a typed column, is not accepted as a parameter.
pub bind_param-column_value :
    (v : GoValue) (r : CurrentRow)
    → Holds r v
    → (encode_untyped (some v) (number_of r.v_type) >>= bind_param) ≡ (
        if is_time v
        then err unsupported_param
        else ok (column_value (typed_or (typed_column (number_of r.v_type)) (text "v")) r))
bind_param-column_value v r h = bound_as_stored v r r.v_type h.encoded h.typed
