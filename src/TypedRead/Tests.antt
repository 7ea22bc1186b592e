-- ===== src/TypedRead/Tests.antt =====
-- The typed column of a NaN, which reads as 0.0.
use litelog.Prelude.{ℕ, ◌+◌, ◌*◌, ◌^◌, ◌≡◌, refl, some, arith}
use litelog.Result.{ok}
use litelog.Types.{float64, type_float}
use litelog.Values.{encode_float64, encode_value, decode_value}
use litelog.Transact.{bind_typed_columns}
use litelog.TypedRead.{read_typed_column, read_typed_column_from_pull}
use litelog.TypedRead.Agree.{kept, read_typed_column-decode_value}
use litelog.Values.RoundTrip.{stored}

-- The NaN of math.NaN()
abbrev nan : ℕ
nan = 2047 * 2 ^ 52 + 2 ^ 51 + 1

read_typed_column-decode_value_example :
    (decode_value (encode_float64 nan) type_float ≡ ok (stored (float64 nan)))
    × (read_typed_column (bind_typed_columns (float64 nan) type_float) type_float
        ≡ kept (stored (float64 nan)))
    × (read_typed_column_from_pull (bind_typed_columns (float64 nan) type_float) type_float
        ≡ some (kept (stored (float64 nan))))
read_typed_column-decode_value_example =
    read_typed_column-decode_value (float64 nan) type_float (encode_float64 nan) (omega arith) refl
      (unfold encode_value in refl)
