-- ===== src/TypedRead/Agree.antt =====
-- transact.go, values.go and query_api.go: the two places of a value in a row.
use litelog.Prelude.{some, ◌≡◌, ◌∙◌, ap, Bytes, Bool, true, false, arith}
use litelog.Result.{ok}
use litelog.Types.{GoValue, float64, ValueType, type_bytes, type_other}
use litelog.Values.{encode_value, decode_value}
use litelog.Values.RoundTrip.{InRange, stored, decode_value-encode_value}
use litelog.Store.{or_zero, real_column}
use litelog.Transact.{bind_typed_columns}
use litelog.TypedRead.{read_typed_column, read_typed_column_from_pull}

-- The types that have a column of their own beside the blob.
abbrev pub has_typed_column : ValueType → Bool
has_typed_column type_bytes = false
has_typed_column (type_other n) = false
has_typed_column t = true

-- A value as a typed column keeps it: a NaN comes back as 0.0, and so does -0.0.
abbrev pub kept : GoValue → GoValue
kept (float64 f) = float64 (or_zero (real_column f))
kept v = v

read_typed_column-bind_typed_columns :
    (v : GoValue) (t : ValueType) (bs : Bytes)
    → encode_value v t ≡ ok bs
    → has_typed_column t ≡ true
    → read_typed_column (bind_typed_columns v t) t ≡ kept (stored v)
unfolding encode_value read_typed_column bind_typed_columns
read_typed_column-bind_typed_columns v t bs h k = ground arith

from_pull-typed :
    (v : GoValue) (t : ValueType)
    → has_typed_column t ≡ true
    → read_typed_column_from_pull (bind_typed_columns v t) t
      ≡ some (read_typed_column (bind_typed_columns v t) t)
unfolding read_typed_column read_typed_column_from_pull
from_pull-typed v t k = ground arith

-- A value whose encoding is stored is read from its typed column as it is decoded from its blob, by
-- queries and by pulls, for each value type that has a typed column, and numbers of 64 bits; but for a
-- NaN, which SQLite stores as NULL in the column, and for -0.0: both are read as 0.0 from the column.
pub read_typed_column-decode_value :
    (v : GoValue) (t : ValueType) (bs : Bytes)
    → InRange v
    → has_typed_column t ≡ true
    → encode_value v t ≡ ok bs
    → (decode_value bs t ≡ ok (stored v))
      × (read_typed_column (bind_typed_columns v t) t ≡ kept (stored v))
      × (read_typed_column_from_pull (bind_typed_columns v t) t ≡ some (kept (stored v)))
read_typed_column-decode_value v t bs r k h =
    let column = read_typed_column-bind_typed_columns v t bs h k in
    (decode_value-encode_value v t bs r h, column, from_pull-typed v t k ∙ ap some column)
