-- ===== src/Values.antt =====
-- values.go: the encoding of Go values as SQLite blobs, and back.
pub mod RoundTrip
pub mod Order
pub mod Tests
use litelog.Prelude.{
  ℕ, zero, suc, ◌+◌, ◌-◌, ◌*◌, ◌/◌, ◌%◌, ◌^◌, Bytes, Bool, true, false, not, List, [], ◌∷◌, ◌++◌,
  ltb, leb, ◌==◌, if◌then◌else◌, length,
}
use litelog.Result.{
  Result, ok, err, short_buffer, type_mismatch, unknown_value_type, bad_go_type, ◌>>=◌,
}
use litelog.Types.{
  sign_bit, word64, ValueType, type_int, type_string, type_float, type_bool, type_ref, type_bytes,
  type_inst, type_other, GoValue, int64, int, string, float64, bool, bytes, time, other,
}

-- encoding/binary's big-endian layout of a number in `width` bytes.
unfoldable pub big_endian : ℕ → ℕ → Bytes
big_endian zero n = []
big_endian (suc width) n = big_endian width (n / 256) ++ (n % 256) ∷ []

-- The number that the first `width` bytes stand for, on top of the digits `acc` read before.
pub from_big_endian : ℕ → ℕ → Bytes → ℕ
from_big_endian zero acc bs = acc
from_big_endian (suc width) acc [] = acc
from_big_endian (suc width) acc (b ∷ bs) = from_big_endian width (acc * 256 + b) bs

unfoldable pub encode_int64 : ℕ → Bytes
encode_int64 n = big_endian 8 n

pub decode_int64 : Bytes → ℕ
decode_int64 b = from_big_endian 8 0 b

-- `^bits`
abbrev complement : ℕ → ℕ
complement bits = word64 - 1 - bits

-- `bits ^ 1<<63`: the top bit alone changes.
abbrev flip_sign : ℕ → ℕ
flip_sign bits = (bits + 2 ^ 63) % word64

-- The pattern that `encode_float64` lays out: all bits flipped if negative, else the top one.
unfoldable pub ordered_bits : ℕ → ℕ
ordered_bits bits = if sign_bit bits then complement bits else flip_sign bits

unfoldable pub encode_float64 : ℕ → Bytes
encode_float64 bits = big_endian 8 (ordered_bits bits)

pub decode_float64 : Bytes → ℕ
decode_float64 b =
    let bits : ℕ = from_big_endian 8 0 b in
    if sign_bit bits then flip_sign bits else complement bits

unfoldable pub encode_value : GoValue → ValueType → Result Bytes
encode_value (int64 n) type_int = ok (encode_int64 n)
encode_value (int n) type_int = ok (encode_int64 n)
encode_value v type_int = err type_mismatch
encode_value (int64 n) type_ref = ok (encode_int64 n)
encode_value (int n) type_ref = ok (encode_int64 n)
encode_value v type_ref = err type_mismatch
encode_value (string s) type_string = ok s
encode_value v type_string = err type_mismatch
encode_value (float64 f) type_float = ok (encode_float64 f)
encode_value v type_float = err type_mismatch
encode_value (bool b) type_bool = ok ((if b then 1 else 0) ∷ [])
encode_value v type_bool = err type_mismatch
encode_value (bytes bs) type_bytes = ok bs
encode_value v type_bytes = err type_mismatch
encode_value (time ms ns) type_inst = ok (encode_int64 ms)
encode_value v type_inst = err type_mismatch
encode_value v (type_other n) = err unknown_value_type

unfoldable pub decode_value : Bytes → ValueType → Result GoValue
decode_value b type_int = if ltb (length b) 8 then err short_buffer else ok (int64 (decode_int64 b))
decode_value b type_ref = if ltb (length b) 8 then err short_buffer else ok (int64 (decode_int64 b))
decode_value b type_string = ok (string b)
decode_value b type_float =
    if ltb (length b) 8 then err short_buffer else ok (float64 (decode_float64 b))
decode_value [] type_bool = err short_buffer
decode_value (b ∷ _) type_bool = ok (bool (not (b == 0)))
decode_value b type_bytes = ok (bytes b)
decode_value b type_inst =
    if ltb (length b) 8 then err short_buffer else ok (time (decode_int64 b) 0)
decode_value b (type_other n) = err unknown_value_type

unfoldable pub infer_value_type : GoValue → Result ValueType
infer_value_type (int64 n) = ok type_int
infer_value_type (int n) = ok type_int
infer_value_type (string s) = ok type_string
infer_value_type (float64 f) = ok type_float
infer_value_type (bool b) = ok type_bool
infer_value_type (bytes bs) = ok type_bytes
infer_value_type (time ms ns) = ok type_inst
infer_value_type other = err bad_go_type
