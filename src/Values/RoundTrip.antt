-- ===== src/Values/RoundTrip.antt =====
-- What values.go encodes, it decodes.
use litelog.Prelude.{
  ℕ, zero, suc, ◌+◌, ◌*◌, ◌/◌, ◌%◌, ◌^◌, ◌<◌, ◌≡◌, refl, Bytes, true, false, [], ◌∷◌, ◌++◌, arith,
  length, length-append,
}
use native.Mathlib.Nat.{pow-suc}
use litelog.Result.{ok, is_ok, ◌>>=◌}
use litelog.Types.{
  word64, ValueType, type_int, type_string, type_float, type_bool, type_ref, type_bytes, type_inst,
  GoValue, int64, int, string, float64, bool, bytes, time, other,
}
use litelog.Values.{
  big_endian, from_big_endian, encode_int64, decode_int64, encode_float64, decode_float64,
  ordered_bits, encode_value, decode_value, infer_value_type,
}

pub length-big_endian : (width n : ℕ) → length (big_endian width n) ≡ width
unfolding big_endian
length-big_endian zero n = refl
length-big_endian (suc width) n = omega (
  arith,
  length-append (big_endian width (n / 256)) ((n % 256) ∷ []),
  length-big_endian width (n / 256),
)

-- Reading `width + 1` digits reads `width` of them and then the last.
from_big_endian-snoc :
    (width acc b : ℕ) (bs : Bytes)
    → length bs ≡ width
    → from_big_endian (suc width) acc (bs ++ b ∷ []) ≡ from_big_endian width acc bs * 256 + b
unfolding from_big_endian
from_big_endian-snoc zero acc b [] h = refl
from_big_endian-snoc zero acc b (c ∷ bs) h = absurd (omega arith)
from_big_endian-snoc (suc width) acc b [] h = absurd (omega arith)
from_big_endian-snoc (suc width) acc b (c ∷ bs) h =
    from_big_endian-snoc width (acc * 256 + c) b bs (omega arith)

-- A number that fits is read back.
from_big_endian-big_endian :
    (width n : ℕ) → n < 256 ^ width → from_big_endian width 0 (big_endian width n) ≡ n
unfolding big_endian
from_big_endian-big_endian zero n h = unfold from_big_endian in omega arith
from_big_endian-big_endian (suc width) n h =
    rw
      (from_big_endian-snoc width 0 (n % 256) (big_endian width (n / 256))
        (length-big_endian width (n / 256)))
      (rw (from_big_endian-big_endian width (n / 256) (omega (arith, rw pow-suc at h)))
        (omega arith))

-- `decode_int64` reads back every 64-bit pattern.
pub decode_int64-encode_int64 : (n : ℕ) → n < word64 → decode_int64 (encode_int64 n) ≡ n
unfolding decode_int64 encode_int64
decode_int64-encode_int64 n h = from_big_endian-big_endian 8 n h

pub ordered_bits-lt : (f : ℕ) → f < word64 → ordered_bits f < word64
unfolding ordered_bits
ordered_bits-lt f h = ground arith

-- `decode_float64` reads back every 64-bit pattern, NaNs and both zeros included.
pub decode_float64-encode_float64 : (f : ℕ) → f < word64 → decode_float64 (encode_float64 f) ≡ f
unfolding decode_float64 encode_float64
decode_float64-encode_float64 f h =
    rw (from_big_endian-big_endian 8 (ordered_bits f) (ordered_bits-lt f h))
      (unfold ordered_bits in ground arith)

-- The machine ranges of the numbers that a Go value holds.
abbrev pub InRange : GoValue → Type 0
InRange (int64 n) = n < word64
InRange (int n) = n < word64
InRange (float64 f) = f < word64
InRange (time ms ns) = ms < word64
InRange v = Unit {0}

-- What a value becomes in the store: an `int` turns into an `int64`, and a time loses what lies
-- below its millisecond.
abbrev pub stored : GoValue → GoValue
stored (int n) = int64 n
stored (time ms ns) = time ms 0
stored v = v

length-encode_int64 : (n : ℕ) → length (encode_int64 n) ≡ 8
unfolding encode_int64
length-encode_int64 n = length-big_endian 8 n

length-encode_float64 : (f : ℕ) → length (encode_float64 f) ≡ 8
unfolding encode_float64
length-encode_float64 f = length-big_endian 8 (ordered_bits f)

word-decodes :
    (n : ℕ)
    → n < word64
    → (decode_value (encode_int64 n) type_int ≡ ok (int64 n))
      × (decode_value (encode_int64 n) type_ref ≡ ok (int64 n))
      × (decode_value (encode_int64 n) type_inst ≡ ok (time n 0))
unfolding decode_value
word-decodes n h = ground (arith, length-encode_int64 n, decode_int64-encode_int64 n)

float-decodes : (f : ℕ) → f < word64 → decode_value (encode_float64 f) type_float ≡ ok (float64 f)
unfolding decode_value
float-decodes f h = ground (arith, length-encode_float64 f, decode_float64-encode_float64 f)

-- To decode what an equation of results names.
reads_back :
    (t : ValueType) {b bs : Bytes} {v : GoValue}
    → ok b ≡ ok bs
    → decode_value b t ≡ ok v
    → decode_value bs t ≡ ok v
reads_back t {b} {bs} e h = let same : b ≡ bs = cc in rw same at h

-- Whatever `encode_value` accepts for a value type, `decode_value` reads back at that type, up to
-- the width of `int` and the precision of times, for numbers within 64 bits.
pub decode_value-encode_value :
    (v : GoValue) (t : ValueType) (bs : Bytes)
    → InRange v
    → encode_value v t ≡ ok bs
    → decode_value bs t ≡ ok (stored v)
unfolding encode_value
decode_value-encode_value (int64 n) type_int bs r h = reads_back type_int h (word-decodes n r).0
decode_value-encode_value (int64 n) type_ref bs r h = reads_back type_ref h (word-decodes n r).1
decode_value-encode_value (int n) type_int bs r h = reads_back type_int h (word-decodes n r).0
decode_value-encode_value (int n) type_ref bs r h = reads_back type_ref h (word-decodes n r).1
decode_value-encode_value (time ms ns) type_inst bs r h =
    reads_back type_inst h (word-decodes ms r).2
decode_value-encode_value (float64 f) type_float bs r h =
    reads_back type_float h (float-decodes f r)
decode_value-encode_value (string s) type_string bs r h =
    reads_back type_string h (unfold decode_value in refl)
decode_value-encode_value (bytes s) type_bytes bs r h =
    reads_back type_bytes h (unfold decode_value in refl)
decode_value-encode_value (bool true) type_bool bs r h =
    reads_back type_bool h (unfold decode_value in refl)
decode_value-encode_value (bool false) type_bool bs r h =
    reads_back type_bool h (unfold decode_value in refl)
decode_value-encode_value other type_int bs r h = cc
decode_value-encode_value v t bs r h = cc

-- A value for which a type is inferred encodes at that type.
pub encode_value-infer_value_type :
    (v : GoValue) → is_ok (infer_value_type v >>= encode_value v) ≡ is_ok (infer_value_type v)
unfolding encode_value infer_value_type
encode_value-infer_value_type (int64 n) = refl
encode_value-infer_value_type (int n) = refl
encode_value-infer_value_type (string s) = refl
encode_value-infer_value_type (float64 f) = refl
encode_value-infer_value_type (bool b) = refl
encode_value-infer_value_type (bytes bs) = refl
encode_value-infer_value_type (time ms ns) = refl
encode_value-infer_value_type other = refl
