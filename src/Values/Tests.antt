-- ===== src/Values/Tests.antt =====
-- values.go on concrete values, and its theorems at them.
use litelog.Prelude.{ℕ, ◌≡◌, refl, text, [], ◌∷◌, true, lex_lt, arith}
use litelog.Result.{ok, err, short_buffer, type_mismatch}
use litelog.Types.{int, string, time, type_int, type_float, type_inst}
use litelog.Values.{big_endian, encode_int64, encode_float64, encode_value, decode_value}
use litelog.Values.RoundTrip.{decode_value-encode_value}
use litelog.Values.Order.{lex_lt-encode_int64, lex_lt-encode_float64}

-- The bit patterns of -1 as an int64, and of -1.5 and 2.0 as float64.
abbrev minus_one : ℕ
minus_one = 0xffff_ffff_ffff_ffff

abbrev minus_one_and_a_half : ℕ
minus_one_and_a_half = 0xbff8_0000_0000_0000

abbrev two : ℕ
two = 0x4000_0000_0000_0000

encode_258 : encode_value (int 258) type_int ≡ ok (0 ∷ 0 ∷ 0 ∷ 0 ∷ 0 ∷ 0 ∷ 1 ∷ 2 ∷ [])
unfolding encode_value encode_int64 big_endian
encode_258 = refl

decode_short : decode_value (1 ∷ 2 ∷ []) type_int ≡ err short_buffer
unfolding decode_value
decode_short = refl

encode_mismatch : encode_value (string (text "x")) type_float ≡ err type_mismatch
unfolding encode_value
encode_mismatch = refl

-- The blob of -1 comes after that of 2, though -1 < 2: the order of blobs is not that of integers.
negative_last : lex_lt (encode_int64 2) (encode_int64 minus_one) ≡ true
unfolding encode_int64 big_endian lex_lt
negative_last = refl

decode_value-encode_value_example : decode_value (encode_int64 1700) type_inst ≡ ok (time 1700 0)
decode_value-encode_value_example =
    decode_value-encode_value (time 1700 999) type_inst (encode_int64 1700) (omega arith)
      (unfold encode_value in refl)

lex_lt-encode_int64_example : lex_lt (encode_int64 2) (encode_int64 minus_one) ≡ true
lex_lt-encode_int64_example = lex_lt-encode_int64 2 minus_one (omega arith) (omega arith)

lex_lt-encode_float64_example :
    lex_lt (encode_float64 minus_one_and_a_half) (encode_float64 two) ≡ true
lex_lt-encode_float64_example =
    lex_lt-encode_float64 minus_one_and_a_half two (omega arith) (omega arith)
