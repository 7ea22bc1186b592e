-- ===== src/Values/Order.antt =====
-- How SQLite's blob order sees encoded numbers.
use litelog.Prelude.{
  ℕ, zero, suc, ◌/◌, ◌%◌, ◌^◌, ◌<◌, ◌≡◌, Bytes, Bool, true, false, [], ◌∷◌, ◌++◌, ◌&&◌, ◌||◌, arith,
  ltb, ◌==◌, length, lex_lt, bytes_eq, if◌then◌else◌,
}
use native.Mathlib.Nat.{pow-suc}
use litelog.Types.{word64, bool_eq, sign_bit, signed_lt}
use litelog.Values.{big_endian, encode_int64, encode_float64, ordered_bits}
use litelog.Values.RoundTrip.{length-big_endian, ordered_bits-lt}

lex_lt-snoc :
    (xs ys : Bytes) (x y : ℕ)
    → length xs ≡ length ys
    → lex_lt (xs ++ x ∷ []) (ys ++ y ∷ []) ≡ (lex_lt xs ys || bytes_eq xs ys && ltb x y)
unfolding lex_lt bytes_eq
lex_lt-snoc [] [] x y h = ground arith
lex_lt-snoc [] (d ∷ ys) x y h = absurd (omega arith)
lex_lt-snoc (c ∷ xs) [] x y h = absurd (omega arith)
lex_lt-snoc (c ∷ xs) (d ∷ ys) x y h = ground (arith, lex_lt-snoc xs ys x y)

bytes_eq-snoc :
    (xs ys : Bytes) (x y : ℕ)
    → length xs ≡ length ys
    → bytes_eq (xs ++ x ∷ []) (ys ++ y ∷ []) ≡ (bytes_eq xs ys && x == y)
unfolding bytes_eq
bytes_eq-snoc [] [] x y h = ground arith
bytes_eq-snoc [] (d ∷ ys) x y h = absurd (omega arith)
bytes_eq-snoc (c ∷ xs) [] x y h = absurd (omega arith)
bytes_eq-snoc (c ∷ xs) (d ∷ ys) x y h = ground (arith, bytes_eq-snoc xs ys x y)

-- Big-endian layouts of one width are equal, and in order, as their numbers are.
big_endian_order :
    (width m n : ℕ)
    → m < 256 ^ width
    → n < 256 ^ width
    → (lex_lt (big_endian width m) (big_endian width n) ≡ ltb m n)
      × (bytes_eq (big_endian width m) (big_endian width n) ≡ (m == n))
unfolding big_endian
big_endian_order zero m n hm hn = unfold lex_lt bytes_eq in ground arith
big_endian_order (suc width) m n hm hn =
    let same : length (big_endian width (m / 256)) ≡ length (big_endian width (n / 256)) =
      omega (arith, length-big_endian width (m / 256), length-big_endian width (n / 256)) in
    let (lt, eq) =
      big_endian_order width (m / 256) (n / 256) (omega (arith, rw pow-suc at hm))
        (omega (arith, rw pow-suc at hn)) in
    (
      rw (lex_lt-snoc _ _ (m % 256) (n % 256) same, lt, eq) (ground arith),
      rw (bytes_eq-snoc _ _ (m % 256) (n % 256) same, eq) (ground arith),
    )

-- Encoded integers are in blob order exactly as their values are when both have one sign, and
-- against the order of their values when the signs differ: each negative one comes last. Both are patterns of 64 bits.
pub lex_lt-encode_int64 :
    (m n : ℕ)
    → m < word64
    → n < word64
    → lex_lt (encode_int64 m) (encode_int64 n)
      ≡ (if bool_eq (sign_bit m) (sign_bit n) then signed_lt m n else signed_lt n m)
unfolding encode_int64
lex_lt-encode_int64 m n hm hn = rw (big_endian_order 8 m n hm hn).0 (ground arith)

-- The order of floating-point patterns by sign and magnitude: IEEE 754's total order, in which
-- -0 comes just below +0.
abbrev pub float_lt : ℕ → ℕ → Bool
float_lt f g =
    if sign_bit f
    then (if sign_bit g then ltb (g % 2 ^ 63) (f % 2 ^ 63) else true)
    else (if sign_bit g then false else ltb (f % 2 ^ 63) (g % 2 ^ 63))

-- Encoded floats are in blob order exactly as the total order of IEEE 754 orders their patterns of 64
-- bits, by sign and magnitude. That is the order of the numbers but in two cases: -0.0 comes before
-- 0.0, to which it is equal, and NaNs have a place, before all numbers or behind them.
pub lex_lt-encode_float64 :
    (f g : ℕ)
    → f < word64
    → g < word64
    → lex_lt (encode_float64 f) (encode_float64 g) ≡ float_lt f g
unfolding encode_float64
lex_lt-encode_float64 f g hf hg =
    rw
      (big_endian_order 8 (ordered_bits f) (ordered_bits g) (ordered_bits-lt f hf)
        (ordered_bits-lt g hg)).0
      (unfold ordered_bits in ground arith)
