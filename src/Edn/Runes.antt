-- ===== src/Edn/Runes.antt =====
-- unicode/utf8 and unicode, as far as edn/lexer.go uses them: the decoding of bytes into runes, the
-- encoding of a rune, and the white space.
pub mod Utf8
use litelog.Prelude.{
  ℕ, zero, suc, ◌+◌, ◌-◌, ◌*◌, ◌/◌, ◌%◌, ◌≤◌, ◌<◌, ◌≡◌, refl, ap, ◌∙◌, Bytes, Bool, true, false,
  not, ◌&&◌, ◌||◌, List, [], ◌∷◌, ◌++◌, ◌==◌, ltb, leb, if◌then◌else◌, length, take, drop,
  length-drop, take-append-drop, arith,
}

-- utf8.RuneError
abbrev pub rune_error : ℕ
rune_error = 0xfffd

abbrev between : ℕ → ℕ → ℕ → Bool
between lo hi b = leb lo b && leb b hi

-- A byte 10xxxxxx.
abbrev is_continuation : ℕ → Bool
is_continuation b = between 0x80 0xbf b

-- The rune that a sequence of two, three or four bytes stands for, and its size: an encoding that is
-- not the shortest, of a surrogate or beyond U+10FFFF is an error, and takes one byte.
decode_two : ℕ → ℕ → ℕ × ℕ
decode_two a b =
    if between 0xc2 0xdf a && is_continuation b
    then ((a - 0xc0) * 64 + (b - 0x80), 2)
    else (rune_error, 1)

decode_three : ℕ → ℕ → ℕ → ℕ × ℕ
decode_three a b c =
    if between 0xe0 0xef a
      && between (if a == 0xe0 then 0xa0 else 0x80) (if a == 0xed then 0x9f else 0xbf) b
      && is_continuation c
    then ((a - 0xe0) * 4096 + (b - 0x80) * 64 + (c - 0x80), 3)
    else (rune_error, 1)

decode_four : ℕ → ℕ → ℕ → ℕ → ℕ × ℕ
decode_four a b c d =
    if between 0xf0 0xf4 a
      && between (if a == 0xf0 then 0x90 else 0x80) (if a == 0xf4 then 0x8f else 0xbf) b
      && is_continuation c
      && is_continuation d
    then ((a - 0xf0) * 262144 + (b - 0x80) * 4096 + (c - 0x80) * 64 + (d - 0x80), 4)
    else (rune_error, 1)

-- The choice by the first byte, on the bytes that are there.
decode_multi : Bytes → ℕ × ℕ
decode_multi (a ∷ b ∷ c ∷ d ∷ _) =
    if ltb a 0xe0
    then decode_two a b
    else if ltb a 0xf0
    then decode_three a b c
    else decode_four a b c d
decode_multi (a ∷ b ∷ c ∷ []) =
    if ltb a 0xe0
    then decode_two a b
    else if ltb a 0xf0
    then decode_three a b c
    else (rune_error, 1)
decode_multi (a ∷ b ∷ []) = if ltb a 0xe0 then decode_two a b else (rune_error, 1)
decode_multi _ = (rune_error, 1)

-- utf8.DecodeRune
unfoldable pub decode_rune : Bytes → ℕ × ℕ
unfolding decode_two decode_three decode_four decode_multi
decode_rune [] = (rune_error, 0)
decode_rune (b ∷ bs) = if ltb b 0x80 then (b, 1) else decode_multi (b ∷ bs)

-- utf8.AppendRune, the bytes that it appends
unfoldable pub encode_rune : ℕ → Bytes
encode_rune r =
    if ltb r 0x80
    then r ∷ []
    else if ltb r 0x800
    then (0xc0 + r / 64) ∷ (0x80 + r % 64) ∷ []
    else if between 0xd800 0xdfff r || ltb 0x10ffff r
    then 0xef ∷ 0xbf ∷ 0xbd ∷ []
    else if ltb r 0x10000
    then (0xe0 + r / 4096) ∷ (0x80 + r / 64 % 64) ∷ (0x80 + r % 64) ∷ []
    else (0xf0 + r / 262144) ∷ (0x80 + r / 4096 % 64) ∷ (0x80 + r / 64 % 64) ∷ (0x80 + r % 64) ∷ []

-- unicode.IsSpace
unfoldable pub is_space : ℕ → Bool
is_space r =
    between 9 13 r
    || r == 32
    || r == 0x85
    || r == 0xa0
    || r == 0x1680
    || between 0x2000 0x200a r
    || r == 0x2028
    || r == 0x2029
    || r == 0x202f
    || r == 0x205f
    || r == 0x3000

-- A decoded rune with the bytes that it was decoded from.
pub record Rune : Type 0 where
  pub code : ℕ
  pub raw : Bytes

-- The decoding of a whole input: the lexer decodes at the end of the rune before, so that it meets
-- these runes in this order. The fuel is the number of bytes.
decode_fuel : ℕ → Bytes → List Rune
decode_fuel zero bs = []
decode_fuel (suc fuel) [] = []
decode_fuel (suc fuel) (b ∷ bs) =
    let (code, size) = decode_rune (b ∷ bs) in
    record { code = code; raw = take size (b ∷ bs) } ∷ decode_fuel fuel (drop size (b ∷ bs))

unfoldable pub decode : Bytes → List Rune
unfolding decode_fuel
decode bs = decode_fuel (length bs) bs

-- The bytes of runes in a row.
unfoldable pub raw_bytes : List Rune → Bytes
raw_bytes [] = []
raw_bytes (r ∷ rs) = r.raw ++ raw_bytes rs

-- A rune that can be encoded.
abbrev pub is_valid : ℕ → Bool
is_valid r = not (between 0xd800 0xdfff r || ltb 0x10ffff r)
