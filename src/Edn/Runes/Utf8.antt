-- ===== src/Edn/Runes/Utf8.antt =====
-- The decoding of UTF-8, and its relation to the encoding.
use litelog.Prelude.{
  ℕ, zero, suc, ◌+◌, ◌≤◌, ◌<◌, ◌≡◌, refl, ap, ◌∙◌, Bytes, true, false, ◌||◌, ◌/◌, ◌%◌, Bool-cases,
  inl, inr, map, List, [], ◌∷◌, ◌++◌, ltb, length, take, drop, length-drop, length-append,
  take-append-drop, take-length, drop-length, arith,
}
use litelog.Edn.Runes.{
  decode_two, decode_three, decode_four, decode_multi, decode_rune, encode_rune, between, is_valid,
  decode_fuel, decode, raw_bytes, Rune,
}

-- Every step of the decoder takes a byte at least.
decode_multi-pos : (bs : Bytes) → 0 < (decode_multi bs).1
unfolding decode_multi decode_two decode_three decode_four
decode_multi-pos (a ∷ b ∷ c ∷ d ∷ bs) = ground arith
decode_multi-pos (a ∷ b ∷ c ∷ []) = ground arith
decode_multi-pos (a ∷ b ∷ []) = ground arith
decode_multi-pos _ = omega arith

decode_rune-pos : (b : ℕ) (bs : Bytes) → 0 < (decode_rune (b ∷ bs)).1
unfolding decode_rune
decode_rune-pos b bs = ground (arith, decode_multi-pos (b ∷ bs))

raw_bytes-decode_fuel :
    (fuel : ℕ) (bs : Bytes) → length bs ≤ fuel → raw_bytes (decode_fuel fuel bs) ≡ bs
unfolding decode_fuel raw_bytes
raw_bytes-decode_fuel zero [] h = refl
raw_bytes-decode_fuel zero (b ∷ bs) h = absurd (omega arith)
raw_bytes-decode_fuel (suc fuel) [] h = refl
raw_bytes-decode_fuel (suc fuel) (b ∷ bs) h =
    let size = (decode_rune (b ∷ bs)).1 in
    ap (λ rest. take size (b ∷ bs) ++ rest)
      (raw_bytes-decode_fuel fuel (drop size (b ∷ bs))
        (omega (arith, length-drop size (b ∷ bs), decode_rune-pos b bs)))
    ∙ take-append-drop size (b ∷ bs)

-- Decoding an input loses no byte of it, valid UTF-8 or not.
pub raw_bytes-decode : (bs : Bytes) → raw_bytes (decode bs) ≡ bs
unfolding decode
raw_bytes-decode bs = raw_bytes-decode_fuel (length bs) bs (omega arith)

-- The first byte tells how many bytes are read, whatever follows.
decode_multi-two :
    (a b : ℕ) (rest : Bytes) → a < 0xe0 → decode_multi (a ∷ b ∷ rest) ≡ decode_two a b
unfolding decode_multi
decode_multi-two a b [] h = ground arith
decode_multi-two a b (c ∷ []) h = ground arith
decode_multi-two a b (c ∷ d ∷ rest) h = ground arith

decode_multi-three :
    (a b c : ℕ) (rest : Bytes)
    → 0xe0 ≤ a
    → a < 0xf0
    → decode_multi (a ∷ b ∷ c ∷ rest) ≡ decode_three a b c
unfolding decode_multi
decode_multi-three a b c [] h k = ground arith
decode_multi-three a b c (d ∷ rest) h k = ground arith

decode_multi-four :
    (a b c d : ℕ) (rest : Bytes)
    → 0xf0 ≤ a
    → decode_multi (a ∷ b ∷ c ∷ d ∷ rest) ≡ decode_four a b c d
unfolding decode_multi
decode_multi-four a b c d rest h = ground arith

two_bytes : (r : ℕ) → 0x80 ≤ r → r < 0x800 → decode_two (0xc0 + r / 64) (0x80 + r % 64) ≡ (r, 2)
unfolding decode_two
two_bytes r h k = ground arith

three_bytes :
    (r : ℕ)
    → 0x800 ≤ r
    → r < 0x10000
    → is_valid r ≡ true
    → decode_three (0xe0 + r / 4096) (0x80 + r / 64 % 64) (0x80 + r % 64) ≡ (r, 3)
unfolding decode_three
three_bytes r h k v = ground arith

four_bytes :
    (r : ℕ)
    → 0x10000 ≤ r
    → is_valid r ≡ true
    → decode_four (0xf0 + r / 262144) (0x80 + r / 4096 % 64) (0x80 + r / 64 % 64) (0x80 + r % 64)
      ≡ (r, 4)
unfolding decode_four
four_bytes r h v = ground arith

-- A first byte of 128 or more starts a longer sequence.
decode_rune-multi :
    (a : ℕ) (rest : Bytes) → 0x80 ≤ a → decode_rune (a ∷ rest) ≡ decode_multi (a ∷ rest)
unfolding decode_rune
decode_rune-multi a rest h = ground arith

-- The decoder reads an encoded rune off the front of any input, with the size that it has.
pub decode_rune-encode_rune :
    (r : ℕ) (rest : Bytes)
    → is_valid r ≡ true
    → decode_rune (encode_rune r ++ rest) ≡ (r, length (encode_rune r))
unfolding encode_rune
decode_rune-encode_rune r rest h = elim (Bool-cases (ltb r 0x80)) [
  | inl one ↦ rw one (unfold decode_rune in ground arith)
  | inr multi ↦ elim (Bool-cases (ltb r 0x800)) [
    | inl two ↦
        rw (multi, two)
          (decode_rune-multi (0xc0 + r / 64) ((0x80 + r % 64) ∷ rest) (omega arith)
            ∙ decode_multi-two (0xc0 + r / 64) (0x80 + r % 64) rest (ground arith)
            ∙ two_bytes r (ground arith) (ground arith))
    | inr more ↦
        let valid : (between 0xd800 0xdfff r || ltb 0x10ffff r) ≡ false = ground arith in
        elim (Bool-cases (ltb r 0x10000)) [
          | inl three ↦
              rw (multi, more, valid, three)
                (decode_rune-multi (0xe0 + r / 4096) _ (omega arith)
                  ∙ decode_multi-three (0xe0 + r / 4096) (0x80 + r / 64 % 64) (0x80 + r % 64) rest
                      (omega arith) (ground arith)
                  ∙ three_bytes r (ground arith) (ground arith) h)
          | inr four ↦
              rw (multi, more, valid, four)
                (decode_rune-multi (0xf0 + r / 262144) _ (omega arith)
                  ∙ decode_multi-four (0xf0 + r / 262144) (0x80 + r / 4096 % 64)
                      (0x80 + r / 64 % 64) (0x80 + r % 64) rest (omega arith)
                  ∙ four_bytes r (ground arith) h)
        ]
  ]
]

-- The runes of encoded text.
unfoldable pub encode_runes : List ℕ → Bytes
encode_runes [] = []
encode_runes (r ∷ rs) = encode_rune r ++ encode_runes rs

abbrev pub AllValid : List ℕ → Type 0
AllValid [] = Unit {0}
AllValid (r ∷ rs) = (is_valid r ≡ true) × AllValid rs

abbrev pub as_rune : ℕ → Rune
as_rune r = record { code = r; raw = encode_rune r }

encode_rune-pos : (r : ℕ) → 0 < length (encode_rune r)
unfolding encode_rune
encode_rune-pos r = ground arith

-- One step of the decoder.
decode_fuel-step :
    (fuel : ℕ) (bs : Bytes)
    → 0 < length bs
    → decode_fuel (suc fuel) bs ≡ (
        record { code = (decode_rune bs).0; raw = take (decode_rune bs).1 bs }
        ∷ decode_fuel fuel (drop (decode_rune bs).1 bs))
unfolding decode_fuel
decode_fuel-step fuel [] h = absurd (omega arith)
decode_fuel-step fuel (b ∷ bs) h = refl

decode_fuel-encode_runes :
    (fuel : ℕ) (rs : List ℕ)
    → length (encode_runes rs) ≤ fuel
    → AllValid rs
    → decode_fuel fuel (encode_runes rs) ≡ map as_rune rs
unfolding encode_runes decode_fuel
decode_fuel-encode_runes zero [] h v = refl
decode_fuel-encode_runes (suc fuel) [] h v = refl
decode_fuel-encode_runes zero (r ∷ rs) h v =
    absurd (omega (arith, length-append (encode_rune r) (encode_runes rs), encode_rune-pos r))
decode_fuel-encode_runes (suc fuel) (r ∷ rs) h v =
    let count = length-append (encode_rune r) (encode_runes rs) in
    decode_fuel-step fuel (encode_rune r ++ encode_runes rs)
      (omega (arith, count, encode_rune-pos r))
    ∙ rw (
      decode_rune-encode_rune r (encode_runes rs) v.0,
      take-length (encode_rune r) (encode_runes rs),
      drop-length (encode_rune r) (encode_runes rs),
      decode_fuel-encode_runes fuel rs (omega (arith, count, encode_rune-pos r)) v.1,
    )

-- Encoded runes decode to themselves.
pub decode-encode_runes : (rs : List ℕ) → AllValid rs → decode (encode_runes rs) ≡ map as_rune rs
unfolding decode
decode-encode_runes rs h = decode_fuel-encode_runes (length (encode_runes rs)) rs (omega arith) h
