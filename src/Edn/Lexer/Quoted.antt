-- ===== src/Edn/Lexer/Quoted.antt =====
-- edn/lexer.go, `readString`: string literals and their lexing.
use litelog.Prelude.{
  ℕ, suc, ◌+◌, ◌≡◌, refl, sym, ap, ◌∙◌, inl, inr, Bytes, true, false, List, [], ◌∷◌, ◌++◌, map,
  ◌==◌, ==→eq, if◌then◌else◌, length, arith, Bool-cases, append_assoc, append-nil, length-append,
  map-append,
}
use litelog.Result.{ok}
use litelog.Edn.Runes.{Rune, encode_rune, is_space, is_valid}
use litelog.Edn.Runes.Utf8.{encode_runes, as_rune, AllValid, decode-encode_runes}
use litelog.Edn.Lexer.{
  string, Lexer, new_lexer, skip, skip_whitespace_and_comments, escape_bytes, read_chars,
  read_string, single, token_of, token_at, next_token,
}

-- A writer of string literals, for the reader: what has an escape is written with it.
pub quote_rune : ℕ → List ℕ
quote_rune r =
    if r == b'"'
    then b'\\' ∷ b'"' ∷ []
    else if r == b'\\'
    then b'\\' ∷ b'\\' ∷ []
    else if r == b'\n'
    then b'\\' ∷ b'n' ∷ []
    else if r == b'\t'
    then b'\\' ∷ b't' ∷ []
    else if r == b'\r'
    then b'\\' ∷ b'r' ∷ []
    else r ∷ []

pub quoted : List ℕ → List ℕ
quoted [] = []
quoted (r ∷ rs) = quote_rune r ++ quoted rs

-- The lexer `n` columns further on the same line.
abbrev pub forward : ℕ → List Rune → Lexer → Lexer
forward n rest l = record { rest = rest; line = l.line; col = l.col + n }

-- An escape in a string, in front of a rune that does not end the line.
read_chars-escape :
    (esc : ℕ) (rest : List Rune) (l : Lexer) (buf : Bytes)
    → (esc == b'\n') ≡ false
    → read_chars false (as_rune b'\\' ∷ as_rune esc ∷ rest) l buf
      ≡ read_chars false rest (forward 2 rest l) (buf ++ escape_bytes esc)
unfolding read_chars
read_chars-escape esc rest l buf h =
    let columns : l.col + 1 + 1 ≡ l.col + 2 = omega arith in rw (h, columns) refl

-- Any other rune of a string.
read_chars-own :
    (r : ℕ) (rest : List Rune) (l : Lexer) (buf : Bytes)
    → (r == b'"') ≡ false
    → (r == b'\\') ≡ false
    → (r == b'\n') ≡ false
    → read_chars false (as_rune r ∷ rest) l buf
      ≡ read_chars false rest (forward 1 rest l) (buf ++ encode_rune r)
unfolding read_chars
read_chars-own r rest l buf h k n = rw (h, k, n) refl

-- The loop reads one quoted rune as that rune.
read_chars-quote_rune :
    (r : ℕ) (rest : List Rune) (l : Lexer) (buf : Bytes)
    → read_chars false (map as_rune (quote_rune r) ++ rest) l buf
      ≡ read_chars false rest (forward (length (quote_rune r)) rest l) (buf ++ encode_rune r)
unfolding read_chars quote_rune escape_bytes encode_rune
read_chars-quote_rune r rest l buf = elim (Bool-cases (r == b'"')) [
  | inl quote ↦ rw (==→eq r b'"' quote) (read_chars-escape b'"' rest l buf refl)
  | inr no_quote ↦ elim (Bool-cases (r == b'\\')) [
    | inl backslash ↦ rw (==→eq r b'\\' backslash) (read_chars-escape b'\\' rest l buf refl)
    | inr no_backslash ↦ elim (Bool-cases (r == b'\n')) [
      | inl feed ↦ rw (==→eq r b'\n' feed) (read_chars-escape b'n' rest l buf refl)
      | inr no_feed ↦ elim (Bool-cases (r == b'\t')) [
        | inl tab ↦ rw (==→eq r b'\t' tab) (read_chars-escape b't' rest l buf refl)
        | inr no_tab ↦ elim (Bool-cases (r == b'\r')) [
          | inl return ↦ rw (==→eq r b'\r' return) (read_chars-escape b'r' rest l buf refl)
          | inr no_return ↦
              rw (no_quote, no_backslash, no_feed, no_tab, no_return)
                (read_chars-own r rest l buf no_quote no_backslash no_feed)
        ]
      ]
    ]
  ]
]

read_chars-quoted :
    (rs : List ℕ) (rest : List Rune) (l : Lexer) (buf : Bytes)
    → read_chars false (map as_rune (quoted rs) ++ as_rune b'"' ∷ rest) l buf
      ≡ ok (buf ++ encode_runes rs, forward (length (quoted rs) + 1) rest l)
unfolding quoted encode_runes
read_chars-quoted [] rest l buf = unfold read_chars in rw (append-nil buf) refl
read_chars-quoted (r ∷ rs) rest l buf =
    let k = length (quote_rune r) in
    let columns : l.col + k + (length (quoted rs) + 1) ≡ l.col + (k + length (quoted rs) + 1) =
      omega arith in
    let behind = map as_rune (quoted rs) ++ as_rune b'"' ∷ rest in
    rw (map-append as_rune (quote_rune r) (quoted rs), length-append (quote_rune r) (quoted rs))
      (ap (λ runes. read_chars false runes l buf)
          (append_assoc (map as_rune (quote_rune r)) (map as_rune (quoted rs)) _)
        ∙ read_chars-quote_rune r behind l buf
        ∙ read_chars-quoted rs rest (forward k behind l) (buf ++ encode_rune r)
        ∙ rw (append_assoc buf (encode_rune r) (encode_runes rs), columns) refl)

-- A quoted string is the runes of a string literal.
pub literal : List ℕ → List ℕ
unfolding quoted
literal rs = b'"' ∷ quoted rs ++ b'"' ∷ []

-- The lexer reads the literal of a string as that string, whatever stands behind it, and takes
-- nothing more than the literal.
pub next_token-literal :
    (rs : List ℕ) (rest : List Rune) (l : Lexer)
    → l.rest ≡ map as_rune (literal rs) ++ rest
    → next_token l
      ≡ ok (
        record { type = string; value = encode_runes rs; line = l.line; col = l.col },
        forward (length (literal rs)) rest l,
      )
unfolding next_token skip_whitespace_and_comments skip token_at token_of single read_string literal
    is_space
next_token-literal rs rest l h =
    let behind = map as_rune (quoted rs ++ b'"' ∷ []) ++ rest in
    let split : behind ≡ map as_rune (quoted rs) ++ as_rune b'"' ∷ rest =
      rw (map-append as_rune (quoted rs) (b'"' ∷ []))
        (append_assoc (map as_rune (quoted rs)) (as_rune b'"' ∷ []) rest) in
    let columns : l.col + 1 + (length (quoted rs) + 1)
        ≡ l.col + suc (length (quoted rs ++ b'"' ∷ [])) =
      omega (arith, length-append (quoted rs) (b'"' ∷ [])) in
    let inside = map as_rune (quoted rs) ++ as_rune b'"' ∷ rest in
    rw (h, split, read_chars-quoted rs rest (forward 1 inside l) [], columns) refl

AllValid-append : (rs ss : List ℕ) → AllValid rs → AllValid ss → AllValid (rs ++ ss)
AllValid-append [] ss h k = k
AllValid-append (r ∷ rs) ss (valid, h) k = (valid, AllValid-append rs ss h k)

AllValid-quote_rune : (r : ℕ) → is_valid r ≡ true → AllValid (quote_rune r)
unfolding quote_rune
AllValid-quote_rune r h = ground (arith, h)

AllValid-quoted : (rs : List ℕ) → AllValid rs → AllValid (quoted rs)
unfolding quoted
AllValid-quoted [] h = tt
AllValid-quoted (r ∷ rs) (valid, h) =
    AllValid-append (quote_rune r) (quoted rs) (AllValid-quote_rune r valid) (AllValid-quoted rs h)

AllValid-literal : (rs : List ℕ) → AllValid rs → AllValid (literal rs)
unfolding literal
AllValid-literal rs h =
    (refl, AllValid-append (quoted rs) (b'"' ∷ []) (AllValid-quoted rs h) (refl, tt))

-- A text that is the literal of a string, in UTF-8, reads as one token, the string itself, and
-- leaves nothing to read; the runes of the string are any that UTF-8 encodes.
pub next_token-new_lexer :
    (rs : List ℕ)
    → AllValid rs
    → next_token (new_lexer (encode_runes (literal rs)))
      ≡ ok (
        record { type = string; value = encode_runes rs; line = 1; col = 1 },
        record { rest = []; line = 1; col = 1 + length (literal rs) },
      )
unfolding new_lexer
next_token-new_lexer rs h = next_token-literal rs [] (new_lexer (encode_runes (literal rs))) (
    decode-encode_runes (literal rs) (AllValid-literal rs h)
    ∙ sym (append-nil (map as_rune (literal rs))))
