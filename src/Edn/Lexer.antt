-- ===== src/Edn/Lexer.antt =====
-- edn/token.go and edn/lexer.go: tokens and the lexer, over the runes of the input.
pub mod Laws
pub mod Quoted
use litelog.Prelude.{
  ℕ, ◌+◌, Bytes, Bool, true, false, not, ◌&&◌, ◌||◌, List, [], ◌∷◌, ◌++◌, ◌==◌, Option, some, none,
  if◌then◌else◌,
}
use litelog.Result.{
  Result, ok, err, unterminated_string, unterminated_escape, unexpected_character, ◌>>=◌,
}
use litelog.Edn.Runes.{Rune, decode, encode_rune, is_space}

pub data TokenType : Type 0 where
  eof string atom lparen rparen lbracket rbracket lbrace rbrace hash : TokenType

pub record Token : Type 0 where
  pub type : TokenType
  pub value : Bytes
  pub line : ℕ
  pub col : ℕ

-- `rest` are the runes of `input[pos:]`; `pos` itself is read for nothing else.
pub record Lexer : Type 0 where
  pub rest : List Rune
  pub line : ℕ
  pub col : ℕ

unfoldable pub new_lexer : Bytes → Lexer
new_lexer input = record { rest = decode input; line = 1; col = 1 }

-- `advance` past the rune `r`, to the runes `rest` behind it.
abbrev pub advance : Rune → List Rune → Lexer → Lexer
advance r rest l = record {
  rest = rest;
  line = if r.code == b'\n' then l.line + 1 else l.line;
  col = if r.code == b'\n' then 1 else l.col + 1;
}

-- The runes that start or go on with what is skipped, and whether they leave the loop in a line
-- comment: the inner loop stops in front of a line feed, which the outer loop skips as a space.
abbrev pub is_skipped : Bool → ℕ → Bool
is_skipped in_comment r = in_comment || is_space r || r == b',' || r == b';'

abbrev pub comment_after : Bool → ℕ → Bool
comment_after true r = not (r == b'\n')
comment_after false r = r == b';'

-- Both loops of `skipWhitespaceAndComments`, on the runes of the lexer `l`.
unfoldable pub skip : Bool → List Rune → Lexer → Lexer
skip in_comment [] l = l
skip in_comment (r ∷ rest) l =
    let skipped = skip (comment_after in_comment r.code) rest (advance r rest l) in
    if is_skipped in_comment r.code then skipped else l

unfoldable pub skip_whitespace_and_comments : Lexer → Lexer
skip_whitespace_and_comments l = skip false l.rest l

unfoldable pub is_delimiter : ℕ → Bool
is_delimiter r =
    r == b'('
    || r == b')'
    || r == b'['
    || r == b']'
    || r == b'{'
    || r == b'}'
    || r == b'"'
    || r == b';'
    || is_space r
    || r == b','

-- The bytes that an escape stands for: an unknown one stays with its backslash.
pub escape_bytes : ℕ → Bytes
escape_bytes esc =
    if esc == b'"'
    then b'"' ∷ []
    else if esc == b'\\'
    then b'\\' ∷ []
    else if esc == b'n'
    then b'\n' ∷ []
    else if esc == b't'
    then b'\t' ∷ []
    else if esc == b'r'
    then b'\r' ∷ []
    else b'\\' ∷ encode_rune esc

-- The loop of `readString`, with the bytes read so far; `escaped` is true behind a backslash. The
-- second clause is the branch of an escape, the last the one of a rune of the string's own.
unfoldable pub read_chars : Bool → List Rune → Lexer → Bytes → Result (Bytes × Lexer)
read_chars true [] l buf = err unterminated_escape
read_chars true (esc ∷ rest) l buf =
    read_chars false rest (advance esc rest l) (buf ++ escape_bytes esc.code)
read_chars false [] l buf = err unterminated_string
read_chars false (r ∷ rest) l buf =
    let l' = advance r rest l in
    if r.code == b'"'
    then ok (buf, l')
    else if r.code == b'\\'
    then read_chars true rest l' buf
    else read_chars false rest l' (buf ++ encode_rune r.code)

-- `readString` behind its opening quote; the token stands where that quote stands.
unfoldable pub read_string : ℕ → ℕ → Lexer → Result (Token × Lexer)
read_string line col l = read_chars false l.rest l [] >>= λ (value, l').
    ok (record { type = string; value = value; line = line; col = col }, l')

-- The loop of `readAtom`, and the bytes between its start and its end.
unfoldable pub take_atom : List Rune → Lexer → Bytes × Lexer
take_atom [] l = ([], l)
take_atom (r ∷ rest) l =
    let (value, l') = take_atom rest (advance r rest l) in
    if is_delimiter r.code || r.code == b'#' then ([], l) else (r.raw ++ value, l')

unfoldable pub atom_token : ℕ → ℕ → Bytes × Lexer → Result (Token × Lexer)
atom_token line col ([], l) = err unexpected_character
atom_token line col (b ∷ value, l) =
    ok (record { type = atom; value = b ∷ value; line = line; col = col }, l)

unfoldable pub read_atom : ℕ → ℕ → Lexer → Result (Token × Lexer)
read_atom line col l = atom_token line col (take_atom l.rest l)

-- The first cases of `NextToken`: the tokens of one rune.
unfoldable pub single : ℕ → Option TokenType
single r =
    if r == b'('
    then some lparen
    else if r == b')'
    then some rparen
    else if r == b'['
    then some lbracket
    else if r == b']'
    then some rbracket
    else if r == b'{'
    then some lbrace
    else if r == b'}'
    then some rbrace
    else if r == b'#'
    then some hash
    else none

-- `NextToken` at its first rune, by the case of it.
unfoldable pub token_of : Option TokenType → Rune → List Rune → Lexer → Result (Token × Lexer)
token_of (some type) r rest l =
    ok (record { type = type; value = r.code ∷ []; line = l.line; col = l.col }, advance r rest l)
token_of none r rest l =
    if r.code == b'"' then read_string l.line l.col (advance r rest l) else read_atom l.line l.col l

-- `NextToken` behind the white space.
unfoldable pub token_at : List Rune → Lexer → Result (Token × Lexer)
token_at [] l = ok (record { type = eof; value = []; line = l.line; col = l.col }, l)
token_at (r ∷ rest) l = token_of (single r.code) r rest l

unfoldable pub next_token : Lexer → Result (Token × Lexer)
next_token l = let l' = skip_whitespace_and_comments l in token_at l'.rest l'
