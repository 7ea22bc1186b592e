-- ===== src/Edn/Parser.antt =====
-- edn/parser.go: the recursive-descent parser over the lexer. `strconv.ParseFloat` is a parameter:
-- a function from the bytes to the bit pattern of the number, if there is one.
pub mod Fuel
pub mod Shape
use litelog.Prelude.{
  ℕ, zero, suc, ◌+◌, ◌-◌, ◌*◌, ◌%◌, ◌^◌, Bytes, Bool, true, false, not, ◌&&◌, ◌||◌, Option, some,
  none, List, [], ◌∷◌, ◌==◌, leb, ltb, bytes_eq, text, if◌then◌else◌, length, map,
}
use litelog.Result.{
  Result, ok, err, ◌>>=◌, unexpected_end, unexpected_closing, expected_brace, odd_map, out_of_fuel,
}
use litelog.Types.{word64}
use litelog.Edn.Lexer.{
  TokenType, eof, string, atom, lparen, rparen, lbracket, rbracket, lbrace, rbrace, hash, Token,
  Lexer, new_lexer, next_token,
}
use litelog.Edn.Node.{
  Node, node, Nodes, no_nodes, ◌▸◌, count, NodeType, node_nil, node_bool, node_int, node_float,
  node_string, node_symbol, node_keyword, node_list, node_vector, node_map, node_set,
}

-- `current` is the token last read, which is still to come when `peeked` is true.
pub record Parser : Type 0 where
  pub lexer : Lexer
  pub current : Token
  pub peeked : Bool

-- The zero value of Go's `Token`.
abbrev no_token : Token
no_token = record { type = eof; value = []; line = 0; col = 0 }

unfoldable pub new_parser : Bytes → Parser
new_parser input = record { lexer = new_lexer input; current = no_token; peeked = false }

-- `nextToken` and `peekToken`. What an error leaves of the parser is never read again.
unfoldable pub next : Parser → Result (Token × Parser)
next p =
    if p.peeked
    then ok (p.current, record p { peeked = false })
    else next_token p.lexer >>= λ (tok, l).
        ok (tok, record { lexer = l; current = tok; peeked = false })

unfoldable pub peek : Parser → Result (Token × Parser)
peek p =
    if p.peeked
    then ok (p.current, p)
    else next_token p.lexer >>= λ (tok, l).
        ok (tok, record { lexer = l; current = tok; peeked = true })

-- `==` on token types, whose numbers are their places.
abbrev type_number : TokenType → ℕ
type_number eof = 0
type_number string = 1
type_number atom = 2
type_number lparen = 3
type_number rparen = 4
type_number lbracket = 5
type_number rbracket = 6
type_number lbrace = 7
type_number rbrace = 8
type_number hash = 9

abbrev pub type_eq : TokenType → TokenType → Bool
type_eq t u = type_number t == type_number u

-- strconv.ParseInt(v, 10, 64): an optional sign and digits, within the range of int64; the result is
-- the bit pattern.
unfoldable pub digits : ℕ → Bytes → Option ℕ
digits n [] = some n
digits n (b ∷ s) = if leb b'0' b && leb b b'9' then digits (n * 10 + (b - b'0')) s else none

unfoldable pub magnitude : Bytes → Option ℕ
magnitude [] = none
magnitude (b ∷ s) = digits 0 (b ∷ s)

abbrev in_range : Bool → Option ℕ → Option ℕ
in_range negative none = none
in_range true (some n) = if leb n (2 ^ 63) then some ((word64 - n) % word64) else none
in_range false (some n) = if ltb n (2 ^ 63) then some n else none

unfoldable pub parse_int : Bytes → Option ℕ
parse_int [] = none
parse_int (b ∷ s) =
    if b == b'-'
    then in_range true (magnitude s)
    else if b == b'+'
    then in_range false (magnitude s)
    else in_range false (magnitude (b ∷ s))

-- A node without children.
abbrev pub leaf : NodeType → ℕ → ℕ → Token → Node
leaf type int_val float_val tok = node type tok.value int_val float_val no_nodes tok.line tok.col

-- strings.HasPrefix(v, ":")
abbrev pub has_colon : Bytes → Bool
has_colon [] = false
has_colon (b ∷ s) = b == b':'

-- `classifyAtom` behind its first tests: integers first, then floats, then symbols.
abbrev pub number_or_symbol : Option ℕ → Option ℕ → Token → Node
number_or_symbol (some i) _ tok = leaf node_int i 0 tok
number_or_symbol none (some f) tok = leaf node_float 0 f tok
number_or_symbol none none tok = leaf node_symbol 0 0 tok

module _ (parse_float : Bytes → Option ℕ) where
  unfoldable pub classify_atom : Token → Node
  classify_atom tok =
      let v = tok.value in
      if bytes_eq v (text "nil")
      then leaf node_nil 0 0 tok
      else if bytes_eq v (text "true")
      then leaf node_bool 0 0 tok
      else if bytes_eq v (text "false")
      then leaf node_bool 0 0 tok
      else if has_colon v
      then leaf node_keyword 0 0 tok
      else number_or_symbol (parse_int v) (parse_float v) tok

-- What `readUntil` is to its callers: it reads nodes up to the closing token, and takes that.
abbrev pub Reader : Type 0
Reader = TokenType → Parser → Result (Nodes × Parser)

abbrev pub collection : NodeType → Nodes → ℕ → ℕ → Node
collection type children line col = node type [] 0 0 children line col

-- `readList`, `readVector` and `readSet`
unfoldable pub read_collection :
    NodeType → Reader → TokenType → ℕ → ℕ → Parser → Result (Node × Parser)
read_collection type read_until closing line col p =
    read_until closing p >>= λ (children, q). ok (collection type children line col, q)

unfoldable pub read_map : Reader → ℕ → ℕ → Parser → Result (Node × Parser)
read_map read_until line col p = read_until rbrace p >>= λ (children, q).
    if count children % 2 == 0 then ok (collection node_map children line col, q) else err odd_map

-- The branch of `readNode` behind a `#`.
unfoldable pub read_hash : Reader → ℕ → ℕ → Parser → Result (Node × Parser)
read_hash read_until line col p = next p >>= λ (tok, q).
    if type_eq tok.type lbrace
    then read_collection node_set read_until rbrace line col q
    else err expected_brace

-- How much of the input a parser has to go: its runes, and the token that it has peeked at.
abbrev pub size : Parser → ℕ
size p = length p.lexer.rest + (if p.peeked && not (type_eq p.current.type eof) then 1 else 0)

-- The fuel that is enough for `readNode`.
abbrev pub enough : Parser → ℕ
enough p = size p * 2 + 1

module _ (parse_float : Bytes → Option ℕ) where
  -- `readNode` at its token.
  unfoldable pub read_form : Reader → Token → Parser → TokenType → Result (Node × Parser)
  read_form read_until tok p eof = err unexpected_end
  read_form read_until tok p lparen = read_collection node_list read_until rparen tok.line tok.col p
  read_form read_until tok p lbracket =
      read_collection node_vector read_until rbracket tok.line tok.col p
  read_form read_until tok p lbrace = read_map read_until tok.line tok.col p
  read_form read_until tok p hash = read_hash read_until tok.line tok.col p
  read_form read_until tok p string = ok (leaf node_string 0 0 tok, p)
  read_form read_until tok p atom = ok (classify_atom parse_float tok, p)
  read_form read_until tok p rparen = err unexpected_closing
  read_form read_until tok p rbracket = err unexpected_closing
  read_form read_until tok p rbrace = err unexpected_closing

  -- `readNode` and the loop of `readUntil`, on fuel: the Go functions call each other.
  unfoldable mutual
    pub read_node : ℕ → Parser → Result (Node × Parser)
    read_node zero p = err out_of_fuel
    read_node (suc fuel) p = next p >>= λ (tok, q). read_form (read_until fuel) tok q tok.type

    pub read_until : ℕ → TokenType → Parser → Result (Nodes × Parser)
    read_until zero closing p = err out_of_fuel
    read_until (suc fuel) closing p = peek p >>= λ (tok, q).
        if type_eq tok.type eof
        then err unexpected_end
        else if type_eq tok.type closing
        then (next q >>= λ (tok, r). ok (no_nodes, r))
        else read_node fuel q >>= λ (child, r).
            read_until fuel closing r >>= λ (children, s). ok (child ▸ children, s)

  -- `Parse`
  unfoldable pub parse : Bytes → Result Node
  parse input = let p = new_parser input in read_node (enough p) p >>= λ (n, q). ok n

  -- `ParseAll`
  pub parse_loop : ℕ → Parser → Result Nodes
  parse_loop zero p = err out_of_fuel
  parse_loop (suc fuel) p = peek p >>= λ (tok, q).
      if type_eq tok.type eof
      then ok no_nodes
      else read_node (enough q) q >>= λ (n, r). parse_loop fuel r >>= λ nodes. ok (n ▸ nodes)

  pub parse_all : Bytes → Result Nodes
  parse_all input = let p = new_parser input in parse_loop (size p + 1) p
