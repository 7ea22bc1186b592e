-- ===== src/Edn/Tests.antt =====
-- edn/ on small texts, and its theorems there.
use litelog.Prelude.{
  bytes_eq, ℕ, ◌≡◌, ◌≢◌, refl, text, Bytes, [], ◌∷◌, List, none, Option, length, ◌++◌, ◌+◌,
}
use litelog.Result.{ok, err, out_of_fuel, Returns}
use litelog.Edn.Runes.{Rune, decode, decode_rune, raw_bytes, is_space}
use litelog.Edn.Runes.Utf8.{encode_runes, as_rune}
use litelog.Edn.Lexer.{
  Lexer, string, new_lexer, next_token, take_atom, token_at, token_of, single, read_atom,
  atom_token, is_delimiter, skip_whitespace_and_comments, skip,
}
use litelog.Edn.Lexer.Laws.{
  next_token-Advances, Advances, IsLexError, take_atom-munch, AllAtomic, EndsAtom,
}
use litelog.Edn.Lexer.Quoted.{literal, next_token-new_lexer}
use litelog.Edn.Node.{Node, node, no_nodes, ◌▸◌, node_map, node_int, node_keyword}
use litelog.Edn.Parser.{
  parse, parse_all, read_node, read_until, read_form, read_map, next, peek, new_parser,
  classify_atom, parse_int, magnitude, digits,
}
use litelog.Edn.Parser.Shape.{parse-IsWellFormed, IsWellFormed}
use litelog.Edn.Parser.Fuel.{parse-IsReal, parse_all-IsReal}

-- No float at all.
abbrev no_float : Bytes → Option ℕ
no_float v = none

-- An é, a quote and a line feed.
abbrev runes : List ℕ
runes = 0xe9 ∷ b'"' ∷ b'\n' ∷ []

next_token-new_lexer_example :
    next_token (new_lexer (encode_runes (literal runes)))
    ≡ ok (
      record { type = string; value = encode_runes runes; line = 1; col = 1 },
      record { rest = []; line = 1; col = 1 + length (literal runes) },
    )
next_token-new_lexer_example = next_token-new_lexer runes (refl, (refl, (refl, tt)))

abbrev atom_lexer : Lexer
atom_lexer = record { rest = as_rune b'a' ∷ as_rune b'1' ∷ as_rune b']' ∷ []; line = 1; col = 1 }

next_token-Advances_example : Returns IsLexError (Advances atom_lexer.rest) (next_token atom_lexer)
next_token-Advances_example = next_token-Advances atom_lexer

take_atom-munch_example :
    (p : List Rune) × (atom_lexer.rest ≡ p ++ (take_atom atom_lexer.rest atom_lexer).1.rest)
    × ((take_atom atom_lexer.rest atom_lexer).0 ≡ raw_bytes p)
    × AllAtomic p
    × EndsAtom (take_atom atom_lexer.rest atom_lexer).1.rest
take_atom-munch_example = take_atom-munch atom_lexer.rest atom_lexer refl

parse-IsReal_example : parse no_float (text "[:a {1 \"b\"} #{(c)}]") ≢ err out_of_fuel
parse-IsReal_example = parse-IsReal no_float (text "[:a {1 \"b\"} #{(c)}]")

parse_all-IsReal_example : parse_all no_float (text "1 [2 ; three\n]") ≢ err out_of_fuel
parse_all-IsReal_example = parse_all-IsReal no_float (text "1 [2 ; three\n]")

-- `{:a -7}`, whose keyword and number stand in columns 2 and 5.
abbrev small : Bytes
small = text "{:a -7}"

abbrev small_node : Node
small_node =
    node node_map [] 0 0
      (node node_keyword (text ":a") 0 0 no_nodes 1 2
        ▸ node node_int (text "-7") 0xffff_ffff_ffff_fff9 0 no_nodes 1 5
        ▸ no_nodes)
      1 1

parse-small : parse no_float small ≡ ok small_node
unfolding parse read_node read_until read_form read_map next peek new_parser classify_atom parse_int
    magnitude digits next_token token_at token_of single read_atom atom_token take_atom is_delimiter
    skip_whitespace_and_comments skip new_lexer decode decode_rune is_space raw_bytes bytes_eq
parse-small = refl

parse-IsWellFormed_example : IsWellFormed no_float small_node
parse-IsWellFormed_example = parse-IsWellFormed no_float small small_node parse-small
