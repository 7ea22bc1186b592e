-- ===== src/Edn/Parser/Fuel.antt =====
-- edn/parser.go: the fuel of the parser, and what of the input each function takes.
use litelog.Prelude.{
  ℕ, zero, suc, ◌+◌, ◌≤◌, ◌<◌, ◌≡◌, ◌≢◌, refl, ◌⊎◌, inl, inr, Bytes, Bool, true, false, ◌==◌,
  length, arith, Bool-cases, Option, ◌%◌,
}
use litelog.Result.{
  Error, err, Returns, returns, fails, Returns->>=, Returns-mono, Returns-err, Returns-errors,
  out_of_fuel, unexpected_end,
}
use litelog.Edn.Lexer.{
  TokenType, eof, string, atom, lparen, rparen, lbracket, rbracket, lbrace, rbrace, hash, Token,
  Lexer, next_token,
}
use litelog.Edn.Lexer.Laws.{next_token-Advances, IsLexError, Advances}
use litelog.Edn.Node.{NodeType, node_list, node_vector, node_set, count}
use litelog.Edn.Parser.{
  Parser, new_parser, next, peek, type_eq, Reader, read_collection, read_map, read_hash, read_form,
  read_node, read_until, size, enough, parse, parse_loop, parse_all,
}

-- An error of the program's own.
abbrev IsReal : Error → Type 0
IsReal e = e ≢ out_of_fuel

IsLexError→IsReal : (e : Error) → IsLexError e → IsReal e
IsLexError→IsReal e h = elim h [ inl h ↦ λ k. cc | inr (inl h) ↦ λ k. cc | inr (inr h) ↦ λ k. cc ]

-- A token ends the input, or the test for that fails.
eof_or_not : (t : TokenType) → (t ≡ eof) ⊎ (type_eq t eof ≡ false)
eof_or_not eof = inl refl
eof_or_not string = inr refl
eof_or_not atom = inr refl
eof_or_not lparen = inr refl
eof_or_not rparen = inr refl
eof_or_not lbracket = inr refl
eof_or_not rbracket = inr refl
eof_or_not lbrace = inr refl
eof_or_not rbrace = inr refl
eof_or_not hash = inr refl

next_token-IsReal : (l : Lexer) → Returns IsReal (Advances l.rest) (next_token l)
next_token-IsReal l = Returns-errors (next_token l) IsLexError→IsReal (next_token-Advances l)

abbrev parser : Lexer → Token → Bool → Parser
parser l tok peeked = record { lexer = l; current = tok; peeked = peeked }

-- One token less, unless the input is at its end.
abbrev NextShrinks : Parser → Type 0
NextShrinks p = Returns IsReal (λ (tok, q). (tok.type ≡ eof) ⊎ (size q < size p)) (next p)

next-shrinks_fields : (l : Lexer) (tok : Token) (peeked : Bool) → NextShrinks (parser l tok peeked)
unfolding next
next-shrinks_fields l tok true =
    returns {a = (tok, parser l tok false)}
      (elim (eof_or_not tok.type) [ inl end ↦ inl end | inr more ↦ inr (rw more (omega arith)) ])
next-shrinks_fields l tok false = Returns->>= (next_token l) _ (next_token-IsReal l) (λ (t, k) _ h.
    returns {a = (t, parser k t false)}
      (elim h [ inl end ↦ inl end.0 | inr less ↦ inr (omega arith) ]))

next-shrinks : (p : Parser) → NextShrinks p
next-shrinks p = next-shrinks_fields p.lexer p.current p.peeked

abbrev PeekKeeps : Parser → Type 0
PeekKeeps p =
    Returns IsReal (λ (tok, q). (q.peeked ≡ true) × (q.current ≡ tok) × (size q ≤ size p)) (peek p)

peek_size :
    (t : Token) (k l : Lexer) → Advances l.rest (t, k) → size (parser k t true) ≤ length l.rest
peek_size t k l (inl (end, rest)) = rw (end, rest) (omega arith)
peek_size t k l (inr less) = ground arith

peek-keeps_fields : (l : Lexer) (tok : Token) (peeked : Bool) → PeekKeeps (parser l tok peeked)
unfolding peek
peek-keeps_fields l tok true = returns {a = (tok, parser l tok true)} (refl, refl, omega arith)
peek-keeps_fields l tok false = Returns->>= (next_token l) _ (next_token-IsReal l) (λ (t, k) _ h.
    returns {a = (t, parser k t true)} (refl, refl, ground (arith, peek_size t k l h)))

peek-keeps : (p : Parser) → PeekKeeps p
peek-keeps p = peek-keeps_fields p.lexer p.current p.peeked

next-closes_fields :
    (l : Lexer) (tok : Token) (peeked : Bool)
    → peeked ≡ true
    → type_eq tok.type eof ≡ false
    → Returns IsReal (λ (t, r). size r < size (parser l tok peeked)) (next (parser l tok peeked))
unfolding next
next-closes_fields l tok false h more = absurd cc
next-closes_fields l tok true h more =
    returns {a = (tok, parser l tok false)} (rw more (omega arith))

-- A closing token that was peeked at is taken off the input.
next-closes :
    (q : Parser)
    → q.peeked ≡ true
    → type_eq q.current.type eof ≡ false
    → Returns IsReal (λ (t, r). size r < size q) (next q)
next-closes q h more = next-closes_fields q.lexer q.current q.peeked h more

-- A reader that takes a part of the input, for every parser that has `n` at most to go.
abbrev ReaderShrinks : ℕ → Reader → Type 0
ReaderShrinks n reader =
    (closing : TokenType) (r : Parser)
    → size r ≤ n
    → Returns IsReal (λ (ns, s). size s < size r) (reader closing r)

read_collection-shrinks :
    (type : NodeType) (reader : Reader) (n : ℕ) (closing : TokenType) (line col : ℕ) (p : Parser)
    → ReaderShrinks n reader
    → size p ≤ n
    → Returns IsReal (λ (c, q). size q ≤ n) (read_collection type reader closing line col p)
unfolding read_collection
read_collection-shrinks type reader n closing line col p h le =
    Returns->>= (reader closing p) _ (h closing p le) (λ (ns, s) _ less. returns (omega arith))

read_map-shrinks :
    (reader : Reader) (n line col : ℕ) (p : Parser)
    → ReaderShrinks n reader
    → size p ≤ n
    → Returns IsReal (λ (c, q). size q ≤ n) (read_map reader line col p)
unfolding read_map
read_map-shrinks reader n line col p h le =
    Returns->>= (reader rbrace p) _ (h rbrace p le) (λ (ns, s) _ less.
      elim (Bool-cases (count ns % 2 == 0)) [
        | inl even ↦ rw even (returns (omega arith))
        | inr odd ↦ rw odd (fails (λ e. cc))
      ])

read_hash-shrinks :
    (reader : Reader) (n line col : ℕ) (p : Parser)
    → ReaderShrinks n reader
    → size p ≤ n
    → Returns IsReal (λ (c, q). size q ≤ n) (read_hash reader line col p)
unfolding read_hash
read_hash-shrinks reader n line col p h le =
    Returns->>= (next p) _ (next-shrinks p) (λ (tok, q) _ k. elim k [
      | inl end ↦ rw end (fails (λ e. cc))
      | inr less ↦ elim (Bool-cases (type_eq tok.type lbrace)) [
        | inl brace ↦
            rw brace (read_collection-shrinks node_set reader n rbrace line col q h (omega arith))
        | inr other ↦ rw other (fails (λ e. cc))
      ]
    ])

module _ (parse_float : Bytes → Option ℕ) where
  read_form-shrinks :
      (reader : Reader) (tok : Token) (p : Parser) (type : TokenType)
      → ReaderShrinks (size p) reader
      → Returns IsReal (λ (c, q). size q ≤ size p) (read_form parse_float reader tok p type)
  unfolding read_form
  read_form-shrinks reader tok p eof h = fails (λ e. cc)
  read_form-shrinks reader tok p string h = returns (omega arith)
  read_form-shrinks reader tok p atom h = returns (omega arith)
  read_form-shrinks reader tok p rparen h = fails (λ e. cc)
  read_form-shrinks reader tok p rbracket h = fails (λ e. cc)
  read_form-shrinks reader tok p rbrace h = fails (λ e. cc)
  read_form-shrinks reader tok p lparen h =
      read_collection-shrinks node_list reader (size p) rparen tok.line tok.col p h (omega arith)
  read_form-shrinks reader tok p lbracket h =
      read_collection-shrinks node_vector reader (size p) rbracket tok.line tok.col p h
        (omega arith)
  read_form-shrinks reader tok p lbrace h =
      read_map-shrinks reader (size p) tok.line tok.col p h (omega arith)
  read_form-shrinks reader tok p hash h =
      read_hash-shrinks reader (size p) tok.line tok.col p h (omega arith)

  -- With enough fuel, a node takes a part of the input.
  abbrev NodeShrinks : ℕ → Type 0
  NodeShrinks fuel =
      (p : Parser)
      → enough p ≤ fuel
      → Returns IsReal (λ (c, q). size q < size p) (read_node parse_float fuel p)

  abbrev UntilShrinks : ℕ → Type 0
  UntilShrinks fuel =
      (closing : TokenType) (p : Parser)
      → enough p + 1 ≤ fuel
      → Returns IsReal (λ (ns, q). size q < size p) (read_until parse_float fuel closing p)

  read_node-suc : (fuel : ℕ) → UntilShrinks fuel → NodeShrinks (suc fuel)
  unfolding read_node
  read_node-suc fuel h p le = Returns->>= (next p) _ (next-shrinks p) (λ (tok, q) _ k. elim k [
    | inl end ↦ rw end (unfold read_form in fails {e = unexpected_end} (λ e. cc))
    | inr less ↦
        Returns-mono (read_form parse_float (read_until parse_float fuel) tok q tok.type)
          (λ _ m. omega arith)
          (read_form-shrinks (read_until parse_float fuel) tok q tok.type
            (λ closing r m. h closing r (omega arith)))
  ])

  read_until-suc : (fuel : ℕ) → NodeShrinks fuel → UntilShrinks fuel → UntilShrinks (suc fuel)
  unfolding read_until
  read_until-suc fuel node until closing p le =
      Returns->>= (peek p) _ (peek-keeps p) (λ (tok, q) _ (peeked, current, keeps).
        elim (eof_or_not tok.type) [
          | inl end ↦ rw end (fails (λ e. cc))
          | inr more ↦ elim (Bool-cases (type_eq tok.type closing)) [
            | inl closes ↦
                rw (more, closes)
                  (Returns->>= (next q) _ (next-closes q peeked (rw current more))
                    (λ (t, r) _ less. returns (omega arith)))
            | inr child ↦
                rw (more, child)
                  (Returns->>= (read_node parse_float fuel q) _ (node q (omega arith))
                    (λ (n, r) _ shorter.
                      Returns->>= (read_until parse_float fuel closing r) _
                        (until closing r (omega arith)) (λ (ns, s) _ less. returns (omega arith))))
          ]
        ])

  shrinks : (fuel : ℕ) → NodeShrinks fuel × UntilShrinks fuel
  shrinks zero = (λ p h. absurd (omega arith), λ c p h. absurd (omega arith))
  shrinks (suc fuel) =
      let (node, until) = shrinks fuel in (read_node-suc fuel until, read_until-suc fuel node until)

  parse_loop-IsReal :
      (fuel : ℕ) (p : Parser)
      → size p < fuel
      → Returns IsReal (λ ns. Unit {0}) (parse_loop parse_float fuel p)
  unfolding parse_loop
  parse_loop-IsReal zero p h = absurd (omega arith)
  parse_loop-IsReal (suc fuel) p h =
      Returns->>= (peek p) _ (peek-keeps p) (λ (tok, q) _ (_, _, keeps).
        elim (Bool-cases (type_eq tok.type eof)) [
          | inl end ↦ rw end (returns tt)
          | inr more ↦ rw more (
              Returns->>= (read_node parse_float (enough q) q) _
                ((shrinks (enough q)).0 q (omega arith))
                (λ (n, r) _ less.
                  Returns->>= (parse_loop parse_float fuel r) _
                    (parse_loop-IsReal fuel r (omega arith)) (λ ns _ _. returns tt)))
        ])

  -- `Parse` ends on every input: its fuel never runs out.
  pub parse-IsReal : (input : Bytes) → parse parse_float input ≢ err out_of_fuel
  unfolding parse
  parse-IsReal input h =
      let p = new_parser input in
      Returns-err {P = λ n. Unit {0}}
        (Returns->>= (read_node parse_float (enough p) p) _ ((shrinks (enough p)).0 p (omega arith))
          (λ (n, q) _ _. returns tt))
        h refl

  -- `ParseAll` ends on every input: neither its fuel nor that of a node in it runs out.
  pub parse_all-IsReal : (input : Bytes) → parse_all parse_float input ≢ err out_of_fuel
  unfolding parse_all
  parse_all-IsReal input h =
      let p = new_parser input in
      Returns-err (parse_loop-IsReal (size p + 1) p (omega arith)) h refl
