-- ===== src/Edn/Parser/Shape.antt =====
-- edn/parser.go: the shape of the nodes that come out of it.
use litelog.Prelude.{
  ℕ, zero, suc, ◌≡◌, refl, inl, inr, ◌⊎◌, Bytes, Bool, true, false, ◌||◌, arith, Option, some, none,
  [], ◌==◌, ==→eq, ◌%◌, bytes_eq, bytes_eq→eq, text, Bool-cases,
}
use litelog.Result.{Error, Result, ok, err, Returns, returns, fails, Returns->>=, Returns-ok}
use litelog.Edn.Lexer.{
  TokenType, eof, string, atom, lparen, rparen, lbracket, rbracket, lbrace, rbrace, hash, Token,
}
use litelog.Edn.Node.{
  Node, node, Nodes, no_nodes, ◌▸◌, count, NodeType, node_nil, node_bool, node_int, node_float,
  node_string, node_symbol, node_keyword, node_list, node_vector, node_map, node_set,
}
use litelog.Edn.Parser.{
  Parser, new_parser, next, peek, type_eq, Reader, read_collection, read_map, read_hash, leaf,
  has_colon, parse_int, number_or_symbol, classify_atom, read_form, read_node, read_until, enough,
  parse,
}

abbrev Ignored : Error → Type 0
Ignored e = Unit {0}

module _ (parse_float : Bytes → Option ℕ) where
  -- The three words that are not symbols.
  abbrev pub is_word : Bytes → Bool
  is_word v = bytes_eq v (text "nil") || bytes_eq v (text "true") || bytes_eq v (text "false")

  -- What the fields of a node of some type are to each other: an atom is of the first type that fits.
  abbrev pub Shape : NodeType → Bytes → ℕ → ℕ → Nodes → Type 0
  Shape node_nil v i f children = (v ≡ text "nil") × (children ≡ no_nodes)
  Shape node_bool v i f children = ((v ≡ text "true") ⊎ (v ≡ text "false")) × (children ≡ no_nodes)
  Shape node_int v i f children =
      (is_word v ≡ false) × (has_colon v ≡ false) × (parse_int v ≡ some i) × (children ≡ no_nodes)
  Shape node_float v i f children =
      (is_word v ≡ false)
      × (has_colon v ≡ false)
      × (parse_int v ≡ none)
      × (parse_float v ≡ some f)
      × (children ≡ no_nodes)
  Shape node_string v i f children = children ≡ no_nodes
  Shape node_symbol v i f children =
      (is_word v ≡ false)
      × (has_colon v ≡ false)
      × (parse_int v ≡ none)
      × (parse_float v ≡ none)
      × (children ≡ no_nodes)
  Shape node_keyword v i f children =
      (is_word v ≡ false) × (has_colon v ≡ true) × (children ≡ no_nodes)
  Shape node_list v i f children = v ≡ []
  Shape node_vector v i f children = v ≡ []
  Shape node_map v i f children = (v ≡ []) × (count children % 2 ≡ 0)
  Shape node_set v i f children = v ≡ []

  -- A node and all nodes in it have the shape of their type.
  mutual
    pub IsWellFormed : Node → Type 0
    IsWellFormed (node type v i f children line col) =
        Shape type v i f children × AreWellFormed children

    pub AreWellFormed : Nodes → Type 0
    AreWellFormed no_nodes = Unit {0}
    AreWellFormed (n ▸ ns) = IsWellFormed n × AreWellFormed ns

  number_or_symbol-IsWellFormed :
      (i f : Option ℕ) (tok : Token)
      → is_word tok.value ≡ false
      → parse_int tok.value ≡ i
      → parse_float tok.value ≡ f
      → has_colon tok.value ≡ false
      → IsWellFormed (number_or_symbol i f tok)
  unfolding IsWellFormed AreWellFormed
  number_or_symbol-IsWellFormed (some i) f tok w h k c = ((w, c, h, refl), tt)
  number_or_symbol-IsWellFormed none (some f) tok w h k c = ((w, c, h, k, refl), tt)
  number_or_symbol-IsWellFormed none none tok w h k c = ((w, c, h, k, refl), tt)

  classify_atom-IsWellFormed : (tok : Token) → IsWellFormed (classify_atom parse_float tok)
  unfolding classify_atom IsWellFormed AreWellFormed
  classify_atom-IsWellFormed tok =
      let v = tok.value in
      elim (Bool-cases (bytes_eq v (text "nil"))) [
        | inl nil ↦ rw nil ((bytes_eq→eq v (text "nil") nil, refl), tt)
        | inr not_nil ↦ elim (Bool-cases (bytes_eq v (text "true"))) [
          | inl yes_value ↦
              rw (not_nil, yes_value) ((inl (bytes_eq→eq v (text "true") yes_value), refl), tt)
          | inr not_true ↦ elim (Bool-cases (bytes_eq v (text "false"))) [
            | inl no_value ↦
                rw (not_nil, not_true, no_value)
                  ((inr (bytes_eq→eq v (text "false") no_value), refl), tt)
            | inr not_false ↦ elim (Bool-cases (has_colon v)) [
              | inl colon ↦
                  rw (not_nil, not_true, not_false, colon)
                    ((no_word not_nil not_true not_false, colon, refl), tt)
              | inr other ↦
                  rw (not_nil, not_true, not_false, other)
                    (number_or_symbol-IsWellFormed (parse_int v) (parse_float v) tok
                      (no_word not_nil not_true not_false) refl refl other)
            ]
          ]
        ]
      ]
    where
      no_word :
          bytes_eq tok.value (text "nil") ≡ false
          → bytes_eq tok.value (text "true") ≡ false
          → bytes_eq tok.value (text "false") ≡ false
          → is_word tok.value ≡ false
      no_word a b c = ground (arith, a, b, c)

  abbrev ReaderGood : Reader → Type 0
  ReaderGood reader =
      (closing : TokenType) (p : Parser)
      → Returns Ignored (λ r. AreWellFormed r.0) (reader closing p)

  abbrev Good : Result (Node × Parser) → Type 0
  Good m = Returns Ignored (λ r. IsWellFormed r.0) m

  -- The collections whose elements are not counted.
  abbrev IsSequence : NodeType → Type 0
  IsSequence type = (v : Bytes) (children : Nodes) → v ≡ [] → Shape type v 0 0 children

  read_collection-Good :
      (type : NodeType) (reader : Reader) (closing : TokenType) (line col : ℕ) (p : Parser)
      → IsSequence type
      → ReaderGood reader
      → Good (read_collection type reader closing line col p)
  unfolding read_collection IsWellFormed
  read_collection-Good type reader closing line col p s h =
      Returns->>= (reader closing p) _ (h closing p)
        (λ (ns, q) _ good. returns (s [] ns refl, good))

  read_map-Good :
      (reader : Reader) (line col : ℕ) (p : Parser)
      → ReaderGood reader
      → Good (read_map reader line col p)
  unfolding read_map IsWellFormed
  read_map-Good reader line col p h =
      Returns->>= (reader rbrace p) _ (h rbrace p) (λ (ns, q) _ good.
        elim (Bool-cases (count ns % 2 == 0)) [
          | inl even ↦ rw even (returns ((refl, ==→eq (count ns % 2) 0 even), good))
          | inr odd ↦ rw odd (fails tt)
        ])

  any_result : {A : Type 0} (m : Result A) → Returns Ignored (λ _. Unit {0}) m
  any_result (ok a) = returns tt
  any_result (err e) = fails tt

  read_hash-Good :
      (reader : Reader) (line col : ℕ) (p : Parser)
      → ReaderGood reader
      → Good (read_hash reader line col p)
  unfolding read_hash
  read_hash-Good reader line col p h = Returns->>= (next p) _ (any_result (next p)) (λ (tok, q) _ _.
      elim (Bool-cases (type_eq tok.type lbrace)) [
        | inl brace ↦
            rw brace (read_collection-Good node_set reader rbrace line col q (λ v c e. e) h)
        | inr other ↦ rw other (fails tt)
      ])

  string-IsWellFormed : (tok : Token) → IsWellFormed (leaf node_string 0 0 tok)
  unfolding IsWellFormed AreWellFormed
  string-IsWellFormed tok = (refl, tt)

  read_form-Good :
      (reader : Reader) (tok : Token) (p : Parser) (type : TokenType)
      → ReaderGood reader
      → Good (read_form parse_float reader tok p type)
  unfolding read_form
  read_form-Good reader tok p eof h = fails tt
  read_form-Good reader tok p rparen h = fails tt
  read_form-Good reader tok p rbracket h = fails tt
  read_form-Good reader tok p rbrace h = fails tt
  read_form-Good reader tok p string h = returns (string-IsWellFormed tok)
  read_form-Good reader tok p atom h = returns (classify_atom-IsWellFormed tok)
  read_form-Good reader tok p lparen h =
      read_collection-Good node_list reader rparen tok.line tok.col p (λ v c e. e) h
  read_form-Good reader tok p lbracket h =
      read_collection-Good node_vector reader rbracket tok.line tok.col p (λ v c e. e) h
  read_form-Good reader tok p lbrace h = read_map-Good reader tok.line tok.col p h
  read_form-Good reader tok p hash h = read_hash-Good reader tok.line tok.col p h

  abbrev NodeGood : ℕ → Type 0
  NodeGood fuel = (p : Parser) → Good (read_node parse_float fuel p)

  read_node-suc : (fuel : ℕ) → ReaderGood (read_until parse_float fuel) → NodeGood (suc fuel)
  unfolding read_node
  read_node-suc fuel h p =
      Returns->>= (next p) _ (any_result (next p))
        (λ (tok, q) _ _. read_form-Good (read_until parse_float fuel) tok q tok.type h)

  read_until-suc :
      (fuel : ℕ)
      → NodeGood fuel
      → ReaderGood (read_until parse_float fuel)
      → ReaderGood (read_until parse_float (suc fuel))
  unfolding read_until AreWellFormed
  read_until-suc fuel node_good h closing p =
      Returns->>= (peek p) _ (any_result (peek p)) (λ (tok, q) _ _.
        elim (Bool-cases (type_eq tok.type eof)) [
          | inl end ↦ rw end (fails tt)
          | inr more ↦ elim (Bool-cases (type_eq tok.type closing)) [
            | inl closes ↦
                rw (more, closes)
                  (Returns->>= (next q) _ (any_result (next q)) (λ (t, r) _ _. returns tt))
            | inr child ↦
                rw (more, child)
                  (Returns->>= (read_node parse_float fuel q) _ (node_good q) (λ (n, r) _ good.
                    Returns->>= (read_until parse_float fuel closing r) _ (h closing r)
                      (λ (ns, s) _ goods. returns (good, goods))))
          ]
        ])

  both_good : (fuel : ℕ) → NodeGood fuel × ReaderGood (read_until parse_float fuel)
  unfolding read_node read_until
  both_good zero = (λ p. fails tt, λ c p. fails tt)
  both_good (suc fuel) =
      let (n, u) = both_good fuel in (read_node-suc fuel u, read_until-suc fuel n u)

  -- A node that is parsed has, at every depth, the shape of its type: a map has an even number of
  -- elements, an atom none, a collection no text, and each atom is of the first type that its text
  -- fits, with its number where it is one.
  pub parse-IsWellFormed :
      (input : Bytes) (n : Node) → parse parse_float input ≡ ok n → IsWellFormed n
  unfolding parse
  parse-IsWellFormed input n h =
      let p = new_parser input in
      Returns-ok {P = IsWellFormed}
        (Returns->>= (read_node parse_float (enough p) p) _ ((both_good (enough p)).0 p)
          (λ (m, q) _ good. returns good))
        h
