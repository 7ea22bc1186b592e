-- ===== src/Edn/Lexer/Laws.antt =====
-- The lexer's progress, its errors, and where an atom ends.
use litelog.Prelude.{
  ℕ, ◌≤◌, ◌<◌, ◌≡◌, refl, ap, ◌⊎◌, inl, inr, Bytes, Bool, true, false, ◌||◌, List, [], ◌∷◌, ◌++◌,
  ◌==◌, length, arith, Bool-cases, length-append, Option, some, none,
}
use litelog.Result.{
  Error, unterminated_string, unterminated_escape, unexpected_character, Returns, returns, fails,
  Returns-mono, Returns->>=,
}
use litelog.Edn.Runes.{Rune, raw_bytes, encode_rune}
use litelog.Edn.Lexer.{
  TokenType, eof, Token, Lexer, advance, is_skipped, comment_after, skip,
  skip_whitespace_and_comments, is_delimiter, escape_bytes, read_chars, read_string, take_atom,
  atom_token, read_atom, single, token_of, token_at, next_token,
}

skip-length :
    (c : Bool) (rs : List Rune) (l : Lexer) → l.rest ≡ rs → length (skip c rs l).rest ≤ length rs
unfolding skip
skip-length c [] l h = rw h (omega arith)
skip-length c (r ∷ rs) l h = elim (Bool-cases (is_skipped c r.code)) [
  | inl more ↦
      rw more (omega (arith, skip-length (comment_after c r.code) rs (advance r rs l) refl))
  | inr done ↦ rw (done, h) (omega arith)
]

-- The errors of the lexer.
abbrev pub IsLexError : Error → Type 0
IsLexError e = (e ≡ unterminated_string) ⊎ (e ≡ unterminated_escape) ⊎ (e ≡ unexpected_character)

read_chars-length :
    (escaped : Bool) (rs : List Rune) (l : Lexer) (buf : Bytes)
    → Returns IsLexError (λ r. length r.1.rest < length rs) (read_chars escaped rs l buf)
unfolding read_chars
read_chars-length true [] l buf = fails (inr (inl refl))
read_chars-length false [] l buf = fails (inl refl)
read_chars-length true (r ∷ rs) l buf =
    Returns-mono _ (λ _ h. omega arith)
      (read_chars-length false rs (advance r rs l) (buf ++ escape_bytes r.code))
read_chars-length false (r ∷ rs) l buf = elim (Bool-cases (r.code == b'"')) [
  | inl quote ↦ rw quote (returns (omega arith))
  | inr plain ↦ elim (Bool-cases (r.code == b'\\')) [
    | inl escape ↦
        rw (plain, escape)
          (Returns-mono _ (λ _ h. omega arith) (read_chars-length true rs (advance r rs l) buf))
    | inr own ↦
        rw (plain, own)
          (Returns-mono _ (λ _ h. omega arith)
            (read_chars-length false rs (advance r rs l) (buf ++ encode_rune r.code)))
  ]
]

-- A rune that ends an atom.
abbrev pub is_end : Rune → Bool
is_end r = is_delimiter r.code || r.code == b'#'

-- No rune of these ends an atom.
abbrev pub AllAtomic : List Rune → Type 0
AllAtomic [] = Unit {0}
AllAtomic (r ∷ rs) = (is_end r ≡ false) × AllAtomic rs

-- There is no rune, or the first one ends an atom.
abbrev pub EndsAtom : List Rune → Type 0
EndsAtom [] = Unit {0}
EndsAtom (r ∷ rs) = is_end r ≡ true

-- The loop of an atom takes the runes up to the first that ends an atom, or all of them: its value is
-- their bytes, and the lexer it leaves stands behind them. The runes given are those of the lexer.
pub take_atom-munch :
    (rs : List Rune) (l : Lexer)
    → l.rest ≡ rs
    → (p : List Rune) × (rs ≡ p ++ (take_atom rs l).1.rest)
      × ((take_atom rs l).0 ≡ raw_bytes p)
      × AllAtomic p
      × EndsAtom (take_atom rs l).1.rest
unfolding take_atom raw_bytes
take_atom-munch [] l h = rw h ([], refl, refl, tt, tt)
take_atom-munch (r ∷ rs) l h = elim (Bool-cases (is_end r)) [
  | inl stop ↦ rw (stop, h) ([], refl, refl, tt, stop)
  | inr go ↦
      let (p, split, value, own, end) = take_atom-munch rs (advance r rs l) refl in
      rw go (r ∷ p, ap (λ q. r ∷ q) split, ap (λ q. r.raw ++ q) value, (go, own), end)
]

take_atom-length :
    (rs : List Rune) (l : Lexer) → l.rest ≡ rs → length (take_atom rs l).1.rest ≤ length rs
take_atom-length rs l h =
    let (p, split, _, _, _) = take_atom-munch rs l h in
    omega (arith, ap (λ q. length q) split, length-append p (take_atom rs l).1.rest)

-- The token ends the input, or some of the runes are behind it.
abbrev pub Advances : List Rune → Token × Lexer → Type 0
Advances rs (t, l) = ((t.type ≡ eof) × (l.rest ≡ [])) ⊎ (length l.rest < length rs)

read_string-length :
    (rs : List Rune) (l : Lexer) (line col : ℕ)
    → length l.rest < length rs
    → Returns IsLexError (Advances rs) (read_string line col l)
unfolding read_string
read_string-length rs l line col h =
    Returns->>= (read_chars false l.rest l []) _ (read_chars-length false l.rest l [])
      (λ r _ k. returns (inr (omega arith)))

atom_token-length :
    (rs : List Rune) (line col : ℕ) (r : Bytes × Lexer)
    → length r.1.rest < length rs
    → Returns IsLexError (Advances rs) (atom_token line col r)
unfolding atom_token
atom_token-length rs line col ([], l) h = fails (inr (inr refl))
atom_token-length rs line col (b ∷ value, l) h = returns (inr h)

read_atom-length :
    (r : Rune) (rs : List Rune) (l : Lexer) (line col : ℕ)
    → l.rest ≡ r ∷ rs
    → Returns IsLexError (Advances (r ∷ rs)) (read_atom line col l)
unfolding read_atom take_atom
read_atom-length r rs l line col h = rw h (elim (Bool-cases (is_end r)) [
  | inl stop ↦ rw stop (unfold atom_token in fails (inr (inr refl)))
  | inr go ↦ rw go (
      atom_token-length (r ∷ rs) line col
        (r.raw ++ (take_atom rs (advance r rs l)).0, (take_atom rs (advance r rs l)).1)
        (omega (arith, take_atom-length rs (advance r rs l) refl)))
])

token_of-Advances :
    (c : Option TokenType) (r : Rune) (rs : List Rune) (l : Lexer)
    → l.rest ≡ r ∷ rs
    → Returns IsLexError (Advances (r ∷ rs)) (token_of c r rs l)
unfolding token_of
token_of-Advances (some type) r rs l h = returns (inr (omega arith))
token_of-Advances none r rs l h = elim (Bool-cases (r.code == b'"')) [
  | inl quote ↦ rw quote (read_string-length (r ∷ rs) (advance r rs l) l.line l.col (omega arith))
  | inr plain ↦ rw plain (read_atom-length r rs l l.line l.col h)
]

token_at-Advances :
    (rs : List Rune) (l : Lexer) → l.rest ≡ rs → Returns IsLexError (Advances rs) (token_at rs l)
unfolding token_at
token_at-Advances [] l h = returns (inl (refl, h))
token_at-Advances (r ∷ rs) l h = token_of-Advances (single r.code) r rs l h

-- Every token but the end of the input takes a rune at least, and no error but those of the lexer
-- comes back.
pub next_token-Advances : (l : Lexer) → Returns IsLexError (Advances l.rest) (next_token l)
unfolding next_token skip_whitespace_and_comments
next_token-Advances l =
    let l' = skip false l.rest l in
    Returns-mono (token_at l'.rest l')
      (λ (t, k) h. elim h [
        | inl end ↦ inl end
        | inr shorter ↦ inr (omega (arith, skip-length false l.rest l refl))
      ])
      (token_at-Advances l'.rest l' refl)
