-- ===== src/Pull/Rows.antt =====
-- pull.go: the rows that the statements of a pull select, from the current facts or from the history as a
-- view sees it, in the order in which the tables have them.
pub mod Seen
pub mod Lengths
use litelog.Prelude.{
  ℕ, zero, suc, ◌≡◌, refl, inl, inr, Bytes, Bool, true, false, not, ◌&&◌, ◌||◌, Option, none, some,
  List, [], ◌∷◌, ◌==◌, ltb, bytes_eq, if◌then◌else◌, any, Bool-cases, Option-cases, arith,
}
use litelog.Result.{Result, ok, err, ◌>>=◌}
use litelog.Types.{GoValue, ValueType}
use litelog.Values.{decode_value}
use litelog.Store.{Tables, LogRow, CurrentRow, is_log_fact, is_fact, holds}
use litelog.Temporal.{DbView, pull_visible, valid_at, pull_has}
use litelog.TypedRead.{read_typed_column_from_pull}

-- SELECT a, v, v_type FROM … WHERE e = ?
pub record PullRow : Type 0 where
  pub a : ℕ
  pub v : Bytes
  pub v_type : ValueType

unfoldable pub current_rows : ℕ → List CurrentRow → List CurrentRow
current_rows e [] = []
current_rows e (r ∷ rows) = let rest = current_rows e rows in if r.e == e then r ∷ rest else rest

-- The value of a row: from its typed column, or else from the blob.
unfoldable pub read_current_row : CurrentRow → Result (ℕ × GoValue)
read_current_row r = elim (read_typed_column_from_pull r.typed r.v_type) [
  | some v ↦ ok (r.a, v)
  | none ↦ decode_value r.v r.v_type >>= λ v. ok (r.a, v)
]

unfoldable pub read_current_rows : List CurrentRow → Result (List (ℕ × GoValue))
read_current_rows [] = ok []
read_current_rows (r ∷ rows) =
    read_current_row r >>= λ v. read_current_rows rows >>= λ vs. ok (v ∷ vs)

-- The rows of `pullWildcard`.
unfoldable pub read_current_entity : Tables → ℕ → Result (List (ℕ × GoValue))
read_current_entity t e = read_current_rows (current_rows e t.current_datoms)

abbrev pub of_current : CurrentRow → PullRow
of_current r = record { a = r.a; v = r.v; v_type = r.v_type }

unfoldable pub current_entity : ℕ → List CurrentRow → List PullRow
current_entity e [] = []
current_entity e (r ∷ rows) =
    let rest = current_entity e rows in if r.e == e then of_current r ∷ rest else rest

abbrev pub of_log : LogRow → PullRow
of_log r = record { a = r.a; v = r.v; v_type = r.v_type }

unfoldable pub log_entity : (LogRow → Bool) → ℕ → List LogRow → List PullRow
log_entity visible e [] = []
log_entity visible e (r ∷ rows) =
    let rest = log_entity visible e rows in if r.e == e && visible r then of_log r ∷ rest else rest

-- `temporalParams`: the table and the conditions of a view.
unfoldable pub view_entity : DbView → Tables → ℕ → List PullRow
view_entity view t e =
    if ltb 0 view.tx_id
    then log_entity (pull_visible view.tx_id t.datoms) e t.datoms
    else elim view.valid_time [
      | none ↦ current_entity e t.current_datoms
      | some ms ↦ log_entity (λ r. r.added && valid_at ms r) e t.datoms
    ]

-- … AND a = ?
unfoldable pub of_attribute : ℕ → List PullRow → List PullRow
of_attribute a [] = []
of_attribute a (r ∷ rows) = let rest = of_attribute a rows in if r.a == a then r ∷ rest else rest

-- `readValueFromStmt`
abbrev pub read_value : PullRow → Result GoValue
read_value r = decode_value r.v r.v_type

unfoldable pub read_values : List PullRow → Result (List (ℕ × GoValue))
read_values [] = ok []
read_values (r ∷ rows) = read_value r >>= λ v. read_values rows >>= λ vs. ok ((r.a, v) ∷ vs)

-- The rows of `pullWildcardTemporal`.
unfoldable pub read_view_entity : DbView → Tables → ℕ → Result (List (ℕ × GoValue))
read_view_entity view t e = read_values (view_entity view t e)
