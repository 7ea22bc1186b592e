-- ===== src/Temporal.antt =====
-- The rows that a temporal view reads: the SQL conditions of `temporalParams` (pull.go) for a pull
-- and of `applyAsOf` (query_api.go) for a query, on the table of the history. The table's name and
-- the binding of its parameters are left out.
pub mod AsOf
pub mod Tests
use litelog.Prelude.{
  ℕ, zero, suc, ◌^◌, ◌-◌, ◌≡◌, Bytes, Bool, true, false, not, ◌&&◌, ◌||◌, Option, none, some, List,
  [], ◌∷◌, ◌==◌, leb, ltb, if◌then◌else◌, any,
}
use litelog.Types.{signed_lt}
use litelog.Store.{max_of, or_zero, Tables, LogRow, TransactionRow, is_log_fact, is_fact, holds}

-- `DBView`: `tx_id` 0 and no valid time mean the current state.
pub record DbView : Type 0 where
  pub tx_id : ℕ
  pub valid_time : Option ℕ

abbrev pub as_of : ℕ → DbView
as_of tx_id = record { tx_id = tx_id; valid_time = none }

abbrev pub as_of_valid_time : ℕ → DbView
as_of_valid_time t = record { tx_id = 0; valid_time = some t }

-- SELECT COALESCE(MAX(id), 0) FROM transactions WHERE tx_time <= ?,
-- with times and IDs as signed integers.
ids_by : ℕ → List TransactionRow → List ℕ
ids_by t [] = []
ids_by t (r ∷ rows) =
    let rest = ids_by t rows in if signed_lt t r.tx_time then rest else r.id ∷ rest

last_tx_by : ℕ → List TransactionRow → ℕ
unfolding ids_by
last_tx_by t rows = or_zero (max_of (ids_by t rows))

-- `AsOfTxTime`: no view where no transaction had been recorded.
pub as_of_tx_time : ℕ → Tables → Option DbView
unfolding last_tx_by
as_of_tx_time t tables =
    let tx_id = last_tx_by t tables.transactions in if tx_id == 0 then none else some (as_of tx_id)

-- A retraction of the fact of `d` at or before the transaction `t`.
abbrev pub retracts_by : ℕ → LogRow → LogRow → Bool
retracts_by t d r = is_log_fact d.e d.a d.v r && not r.added && leb r.tx t

-- The condition of a pull: r.added = 0 AND r.tx > d.tx AND r.tx <= ?
pub pull_visible : ℕ → List LogRow → LogRow → Bool
pull_visible t log d =
    d.added && leb d.tx t && not (any (λ r. retracts_by t d r && ltb d.tx r.tx) log)

-- The condition of a query, whose subquery does not compare r.tx with d.tx.
pub query_visible : ℕ → List LogRow → LogRow → Bool
query_visible t log d = d.added && leb d.tx t && not (any (retracts_by t d) log)

-- valid_from <= ? AND COALESCE(valid_to, 9223372036854775807) > ?, on signed integers
abbrev pub valid_at : ℕ → LogRow → Bool
valid_at ms d =
    not (signed_lt ms d.valid_from)
    && signed_lt ms (elim d.valid_to [ none ↦ 2 ^ 63 - 1 | some t ↦ t ])

-- Does a pull through the view see the fact?
unfoldable pub pull_has : DbView → Tables → ℕ → ℕ → Bytes → Bool
pull_has view t e a v =
    if ltb 0 view.tx_id
    then any (λ d. is_log_fact e a v d && pull_visible view.tx_id t.datoms d) t.datoms
    else elim view.valid_time [
      | none ↦ holds t e a v
      | some ms ↦ any (λ d. is_log_fact e a v d && d.added && valid_at ms d) t.datoms
    ]

-- The conditions that `applyAsOf` adds for one table of a query.
abbrev pub query_condition : DbView → List LogRow → LogRow → Bool
query_condition view log d =
    d.added
    && (if ltb 0 view.tx_id then query_visible view.tx_id log d else true)
    && elim view.valid_time [ none ↦ true | some ms ↦ valid_at ms d ]

-- Does a query through the view see the fact?
pub query_has : DbView → Tables → ℕ → ℕ → Bytes → Bool
query_has view t e a v =
    if ltb 0 view.tx_id
    then any (λ d. is_log_fact e a v d && query_condition view t.datoms d) t.datoms
    else elim view.valid_time [
      | none ↦ holds t e a v
      | some ms ↦ any (λ d. is_log_fact e a v d && query_condition view t.datoms d) t.datoms
    ]
