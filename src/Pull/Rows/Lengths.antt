-- ===== src/Pull/Rows/Lengths.antt =====
-- pull.go: the rows that a pull selects are no more than the tables have.
use litelog.Prelude.{
  ltb, ◌≤◌, ◌==◌, ℕ, ◌+◌, inl, inr, Bool, ◌&&◌, List, [], ◌∷◌, length, Bool-cases, Option-cases,
  arith,
}
use litelog.Store.{Tables, LogRow, CurrentRow}
use litelog.Pull.Rows.{PullRow, of_attribute, current_entity, log_entity, view_entity}
use litelog.Temporal.{DbView, pull_visible, valid_at}

-- The rows of an attribute are among those of the table.
pub of_attribute-length : (a : ℕ) (rows : List PullRow) → length (of_attribute a rows) ≤ length rows
unfolding of_attribute
of_attribute-length a [] = omega arith
of_attribute-length a (r ∷ rows) = elim (Bool-cases (r.a == a)) [
  | inl here ↦ rw here (omega (arith, of_attribute-length a rows))
  | inr elsewhere ↦ rw elsewhere (omega (arith, of_attribute-length a rows))
]

pub current_entity-length :
    (e : ℕ) (rows : List CurrentRow) → length (current_entity e rows) ≤ length rows
unfolding current_entity
current_entity-length e [] = omega arith
current_entity-length e (r ∷ rows) = elim (Bool-cases (r.e == e)) [
  | inl here ↦ rw here (omega (arith, current_entity-length e rows))
  | inr elsewhere ↦ rw elsewhere (omega (arith, current_entity-length e rows))
]

log_entity-length :
    (visible : LogRow → Bool) (e : ℕ) (rows : List LogRow)
    → length (log_entity visible e rows) ≤ length rows
unfolding log_entity
log_entity-length visible e [] = omega arith
log_entity-length visible e (r ∷ rows) = elim (Bool-cases (r.e == e && visible r)) [
  | inl here ↦ rw here (omega (arith, log_entity-length visible e rows))
  | inr elsewhere ↦ rw elsewhere (omega (arith, log_entity-length visible e rows))
]

pub view_entity-length :
    (view : DbView) (t : Tables) (e : ℕ)
    → length (view_entity view t e) ≤ length t.datoms + length t.current_datoms
unfolding view_entity
view_entity-length view t e = elim (Bool-cases (ltb 0 view.tx_id)) [
  | inl as_of ↦ rw as_of (
      let le = log_entity-length (pull_visible view.tx_id t.datoms) e t.datoms in omega (arith, le))
  | inr no_tx ↦ rw no_tx (elim (Option-cases view.valid_time) [
    | inl no_time ↦ rw no_time (omega (arith, current_entity-length e t.current_datoms))
    | inr (ms, at_time) ↦
        rw at_time (
          let le = log_entity-length (λ r. r.added && valid_at ms r) e t.datoms in
          omega (arith, le))
  ])
]
