-- ===== src/Pull/Rows/Seen.antt =====
-- pull.go: the rows that a pull reads, and the facts of its view.
use litelog.Prelude.{
  ℕ, ◌≡◌, refl, ◌∙◌, inl, inr, Bytes, Bool, ◌&&◌, List, [], ◌∷◌, ◌==◌, ltb, bytes_eq, any, any-ext,
  Bool-cases, Option-cases, arith,
}
use litelog.Store.{Tables, LogRow, CurrentRow, is_log_fact, is_fact, holds}
use litelog.Temporal.{DbView, pull_visible, valid_at, pull_has}
use litelog.Pull.Rows.{PullRow, current_entity, log_entity, view_entity}

abbrev pub has_value : ℕ → Bytes → PullRow → Bool
has_value a v r = r.a == a && bytes_eq r.v v

any-current_entity :
    (e a : ℕ) (v : Bytes) (rows : List CurrentRow)
    → any (has_value a v) (current_entity e rows) ≡ any (is_fact e a v) rows
unfolding any current_entity
any-current_entity e a v [] = refl
any-current_entity e a v (r ∷ rows) = ground (arith, any-current_entity e a v rows)

any-log_entity :
    (visible : LogRow → Bool) (e a : ℕ) (v : Bytes) (rows : List LogRow)
    → any (has_value a v) (log_entity visible e rows)
      ≡ any (λ d. is_log_fact e a v d && visible d) rows
unfolding any log_entity
any-log_entity visible e a v [] = refl
any-log_entity visible e a v (r ∷ rows) = ground (arith, any-log_entity visible e a v rows)

-- The rows that a pull of an entity reads, through any view, have an attribute's value exactly where
-- the view has that fact.
pub view_entity-pull_has :
    (view : DbView) (t : Tables) (e a : ℕ) (v : Bytes)
    → any (has_value a v) (view_entity view t e) ≡ pull_has view t e a v
unfolding view_entity pull_has holds
view_entity-pull_has view t e a v = elim (Bool-cases (ltb 0 view.tx_id)) [
  | inl as_of ↦ rw as_of (any-log_entity (pull_visible view.tx_id t.datoms) e a v t.datoms)
  | inr no_tx ↦ rw no_tx (elim (Option-cases view.valid_time) [
    | inl no_time ↦ rw no_time (any-current_entity e a v t.current_datoms)
    | inr (ms, at_time) ↦ rw at_time (
        any-log_entity (λ r. r.added && valid_at ms r) e a v t.datoms
        ∙ any-ext (λ d. is_log_fact e a v d && (d.added && valid_at ms d))
            (λ d. is_log_fact e a v d && d.added && valid_at ms d) t.datoms (λ d. ground arith))
  ])
]
