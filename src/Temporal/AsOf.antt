-- ===== src/Temporal/AsOf.antt =====
-- Views as of a transaction against the replay of the history up to that transaction.
use litelog.Prelude.{
  ℕ, ◌≤◌, ◌<◌, ◌≡◌, refl, ◌∙◌, Bytes, Bool, true, false, not, ◌&&◌, ◌||◌, List, [], ◌∷◌, ◌==◌, leb,
  ltb, bytes_eq_iff, if◌then◌else◌, any, any-ext, Bool-cases, inl, inr, arith,
}
use litelog.Store.{Tables, LogRow, is_log_fact, replay, live}
use litelog.Temporal.{
  as_of, retracts_by, pull_visible, query_visible, query_condition, pull_has, query_has,
}

-- The rows of a history at or before the transaction `t`.
unfoldable pub upto : ℕ → List LogRow → List LogRow
upto t [] = []
upto t (r ∷ log) = if leb r.tx t then r ∷ upto t log else upto t log

-- The transactions of the rows never fall.
abbrev pub Above : ℕ → List LogRow → Type 0
Above n [] = Unit {0}
Above n (r ∷ log) = (n ≤ r.tx) × Above n log

abbrev pub IsOrdered : List LogRow → Type 0
IsOrdered [] = Unit {0}
IsOrdered (r ∷ log) = Above r.tx log × IsOrdered log

-- Is the fact retracted in `log` by the transaction `t`, in a later transaction than `n`?
retracted_after : ℕ → ℕ → ℕ → ℕ → Bytes → List LogRow → Bool
retracted_after n t e a v log =
    any (λ r. is_log_fact e a v r && not r.added && leb r.tx t && ltb n r.tx) log

pub retracted : ℕ → ℕ → ℕ → Bytes → List LogRow → Bool
retracted t e a v log = any (λ r. is_log_fact e a v r && not r.added && leb r.tx t) log

-- No assertion of the fact is followed by a retraction of it in the same transaction.
abbrev pub NoUndo : ℕ → ℕ → Bytes → List LogRow → Type 0
NoUndo e a v [] = Unit {0}
NoUndo e a v (r ∷ log) =
    (is_log_fact e a v r ≡ true
      → r.added ≡ true
      → any (λ s. is_log_fact e a v s && not s.added && s.tx == r.tx) log ≡ false)
    × NoUndo e a v log

-- Is an assertion of the fact visible, looking at the rows from it on?
seen_from : ℕ → ℕ → ℕ → Bytes → List LogRow → Bool
seen_from t e a v [] = false
seen_from t e a v (d ∷ log) =
    is_log_fact e a v d && d.added && leb d.tx t && not (retracted_after d.tx t e a v log)
    || seen_from t e a v log

-- In an ordered history nothing before a row is later than it.
retracted_after-NoUndo :
    (n t e a : ℕ) (v : Bytes) (log : List LogRow)
    → Above n log
    → any (λ s. is_log_fact e a v s && not s.added && s.tx == n) log ≡ false
    → retracted_after n t e a v log ≡ retracted t e a v log
unfolding retracted_after retracted any
retracted_after-NoUndo n t e a v [] above none_there = refl
retracted_after-NoUndo n t e a v (s ∷ log) above none_there =
    ground (arith, retracted_after-NoUndo n t e a v log above.1)

retracted-cons :
    (t e a : ℕ) (v : Bytes) (d : LogRow) (log : List LogRow)
    → retracted t e a v (d ∷ log)
      ≡ (is_log_fact e a v d && not d.added && leb d.tx t || retracted t e a v log)
unfolding retracted any
retracted-cons t e a v d log = refl

-- Replaying the rows up to `t` finds the fact asserted exactly if an assertion is visible, or if it
-- was known before and is not retracted.
replay-seen :
    (t e a : ℕ) (v : Bytes) (last : Bool) (log : List LogRow)
    → IsOrdered log
    → NoUndo e a v log
    → replay last (upto t log) e a v
      ≡ (seen_from t e a v log || last && not (retracted t e a v log))
unfolding replay upto seen_from
replay-seen t e a v last [] ordered undo = unfold retracted any in ground arith
replay-seen t e a v last (d ∷ log) ordered undo = rw (retracted-cons t e a v d log) (
    ground (
      arith,
      replay-seen t e a v last log ordered.1 undo.1,
      replay-seen t e a v d.added log ordered.1 undo.1,
      retracted_after-NoUndo d.tx t e a v log ordered.0,
      undo.0,
    ))

-- For a row about the fact, the subquery of a pull looks for a later retraction of the fact.
pull_visible-fact :
    (t e a : ℕ) (v : Bytes) (full : List LogRow) (d : LogRow)
    → (is_log_fact e a v d && pull_visible t full d)
      ≡ (is_log_fact e a v d && d.added && leb d.tx t && not (retracted_after d.tx t e a v full))
unfolding pull_visible retracted_after
pull_visible-fact t e a v full d = elim (Bool-cases (is_log_fact e a v d)) [
  | inl about ↦
      rw
        (any-ext (λ r. retracts_by t d r && ltb d.tx r.tx)
          (λ r. is_log_fact e a v r && not r.added && leb r.tx t && ltb d.tx r.tx) full
          λ r. same_fact about r)
        (ground arith)
  | inr other ↦ ground arith
]
  where
    same_fact :
        is_log_fact e a v d ≡ true
        → (r : LogRow)
        → (retracts_by t d r && ltb d.tx r.tx)
          ≡ (is_log_fact e a v r && not r.added && leb r.tx t && ltb d.tx r.tx)
    same_fact about r = ground (arith, bytes_eq_iff d.v v)

-- In an ordered history the rows before a row are no later, so that those after it decide.
seen_from-visible :
    (t e a : ℕ) (v : Bytes) (full log : List LogRow) (low : ℕ)
    → Above low log
    → IsOrdered log
    → ((n : ℕ) → low ≤ n → retracted_after n t e a v full ≡ retracted_after n t e a v log)
    → any (λ d. is_log_fact e a v d && pull_visible t full d) log ≡ seen_from t e a v log
unfolding seen_from any
seen_from-visible t e a v full [] low above ordered same = refl
seen_from-visible t e a v full (d ∷ log) low above ordered same = ground (
  arith,
  pull_visible-fact t e a v full d,
  from_here d.tx (omega arith),
  seen_from-visible t e a v full log d.tx ordered.0 ordered.1 from_here,
)
  where
    from_here : (n : ℕ) → d.tx ≤ n → retracted_after n t e a v full ≡ retracted_after n t e a v log
    from_here n h = same n (omega (arith, above.0)) ∙ skip n h
      where
        skip :
            (n : ℕ) → d.tx ≤ n → retracted_after n t e a v (d ∷ log) ≡ retracted_after n t e a v log
        skip n h = unfold retracted_after any in ground arith

-- A pull as of the transaction `t`, above 0, sees exactly the facts that the history up to `t` leaves
-- asserted, if transactions stand in order in the history, and the fact is not retracted after it is
-- asserted within one transaction.
pub pull_has-as_of :
    (t e a : ℕ) (v : Bytes) (tables : Tables)
    → 0 < t
    → IsOrdered tables.datoms
    → NoUndo e a v tables.datoms
    → pull_has (as_of t) tables e a v ≡ live (upto t tables.datoms) e a v
unfolding pull_has
pull_has-as_of t e a v tables pos ordered undo = ground (
  arith,
  seen_from-visible t e a v tables.datoms tables.datoms 0 (above_zero tables.datoms) ordered
      (λ n _. refl),
  replay-seen t e a v false tables.datoms ordered undo,
)
  where
    above_zero : (log : List LogRow) → Above 0 log
    above_zero [] = tt
    above_zero (r ∷ log) = (omega arith, above_zero log)

-- A history up to `t` with no retraction of the fact leaves it asserted exactly if it asserts it.
replay-unretracted :
    (t e a : ℕ) (v : Bytes) (last : Bool) (log : List LogRow)
    → retracted t e a v log ≡ false
    → replay last (upto t log) e a v
      ≡ (last || any (λ d. is_log_fact e a v d && d.added && leb d.tx t) log)
unfolding replay upto retracted any
replay-unretracted t e a v last [] h = ground arith
replay-unretracted t e a v last (d ∷ log) h =
    ground (arith, replay-unretracted t e a v last log, replay-unretracted t e a v d.added log)

-- For a row about the fact, the subquery of a query looks for any retraction of the fact.
query_visible-fact :
    (t e a : ℕ) (v : Bytes) (full : List LogRow) (d : LogRow)
    → 0 < t
    → (is_log_fact e a v d && query_condition (as_of t) full d)
      ≡ (is_log_fact e a v d && d.added && leb d.tx t && not (retracted t e a v full))
unfolding query_visible retracted
query_visible-fact t e a v full d pos = elim (Bool-cases (is_log_fact e a v d)) [
  | inl about ↦
      rw
        (any-ext (retracts_by t d) (λ r. is_log_fact e a v r && not r.added && leb r.tx t) full
          λ r. same_fact about r)
        (ground arith)
  | inr other ↦ ground arith
]
  where
    same_fact :
        is_log_fact e a v d ≡ true
        → (r : LogRow) → retracts_by t d r ≡ (is_log_fact e a v r && not r.added && leb r.tx t)
    same_fact about r = ground (arith, bytes_eq_iff d.v v)

-- What a query as of `t` sees is asserted by `t` and never retracted by `t`.
query_has-seen :
    (t e a : ℕ) (v : Bytes) (full log : List LogRow)
    → 0 < t
    → any (λ d. is_log_fact e a v d && query_condition (as_of t) full d) log ≡ (
        any (λ d. is_log_fact e a v d && d.added && leb d.tx t) log && not (retracted t e a v full))
unfolding any
query_has-seen t e a v full [] pos = refl
query_has-seen t e a v full (d ∷ log) pos =
    ground (arith, query_visible-fact t e a v full d pos, query_has-seen t e a v full log pos)

-- A query as of the transaction `t`, above 0, sees a fact exactly if the history up to `t` leaves it asserted
-- and has not retracted it before: a fact that was retracted and asserted again is not seen.
pub query_has-as_of :
    (t e a : ℕ) (v : Bytes) (tables : Tables)
    → 0 < t
    → query_has (as_of t) tables e a v
      ≡ (live (upto t tables.datoms) e a v && not (retracted t e a v tables.datoms))
unfolding query_has
query_has-as_of t e a v tables pos = elim (Bool-cases (retracted t e a v tables.datoms)) [
  | inl gone ↦ ground (arith, query_has-seen t e a v tables.datoms tables.datoms pos)
  | inr never ↦ ground (
    arith,
    query_has-seen t e a v tables.datoms tables.datoms pos,
    replay-unretracted t e a v false tables.datoms never,
  )
]
