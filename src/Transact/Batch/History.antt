-- ===== src/Transact/Batch/History.antt =====
-- The history only grows: a transaction, whether it succeeds or fails, appends rows that carry its
-- own ID.
use litelog.Prelude.{ℕ, ◌+◌, ◌≤◌, ◌<◌, ◌≡◌, refl, ◌∙◌, List, [], ◌∷◌, ◌++◌, arith}
use litelog.Types.{TxDatom, TransactOpts}
use litelog.Store.{LogRow}
use litelog.Pool.{Db, Connection, EndFn, IsEndFn}
use litelog.Temporal.AsOf.{upto, Above, IsOrdered}
use litelog.Transact.Batch.{transact}
use litelog.Transact.Batch.Growth.{transact-Keeps}

upto-append :
    (t : ℕ) (log : List LogRow) (r : LogRow) → t < r.tx → upto t (log ++ r ∷ []) ≡ upto t log
unfolding upto
upto-append t [] r h = ground arith
upto-append t (s ∷ log) r h = ground (arith, upto-append t log r h)

-- The history up to an earlier transaction, one whose ID has been handed out, is never rewritten: a
-- transaction, whether it succeeds or fails, leaves it as it was. The function that ends the
-- transaction has to behave as documented.
pub upto-transact :
    (c : Connection) (end_fn : EndFn) (now : ℕ) (datoms : List TxDatom) (opts : TransactOpts)
    (db : Db) (t : ℕ)
    → IsEndFn end_fn
    → t < db.next_tx
    → upto t (transact c end_fn now datoms opts db).1.tables.datoms ≡ upto t db.tables.datoms
upto-transact c end_fn now datoms opts db t ends earlier =
    transact-Keeps (λ log. upto t log ≡ upto t db.tables.datoms) db.next_tx
      (λ log r own h. upto-append t log r (rw own earlier) ∙ h) c end_fn now datoms opts db ends
      refl refl

-- Every row is of an earlier transaction than `n`.
abbrev pub Below : ℕ → List LogRow → Type 0
Below n [] = Unit {0}
Below n (r ∷ log) = (r.tx < n) × Below n log

Above-snoc :
    (n : ℕ) (log : List LogRow) (r : LogRow) → n ≤ r.tx → Above n log → Above n (log ++ r ∷ [])
Above-snoc n [] r h above = (h, tt)
Above-snoc n (s ∷ log) r h above = (above.0, Above-snoc n log r h above.1)

IsOrdered-snoc :
    (n : ℕ) (log : List LogRow) (r : LogRow)
    → r.tx ≡ n
    → IsOrdered log × Below (n + 1) log
    → IsOrdered (log ++ r ∷ []) × Below (n + 1) (log ++ r ∷ [])
IsOrdered-snoc n [] r own h = ((tt, tt), (omega arith, tt))
IsOrdered-snoc n (s ∷ log) r own (ordered, below) =
    let (ordered', below') = IsOrdered-snoc n log r own (ordered.1, below.1) in
    ((Above-snoc s.tx log r (omega (arith, below.0)) ordered.0, ordered'), (below.0, below'))

Below-mono : (m n : ℕ) (log : List LogRow) → m ≤ n → Below m log → Below n log
Below-mono m n [] h below = tt
Below-mono m n (r ∷ log) h below = (omega (arith, below.0), Below-mono m n log h below.1)

-- A database whose history stands in the order of the transaction IDs, all of them handed out.
abbrev pub IsHistory : Db → Type 0
IsHistory db = IsOrdered db.tables.datoms × Below db.next_tx db.tables.datoms

-- A transaction, whether it succeeds or fails, keeps the history in the order of the transaction
-- IDs, all of them handed out, if the function that ends it behaves as documented.
pub transact-IsHistory :
    (c : Connection) (end_fn : EndFn) (now : ℕ) (datoms : List TxDatom) (opts : TransactOpts)
    (db : Db)
    → IsEndFn end_fn
    → IsHistory db
    → IsHistory (transact c end_fn now datoms opts db).1
transact-IsHistory c end_fn now datoms opts db ends (ordered, below) =
    let (ordered', below') =
      transact-Keeps (λ log. IsOrdered log × Below (db.next_tx + 1) log) db.next_tx
        (λ log r own h. IsOrdered-snoc db.next_tx log r own h) c end_fn now datoms opts db ends refl
        (ordered, Below-mono db.next_tx (db.next_tx + 1) db.tables.datoms (omega arith) below) in
    (ordered', unfold transact in below')
