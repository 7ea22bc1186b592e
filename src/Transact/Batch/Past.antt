-- ===== src/Transact/Batch/Past.antt =====
-- transact.go and pull.go: what a pull as of an earlier transaction sees after later ones.
use litelog.Prelude.{ℕ, ◌+◌, ◌<◌, ◌≡◌, refl, sym, ap, ◌∙◌, Bytes, List, [], ◌∷◌, any, arith}
use litelog.Types.{TxDatom, TransactOpts}
use litelog.Store.{LogRow, holds, live}
use litelog.Pool.{Db, Connection, EndFn, IsEndFn}
use litelog.Temporal.{as_of}
use litelog.Temporal.AsOf.{upto, NoUndo, pull_has-as_of}
use litelog.Pull.Rows.{view_entity}
use litelog.Pull.Rows.Seen.{has_value, view_entity-pull_has}
use litelog.Transact.Facts.{IsConsistent}
use litelog.Transact.Batch.{transact}
use litelog.Transact.Batch.History.{Below, IsHistory, upto-transact, transact-IsHistory}

-- A call of `Transact`, with what it meets.
pub record Call : Type 0 where
  pub connection : Connection
  pub end_fn : EndFn
  pub now : ℕ
  pub datoms : List TxDatom
  pub opts : TransactOpts

abbrev pub transacted : Call → Db → Db
transacted c db = (transact c.connection c.end_fn c.now c.datoms c.opts db).1

-- The database after calls one after the other, whether they succeed or fail.
unfoldable pub later : List Call → Db → Db
later [] db = db
later (c ∷ calls) db = later calls (transacted c db)

-- The functions that end the transactions behave as documented.
abbrev pub AreDocumented : List Call → Type 0
AreDocumented [] = Unit {0}
AreDocumented (c ∷ calls) = IsEndFn c.end_fn × AreDocumented calls

next_tx-transacted : (c : Call) (db : Db) → (transacted c db).next_tx ≡ db.next_tx + 1
unfolding transact
next_tx-transacted c db = refl

later-IsHistory :
    (calls : List Call) (db : Db) → AreDocumented calls → IsHistory db → IsHistory (later calls db)
unfolding later
later-IsHistory [] db ends h = h
later-IsHistory (c ∷ calls) db (ends, rest) h =
    later-IsHistory calls (transacted c db) rest
      (transact-IsHistory c.connection c.end_fn c.now c.datoms c.opts db ends h)

upto-later :
    (t : ℕ) (calls : List Call) (db : Db)
    → AreDocumented calls
    → t < db.next_tx
    → upto t (later calls db).tables.datoms ≡ upto t db.tables.datoms
unfolding later
upto-later t [] db ends earlier = refl
upto-later t (c ∷ calls) db (ends, rest) earlier =
    upto-later t calls (transacted c db) rest (omega (arith, earlier, next_tx-transacted c db))
    ∙ upto-transact c.connection c.end_fn c.now c.datoms c.opts db t ends earlier

-- A history up to its last transaction is the whole of it.
upto-Below : (t : ℕ) (log : List LogRow) → Below (t + 1) log → upto t log ≡ log
unfolding upto
upto-Below t [] below = refl
upto-Below t (r ∷ log) (here, below) = ground (arith, here, upto-Below t log below)

-- A pull as of a transaction reads, of any entity, exactly the facts that were current when that
-- transaction was the last, whatever transactions have come after it, successful or not: where the
-- tables were consistent then, the history in order, and the fact is never retracted after it is
-- asserted within one transaction. The functions that end transactions have to behave as documented.
pub view_entity-later :
    (calls : List Call) (db : Db) (t e a : ℕ) (v : Bytes)
    → AreDocumented calls
    → 0 < t
    → db.next_tx ≡ t + 1
    → IsHistory db
    → IsConsistent db.schema db.tables
    → NoUndo e a v (later calls db).tables.datoms
    → any (has_value a v) (view_entity (as_of t) (later calls db).tables e) ≡ holds db.tables e a v
view_entity-later calls db t e a v ends pos last history consistent undo =
    view_entity-pull_has (as_of t) (later calls db).tables e a v
    ∙ pull_has-as_of t e a v (later calls db).tables pos (later-IsHistory calls db ends history).0
        undo
    ∙ ap (λ log. live log e a v)
        (upto-later t calls db ends (omega (arith, last))
          ∙ upto-Below t db.tables.datoms (rw (sym last) history.1))
    ∙ sym (consistent.0 e a v)
