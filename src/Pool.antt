-- ===== src/Pool.antt =====
-- pool.go: the database handle, its counters, and the use of connections. What SQLite and its pool
-- answer is a parameter: the outcomes of the calls in one use of a connection, and what the function
-- that `sqlitex.ImmediateTransaction` returns does with the tables.
pub mod Laws
pub mod Load
pub mod Open
use litelog.Prelude.{
  ℕ, ◌+◌, ◌%◌, ◌≡◌, Bytes, text, Bool, false, not, Option, none, some, List, [], ◌∷◌, ◌==◌, ltb,
  leb, bytes_eq, if◌then◌else◌, map,
}
use litelog.Result.{Error, Result, ok, err, ◌>>=◌, ◌>>◌}
use litelog.Action.{Action}
use litelog.Types.{word64, signed_lt}
use litelog.Store.{max_of, or_zero, Tables, CurrentRow, TransactionRow, CachedAttribute}
use litelog.Schema.{SchemaCache, new_schema_cache, load_attributes}

-- The counters are int64 in the source. `load_state` computes them from the IDs in the file, with their
-- sign and with the wrap-around; handing out an ID does not wrap, since the counters grow by one.
pub record Db : Type 0 where
  pub tables : Tables
  pub schema : SchemaCache
  pub next_tx : ℕ
  pub next_eid : ℕ
  pub udfs_dirty : Bool
  pub history_path : Bytes

-- The answers of `pool.Take`, `installUDFs` and `ImmediateTransaction` in one use.
pub record Connection : Type 0 where
  pub take : Result (Unit {0})
  pub install : Result (Unit {0})
  pub begin : Result (Unit {0})

-- The function that ends a transaction is given what its error pointer points to, the tables at the
-- start, and the tables as the transaction left them.
abbrev pub EndFn : Type 0
EndFn = Option Error → Tables → Tables → Tables

-- The documented behaviour of that function: it commits if the pointer holds nil, and rolls back if
-- it holds an error.
pub record IsEndFn (end_fn : EndFn) : Type 0 where
  pub commits : (before after : Tables) → end_fn none before after ≡ after
  pub rolls_back : (e : Error) (before after : Tables) → end_fn (some e) before after ≡ before

-- A connection is taken, and functions registered since its last use are installed on it.
abbrev pub acquire : Connection → Bool → Result (Unit {0})
acquire c dirty = do c.take; if dirty then c.install else ok tt

module _ {S A : Type 0} where
  -- The deferred call reads the local variable `err`, which is nil once `ImmediateTransaction` has
  -- succeeded: `return fn(conn)` does not write to it, since the function's result has no name.
  pub run_and_end : EndFn → (S → Tables) → (Tables → S → S) → Action S A → Action S A
  run_and_end end_fn tables set_tables fn s =
      let (r, s') = fn s in (r, set_tables (end_fn none (tables s) (tables s')) s')

  -- Code that is not reached where what comes before it failed.
  abbrev pub after : Result (Unit {0}) → Action S A → Action S A
  after (err e) fn s = (err e, s)
  after (ok _) fn s = fn s

  unfoldable pub with_write_conn :
      Connection → EndFn → Bool → (S → Tables) → (Tables → S → S) → Action S A → Action S A
  unfolding run_and_end
  with_write_conn c end_fn dirty tables set_tables fn =
      after (do acquire c dirty; c.begin) (run_and_end end_fn tables set_tables fn)

  pub with_conn : Connection → Bool → Action S A → Action S A
  with_conn c dirty fn = after (acquire c dirty) fn

-- `allocEntityID` and `allocTxID`: the number handed out, and the counter after it.
abbrev pub alloc_entity_id : ℕ → ℕ × ℕ
alloc_entity_id next = (next, next + 1)

abbrev pub alloc_tx_id : ℕ → ℕ × ℕ
alloc_tx_id next = (next, next + 1)

pub datoms_table : Db → Bytes
datoms_table db = if bytes_eq db.history_path [] then text "datoms" else text "history.datoms"

pub partitioned : Db → Bool
partitioned db = not (bytes_eq db.history_path [])

-- SELECT COALESCE(MAX(…), 0)
unfoldable pub max_or_zero : List ℕ → ℕ
max_or_zero xs = or_zero (max_of xs)

-- `+ 1` on an int64
abbrev pub next_int64 : ℕ → ℕ
next_int64 n = (n + 1) % word64

-- The first free entity ID, from the largest entity in use and the largest attribute ID.
unfoldable pub free_entity_id : ℕ → ℕ → ℕ
free_entity_id max_e max_attr =
    let next = next_int64 max_e in if signed_lt max_attr next then next else next_int64 max_attr

-- `loadState`, on a database file's tables: the two counters and the cache.
unfoldable pub load_state : Tables → Bytes → Db
unfolding max_or_zero free_entity_id
load_state t history_path =
    let max_tx = max_or_zero (map (λ (r : TransactionRow). r.id) t.transactions) in
    let max_e = max_or_zero (map (λ (r : CurrentRow). r.e) t.current_datoms) in
    let max_attr = max_or_zero (map (λ (r : CachedAttribute). r.id) t.attributes) in
    let next_tx = next_int64 max_tx in
    let next_eid = free_entity_id max_e max_attr in
    record {
      tables = t;
      schema = load_attributes t.attributes new_schema_cache;
      next_tx = if next_tx == 0 then 1 else next_tx;
      next_eid = if next_eid == 0 then 1000 else next_eid;
      udfs_dirty = false;
      history_path = history_path;
    }
