-- ===== src/Pool/Open.antt =====
-- pool.go and schema.go: `Open`, with the setting up of a connection and of the schema, and the calls that
-- it makes of the connection pool. Parameters are what the SQLite packages answer: to the making of a
-- pool, to the opening of a connection, to scripts, and to the reading of the tables.
pub mod Settled
pub mod Tests
use litelog.Prelude.{
  ℕ, ◌^◌, Bytes, text, Bool, true, false, ◌||◌, List, [], ◌∷◌, ◌++◌, ◌==◌, leb, bytes_eq,
  if◌then◌else◌,
}
use litelog.Result.{Error, Result, ok, err, ◌>>=◌}
use litelog.Action.{Action, pure, ◌>>◌}
use litelog.Store.{Tables}
use litelog.Pool.{Db, Connection, load_state}

pub record Options : Type 0 where
  pub pool_size : ℕ
  pub history_path : Bytes

-- The options that `Open` goes by: the first that are given, with ten connections where that number is
-- not positive, as an int.
abbrev pub first_options : List Options → Options
first_options [] = record { pool_size = 10; history_path = [] }
first_options (o ∷ opts) = o

pub open_options : List Options → Options
open_options opts =
    let o = first_options opts in
    if o.pool_size == 0 || leb (2 ^ 63) o.pool_size then record o { pool_size = 10 } else o

-- What SQLite is asked to execute; the two long scripts go by their names.
pub data Script : Type 0 where
  schema_sql history_schema_sql : Script
  statement : Bytes → Script
  attach_database : Bytes → Script

abbrev pub pragmas : List Bytes
pragmas =
    text "PRAGMA journal_mode=wal;"
    ∷ text "PRAGMA synchronous=NORMAL;"
    ∷ text "PRAGMA cache_size=-64000;"
    ∷ text "PRAGMA mmap_size=268435456;"
    ∷ text "PRAGMA temp_store=MEMORY;"
    ∷ text "PRAGMA foreign_keys=ON;"
    ∷ []

abbrev pub migrations : List Bytes
migrations =
    text "ALTER TABLE datoms ADD COLUMN v_int INTEGER"
    ∷ text "ALTER TABLE datoms ADD COLUMN v_text TEXT"
    ∷ text "ALTER TABLE datoms ADD COLUMN v_float REAL"
    ∷ text "ALTER TABLE current_datoms ADD COLUMN v_int INTEGER"
    ∷ text "ALTER TABLE current_datoms ADD COLUMN v_text TEXT"
    ∷ text "ALTER TABLE current_datoms ADD COLUMN v_float REAL"
    ∷ text "ALTER TABLE attributes ADD COLUMN unique_identity INTEGER NOT NULL DEFAULT 0"
    ∷ []

-- The calls of the pool, in their order.
pub data PoolCall : Type 0 where
  new_pool : ℕ → PoolCall
  take put close : PoolCall

-- What is returned, and the calls of the pool.
abbrev pub Outcome : Type 0
Outcome = Result Db × List PoolCall

-- `pool.Put(conn)` and `pool.Close()` before an error is returned.
abbrev pub give_up : Error → Outcome
give_up e = (err e, put ∷ close ∷ [])

-- `if err != nil { … }`, and what comes after.
abbrev pub on_error : {A : Type 0} → Result A → (Error → Outcome) → (A → Outcome) → Outcome
on_error (err e) failed next = failed e
on_error (ok a) failed next = next a

abbrev pub called : PoolCall → Outcome → Outcome
called c out = (out.0, c ∷ out.1)

module _ {Conn : Type 0} (execute : Script → Action Conn (Unit {0})) where
  -- The loop of `initPragmas`.
  pub run_each : List Bytes → Action Conn (Unit {0})
  run_each [] = pure tt
  run_each (sql ∷ sqls) = do execute (statement sql); run_each sqls

  abbrev pub init_pragmas : Action Conn (Unit {0})
  init_pragmas = run_each pragmas

  -- The loop of `migrateColumns`, which goes on after an error.
  pub migrate_each : List Bytes → Conn → Conn
  migrate_each [] conn = conn
  migrate_each (sql ∷ sqls) conn = migrate_each sqls (execute (statement sql) conn).1

  abbrev pub migrate_columns : Action Conn (Unit {0})
  migrate_columns conn = (ok tt, migrate_each migrations conn)

  pub init_schema : Action Conn (Unit {0})
  init_schema = do execute schema_sql; migrate_columns

  abbrev pub attach_history : Bytes → Action Conn (Unit {0})
  attach_history path = execute (attach_database path)

  abbrev pub init_history_schema : Action Conn (Unit {0})
  init_history_schema = execute history_schema_sql

  -- A step for a history in a file of its own.
  abbrev pub if_partitioned : Bytes → Action Conn (Unit {0}) → Action Conn (Unit {0})
  if_partitioned history_path step = if bytes_eq history_path [] then pure tt else step

  -- The function `PrepareConn` of the pool's options.
  pub prepare_conn : Bytes → Action Conn (Unit {0})
  prepare_conn history_path = do
    init_pragmas
    if_partitioned history_path (attach_history history_path)

  module _ (make_pool : ℕ → Result (Unit {0})) (connect : Result Conn)
      (read_tables : Conn → Result Tables) where
    abbrev pub load_on : Bytes → Conn → Outcome
    load_on history_path conn =
        on_error (read_tables conn) give_up (λ t. (ok (load_state t history_path), put ∷ []))

    abbrev pub init_history_on : Bytes → Conn → Outcome
    init_history_on history_path conn =
        let (r, conn') = if_partitioned history_path init_history_schema conn in
        on_error r give_up (λ _. load_on history_path conn')

    -- What `Open` does with the connection that it has taken.
    pub set_up : Bytes → Conn → Outcome
    set_up history_path conn =
        let (r, conn') = init_schema conn in
        on_error r give_up (λ _. init_history_on history_path conn')

    -- `pool.Take`, which opens a connection and prepares it.
    pub take_conn : Bytes → Result Conn
    take_conn history_path =
        connect >>= λ conn. let (r, conn') = prepare_conn history_path conn in r >>= λ _. ok conn'

    abbrev pub first_use : Bytes → Outcome
    first_use history_path =
        on_error (take_conn history_path) (λ e. (err e, close ∷ []))
          (λ conn. called take (set_up history_path conn))

    pub open_db : List Options → Outcome
    open_db opts =
        let o = open_options opts in
        on_error (make_pool o.pool_size) (λ e. (err e, []))
          (λ _. called (new_pool o.pool_size) (first_use o.history_path))

-- The calls of the pool in one use of a connection, in `withConn` and `withWriteConn`: the connection
-- is put back when the function returns, whatever it returns.
pub use_calls : Connection → List PoolCall
use_calls c = elim c.take [ err e ↦ [] | ok _ ↦ take ∷ put ∷ [] ]

-- `Close`
abbrev pub close_calls : List PoolCall
close_calls = close ∷ []

pub all_uses : List Connection → List PoolCall
all_uses [] = []
all_uses (c ∷ cs) = use_calls c ++ all_uses cs

-- What a program does with the handle that it has got, if any: uses, one after the other, and `Close`.
pub session : Outcome → List Connection → List PoolCall
session (err e, calls) cs = calls
session (ok db, calls) cs = calls ++ (all_uses cs ++ close_calls)
