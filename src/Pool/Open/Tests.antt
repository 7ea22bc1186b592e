-- ===== src/Pool/Open/Tests.antt =====
-- pool.go: the opening of a partitioned database, and of one whose history cannot be set up.
use litelog.Prelude.{ℕ, ◌≡◌, refl, text, some, List, [], ◌∷◌, bytes_eq}
use litelog.Result.{Result, ok, err, unique_constraint}
use litelog.Action.{Action}
use litelog.Store.{Tables}
use litelog.Pool.{Connection, load_state}
use litelog.Pool.Open.{
  Options, open_options, Script, history_schema_sql, new_pool, take, put, close, run_each,
  migrate_each, init_schema, prepare_conn, set_up, take_conn, open_db, session,
}
use litelog.Pool.Open.Settled.{no_pool, after_calls, settled, open_db-settles}

-- A connection as the scripts that it has executed, the last one first.
abbrev execute : Script → Action (List Script) (Unit {0})
execute sql conn = (ok tt, sql ∷ conn)

abbrev without_history : Script → Action (List Script) (Unit {0})
without_history history_schema_sql conn = (err unique_constraint, conn)
without_history sql conn = (ok tt, sql ∷ conn)

abbrev pool_made : ℕ → Result (Unit {0})
pool_made size = ok tt

abbrev no_tables : Tables
no_tables = record { datoms = []; current_datoms = []; transactions = []; attributes = [] }

abbrev tables_read : List Script → Result Tables
tables_read conn = ok no_tables

abbrev partition : List Options
partition = record { pool_size = 0; history_path = text "history.db" } ∷ []

abbrev ready : Connection
ready = record { take = ok tt; install = ok tt; begin = ok tt }

open_db-settles_example :
    (after_calls (open_db execute pool_made (ok []) tables_read partition).1 no_pool
      ≡ some (settled (open_db execute pool_made (ok []) tables_read partition).0))
    × (after_calls
          (session (open_db execute pool_made (ok []) tables_read partition) (ready ∷ ready ∷ []))
          no_pool
        ≡ some no_pool)
open_db-settles_example =
    open_db-settles execute pool_made (ok []) tables_read partition (ready ∷ ready ∷ [])

-- The options' size is not positive, so that there are ten connections.
opened :
    open_db execute pool_made (ok []) tables_read partition
    ≡ (ok (load_state no_tables (text "history.db")), new_pool 10 ∷ take ∷ put ∷ [])
unfolding open_db open_options set_up take_conn prepare_conn init_schema run_each migrate_each
    bytes_eq
opened = refl

not_opened :
    open_db without_history pool_made (ok []) tables_read partition
    ≡ (err unique_constraint, new_pool 10 ∷ take ∷ put ∷ close ∷ [])
unfolding open_db open_options set_up take_conn prepare_conn init_schema run_each migrate_each
    bytes_eq
not_opened = refl
