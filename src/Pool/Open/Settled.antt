-- ===== src/Pool/Open/Settled.antt =====
-- pool.go: what `Open` leaves of the connection pool.
use litelog.Prelude.{
  ℕ, zero, suc, ◌^◌, ◌≡◌, refl, ap, ◌∙◌, Bytes, true, ◌&&◌, Option, none, some, List, [], ◌∷◌, ◌++◌,
  inl, inr, ltb, if◌then◌else◌, arith,
}
use litelog.Result.{Error, Result, ok, err, Result-cases}
use litelog.Action.{Action}
use litelog.Store.{Tables}
use litelog.Pool.{Db, Connection, load_state}
use litelog.Pool.Open.{
  use_calls, close_calls, all_uses, session, Options, open_options, Script, PoolCall, new_pool,
  take, put, close, init_schema, Outcome, give_up, on_error, called, if_partitioned,
  init_history_schema, load_on, init_history_on, set_up, take_conn, first_use, open_db,
}

-- A pool, with the number of connections that are taken from it.
pub data PoolState : Type 0 where
  no_pool : PoolState
  taken : ℕ → PoolState

-- What a call makes of the pool, where it is in order: a pool has a positive size, a connection is put
-- back once, and `Close`, which waits for all connections, is called when none is taken.
abbrev pub after_call : PoolCall → PoolState → Option PoolState
after_call (new_pool size) no_pool =
    if ltb 0 size && ltb size (2 ^ 63) then some (taken 0) else none
after_call take (taken n) = some (taken (suc n))
after_call put (taken (suc n)) = some (taken n)
after_call close (taken zero) = some no_pool
after_call _ _ = none

-- The calls that follow a call in order.
abbrev and_then : Option PoolState → (PoolState → Option PoolState) → Option PoolState
and_then none calls = none
and_then (some s) calls = calls s

unfoldable pub after_calls : List PoolCall → PoolState → Option PoolState
after_calls [] s = some s
after_calls (c ∷ calls) s = and_then (after_call c s) (after_calls calls)

-- What is to be left after a result.
abbrev pub settled : Result Db → PoolState
settled (ok db) = taken 0
settled (err e) = no_pool

-- The calls of an outcome end in the state that goes with its result.
abbrev Settles : PoolState → Outcome → Type 0
Settles s out = after_calls out.1 s ≡ some (settled out.0)

-- Both ways of a test of an error.
Settles-on_error :
    {A : Type 0} (s : PoolState) (r : Result A) (failed : Error → Outcome) (next : A → Outcome)
    → ((e : Error) → Settles s (failed e))
    → ((a : A) → Settles s (next a))
    → Settles s (on_error r failed next)
Settles-on_error s (err e) failed next h k = h e
Settles-on_error s (ok a) failed next h k = k a

Settles-give_up : (e : Error) → Settles (taken 1) (give_up e)
unfolding after_calls
Settles-give_up e = refl

open_options-size :
    (opts : List Options)
    → (ltb 0 (open_options opts).pool_size && ltb (open_options opts).pool_size (2 ^ 63)) ≡ true
unfolding open_options
open_options-size opts = ground arith

Settles-new_pool :
    (opts : List Options) (out : Outcome)
    → Settles (taken 0) out
    → Settles no_pool (called (new_pool (open_options opts).pool_size) out)
unfolding after_calls
Settles-new_pool opts out h = rw (after_calls, open_options-size opts) h

after_calls-append :
    (calls more : List PoolCall) (s : PoolState)
    → after_calls (calls ++ more) s ≡ and_then (after_calls calls s) (after_calls more)
unfolding after_calls
after_calls-append [] more s = refl
after_calls-append (c ∷ calls) more s =
    through (after_call c s) (λ s'. after_calls-append calls more s')
  where
    through :
        (o : Option PoolState)
        → ((s' : PoolState)
            → after_calls (calls ++ more) s' ≡ and_then (after_calls calls s') (after_calls more))
        → and_then o (after_calls (calls ++ more))
          ≡ and_then (and_then o (after_calls calls)) (after_calls more)
    through none h = refl
    through (some s') h = h s'

use_calls-settles : (c : Connection) → after_calls (use_calls c) (taken 0) ≡ some (taken 0)
unfolding use_calls after_calls
use_calls-settles c = elim (Result-cases c.take) [
  | inl (e, failed) ↦ rw (use_calls, failed) refl
  | inr (u, done) ↦ rw (use_calls, done) refl
]

all_uses-settles : (cs : List Connection) → after_calls (all_uses cs) (taken 0) ≡ some (taken 0)
unfolding all_uses after_calls
all_uses-settles [] = refl
all_uses-settles (c ∷ cs) =
    rw (after_calls-append (use_calls c) (all_uses cs) (taken 0), use_calls-settles c)
      (all_uses-settles cs)

session-closes :
    (out : Outcome) (cs : List Connection)
    → Settles no_pool out
    → after_calls (session out cs) no_pool ≡ some no_pool
unfolding session after_calls
session-closes (err e, calls) cs h = h
session-closes (ok db, calls) cs h =
    after_calls-append calls (all_uses cs ++ close_calls) no_pool
    ∙ ap (λ o. and_then o (after_calls (all_uses cs ++ close_calls))) h
    ∙ after_calls-append (all_uses cs) close_calls (taken 0)
    ∙ ap (λ o. and_then o (after_calls close_calls)) (all_uses-settles cs)

module _ {Conn : Type 0} (execute : Script → Action Conn (Unit {0}))
    (make_pool : ℕ → Result (Unit {0})) (connect : Result Conn)
    (read_tables : Conn → Result Tables) where
  load_on-Settles :
      (history_path : Bytes) (conn : Conn)
      → Settles (taken 1) (load_on execute make_pool connect read_tables history_path conn)
  unfolding after_calls
  load_on-Settles history_path conn =
      Settles-on_error (taken 1) (read_tables conn) give_up
        (λ t. (ok (load_state t history_path), put ∷ [])) Settles-give_up (λ t. refl)

  init_history_on-Settles :
      (history_path : Bytes) (conn : Conn)
      → Settles (taken 1) (init_history_on execute make_pool connect read_tables history_path conn)
  init_history_on-Settles history_path conn =
      let (r, conn') = if_partitioned execute history_path (init_history_schema execute) conn in
      Settles-on_error (taken 1) r give_up
        (λ _. load_on execute make_pool connect read_tables history_path conn') Settles-give_up
        (λ _. load_on-Settles history_path conn')

  set_up-Settles :
      (history_path : Bytes) (conn : Conn)
      → Settles (taken 1) (set_up execute make_pool connect read_tables history_path conn)
  unfolding set_up
  set_up-Settles history_path conn =
      let (r, conn') = init_schema execute conn in
      Settles-on_error (taken 1) r give_up
        (λ _. init_history_on execute make_pool connect read_tables history_path conn')
        Settles-give_up (λ _. init_history_on-Settles history_path conn')

  first_use-Settles :
      (history_path : Bytes)
      → Settles (taken 0) (first_use execute make_pool connect read_tables history_path)
  unfolding after_calls
  first_use-Settles history_path =
      Settles-on_error (taken 0) (take_conn execute make_pool connect read_tables history_path) _ _
        (λ e. refl) (λ conn. set_up-Settles history_path conn)

  open_db-Settles :
      (opts : List Options) → Settles no_pool (open_db execute make_pool connect read_tables opts)
  unfolding open_db after_calls
  open_db-Settles opts =
      Settles-on_error no_pool (make_pool (open_options opts).pool_size) _ _ (λ e. refl)
        (λ _. Settles-new_pool opts _ (first_use-Settles (open_options opts).history_path))

  -- Whatever fails, `Open` leaves either an open pool from which no connection is taken, with a handle,
  -- or, with an error, no pool: each connection is put back once, the pool is closed after that, and it
  -- was made with a positive size. After any uses, one after the other, and `Close`, no pool is left.
  pub open_db-settles :
      (opts : List Options) (uses : List Connection)
      → (after_calls (open_db execute make_pool connect read_tables opts).1 no_pool
          ≡ some (settled (open_db execute make_pool connect read_tables opts).0))
        × (after_calls (session (open_db execute make_pool connect read_tables opts) uses) no_pool
            ≡ some no_pool)
  open_db-settles opts uses =
      let settles = open_db-Settles opts in
      (settles, session-closes (open_db execute make_pool connect read_tables opts) uses settles)
