-- ===== src/Pool/Laws.antt =====
-- What a use of a connection does to the state of the code that it runs.
use litelog.Prelude.{◌≡◌, Bool, true, false, inl, inr, none, subst, sym}
use litelog.Result.{Result, ok, Result-cases, ◌>>=◌}
use litelog.Action.{Action, OnSuccess}
use litelog.Store.{Tables}
use litelog.Pool.{acquire, Connection, EndFn, IsEndFn, run_and_end, with_write_conn}

-- The connection was handed out and the transaction begun.
pub record IsReady (c : Connection) : Type 0 where
  pub taken : c.take ≡ ok tt
  pub installed : c.install ≡ ok tt
  pub begun : c.begin ≡ ok tt

module _ {S A : Type 0} (c : Connection) (end_fn : EndFn) (ends : IsEndFn end_fn) (dirty : Bool)
    (tables : S → Tables) (set_tables : Tables → S → S)
    (set_own : (s : S) → set_tables (tables s) s ≡ s) (fn : Action S A) (s : S) where
  -- Whatever the code answers, what it wrote is committed.
  run_and_end-commits : run_and_end end_fn tables set_tables fn s ≡ fn s
  unfolding run_and_end
  run_and_end-commits = λ i. ((fn s).0, committed i)
    where
      committed : set_tables (end_fn none (tables s) (tables (fn s).1)) (fn s).1 ≡ (fn s).1
      committed = rw (ends.commits (tables s) (tables (fn s).1)) (set_own (fn s).1)

  -- On a connection that is ready the code's own answer and state come back, also where it fails.
  pub with_write_conn-commits :
      IsReady c → with_write_conn c end_fn dirty tables set_tables fn s ≡ fn s
  unfolding with_write_conn
  with_write_conn-commits ready = rw (begins dirty, with_write_conn) run_and_end-commits
    where
      begins : (dirty : Bool) → (acquire c dirty >>= λ _. c.begin) ≡ ok tt
      begins true = rw (ready.taken, ready.installed, ready.begun)
      begins false = rw (ready.taken, ready.begun)

  pub with_write_conn-OnSuccess :
      (P : A → S → Type 0)
      → OnSuccess P (fn s)
      → OnSuccess P (with_write_conn c end_fn dirty tables set_tables fn s)
  unfolding with_write_conn
  with_write_conn-OnSuccess P h = elim (Result-cases (acquire c dirty >>= λ _. c.begin)) [
    | inl (e, failed) ↦ rw (failed, with_write_conn) tt
    | inr (_, begun) ↦ rw (begun, with_write_conn) (subst (OnSuccess P) (sym run_and_end-commits) h)
  ]

  pub with_write_conn-Keeps :
      (P : S → Type 0)
      → P s
      → P (fn s).1
      → P (with_write_conn c end_fn dirty tables set_tables fn s).1
  unfolding with_write_conn
  with_write_conn-Keeps P unused done = elim (Result-cases (acquire c dirty >>= λ _. c.begin)) [
    | inl (e, failed) ↦ rw (failed, with_write_conn) unused
    | inr (_, begun) ↦
        rw (begun, with_write_conn)
          (subst (λ (out : Result A × S). P out.1) (sym run_and_end-commits) done)
  ]
