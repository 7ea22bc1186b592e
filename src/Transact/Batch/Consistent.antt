-- ===== src/Transact/Batch/Consistent.antt =====
-- A transaction that succeeds keeps the datom tables consistent.
use litelog.Prelude.{
  ℕ, ◌+◌, ◌≡◌, refl, ap, ◌∙◌, Bytes, Bool, true, false, Option, none, some, List, [], ◌∷◌, inl, inr,
  if◌then◌else◌, arith, bytes_key,
}
use litelog.Result.{Error, Result, ok, err}
use litelog.Types.{GoValue, TxDatom, TransactOpts, EntityRef, temp_id}
use litelog.Values.{encode_value}
use litelog.Action.{OnSuccess, OnSuccess->>=, ◌>>=◌, pure, lift, continue}
use litelog.Schema.{SchemaCache, get_by_id, get_by_ident, IsCoherent}
use litelog.Store.{CachedAttribute, holds}
use litelog.Store.Laws.{insert_transaction-cases}
use litelog.Pool.Laws.{IsReady, with_write_conn-OnSuccess, with_write_conn-commits}
use litelog.Pool.{Db, Connection, EndFn, IsEndFn, with_write_conn}
use litelog.Transact.{
  Tx, TxState, Fact, DatomKey, PendingKey, check_seen, write_datom, resolve_entity, retract_datom,
  assert_datom, apply_to, apply_datom, apply_datoms,
}
use litelog.Transact.Batch.{
  pending_key, holder, first_holder, bind_tempid, upsert_tempid, upsert_known, upsert_for,
  resolve_upsert, resolve_upserts, insert_tx, init_seen, transact_body, transact, start_state,
  or_else, outcome,
}
use litelog.Transact.Facts.{IsConsistent}
use litelog.Transact.Single.{
  KeepsTables, KeepsTables-OnSuccess, retract_datom-IsConsistent, assert_datom-IsConsistent,
  resolve_entity-KeepsTables, check_seen-KeepsTables,
}

-- The action keeps the tables consistent where it succeeds.
abbrev pub KeepsConsistent : {A : Type 0} → SchemaCache → Tx A → Type 0
KeepsConsistent sc m =
    (s : TxState) → IsConsistent sc s.tables → OnSuccess (λ _ s'. IsConsistent sc s'.tables) (m s)

KeepsConsistent->>= :
    {A B : Type 0} (sc : SchemaCache) (m : Tx A) (f : A → Tx B)
    → KeepsConsistent sc m
    → ((a : A) → KeepsConsistent sc (f a))
    → KeepsConsistent sc (m >>= f)
KeepsConsistent->>= sc m f hm hf s h =
    OnSuccess->>= (λ _ s'. IsConsistent sc s'.tables) (λ _ s'. IsConsistent sc s'.tables) m f s
      (hm s h) λ a s'. hf a s'

KeepsTables→KeepsConsistent :
    {A : Type 0} (sc : SchemaCache) (m : Tx A) → KeepsTables m → KeepsConsistent sc m
KeepsTables→KeepsConsistent sc m k s = KeepsTables-OnSuccess (IsConsistent sc) m s k

module _ (sc : SchemaCache) (coherent : IsCoherent sc) where
  write_datom-KeepsConsistent :
      (f : Fact) (v : GoValue) (retract : Bool)
      → get_by_id sc f.attr.id ≡ some f.attr
      → KeepsConsistent sc (write_datom f v retract)
  unfolding write_datom
  write_datom-KeepsConsistent f v retract cached =
      KeepsConsistent->>= sc (check_seen key) _
        (KeepsTables→KeepsConsistent sc (check_seen key) (check_seen-KeepsTables key))
        (write retract)
    where
      key : DatomKey
      key = record { e = f.eid; a = f.attr.id; retract = retract; v = f.v_bytes }

      write :
          (retract duplicate : Bool)
          → KeepsConsistent sc (
              if duplicate
              then pure tt
              else if retract
              then retract_datom f v
              else assert_datom f v)
      write r true s h = h
      write true false s h = retract_datom-IsConsistent sc f cached v s h
      write false false s h = assert_datom-IsConsistent sc f cached v s h

  apply_to-KeepsConsistent :
      (tx_id valid_from : ℕ) (td : TxDatom) (found : Option CachedAttribute)
      → ((attr : CachedAttribute) → found ≡ some attr → get_by_id sc attr.id ≡ some attr)
      → KeepsConsistent sc (apply_to sc tx_id valid_from td found)
  unfolding apply_to
  apply_to-KeepsConsistent tx_id valid_from td none cached s h = tt
  apply_to-KeepsConsistent tx_id valid_from td (some attr) cached s h =
      KeepsConsistent->>= sc (resolve_entity sc td.e) _
        (KeepsTables→KeepsConsistent sc (resolve_entity sc td.e)
          (resolve_entity-KeepsTables sc td.e))
        (λ eid.
          KeepsConsistent->>= sc (lift (encode_value td.v attr.value_type)) _
            (KeepsTables→KeepsConsistent sc (lift (encode_value td.v attr.value_type)) (λ s. refl))
            (λ v_bytes.
              write_datom-KeepsConsistent
                (record {
                  attr = attr;
                  eid = eid;
                  v_bytes = v_bytes;
                  tx_id = tx_id;
                  valid_from = valid_from;
                })
                td.v td.retract (cached attr refl)))
        s h

  apply_datom-KeepsConsistent :
      (tx_id valid_from : ℕ) (td : TxDatom)
      → KeepsConsistent sc (apply_datom sc tx_id valid_from td)
  unfolding apply_datom
  apply_datom-KeepsConsistent tx_id valid_from td =
      apply_to-KeepsConsistent tx_id valid_from td (get_by_ident sc td.a)
        λ attr known. (coherent td.a attr known).1

  apply_datoms-KeepsConsistent :
      (tx_id valid_from : ℕ) (datoms : List TxDatom)
      → KeepsConsistent sc (apply_datoms sc tx_id valid_from datoms)
  unfolding apply_datoms
  apply_datoms-KeepsConsistent tx_id valid_from [] = λ s h. h
  apply_datoms-KeepsConsistent tx_id valid_from (td ∷ rest) =
      KeepsConsistent->>= sc (apply_datom sc tx_id valid_from td) _
        (apply_datom-KeepsConsistent tx_id valid_from td)
        (λ _. apply_datoms-KeepsConsistent tx_id valid_from rest)

-- The pass over the TempIDs writes to no table.
holder-KeepsTables : (key : PendingKey) (tid : Bytes) → KeepsTables (holder key tid)
unfolding holder first_holder
holder-KeepsTables key tid s = ground arith

bind_tempid-KeepsTables : (tid : Bytes) (eid : ℕ) → KeepsTables (bind_tempid tid eid)
unfolding bind_tempid
bind_tempid-KeepsTables tid eid s = ground arith

pub KeepsTables->>= :
    {A B : Type 0} (m : Tx A) (f : A → Tx B)
    → KeepsTables m
    → ((a : A) → KeepsTables (f a))
    → KeepsTables (m >>= f)
KeepsTables->>= {A} m f hm hf s = go (m s) (hm s)
  where
    go :
        (out : Result A × TxState)
        → out.1.tables ≡ s.tables
        → (continue out.0 f out.1).1.tables ≡ s.tables
    go (ok a, s') k = hf a s' ∙ k
    go (err e, s') k = k

upsert_tempid-KeepsTables :
    (attr : CachedAttribute) (tid : Bytes) (v : GoValue) → KeepsTables (upsert_tempid attr tid v)
unfolding upsert_tempid
upsert_tempid-KeepsTables attr tid v =
    KeepsTables->>= (lift (encode_value v attr.value_type)) _ (λ s. refl)
      λ v_bytes.
        KeepsTables->>= (holder (record { a = attr.id; v = v_bytes }) tid) _
          (holder-KeepsTables (record { a = attr.id; v = v_bytes }) tid)
          λ eid. bind_tempid-KeepsTables tid eid

upsert_known-KeepsTables :
    (td : TxDatom) (tid : Bytes) (found : Option CachedAttribute)
    → KeepsTables (upsert_known td tid found)
unfolding upsert_known
upsert_known-KeepsTables td tid none s = refl
upsert_known-KeepsTables td tid (some attr) s =
    ground (arith, upsert_tempid-KeepsTables attr tid td.v s)

upsert_for-KeepsTables :
    (sc : SchemaCache) (td : TxDatom) (r : EntityRef) → KeepsTables (upsert_for sc td r)
unfolding upsert_for
upsert_for-KeepsTables sc td (temp_id tid) s =
    ground (arith, upsert_known-KeepsTables td tid (get_by_ident sc td.a) s)
upsert_for-KeepsTables sc td _ s = refl

pub resolve_upserts-KeepsTables :
    (sc : SchemaCache) (datoms : List TxDatom) → KeepsTables (resolve_upserts sc datoms)
unfolding resolve_upserts
resolve_upserts-KeepsTables sc [] = λ s. refl
resolve_upserts-KeepsTables sc (td ∷ rest) =
    KeepsTables->>= (resolve_upsert sc td) _
      (unfold resolve_upsert in upsert_for-KeepsTables sc td td.e)
      λ _. resolve_upserts-KeepsTables sc rest

insert_tx-KeepsConsistent :
    (sc : SchemaCache) (tx_id tx_time : ℕ) → KeepsConsistent sc (insert_tx tx_id tx_time)
unfolding insert_tx holds
insert_tx-KeepsConsistent sc tx_id tx_time s h =
    elim (insert_transaction-cases (record { id = tx_id; tx_time = tx_time }) s.tables) [
      | inl refused ↦ rw (refused, insert_tx) tt
      | inr done ↦ rw (done, insert_tx) h
    ]

transact_body-KeepsConsistent :
    (sc : SchemaCache)
    → IsCoherent sc
    → (tx_id tx_time valid_from : ℕ) (datoms : List TxDatom)
    → KeepsConsistent sc (transact_body sc tx_id tx_time valid_from datoms)
unfolding transact_body
transact_body-KeepsConsistent sc coherent tx_id tx_time valid_from datoms =
    KeepsConsistent->>= sc (resolve_upserts sc datoms) _
      (KeepsTables→KeepsConsistent sc (resolve_upserts sc datoms)
        (resolve_upserts-KeepsTables sc datoms))
      λ _.
        KeepsConsistent->>= sc (insert_tx tx_id tx_time) _
          (insert_tx-KeepsConsistent sc tx_id tx_time)
          λ _ s.
            apply_datoms-KeepsConsistent sc coherent tx_id valid_from datoms
              (record s { seen = init_seen s.pending })

-- If a transaction succeeds, the tables it leaves are consistent where those before were: what
-- `current_datoms` holds is what the history leaves asserted, a CardOne attribute has one value at
-- most, and an Identity value one holder at most. The cache has to be coherent, and the function
-- that ends the transaction to behave as documented.
pub transact-IsConsistent :
    (c : Connection) (end_fn : EndFn) (now : ℕ) (datoms : List TxDatom) (opts : TransactOpts)
    (db : Db)
    → IsEndFn end_fn
    → IsCoherent db.schema
    → IsConsistent db.schema db.tables
    → OnSuccess (λ _ db'. IsConsistent db'.schema db'.tables) (transact c end_fn now datoms opts db)
unfolding transact
transact-IsConsistent c end_fn now datoms opts db ends coherent h =
    finish (with_write_conn c end_fn db.udfs_dirty _ _ body (start_state db)) (
      with_write_conn-OnSuccess c end_fn ends db.udfs_dirty (λ s. s.tables)
        (λ t s. record s { tables = t }) (λ s. refl) body (start_state db)
        (λ _ s. IsConsistent db.schema s.tables)
        (transact_body-KeepsConsistent db.schema coherent db.next_tx tx_time valid_from datoms
          (start_state db) h))
  where
    tx_time : ℕ
    tx_time = or_else opts.tx_time now

    valid_from : ℕ
    valid_from = or_else opts.valid_time tx_time

    body : Tx (Unit {0})
    body = transact_body db.schema db.next_tx tx_time valid_from datoms

    finish :
        (out : Result (Unit {0}) × TxState)
        → OnSuccess (λ _ s. IsConsistent db.schema s.tables) out
        → OnSuccess
            (λ _ db'. IsConsistent db'.schema db'.tables)
            (
              outcome db.next_tx tx_time out.0 out.1,
              record db {
                tables = out.1.tables;
                next_eid = out.1.next_eid;
                next_tx = db.next_tx + 1;
              },
            )
    finish (ok _, s) k = k
    finish (err e, s) k = tt

-- A transaction whose body fails on a connection that is ready returns the error, and leaves in the
-- tables what the body had written before it failed: the batch is not rolled
-- back, where the function that ends the transaction behaves as documented.
pub transact-commits_failure :
    (c : Connection) (end_fn : EndFn) (now : ℕ) (datoms : List TxDatom) (opts : TransactOpts)
    (db : Db) (e : Error) (s : TxState)
    → IsReady c
    → IsEndFn end_fn
    → transact_body db.schema db.next_tx
        (or_else opts.tx_time now)
        (or_else opts.valid_time (or_else opts.tx_time now))
        datoms
        (start_state db)
      ≡ (err e, s)
    → ((transact c end_fn now datoms opts db).0 ≡ err e)
      × ((transact c end_fn now datoms opts db).1.tables ≡ s.tables)
unfolding transact
transact-commits_failure c end_fn now datoms opts db e s ready ends fails = (
  ap (λ (out : Result (Unit {0}) × TxState). outcome db.next_tx tx_time out.0 out.1) kept,
  ap (λ (out : Result (Unit {0}) × TxState). out.1.tables) kept,
)
  where
    tx_time : ℕ
    tx_time = or_else opts.tx_time now

    body : Tx (Unit {0})
    body = transact_body db.schema db.next_tx tx_time (or_else opts.valid_time tx_time) datoms

    kept :
        with_write_conn c end_fn db.udfs_dirty
          (λ s. s.tables)
          (λ t s. record s { tables = t })
          body
          (start_state db)
        ≡ (err e, s)
    kept =
        with_write_conn-commits c end_fn ends db.udfs_dirty (λ s. s.tables)
          (λ t s. record s { tables = t }) (λ s. refl) body (start_state db) ready
        ∙ fails
