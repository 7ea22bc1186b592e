-- ===== src/Transact/Batch.antt =====
-- transact.go: the pass that resolves TempIDs by their Identity values before any write, and the
-- whole of `transact`.
pub mod Consistent
pub mod History
pub mod Past
pub mod Tests
pub mod Growth
use litelog.Prelude.{
  ℕ, ◌≡◌, Bytes, Bool, true, false, not, ◌&&◌, Option, none, some, List, [], ◌∷◌, ◌==◌, bytes_eq,
  if◌then◌else◌, lookup, insert, Key, nat_key, bytes_key, ◌↔◌, bytes_eq_iff, bytes_eq_refl, arith,
}
use litelog.Result.{Error, Result, ok, err, tempid_conflict}
use litelog.Types.{TxDatom, EntityRef, temp_id, TransactOpts, TxResult, GoValue}
use litelog.Values.{encode_value}
use litelog.Store.{Tables, CachedAttribute, TransactionRow, insert_transaction}
use litelog.Schema.{SchemaCache, get_by_ident}
use litelog.Action.{Action, pure, fail, lift, ◌>>=◌, ◌>>◌}
use litelog.Pool.{Db, Connection, EndFn, with_write_conn, alloc_entity_id, alloc_tx_id}
use litelog.Transact.{TxState, Tx, PendingKey, DatomKey, lookup_entity, apply_datoms}

abbrev pub pending_eq : PendingKey → PendingKey → Bool
pending_eq j k = j.a == k.a && bytes_eq j.v k.v

pub pending_eq_iff : (j k : PendingKey) → (pending_eq j k ≡ true) ↔ (j ≡ k)
pending_eq_iff j k =
    (λ h. ground (arith, bytes_eq_iff j.v k.v), λ h. rw h (ground (arith, bytes_eq_refl k.v)))

instance abbrev pub pending_key : Key PendingKey
pending_key = record { beq = pending_eq; beq_iff = pending_eq_iff }

-- The entity for an Identity value that this transaction has not met yet.
first_holder : PendingKey → Bytes → Tx ℕ
first_holder key tid s = elim (lookup_entity key.a key.v 0 s.tables) [
  | some eid ↦ (ok eid, record s { pending = insert key eid s.pending })
  | none ↦ elim (lookup tid s.tempids) [
    | some prev ↦ (ok prev, record s { pending = insert key prev s.pending })
    | none ↦
        let (eid, next) = alloc_entity_id s.next_eid in
        (ok eid, record s { next_eid = next; pending = insert key eid s.pending })
  ]
]

-- The entity for an Identity value asserted with a TempID.
pub holder : PendingKey → Bytes → Tx ℕ
holder key tid s = elim (lookup key s.pending) [
  | some eid ↦ (ok eid, s)
  | none ↦ first_holder key tid s
]

-- `if prev, ok := tempids[tid]; ok && prev != eid`
pub bind_tempid : Bytes → ℕ → Tx (Unit {0})
bind_tempid tid eid s =
    let bound = record s { tempids = insert tid eid s.tempids } in
    elim (lookup tid s.tempids) [
      | none ↦ (ok tt, bound)
      | some prev ↦ if prev == eid then (ok tt, bound) else (err tempid_conflict, s)
    ]

pub upsert_tempid : CachedAttribute → Bytes → GoValue → Tx (Unit {0})
upsert_tempid attr tid v = do
  v_bytes ← lift (encode_value v attr.value_type)
  eid ← holder (record { a = attr.id; v = v_bytes }) tid
  bind_tempid tid eid

-- An assertion for a TempID, with its attribute looked up.
upsert_known : TxDatom → Bytes → Option CachedAttribute → Tx (Unit {0})
upsert_known td tid none = pure tt
upsert_known td tid (some attr) = if attr.identity then upsert_tempid attr tid td.v else pure tt

-- The same for the entity of the datom: only a TempID is resolved here.
upsert_for : SchemaCache → TxDatom → EntityRef → Tx (Unit {0})
upsert_for sc td (temp_id tid) =
    if td.retract then pure tt else upsert_known td tid (get_by_ident sc td.a)
upsert_for sc td _ = pure tt

-- One round of the pass.
pub resolve_upsert : SchemaCache → TxDatom → Tx (Unit {0})
unfolding upsert_known upsert_for
resolve_upsert sc td = upsert_for sc td td.e

pub resolve_upserts : SchemaCache → List TxDatom → Tx (Unit {0})
resolve_upserts sc [] = pure tt
resolve_upserts sc (td ∷ rest) = do resolve_upsert sc td; resolve_upserts sc rest

pub insert_tx : ℕ → ℕ → Tx (Unit {0})
insert_tx tx_id tx_time s =
    elim (insert_transaction (record { id = tx_id; tx_time = tx_time }) s.tables) [
      | err e ↦ (err e, s)
      | ok t ↦ (ok tt, record s { tables = t })
    ]

-- `if len(pending) > 0 { seen = make(…) }`
abbrev pub init_seen : List (PendingKey × ℕ) → Option (List DatomKey)
init_seen [] = none
init_seen (p ∷ ps) = some []

-- The closure that `transact` runs inside the write transaction.
pub transact_body : SchemaCache → ℕ → ℕ → ℕ → List TxDatom → Tx (Unit {0})
transact_body sc tx_id tx_time valid_from datoms = do
  resolve_upserts sc datoms
  insert_tx tx_id tx_time
  λ s. apply_datoms sc tx_id valid_from datoms (record s { seen = init_seen s.pending })

abbrev pub or_else : Option ℕ → ℕ → ℕ
or_else none d = d
or_else (some n) d = n

abbrev pub start_state : Db → TxState
start_state db = record {
  tables = db.tables;
  next_eid = db.next_eid;
  tempids = [];
  produced = [];
  pending = [];
  seen = none;
}

outcome : ℕ → ℕ → Result (Unit {0}) → TxState → Result TxResult
outcome tx_id tx_time (err e) s = err e
outcome tx_id tx_time (ok _) s =
    ok (record { tx_id = tx_id; tx_time = tx_time; tempids = s.tempids; datoms = s.produced })

-- `now` is the clock's answer in Unix milliseconds.
pub transact : Connection → EndFn → ℕ → List TxDatom → TransactOpts → Action Db TxResult
unfolding outcome
transact c end_fn now datoms opts db =
    let (tx_id, next_tx) = alloc_tx_id db.next_tx in
    let tx_time = or_else opts.tx_time now in
    let valid_from = or_else opts.valid_time tx_time in
    let (r, s) =
      with_write_conn c end_fn db.udfs_dirty (λ s. s.tables) (λ t s. record s { tables = t })
        (transact_body db.schema tx_id tx_time valid_from datoms) (start_state db) in
    (
      outcome tx_id tx_time r s,
      record db { tables = s.tables; next_eid = s.next_eid; next_tx = next_tx },
    )
