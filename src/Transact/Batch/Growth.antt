-- ===== src/Transact/Batch/Growth.antt =====
-- transact.go: what holds of a history and is kept by rows of a transaction's own ID is kept by the
-- transaction.
use litelog.Prelude.{
  ℕ, ◌≡◌, refl, sym, subst, Bytes, Bool, true, false, Option, none, some, List, [], ◌∷◌, ◌++◌, inl,
  inr, Bool-cases, Option-cases, if◌then◌else◌, arith,
}
use litelog.Result.{Result, ok, err}
use litelog.Types.{GoValue, TxDatom, TransactOpts, card_one, cardinality_eq}
use litelog.Values.{encode_value}
use litelog.Action.{◌>>=◌, ◌>>◌, pure, lift, continue}
use litelog.Schema.{SchemaCache, get_by_ident}
use litelog.Store.{
  Tables, LogRow, CachedAttribute, delete_current_eav, delete_current_ea, upsert_current,
  read_current,
}
use litelog.Store.Laws.{
  insert_datom-cases, insert_transaction-cases, datoms-delete_current_eav, datoms-delete_current_ea,
  datoms-upsert_current,
}
use litelog.Pool.{Db, Connection, EndFn, IsEndFn}
use litelog.Transact.{
  Tx, TxState, Fact, DatomKey, log_datom, log_row, current_row, produce, on_tables, decoded_or_nil,
  retract_datom, check_identity, replace_value, retract_existing, record_assertion, assert_datom,
  check_seen, write_datom, resolve_entity, apply_to, apply_datom, apply_datoms,
}
use litelog.Pool.Laws.{with_write_conn-Keeps}
use litelog.Transact.Single.{KeepsTables, resolve_entity-KeepsTables, check_seen-KeepsTables}
use litelog.Transact.Batch.{
  resolve_upserts, insert_tx, init_seen, transact_body, transact, start_state, or_else,
}
use litelog.Transact.Batch.Consistent.{resolve_upserts-KeepsTables}

-- A property of histories that new rows of the transaction `tx_id` keep.
module _ (P : List LogRow → Type 0) (tx_id : ℕ)
    (grows : (log : List LogRow) (r : LogRow) → r.tx ≡ tx_id → P log → P (log ++ r ∷ [])) where
  abbrev Keeps : {A : Type 0} → Tx A → Type 0
  Keeps m = (s : TxState) → P s.tables.datoms → P (m s).1.tables.datoms

  Keeps->>= :
      {A B : Type 0} (m : Tx A) (f : A → Tx B) → Keeps m → ((a : A) → Keeps (f a)) → Keeps (m >>= f)
  Keeps->>= {A} m f hm hf s h = go (m s) (hm s h)
    where
      go :
          (out : Result A × TxState)
          → P out.1.tables.datoms
          → P (continue out.0 f out.1).1.tables.datoms
      go (ok a, s') k = hf a s' k
      go (err e, s') k = k

  KeepsTables→Keeps : {A : Type 0} (m : Tx A) → KeepsTables m → Keeps m
  KeepsTables→Keeps m k s h = subst (λ t. P t.datoms) (sym (k s)) h

  log_datom-Keeps : (r : LogRow) → r.tx ≡ tx_id → Keeps (log_datom r)
  unfolding log_datom
  log_datom-Keeps r own s h = elim (insert_datom-cases r s.tables) [
    | inl refused ↦ rw (refused, log_datom) h
    | inr done ↦ rw (done, log_datom) (grows s.tables.datoms r own h)
  ]

  on_tables-Keeps :
      (g : Tables → Tables) → ((t : Tables) → (g t).datoms ≡ t.datoms) → Keeps (on_tables g)
  on_tables-Keeps g same s h = subst P (sym (same s.tables)) h

  module _ (f : Fact) (own : f.tx_id ≡ tx_id) where
    retract_datom-Keeps : (v : GoValue) → Keeps (retract_datom f v)
    unfolding retract_datom
    retract_datom-Keeps v =
        Keeps->>= (on_tables (delete_current_eav f.eid f.attr.id f.v_bytes))
          (λ _. log_datom row >> produce f v false)
          (on_tables-Keeps (delete_current_eav f.eid f.attr.id f.v_bytes)
            (datoms-delete_current_eav f.eid f.attr.id f.v_bytes))
          (λ _.
            Keeps->>= (log_datom row) (λ _. produce f v false) (log_datom-Keeps row own) λ _ s h. h)
      where
        row : LogRow
        row = log_row f f.v_bytes v false

    replace_value-Keeps : (old : Bytes) → Keeps (replace_value f old)
    unfolding replace_value
    replace_value-Keeps old =
        Keeps->>= (log_datom row)
          (λ _. produce f v false >> on_tables (delete_current_ea f.eid f.attr.id))
          (log_datom-Keeps row own)
          (λ _ s h.
            on_tables-Keeps (delete_current_ea f.eid f.attr.id)
              (datoms-delete_current_ea f.eid f.attr.id) s h)
      where
        v : GoValue
        v = decoded_or_nil old f.attr.value_type

        row : LogRow
        row = log_row f old v false

    retract_existing-Keeps : Keeps (retract_existing f)
    unfolding retract_existing
    retract_existing-Keeps s h = elim (Bool-cases (cardinality_eq f.attr.cardinality card_one)) [
      | inl one ↦ elim (Option-cases (read_current f.eid f.attr.id s.tables)) [
        | inl nothing ↦ rw (one, nothing) h
        | inr (old, found) ↦ rw (one, found) (replace_value-Keeps old.v s h)
      ]
      | inr many ↦ rw many h
    ]

    record_assertion-Keeps : (v : GoValue) → Keeps (record_assertion f v)
    unfolding record_assertion
    record_assertion-Keeps v =
        Keeps->>= (log_datom row)
          (λ _. on_tables (upsert_current (current_row f v)) >> produce f v true)
          (log_datom-Keeps row own)
          (λ _ s h.
            on_tables-Keeps (upsert_current (current_row f v))
              (datoms-upsert_current (current_row f v)) s h)
      where
        row : LogRow
        row = log_row f f.v_bytes v true

    check_identity-KeepsTables : KeepsTables (check_identity f)
    unfolding check_identity
    check_identity-KeepsTables s = ground arith

    assert_datom-Keeps : (v : GoValue) → Keeps (assert_datom f v)
    unfolding assert_datom
    assert_datom-Keeps v =
        Keeps->>= (check_identity f) (λ _. retract_existing f >> record_assertion f v)
          (KeepsTables→Keeps (check_identity f) check_identity-KeepsTables)
          (λ _.
            Keeps->>= (retract_existing f) (λ _. record_assertion f v) retract_existing-Keeps
              (λ _. record_assertion-Keeps v))

    write_datom-Keeps : (v : GoValue) (retract : Bool) → Keeps (write_datom f v retract)
    unfolding write_datom
    write_datom-Keeps v retract =
        Keeps->>= (check_seen key) (write retract)
          (KeepsTables→Keeps (check_seen key) (check_seen-KeepsTables key)) (write-Keeps retract)
      where
        key : DatomKey
        key = record { e = f.eid; a = f.attr.id; retract = retract; v = f.v_bytes }

        write : Bool → Bool → Tx (Unit {0})
        write retract duplicate =
            if duplicate then pure tt else if retract then retract_datom f v else assert_datom f v

        write-Keeps : (retract duplicate : Bool) → Keeps (write retract duplicate)
        write-Keeps r true = λ s h. h
        write-Keeps true false = retract_datom-Keeps v
        write-Keeps false false = assert_datom-Keeps v

  apply_to-Keeps :
      (sc : SchemaCache) (valid_from : ℕ) (td : TxDatom) (found : Option CachedAttribute)
      → Keeps (apply_to sc tx_id valid_from td found)
  unfolding apply_to
  apply_to-Keeps sc valid_from td none = λ s h. h
  apply_to-Keeps sc valid_from td (some attr) =
      Keeps->>= (resolve_entity sc td.e)
        (λ eid. lift (encode_value td.v attr.value_type) >>= write eid)
        (KeepsTables→Keeps (resolve_entity sc td.e) (resolve_entity-KeepsTables sc td.e))
        (λ eid.
          Keeps->>= (lift (encode_value td.v attr.value_type)) (write eid) (λ s h. h)
            (λ v_bytes. write_datom-Keeps (fact eid v_bytes) refl td.v td.retract))
    where
      fact : ℕ → Bytes → Fact
      fact eid v_bytes = record {
        attr = attr;
        eid = eid;
        v_bytes = v_bytes;
        tx_id = tx_id;
        valid_from = valid_from;
      }

      write : ℕ → Bytes → Tx (Unit {0})
      write eid v_bytes = write_datom (fact eid v_bytes) td.v td.retract

  apply_datoms-Keeps :
      (sc : SchemaCache) (valid_from : ℕ) (datoms : List TxDatom)
      → Keeps (apply_datoms sc tx_id valid_from datoms)
  unfolding apply_datoms apply_datom
  apply_datoms-Keeps sc valid_from [] = λ s h. h
  apply_datoms-Keeps sc valid_from (td ∷ rest) =
      Keeps->>= (apply_to sc tx_id valid_from td (get_by_ident sc td.a))
        (λ _. apply_datoms sc tx_id valid_from rest)
        (apply_to-Keeps sc valid_from td (get_by_ident sc td.a))
        (λ _. apply_datoms-Keeps sc valid_from rest)

  insert_tx-Keeps : (tx_time : ℕ) → Keeps (insert_tx tx_id tx_time)
  unfolding insert_tx
  insert_tx-Keeps tx_time s h =
      elim (insert_transaction-cases (record { id = tx_id; tx_time = tx_time }) s.tables) [
        | inl refused ↦ rw (refused, insert_tx) h
        | inr done ↦ rw (done, insert_tx) h
      ]

  transact_body-Keeps :
      (sc : SchemaCache) (tx_time valid_from : ℕ) (datoms : List TxDatom)
      → Keeps (transact_body sc tx_id tx_time valid_from datoms)
  unfolding transact_body
  transact_body-Keeps sc tx_time valid_from datoms =
      Keeps->>= (resolve_upserts sc datoms) (λ _. insert_tx tx_id tx_time >>= write)
        (KeepsTables→Keeps (resolve_upserts sc datoms) (resolve_upserts-KeepsTables sc datoms))
        (λ _. Keeps->>= (insert_tx tx_id tx_time) write (insert_tx-Keeps tx_time) (λ _ s h.
          apply_datoms-Keeps sc valid_from datoms (record s { seen = init_seen s.pending }) h))
    where
      write : Unit {0} → Tx (Unit {0})
      write _ s = apply_datoms sc tx_id valid_from datoms (record s { seen = init_seen s.pending })

  -- The same for the whole call, whatever it returns.
  pub transact-Keeps :
      (c : Connection) (end_fn : EndFn) (now : ℕ) (datoms : List TxDatom) (opts : TransactOpts)
      (db : Db)
      → IsEndFn end_fn
      → db.next_tx ≡ tx_id
      → P db.tables.datoms
      → P (transact c end_fn now datoms opts db).1.tables.datoms
  unfolding transact
  transact-Keeps c end_fn now datoms opts db ends own h =
      with_write_conn-Keeps c end_fn ends db.udfs_dirty (λ s. s.tables)
        (λ t s. record s { tables = t }) (λ s. refl) body (start_state db) (λ s. P s.tables.datoms)
        h (rw own (transact_body-Keeps db.schema tx_time valid_from datoms (start_state db) h))
    where
      tx_time : ℕ
      tx_time = or_else opts.tx_time now

      valid_from : ℕ
      valid_from = or_else opts.valid_time tx_time

      body : Tx (Unit {0})
      body = transact_body db.schema db.next_tx tx_time valid_from datoms
