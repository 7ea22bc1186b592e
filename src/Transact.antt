-- ===== src/Transact.antt =====
-- transact.go: a batch of datoms is resolved, checked and written. The state of the closure that
-- `transact` passes to `withWriteConn` is `TxState`; the counter of entity IDs and the tables in it
-- belong to the database.
pub mod Batch
pub mod Facts
pub mod Single
use litelog.Prelude.{
  ℕ, zero, suc, ◌+◌, ◌≡◌, Bytes, Bool, true, false, not, ◌&&◌, ◌||◌, Option, none, some, List, [],
  ◌∷◌, ◌++◌, ◌==◌, bytes_eq, if◌then◌else◌, any, lookup, insert, Key, nat_key, bytes_key,
}
use litelog.Result.{
  Error, Result, ok, err, unknown_attribute, not_identity, no_such_entity, unsupported_entity,
  identity_conflict, tempid_conflict,
}
use litelog.Types.{
  ValueType, type_int, type_string, type_float, type_bool, type_ref, type_bytes, type_inst,
  type_other, GoValue, int64, int, string, float64, bool, bytes, time, other, Cardinality, card_one,
  card_many, Datom, EntityRef, temp_id, entity, entity_int, lookup_ref, other_ref, TxDatom,
  TransactOpts, TxResult, bool_eq, cardinality_eq,
}
use litelog.Values.{encode_value, decode_value}
use litelog.Store.{
  real_column, Tables, TypedColumns, LogRow, CurrentRow, CachedAttribute, insert_datom,
  upsert_current, delete_current_ea, delete_current_eav, read_current, lookup_av,
  insert_transaction,
}
use litelog.Schema.{SchemaCache, get_by_ident}
use litelog.Action.{Action, pure, fail, lift, modify, ◌>>=◌, ◌>>◌}
use litelog.Pool.{Db, Connection, EndFn, with_write_conn, alloc_entity_id, alloc_tx_id}

pub record DatomKey : Type 0 where
  pub e : ℕ
  pub a : ℕ
  pub retract : Bool
  pub v : Bytes

-- The key of `pending`: the source prints the attribute ID and the value in hexadecimal.
pub record PendingKey : Type 0 where
  pub a : ℕ
  pub v : Bytes

pub record TxState : Type 0 where
  pub tables : Tables
  pub next_eid : ℕ
  pub tempids : List (Bytes × ℕ)
  pub produced : List Datom
  pub pending : List (PendingKey × ℕ)
  -- `none` is the nil map.
  pub seen : Option (List DatomKey)

abbrev pub Tx : Type 0 → Type 0
Tx A = Action TxState A

-- The attribute at hand, the entity, the encoded value and what one transaction shares.
pub record Fact : Type 0 where
  pub attr : CachedAttribute
  pub eid : ℕ
  pub v_bytes : Bytes
  pub tx_id : ℕ
  pub valid_from : ℕ

-- The entity that holds the value, other than `exclude`.
pub lookup_entity : ℕ → Bytes → ℕ → Tables → Option ℕ
lookup_entity a v exclude t = elim (lookup_av a v exclude t) [ none ↦ none | some r ↦ some r.e ]

pub resolve_lookup_ref : SchemaCache → Bytes → GoValue → Tx ℕ
resolve_lookup_ref sc ident v s = elim (get_by_ident sc ident) [
  | none ↦ (err unknown_attribute, s)
  | some attr ↦
      if attr.identity
      then elim (encode_value v attr.value_type) [
        | err e ↦ (err e, s)
        | ok v_bytes ↦ elim (lookup_entity attr.id v_bytes 0 s.tables) [
          | none ↦ (err no_such_entity, s)
          | some eid ↦ (ok eid, s)
        ]
      ]
      else (err not_identity, s)
]

abbrev null_columns : TypedColumns
null_columns = record { v_int = none; v_text = none; v_float = none }

-- `bindTypedColumns`: a value that does not fit its type leaves the three columns NULL.
unfoldable pub bind_typed_columns : GoValue → ValueType → TypedColumns
bind_typed_columns (int64 n) type_int = record null_columns { v_int = some n }
bind_typed_columns (int n) type_int = record null_columns { v_int = some n }
bind_typed_columns (int64 n) type_ref = record null_columns { v_int = some n }
bind_typed_columns (int n) type_ref = record null_columns { v_int = some n }
bind_typed_columns (string s) type_string = record null_columns { v_text = some s }
bind_typed_columns (float64 f) type_float = record null_columns { v_float = real_column f }
bind_typed_columns (bool true) type_bool = record null_columns { v_int = some 1 }
bind_typed_columns (bool false) type_bool = record null_columns { v_int = some 0 }
bind_typed_columns (time ms ns) type_inst = record null_columns { v_int = some ms }
bind_typed_columns v t = null_columns

-- One row for the history, about a fact whose encoded value may be another than that of `f`.
abbrev pub log_row : Fact → Bytes → GoValue → Bool → LogRow
log_row f v_bytes v added = record {
  e = f.eid;
  a = f.attr.id;
  v = v_bytes;
  v_type = f.attr.value_type;
  typed = bind_typed_columns v f.attr.value_type;
  tx = f.tx_id;
  added = added;
  valid_from = f.valid_from;
  valid_to = none;
}

abbrev pub current_row : Fact → GoValue → CurrentRow
current_row f v = record {
  e = f.eid;
  a = f.attr.id;
  v = f.v_bytes;
  v_type = f.attr.value_type;
  typed = bind_typed_columns v f.attr.value_type;
  tx = f.tx_id;
  valid_from = f.valid_from;
  valid_to = none;
}

abbrev pub on_tables : (Tables → Tables) → Tx (Unit {0})
on_tables g = modify λ s. record s { tables = g s.tables }

pub log_datom : LogRow → Tx (Unit {0})
log_datom r s = elim (insert_datom r s.tables) [
  | err e ↦ (err e, s)
  | ok t ↦ (ok tt, record s { tables = t })
]

abbrev pub produce : Fact → GoValue → Bool → Tx (Unit {0})
produce f v added = modify λ s. record s {
  produced =
      s.produced ++ record { e = f.eid; a = f.attr.id; v = v; tx = f.tx_id; added = added } ∷ [];
}

-- The value that `oldDecoded, _ := decodeValue(oldV, attr.ValueType)` yields: nil on an error.
abbrev pub decoded_or_nil : Bytes → ValueType → GoValue
decoded_or_nil v t = elim (decode_value v t) [ ok w ↦ w | err _ ↦ other ]

-- `if td.Retract`
pub retract_datom : Fact → GoValue → Tx (Unit {0})
retract_datom f v = do
  on_tables (delete_current_eav f.eid f.attr.id f.v_bytes)
  log_datom (log_row f f.v_bytes v false)
  produce f v false

-- The identity check of an assertion.
pub check_identity : Fact → Tx (Unit {0})
check_identity f s =
    if f.attr.identity
    then elim (lookup_entity f.attr.id f.v_bytes f.eid s.tables) [
      | some other_entity ↦ (err identity_conflict, s)
      | none ↦ (ok tt, s)
    ]
    else (ok tt, s)

-- The retraction of the value that an assertion of a CardOne attribute replaces.
replace_value : Fact → Bytes → Tx (Unit {0})
replace_value f old_v = do
  log_datom (log_row f old_v (decoded_or_nil old_v f.attr.value_type) false)
  produce f (decoded_or_nil old_v f.attr.value_type) false
  on_tables (delete_current_ea f.eid f.attr.id)

pub retract_existing : Fact → Tx (Unit {0})
retract_existing f s =
    if cardinality_eq f.attr.cardinality card_one
    then elim (read_current f.eid f.attr.id s.tables) [
      | none ↦ (ok tt, s)
      | some old ↦ replace_value f old.v s
    ]
    else (ok tt, s)

pub record_assertion : Fact → GoValue → Tx (Unit {0})
record_assertion f v = do
  log_datom (log_row f f.v_bytes v true)
  on_tables (upsert_current (current_row f v))
  produce f v true

pub assert_datom : Fact → GoValue → Tx (Unit {0})
assert_datom f v = do check_identity f; retract_existing f; record_assertion f v

-- The entity that a TempID stands for: a new one, unless it is resolved already.
resolve_tempid : Bytes → Tx ℕ
resolve_tempid tid s = elim (lookup tid s.tempids) [
  | some eid ↦ (ok eid, s)
  | none ↦
      let (eid, next) = alloc_entity_id s.next_eid in
      (ok eid, record s { next_eid = next; tempids = insert tid eid s.tempids })
]

pub resolve_entity : SchemaCache → EntityRef → Tx ℕ
resolve_entity sc (temp_id tid) = resolve_tempid tid
resolve_entity sc (entity e) = pure e
resolve_entity sc (entity_int e) = pure e
resolve_entity sc (lookup_ref a v) = resolve_lookup_ref sc a v
resolve_entity sc other_ref = fail unsupported_entity

abbrev pub datom_key_eq : DatomKey → DatomKey → Bool
datom_key_eq j k = j.e == k.e && j.a == k.a && bool_eq j.retract k.retract && bytes_eq j.v k.v

-- Has the same datom been applied in this transaction? If not, it is marked.
pub check_seen : DatomKey → Tx Bool
check_seen k s = elim s.seen [
  | none ↦ (ok false, s)
  | some keys ↦
      if any (λ j. datom_key_eq j k) keys
      then (ok true, s)
      else (ok false, record s { seen = some (k ∷ keys) })
]

-- What is done with a datom that is resolved and encoded.
pub write_datom : Fact → GoValue → Bool → Tx (Unit {0})
write_datom f v retract = do
  duplicate ← check_seen (record { e = f.eid; a = f.attr.id; retract = retract; v = f.v_bytes })
  if duplicate then pure tt else if retract then retract_datom f v else assert_datom f v

-- What is done with a datom whose attribute is looked up.
pub apply_to : SchemaCache → ℕ → ℕ → TxDatom → Option CachedAttribute → Tx (Unit {0})
apply_to sc tx_id valid_from td none = fail unknown_attribute
apply_to sc tx_id valid_from td (some attr) = do
  eid ← resolve_entity sc td.e
  v_bytes ← lift (encode_value td.v attr.value_type)
  let f : Fact = record {
    attr = attr;
    eid = eid;
    v_bytes = v_bytes;
    tx_id = tx_id;
    valid_from = valid_from;
  }
  write_datom f td.v td.retract

-- One round of the loop over the datoms.
pub apply_datom : SchemaCache → ℕ → ℕ → TxDatom → Tx (Unit {0})
apply_datom sc tx_id valid_from td = apply_to sc tx_id valid_from td (get_by_ident sc td.a)

pub apply_datoms : SchemaCache → ℕ → ℕ → List TxDatom → Tx (Unit {0})
apply_datoms sc tx_id valid_from [] = pure tt
apply_datoms sc tx_id valid_from (td ∷ rest) = do
  apply_datom sc tx_id valid_from td
  apply_datoms sc tx_id valid_from rest
