-- ===== src/Transact/Batch/Tests.antt =====
-- transact.go on a small database, and its theorems there.
use litelog.Prelude.{
  ◌≡◌, refl, text, Bytes, [], ◌∷◌, List, true, false, none, some, arith, bytes_eq, lookup, insert,
  any, find, remove_if, nat_key, bytes_key,
}
use litelog.Result.{Result, ok, err, unknown_attribute}
use litelog.Types.{string, type_string, card_one, TxDatom, temp_id, entity, TransactOpts, TxResult}
use litelog.Values.{encode_value, decode_value}
use litelog.Store.{
  CachedAttribute, holds, replay, insert_datom, upsert_current, delete_current_ea,
  delete_current_eav, read_current, lookup_av, insert_transaction,
}
use litelog.Schema.{SchemaCache, put, new_schema_cache, IsCoherent, get_by_ident, get_by_id}
use litelog.Schema.Lookup.{put-IsCoherent, IsCoherent-new}
use litelog.Action.{OnSuccess}
use litelog.Pool.{Db, Connection, EndFn, IsEndFn, with_write_conn}
use litelog.Pool.Laws.{IsReady}
use litelog.Transact.{
  apply_datoms, apply_datom, apply_to, resolve_entity, resolve_tempid, resolve_lookup_ref,
  check_seen, write_datom, retract_datom, assert_datom, check_identity, retract_existing,
  replace_value, record_assertion, log_datom, lookup_entity, bind_typed_columns,
}
use litelog.Transact.Batch.{
  transact, transact_body, start_state, resolve_upserts, resolve_upsert, upsert_known, upsert_for,
  upsert_tempid, holder, first_holder, bind_tempid, insert_tx, outcome,
}
use litelog.Transact.Batch.Consistent.{transact-IsConsistent, transact-commits_failure}
use litelog.Transact.Batch.History.{upto-transact, transact-IsHistory, IsHistory}
use litelog.Transact.Facts.{IsConsistent}
use litelog.Transact.Batch.Past.{Call, later, view_entity-later}
use litelog.Temporal.{as_of}
use litelog.Temporal.AsOf.{upto, NoUndo}
use litelog.Pull.Rows.{view_entity}
use litelog.Pull.Rows.Seen.{has_value}

abbrev email : CachedAttribute
email = record {
  id = 1;
  ident = text ":user/email";
  value_type = type_string;
  cardinality = card_one;
  indexed = true;
  unique = true;
  identity = true;
  is_component = false;
}

abbrev cache : SchemaCache
cache = record { by_ident = (email.ident, email) ∷ []; by_id = (1, email) ∷ [] }

abbrev empty_db : Db
empty_db = record {
  tables = record { datoms = []; current_datoms = []; transactions = []; attributes = email ∷ [] };
  schema = cache;
  next_tx = 1;
  next_eid = 2;
  udfs_dirty = false;
  history_path = [];
}

abbrev ready : Connection
ready = record { take = ok tt; install = ok tt; begin = ok tt }

abbrev sqlite_end : EndFn
sqlite_end none before after = after
sqlite_end (some e) before after = before

sqlite_end-IsEndFn : IsEndFn sqlite_end
sqlite_end-IsEndFn = record { commits = λ b a. refl; rolls_back = λ e b a. refl }

ready-IsReady : IsReady ready
ready-IsReady = record { taken = refl; installed = refl; begun = refl }

abbrev no_opts : TransactOpts
no_opts = record { tx_time = none; valid_time = none }

abbrev add : Bytes → Bytes → TxDatom
add tid v = record { e = temp_id tid; a = text ":user/email"; v = string v; retract = false }

abbrev one_user : List TxDatom
one_user = add (text "x") (text "x@y") ∷ []

-- The second datom names an attribute that is not defined.
abbrev half_bad : List TxDatom
half_bad =
    add (text "x") (text "x@y")
    ∷ record { e = temp_id (text "x"); a = text ":nope"; v = string (text "z"); retract = false }
    ∷ []

-- A run on a connection that is ready, at time 7, with everything that it calls.
run : List TxDatom → Db → Result TxResult × Db
unfolding transact transact_body resolve_upserts resolve_upsert upsert_known upsert_for
    upsert_tempid holder first_holder bind_tempid insert_tx outcome with_write_conn apply_datoms
    apply_datom apply_to resolve_entity resolve_tempid resolve_lookup_ref check_seen write_datom
    retract_datom assert_datom check_identity retract_existing replace_value record_assertion
    log_datom lookup_entity bind_typed_columns encode_value decode_value get_by_ident get_by_id
    insert_datom upsert_current delete_current_ea delete_current_eav read_current lookup_av
    insert_transaction holds replay any find remove_if bytes_eq lookup insert
run datoms db = transact ready sqlite_end 7 datoms no_opts db

one_user-holds : holds (run one_user empty_db).1.tables 2 1 (text "x@y") ≡ true
unfolding run
one_user-holds = refl

-- The second datom fails, and the first one stays: the transaction is not atomic.
half_bad_fails : (run half_bad empty_db).0 ≡ err unknown_attribute
unfolding run
half_bad_fails = refl

half_bad_stays : holds (run half_bad empty_db).1.tables 2 1 (text "x@y") ≡ true
unfolding run
half_bad_stays = refl

-- Two TempIDs that assert one Identity value are one entity.
shared_value :
    holds
      (run (add (text "x") (text "x@y") ∷ add (text "y") (text "x@y") ∷ []) empty_db).1.tables
      3
      1
      (text "x@y")
    ≡ false
unfolding run
shared_value = refl

cache-IsCoherent : IsCoherent cache
unfolding put insert
cache-IsCoherent =
    put-IsCoherent email new_schema_cache (λ ident a h. unfold get_by_ident lookup in cc)
      IsCoherent-new

empty_db-IsConsistent : IsConsistent cache empty_db.tables
unfolding holds any replay
empty_db-IsConsistent = (λ e a v. refl, λ attr c one e v w h k. cc, λ attr c one v d e h k. cc)

transact-IsConsistent_example :
    OnSuccess
      (λ _ db'. IsConsistent db'.schema db'.tables)
      (transact ready sqlite_end 7 one_user no_opts empty_db)
transact-IsConsistent_example =
    transact-IsConsistent ready sqlite_end 7 one_user no_opts empty_db sqlite_end-IsEndFn
      cache-IsCoherent empty_db-IsConsistent

transact-commits_failure_example :
    ((transact ready sqlite_end 7 half_bad no_opts empty_db).0 ≡ err unknown_attribute)
    × ((transact ready sqlite_end 7 half_bad no_opts empty_db).1.tables
        ≡ (transact_body cache 1 7 7 half_bad (start_state empty_db)).1.tables)
transact-commits_failure_example =
    transact-commits_failure ready sqlite_end 7 half_bad no_opts empty_db unknown_attribute
      (transact_body cache 1 7 7 half_bad (start_state empty_db)).1 ready-IsReady sqlite_end-IsEndFn
      (unfold run in refl)

upto-transact_example :
    upto 1 (transact ready sqlite_end 9 half_bad no_opts (run one_user empty_db).1).1.tables.datoms
    ≡ upto 1 (run one_user empty_db).1.tables.datoms
upto-transact_example =
    upto-transact ready sqlite_end 9 half_bad no_opts (run one_user empty_db).1 1 sqlite_end-IsEndFn
      (unfold run in omega arith)

transact-IsHistory_example : IsHistory (transact ready sqlite_end 7 one_user no_opts empty_db).1
transact-IsHistory_example =
    transact-IsHistory ready sqlite_end 7 one_user no_opts empty_db sqlite_end-IsEndFn (tt, tt)

-- The user's address is taken back in a second transaction.
abbrev taken_back : List TxDatom
taken_back =
    record { e = entity 2; a = text ":user/email"; v = string (text "x@y"); retract = true } ∷ []

abbrev call : List TxDatom → Call
call datoms = record {
  connection = ready;
  end_fn = sqlite_end;
  now = 7;
  datoms = datoms;
  opts = no_opts;
}

abbrev one_user_db : Db
one_user_db = (transact ready sqlite_end 7 one_user no_opts empty_db).1

one_user_db-IsConsistent : IsConsistent one_user_db.schema one_user_db.tables
unfolding run
one_user_db-IsConsistent =
    transact-IsConsistent ready sqlite_end 7 one_user no_opts empty_db sqlite_end-IsEndFn
      cache-IsCoherent empty_db-IsConsistent

taken_back-NoUndo : NoUndo 2 1 (text "x@y") (later (call taken_back ∷ []) one_user_db).tables.datoms
unfolding run later
taken_back-NoUndo = (λ _ _. refl, (λ _ _. refl, tt))

taken_back-gone : holds (run taken_back (run one_user empty_db).1).1.tables 2 1 (text "x@y") ≡ false
unfolding run
taken_back-gone = refl

view_entity-later_example :
    any
      (has_value 1 (text "x@y"))
      (view_entity (as_of 1) (later (call taken_back ∷ []) one_user_db).tables 2)
    ≡ holds one_user_db.tables 2 1 (text "x@y")
view_entity-later_example =
    view_entity-later (call taken_back ∷ []) one_user_db 1 2 1 (text "x@y") (sqlite_end-IsEndFn, tt)
      (omega arith) (unfold run in refl)
      (transact-IsHistory ready sqlite_end 7 one_user no_opts empty_db sqlite_end-IsEndFn (tt, tt))
      one_user_db-IsConsistent taken_back-NoUndo
