-- ===== src/Attributes/Tests.antt =====
-- `DefineAttribute` and `loadState` on an empty database.
use Prim.Native.Nat.{max}
use litelog.Prelude.{
  ℕ, List, ◌∷◌, arith, ◌-◌, ◌^◌, ◌+◌, ◌≡◌, refl, text, [], true, false, none, some, bytes_eq,
  lookup, insert, any, if◌then◌else◌,
}
use litelog.Result.{Result, ok, err, different_definition}
use litelog.Types.{AttributeSchema, type_string, card_one}
use litelog.Action.{OnSuccess}
use litelog.Store.{CurrentRow, max_of, Tables, CachedAttribute, insert_attribute}
use litelog.Schema.{get_by_ident, put, new_schema_cache, load_attributes}
use litelog.Schema.Lookup.{IsCoherent-new}
use litelog.Pool.{
  Db, Connection, EndFn, IsEndFn, with_write_conn, load_state, max_or_zero, free_entity_id,
}
use litelog.Pool.Load.{
  AllUnder, transaction_ids, entity_ids, attribute_ids, largest, load_state-AllUnder,
  load_state-next_eid,
}
use litelog.Attributes.{define_new, same_definition, define_attribute, interned}
use litelog.Attributes.Registry.{IsRegistry, defined, define_attribute-IsRegistry}
use litelog.Attributes.Defined.{define_attribute-defined}

abbrev no_tables : Tables
no_tables = record { datoms = []; current_datoms = []; transactions = []; attributes = [] }

abbrev fresh : Db
fresh = record {
  tables = no_tables;
  schema = new_schema_cache;
  next_tx = 1;
  next_eid = 1;
  udfs_dirty = false;
  history_path = [];
}

abbrev ready : Connection
ready = record { take = ok tt; install = ok tt; begin = ok tt }

abbrev sqlite_end : EndFn
sqlite_end none before after = after
sqlite_end (some e) before after = before

sqlite_end-IsEndFn : IsEndFn sqlite_end
sqlite_end-IsEndFn = record { commits = λ b a. refl; rolls_back = λ e b a. refl }

abbrev person_name : AttributeSchema
person_name = record {
  ident = text ":person/name";
  value_type = type_string;
  cardinality = card_one;
  indexed = false;
  unique = false;
  identity = false;
  is_component = false;
}

run : AttributeSchema → Db → Result (Unit {0}) × Db
unfolding define_attribute define_new with_write_conn insert_attribute put insert get_by_ident
    lookup any bytes_eq load_attributes
run s db = define_attribute ready sqlite_end s db

first_id :
    get_by_ident (run person_name fresh).1.schema (text ":person/name")
    ≡ some (interned person_name 1)
unfolding run
first_id = refl

redefined :
    (run (record person_name { indexed = true }) (run person_name fresh).1).0
    ≡ err different_definition
unfolding run
redefined = refl

fresh-IsRegistry : IsRegistry fresh
unfolding get_by_ident lookup load_attributes
fresh-IsRegistry = record {
  coherent = IsCoherent-new;
  allotted = λ ident a h. cc;
  reloads = λ ident. refl;
}

define_attribute-IsRegistry_example :
    OnSuccess
      (λ _ db'.
        IsRegistry db'
        × ((a : CachedAttribute) × (get_by_ident db'.schema (text ":person/name") ≡ some a)
            × (same_definition a person_name ≡ true)))
      (define_attribute ready sqlite_end person_name fresh)
define_attribute-IsRegistry_example =
    define_attribute-IsRegistry ready sqlite_end person_name fresh sqlite_end-IsEndFn
      fresh-IsRegistry

define_attribute-defined_example :
    define_attribute ready sqlite_end person_name fresh
    ≡ elim (get_by_ident new_schema_cache (text ":person/name")) [
      | none ↦ (ok tt, defined ready sqlite_end person_name fresh)
      | some existing ↦
          (if same_definition existing person_name then ok tt else err different_definition, fresh)
    ]
define_attribute-defined_example =
    define_attribute-defined ready sqlite_end person_name fresh
      (record { taken = refl; installed = refl; begun = refl }) sqlite_end-IsEndFn fresh-IsRegistry
      tt

-- A file with the entities 5 and -1 and one attribute, written by two transactions.
abbrev current : ℕ → CurrentRow
current e = record {
  e = e;
  a = 1;
  v = text "x";
  v_type = type_string;
  typed = record { v_int = none; v_text = some (text "x"); v_float = none };
  tx = 2;
  valid_from = 0;
  valid_to = none;
}

abbrev with_entities : List CurrentRow → Tables
with_entities rows = record {
  datoms = [];
  current_datoms = rows;
  transactions = record { id = 1; tx_time = 7 } ∷ record { id = 2; tx_time = 8 } ∷ [];
  attributes = interned person_name 1 ∷ [];
}

abbrev minus_one : ℕ
minus_one = 2 ^ 64 - 1

abbrev used : Tables
used = with_entities (current 5 ∷ current minus_one ∷ [])

load_state-AllUnder_example :
    AllUnder (load_state used []).next_tx (transaction_ids used)
    × AllUnder (load_state used []).next_eid (entity_ids used)
    × AllUnder (load_state used []).next_eid (attribute_ids used)
load_state-AllUnder_example =
    load_state-AllUnder used [] ((omega arith, refl), ((omega arith, refl), tt))
      ((omega arith, refl), ((omega arith, refl), tt)) ((omega arith, refl), tt)

load_state-next_eid_example :
    (load_state (with_entities (current 5 ∷ [])) []).next_eid
    ≡ max (largest (5 ∷ [])) (largest (1 ∷ [])) + 1
load_state-next_eid_example =
    load_state-next_eid (with_entities (current 5 ∷ [])) [] (omega arith, tt) (omega arith, tt)

-- An entity with the largest int64 wraps the counter around, so that the IDs behind the attributes' are
-- handed out.
wrapped : (load_state (with_entities (current (2 ^ 63 - 1) ∷ current 5 ∷ [])) []).next_eid ≡ 2
unfolding load_state max_or_zero max_of free_entity_id
wrapped = refl
