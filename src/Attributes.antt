-- ===== src/Attributes.antt =====
-- attributes.go: `DefineAttribute`.
pub mod Registry
pub mod Defined
pub mod Tests
use litelog.Prelude.{ℕ, Bool, none, some, ◌&&◌, if◌then◌else◌}
use litelog.Result.{Result, ok, err, different_definition}
use litelog.Types.{AttributeSchema, value_type_eq, cardinality_eq, bool_eq}
use litelog.Store.{Tables, CachedAttribute, insert_attribute}
use litelog.Schema.{get_by_ident, put}
use litelog.Action.{Action}
use litelog.Pool.{Db, Connection, EndFn, with_write_conn, alloc_entity_id}

-- Does the cached attribute have the definition that is asked for?
abbrev pub same_definition : CachedAttribute → AttributeSchema → Bool
same_definition existing s =
    value_type_eq existing.value_type s.value_type
    && cardinality_eq existing.cardinality s.cardinality
    && bool_eq existing.indexed s.indexed
    && bool_eq existing.unique s.unique
    && bool_eq existing.identity s.identity
    && bool_eq existing.is_component s.is_component

-- The attribute that a definition becomes under an ID: the row inserted and the entry cached.
abbrev pub interned : AttributeSchema → ℕ → CachedAttribute
interned s id = record {
  id = id;
  ident = s.ident;
  value_type = s.value_type;
  cardinality = s.cardinality;
  indexed = s.indexed;
  unique = s.unique;
  identity = s.identity;
  is_component = s.is_component;
}

-- The INSERT statement, as the body of a write.
insert_row : CachedAttribute → Action Tables (Unit {0})
insert_row attr t = elim (insert_attribute attr t) [ err e ↦ (err e, t) | ok t' ↦ (ok tt, t') ]

-- What follows the write: only a success is cached.
register : CachedAttribute → Db → Result (Unit {0}) × Tables → Result (Unit {0}) × Db
register attr db (err e, t) = (err e, record db { tables = t })
register attr db (ok _, t) = (ok tt, record db { tables = t; schema = put attr db.schema })

-- The part of `DefineAttribute` for an ident that is not in the cache.
define_new : Connection → EndFn → AttributeSchema → Action Db (Unit {0})
unfolding insert_row register
define_new c end_fn s db =
    let (id, next) = alloc_entity_id db.next_eid in
    let attr = interned s id in
    register attr (record db { next_eid = next })
      (with_write_conn c end_fn db.udfs_dirty (λ t. t) (λ t _. t) (insert_row attr) db.tables)

pub define_attribute : Connection → EndFn → AttributeSchema → Action Db (Unit {0})
unfolding define_new
define_attribute c end_fn s db = elim (get_by_ident db.schema s.ident) [
  | some existing ↦
      if same_definition existing s then (ok tt, db) else (err different_definition, db)
  | none ↦ define_new c end_fn s db
]
