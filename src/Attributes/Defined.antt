-- ===== src/Attributes/Defined.antt =====
-- What `DefineAttribute` answers, on every path.
use litelog.Prelude.{
  ℕ, ◌+◌, ◌≡◌, refl, ap, ◌∙◌, Bytes, bytes_eq, false, ◌||◌, ◌==◌, none, some, List, [], ◌∷◌, map,
  any, if◌then◌else◌, Option-cases, inl, inr, arith,
}
use litelog.Result.{ok, err, different_definition}
use litelog.Types.{AttributeSchema}
use litelog.Store.{CachedAttribute, insert_attribute}
use litelog.Schema.{SchemaCache, get_by_ident, put, load_attributes, new_schema_cache}
use litelog.Schema.Lookup.{get_by_ident-put}
use litelog.Pool.{Db, Connection, EndFn, IsEndFn}
use litelog.Pool.Laws.{IsReady, with_write_conn-commits}
use litelog.Pool.Load.{AllBelow, attribute_ids}
use litelog.Attributes.{
  same_definition, interned, insert_row, register, define_new, define_attribute,
}
use litelog.Attributes.Registry.{IsRegistry, defined, define_attribute-known}

-- An ident that a loaded cache does not find stands in no row.
load_attributes-none :
    (rows : List CachedAttribute) (sc : SchemaCache) (ident : Bytes)
    → get_by_ident (load_attributes rows sc) ident ≡ none
    → (any (λ r. bytes_eq r.ident ident) rows ≡ false) × (get_by_ident sc ident ≡ none)
unfolding load_attributes any
load_attributes-none [] sc ident h = (refl, h)
load_attributes-none (r ∷ rows) sc ident h =
    let (absent, before) = load_attributes-none rows (put r sc) ident h in
    ground (arith, absent, before, get_by_ident-put r sc ident)

-- Neither the ID nor the ident of a new row is taken.
any-taken :
    (id : ℕ) (ident : Bytes) (rows : List CachedAttribute)
    → AllBelow id (map (λ (r : CachedAttribute). r.id) rows)
    → any (λ r. bytes_eq r.ident ident) rows ≡ false
    → any (λ r. r.id == id || bytes_eq r.ident ident) rows ≡ false
unfolding any
any-taken id ident [] below h = refl
any-taken id ident (r ∷ rows) (here, below) h =
    ground (arith, here, h, any-taken id ident rows below)

module _ (c : Connection) (end_fn : EndFn) (s : AttributeSchema) (db : Db) (ready : IsReady c)
    (ends : IsEndFn end_fn) where
  insert_row-new :
      any (λ r. r.id == db.next_eid || bytes_eq r.ident s.ident) db.tables.attributes ≡ false
      → insert_row (interned s db.next_eid) db.tables ≡ (ok tt, (defined c end_fn s db).tables)
  unfolding insert_row insert_attribute
  insert_row-new free = rw (insert_row, insert_attribute, free) refl

  define_new-new :
      any (λ r. r.id == db.next_eid || bytes_eq r.ident s.ident) db.tables.attributes ≡ false
      → define_new c end_fn s db ≡ (ok tt, defined c end_fn s db)
  unfolding define_new register
  define_new-new free =
      ap (register (interned s db.next_eid) (record db { next_eid = db.next_eid + 1 })) (
        with_write_conn-commits c end_fn ends db.udfs_dirty (λ t. t) (λ t _. t) (λ t. refl)
          (insert_row (interned s db.next_eid)) db.tables ready
        ∙ insert_row-new free)

  -- On a connection that is ready, and in a registry whose counter is beyond the IDs of the table, a
  -- definition of an unknown ident succeeds, and adds the attribute to the table and the cache under
  -- the next ID; of a known ident, it changes nothing, and succeeds exactly if it is the same. The
  -- function that ends the transaction has to behave as documented.
  pub define_attribute-defined :
      IsRegistry db
      → AllBelow db.next_eid (attribute_ids db.tables)
      → define_attribute c end_fn s db ≡ elim (get_by_ident db.schema s.ident) [
        | none ↦ (ok tt, defined c end_fn s db)
        | some existing ↦
            (if same_definition existing s then ok tt else err different_definition, db)
      ]
  unfolding define_attribute
  define_attribute-defined registry below = elim (Option-cases (get_by_ident db.schema s.ident)) [
    | inl new ↦
        let absent =
          load_attributes-none db.tables.attributes new_schema_cache s.ident
            (registry.reloads s.ident ∙ new) in
        rw (new, define_attribute)
          (define_new-new (any-taken db.next_eid s.ident db.tables.attributes below absent.0))
    | inr (existing, known) ↦ rw known (define_attribute-known c end_fn s db existing known)
  ]
