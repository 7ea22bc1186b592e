-- ===== src/Attributes/Registry.antt =====
-- `DefineAttribute` against the registry that it keeps: the cache, the table, and the counter of IDs.
use litelog.Prelude.{
  ◌+◌, ◌<◌, ◌≡◌, refl, ap, Bytes, true, none, some, [], ◌∷◌, ◌++◌, bytes_eq_refl, if◌then◌else◌,
  Bool-cases, Option-cases, inl, inr, arith,
}
use litelog.Result.{Result, ok, err, different_definition}
use litelog.Types.{AttributeSchema}
use litelog.Action.{OnSuccess, OnSuccess-mono}
use litelog.Store.{Tables, CachedAttribute}
use litelog.Store.Laws.{insert_attribute-cases}
use litelog.Schema.{get_by_ident, put, load_attributes, new_schema_cache, IsCoherent}
use litelog.Schema.Lookup.{get_by_ident-put, put-IsCoherent, load_attributes-snoc}
use litelog.Pool.{Db, Connection, EndFn, IsEndFn, with_write_conn}
use litelog.Pool.Laws.{with_write_conn-OnSuccess}
use litelog.Attributes.{
  same_definition, interned, insert_row, register, define_new, define_attribute,
}

-- The maps agree, every attribute ID has been handed out, and reading the table again into an empty
-- cache finds what the cache finds.
pub record IsRegistry (db : Db) : Type 0 where
  pub coherent : IsCoherent db.schema
  pub allotted :
      (ident : Bytes) (a : CachedAttribute)
      → get_by_ident db.schema ident ≡ some a
      → a.id < db.next_eid
  pub reloads :
      (ident : Bytes)
      → get_by_ident (load_attributes db.tables.attributes new_schema_cache) ident
        ≡ get_by_ident db.schema ident

module _ (c : Connection) (end_fn : EndFn) (s : AttributeSchema) (db : Db) where
  -- A second definition of an ident changes nothing: it succeeds exactly if it is the same.
  pub define_attribute-known :
      (existing : CachedAttribute)
      → get_by_ident db.schema s.ident ≡ some existing
      → define_attribute c end_fn s db
        ≡ (if same_definition existing s then ok tt else err different_definition, db)
  unfolding define_attribute
  define_attribute-known existing known = rw (known, define_attribute) (ground arith)

  insert_row-table :
      (attr : CachedAttribute)
      → OnSuccess
          (λ _ t. t ≡ record db.tables { attributes = db.tables.attributes ++ attr ∷ [] })
          (insert_row attr db.tables)
  unfolding insert_row
  insert_row-table attr = elim (insert_attribute-cases attr db.tables) [
    | inl refused ↦ rw (refused, insert_row) tt
    | inr done ↦ rw (done, insert_row) refl
  ]

  abbrev pub defined : Db
  defined = record db {
    tables = record db.tables { attributes = db.tables.attributes ++ interned s db.next_eid ∷ [] };
    next_eid = db.next_eid + 1;
    schema = put (interned s db.next_eid) db.schema;
  }

  -- What a successful definition of a new ident leaves.
  define_new-defined :
      IsEndFn end_fn → OnSuccess (λ _ db'. db' ≡ defined) (define_new c end_fn s db)
  unfolding define_new
  define_new-defined ends =
      finish
        (with_write_conn c end_fn db.udfs_dirty (λ t. t) (λ t _. t) (insert_row attr) db.tables)
        (with_write_conn-OnSuccess c end_fn ends db.udfs_dirty (λ t. t) (λ t _. t) (λ t. refl)
          (insert_row attr) db.tables (λ _ t. t ≡ defined.tables) (insert_row-table attr))
    where
      attr : CachedAttribute
      attr = interned s db.next_eid

      finish :
          (out : Result (Unit {0}) × Tables)
          → OnSuccess (λ _ t. t ≡ defined.tables) out
          → OnSuccess
              (λ _ db'. db' ≡ defined)
              (register attr (record db { next_eid = db.next_eid + 1 }) out)
      finish (ok _, t) e = ap (λ (u : Tables). record defined { tables = u }) e
      finish (err e, t) k = tt

  IsRegistry-defined : get_by_ident db.schema s.ident ≡ none → IsRegistry db → IsRegistry defined
  IsRegistry-defined new h = record {
    coherent =
        put-IsCoherent (interned s db.next_eid) db.schema
          (λ ident a k. ground (arith, h.allotted ident a k)) h.coherent;
    allotted = λ ident a k.
        ground
          (arith, h.allotted ident a, get_by_ident-put (interned s db.next_eid) db.schema ident);
    reloads = λ ident. rw (
      load_attributes-snoc db.tables.attributes (interned s db.next_eid) new_schema_cache,
      get_by_ident-put (interned s db.next_eid)
          (load_attributes db.tables.attributes new_schema_cache) ident,
      get_by_ident-put (interned s db.next_eid) db.schema ident,
      h.reloads ident,
    );
  }

  -- In a registry, a definition that succeeds is found under its ident with what was asked for, and
  -- leaves a registry, in which the maps agree, all IDs have been handed out, and a reload finds the
  -- same. The function that ends the transaction has to behave as documented.
  pub define_attribute-IsRegistry :
      IsEndFn end_fn
      → IsRegistry db
      → OnSuccess
          (λ _ db'.
            IsRegistry db'
            × ((a : CachedAttribute) × (get_by_ident db'.schema s.ident ≡ some a)
                × (same_definition a s ≡ true)))
          (define_attribute c end_fn s db)
  unfolding define_attribute
  define_attribute-IsRegistry ends h = elim (Option-cases (get_by_ident db.schema s.ident)) [
    | inr (existing, known) ↦ elim (Bool-cases (same_definition existing s)) [
      | inl same ↦ rw (known, define_attribute, same) (h, (existing, known, same))
      | inr other ↦ rw (known, define_attribute, other) tt
    ]
    | inl new ↦
        rw (new, define_attribute)
          (OnSuccess-mono (λ _ db'. db' ≡ defined) _ (define_new c end_fn s db)
            (λ _ db' e. rw e (IsRegistry-defined new h, (interned s db.next_eid, found, as_asked)))
            (define_new-defined ends))
  ]
    where
      found : get_by_ident defined.schema s.ident ≡ some (interned s db.next_eid)
      found =
          rw (get_by_ident-put (interned s db.next_eid) db.schema s.ident, bytes_eq_refl s.ident)

      as_asked : same_definition (interned s db.next_eid) s ≡ true
      as_asked = ground arith
