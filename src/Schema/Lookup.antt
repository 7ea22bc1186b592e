-- ===== src/Schema/Lookup.antt =====
-- What `put` does to the two lookups of the cache.
use litelog.Prelude.{
  ℕ, ◌≡◌, refl, Bytes, false, some, List, [], ◌∷◌, ◌++◌, ◌==◌, bytes_eq, bytes_eq_iff,
  if◌then◌else◌, lookup, lookup-insert, nat_key, bytes_key, Bool-cases, inl, inr, arith,
}
use litelog.Store.{CachedAttribute}
use litelog.Schema.{
  SchemaCache, get_by_ident, get_by_id, put, load_attributes, new_schema_cache, IsCoherent,
}

module _ (attr : CachedAttribute) (sc : SchemaCache) where
  pub get_by_ident-put :
      (ident : Bytes)
      → get_by_ident (put attr sc) ident
        ≡ (if bytes_eq attr.ident ident then some attr else get_by_ident sc ident)
  unfolding get_by_ident put
  get_by_ident-put ident = lookup-insert attr.ident ident attr sc.by_ident

  pub get_by_id-put :
      (id : ℕ) → get_by_id (put attr sc) id ≡ (if attr.id == id then some attr else get_by_id sc id)
  unfolding get_by_id put
  get_by_id-put id = lookup-insert attr.id id attr sc.by_id

  -- An attribute under a new ident and a new ID keeps the two maps in agreement.
  pub put-IsCoherent :
      ((ident : Bytes) (a : CachedAttribute)
        → get_by_ident sc ident ≡ some a
        → (a.id == attr.id) ≡ false)
      → IsCoherent sc
      → IsCoherent (put attr sc)
  put-IsCoherent fresh coherent ident a h = elim (Bool-cases (bytes_eq attr.ident ident)) [
    | inl same ↦
        let e : attr ≡ a = cc (rw same at (get_by_ident-put ident), h) in
        ground (arith, bytes_eq_iff attr.ident ident, e, get_by_id-put a.id)
    | inr other ↦
        let old : get_by_ident sc ident ≡ some a = ground (arith, get_by_ident-put ident) in
        ground (arith, coherent ident a old, fresh ident a old, get_by_id-put a.id)
  ]

pub IsCoherent-new : IsCoherent new_schema_cache
unfolding get_by_ident lookup
IsCoherent-new ident attr h = cc

-- One more row of the table is one more `put`.
pub load_attributes-snoc :
    (rows : List CachedAttribute) (r : CachedAttribute) (sc : SchemaCache)
    → load_attributes (rows ++ r ∷ []) sc ≡ put r (load_attributes rows sc)
unfolding load_attributes
load_attributes-snoc [] r sc = refl
load_attributes-snoc (s ∷ rows) r sc = load_attributes-snoc rows r (put s sc)
