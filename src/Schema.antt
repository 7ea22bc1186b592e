-- ===== src/Schema.antt =====
-- attributes.go: the in-memory cache of attribute definitions. The mutex of `SchemaCache` makes each
-- operation one step; `LookupAttribute` of query_api.go reads the cache too.
pub mod Lookup
use litelog.Prelude.{
  ℕ, ◌≡◌, Bytes, Option, some, List, [], ◌∷◌, map, lookup, insert, nat_key, bytes_key,
}
use litelog.Store.{CachedAttribute}

pub record SchemaCache : Type 0 where
  pub by_ident : List (Bytes × CachedAttribute)
  pub by_id : List (ℕ × CachedAttribute)

abbrev pub new_schema_cache : SchemaCache
new_schema_cache = record { by_ident = []; by_id = [] }

-- `none` is a nil pointer.
unfoldable pub get_by_ident : SchemaCache → Bytes → Option CachedAttribute
get_by_ident sc ident = lookup ident sc.by_ident

unfoldable pub get_by_id : SchemaCache → ℕ → Option CachedAttribute
get_by_id sc id = lookup id sc.by_id

unfoldable pub put : CachedAttribute → SchemaCache → SchemaCache
put attr sc = record {
  by_ident = insert attr.ident attr sc.by_ident;
  by_id = insert attr.id attr sc.by_id;
}

-- `All`, in the order of the map that stands for `byID`.
pub all : SchemaCache → List CachedAttribute
all sc = map (λ (p : ℕ × CachedAttribute). p.1) sc.by_id

-- `loadAttributes`: every row of the table goes through `put`, in the order of the rows.
unfoldable pub load_attributes : List CachedAttribute → SchemaCache → SchemaCache
load_attributes [] sc = sc
load_attributes (r ∷ rows) sc = load_attributes rows (put r sc)

-- The two maps agree: what is cached under an ident carries that ident, and is cached under its ID.
abbrev pub IsCoherent : SchemaCache → Type 0
IsCoherent sc =
    (ident : Bytes) (attr : CachedAttribute)
    → get_by_ident sc ident ≡ some attr
    → (attr.ident ≡ ident) × (get_by_id sc attr.id ≡ some attr)
