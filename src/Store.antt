-- ===== src/Store.antt =====
-- schema.go: the tables and the SQL statements that the program runs on them. A table is the list
-- of its rows; a statement that a constraint refuses leaves the table as it was.
pub mod Laws
use litelog.Prelude.{
  ℕ, ◌^◌, Bytes, Bool, true, false, not, ◌&&◌, ◌||◌, Option, none, some, List, [], ◌∷◌, ◌++◌, ◌==◌,
  leb, bytes_eq, if◌then◌else◌, any, find, remove_if,
}
use litelog.Result.{Result, ok, err, unique_constraint}
use litelog.Types.{ValueType, bool_eq, Cardinality, is_nan, signed_lt}

-- The columns v_int, v_text and v_float of a row; `none` is NULL.
pub record TypedColumns : Type 0 where
  pub v_int : Option ℕ
  pub v_text : Option Bytes
  pub v_float : Option ℕ

-- What the column v_float holds of a number that is bound: SQLite takes NaN for NULL, and keeps -0.0
-- as 0.0.
abbrev pub real_column : ℕ → Option ℕ
real_column bits = if is_nan bits then none else some (if bits == 2 ^ 63 then 0 else bits)

-- SELECT MAX(…), on 64-bit integers with their sign; `none` is NULL.
abbrev pub larger : ℕ → Option ℕ → ℕ
larger x none = x
larger x (some m) = if signed_lt m x then x else m

unfoldable pub max_of : List ℕ → Option ℕ
max_of [] = none
max_of (x ∷ xs) = some (larger x (max_of xs))

-- COALESCE(…, 0)
abbrev pub or_zero : Option ℕ → ℕ
or_zero none = 0
or_zero (some n) = n

-- A row of `datoms`, the append-only history.
pub record LogRow : Type 0 where
  pub e : ℕ
  pub a : ℕ
  pub v : Bytes
  pub v_type : ValueType
  pub typed : TypedColumns
  pub tx : ℕ
  pub added : Bool
  pub valid_from : ℕ
  pub valid_to : Option ℕ

-- A row of `current_datoms`, the materialized current state.
pub record CurrentRow : Type 0 where
  pub e : ℕ
  pub a : ℕ
  pub v : Bytes
  pub v_type : ValueType
  pub typed : TypedColumns
  pub tx : ℕ
  pub valid_from : ℕ
  pub valid_to : Option ℕ

pub record TransactionRow : Type 0 where
  pub id : ℕ
  pub tx_time : ℕ

-- A row of `attributes`; attributes.go caches the same record.
pub record CachedAttribute : Type 0 where
  pub id : ℕ
  pub ident : Bytes
  pub value_type : ValueType
  pub cardinality : Cardinality
  pub indexed : Bool
  pub unique : Bool
  pub identity : Bool
  pub is_component : Bool

pub record Tables : Type 0 where
  pub datoms : List LogRow
  pub current_datoms : List CurrentRow
  pub transactions : List TransactionRow
  pub attributes : List CachedAttribute

-- The key (e, a, v) of a fact, on rows of both datom tables.
abbrev pub is_fact : ℕ → ℕ → Bytes → CurrentRow → Bool
is_fact e a v r = r.e == e && r.a == a && bytes_eq r.v v

abbrev pub is_log_fact : ℕ → ℕ → Bytes → LogRow → Bool
is_log_fact e a v r = r.e == e && r.a == a && bytes_eq r.v v

-- UNIQUE(e, a, v, tx, added, valid_from)
abbrev pub same_log_row : LogRow → LogRow → Bool
same_log_row r s =
    is_log_fact s.e s.a s.v r
    && r.tx == s.tx
    && bool_eq r.added s.added
    && r.valid_from == s.valid_from

-- The tables with one more row in the history.
abbrev pub logged : LogRow → Tables → Tables
logged r t = record t { datoms = t.datoms ++ r ∷ [] }

-- INSERT INTO datoms
unfoldable pub insert_datom : LogRow → Tables → Result Tables
insert_datom r t =
    if any (λ s. same_log_row s r) t.datoms then err unique_constraint else ok (logged r t)

-- INSERT OR REPLACE INTO current_datoms, whose primary key is (e, a, v)
unfoldable pub upsert_current : CurrentRow → Tables → Tables
upsert_current r t = record t {
  current_datoms = r ∷ remove_if (is_fact r.e r.a r.v) t.current_datoms;
}

-- DELETE FROM current_datoms WHERE e = $e AND a = $a
unfoldable pub delete_current_ea : ℕ → ℕ → Tables → Tables
delete_current_ea e a t = record t {
  current_datoms = remove_if (λ r. r.e == e && r.a == a) t.current_datoms;
}

-- DELETE FROM current_datoms WHERE e = $e AND a = $a AND v = $v
unfoldable pub delete_current_eav : ℕ → ℕ → Bytes → Tables → Tables
delete_current_eav e a v t = record t {
  current_datoms = remove_if (is_fact e a v) t.current_datoms;
}

-- SELECT v, v_type, tx, valid_from FROM current_datoms WHERE e = $e AND a = $a: the first row
unfoldable pub read_current : ℕ → ℕ → Tables → Option CurrentRow
read_current e a t = find (λ r. r.e == e && r.a == a) t.current_datoms

-- SELECT e FROM current_datoms WHERE a = $a AND v = $v AND e != $exclude LIMIT 1
unfoldable pub lookup_av : ℕ → Bytes → ℕ → Tables → Option CurrentRow
lookup_av a v exclude t =
    find (λ r. r.a == a && bytes_eq r.v v && not (r.e == exclude)) t.current_datoms

-- INSERT INTO transactions, whose primary key is the id
unfoldable pub insert_transaction : TransactionRow → Tables → Result Tables
insert_transaction r t =
    if any (λ s. s.id == r.id) t.transactions
    then err unique_constraint
    else ok (record t { transactions = t.transactions ++ r ∷ [] })

-- INSERT INTO attributes, whose primary key is the id and whose idents are unique
unfoldable pub insert_attribute : CachedAttribute → Tables → Result Tables
insert_attribute r t =
    if any (λ s. s.id == r.id || bytes_eq s.ident r.ident) t.attributes
    then err unique_constraint
    else ok (record t { attributes = t.attributes ++ r ∷ [] })

-- Is the fact in `current_datoms`?
unfoldable pub holds : Tables → ℕ → ℕ → Bytes → Bool
holds t e a v = any (is_fact e a v) t.current_datoms

-- What is known of a fact after the rows of `log`, if `last` was known before: the last row about it
-- decides.
unfoldable pub replay : Bool → List LogRow → ℕ → ℕ → Bytes → Bool
replay last [] e a v = last
replay last (r ∷ rest) e a v = replay (if is_log_fact e a v r then r.added else last) rest e a v

-- Does a history, read from its start, leave the fact asserted?
abbrev pub live : List LogRow → ℕ → ℕ → Bytes → Bool
live log e a v = replay false log e a v
