-- ===== src/Execute.antt =====
-- query_api.go: `executeQuery` and the queries around it: parameters are bound, the columns of each row
-- are read back as Go values, and attribute IDs become idents. SQLite itself is a parameter.
pub mod Rows
pub mod Binding
pub mod Reading
pub mod Tests
use litelog.Prelude.{
  ℕ, Bytes, Bool, true, false, not, ◌&&◌, ◌||◌, Option, none, some, List, [], ◌∷◌, ◌==◌, bytes_eq,
  text, if◌then◌else◌, map,
}
use litelog.Result.{Result, ok, err, ◌>>=◌, unsupported_param}
use litelog.Types.{GoValue, int64, int, string, float64, bool, bytes, time, other}
use litelog.Values.{decode_value}
use litelog.Store.{real_column, TypedColumns, CachedAttribute}
use litelog.Schema.{SchemaCache, get_by_id}
use litelog.Pool.{Db, Connection, acquire}
use litelog.Temporal.{DbView}
use litelog.TypedRead.{read_typed_column}
use litelog.Query.Algebra.{typed_column, FindMapping}
use litelog.Query.Translate.{SqlQuery, is_empty}
use litelog.Compile.{type_of_number}
use litelog.Compile.Whole.{compile_query}

-- A value inside SQLite, as SQLite compares it: NaN is NULL, and -0.0 is 0.0.
pub data SqlValue : Type 0 where
  sql_null : SqlValue
  sql_int : ℕ → SqlValue
  sql_float : ℕ → SqlValue
  sql_text : Bytes → SqlValue
  sql_blob : Bytes → SqlValue

abbrev pub sql_real : ℕ → SqlValue
sql_real bits = elim (real_column bits) [ none ↦ sql_null | some f ↦ sql_float f ]

-- What ColumnInt64, ColumnFloat, ColumnText and ColumnBytes answer for one column of a row.
pub record Cell : Type 0 where
  pub as_int : ℕ
  pub as_float : ℕ
  pub as_text : Bytes
  pub as_blob : Bytes

-- The cases of the parameter's type; nil stays unbound, which SQLite reads as NULL.
unfoldable pub bind_param : Option GoValue → Result SqlValue
bind_param none = ok sql_null
bind_param (some (int64 n)) = ok (sql_int n)
bind_param (some (int n)) = ok (sql_int n)
bind_param (some (float64 f)) = ok (sql_real f)
bind_param (some (string s)) = ok (sql_text s)
bind_param (some (bool b)) = ok (sql_int (if b then 1 else 0))
bind_param (some (bytes bs)) = ok (sql_blob bs)
bind_param (some (time ms ns)) = err unsupported_param
bind_param (some other) = err unsupported_param

pub bind_params : List (Option GoValue) → Result (List SqlValue)
bind_params [] = ok []
bind_params (p ∷ ps) = bind_param p >>= λ v. bind_params ps >>= λ vs. ok (v ∷ vs)

pub record ColInfo : Type 0 where
  pub is_value : Bool
  pub is_typed : Bool
  pub is_aggregate : Bool

pub col_info : FindMapping → ColInfo
col_info fm =
    if not (is_empty fm.aggregate)
    then record { is_value = false; is_typed = false; is_aggregate = true }
    else if bytes_eq fm.column (text "v")
    then record {
      is_value = true;
      is_typed = not (fm.value_type == 0) && not (is_empty (typed_column fm.value_type));
      is_aggregate = false;
    }
    else record { is_value = false; is_typed = false; is_aggregate = false }

-- `stmt.Column…(sqlCol)` and `sqlCol++`, on the columns from `sqlCol` on. Beyond the last one SQLite
-- answers as for NULL.
abbrev pub null_cell : Cell
null_cell = record { as_int = 0; as_float = 0; as_text = []; as_blob = [] }

abbrev pub current_cell : List Cell → Cell
current_cell [] = null_cell
current_cell (c ∷ cells) = c

abbrev pub next_cells : List Cell → List Cell
next_cells [] = []
next_cells (c ∷ cells) = cells

abbrev pub typed_view : Cell → TypedColumns
typed_view c = record { v_int = some c.as_int; v_text = some c.as_text; v_float = some c.as_float }

-- One find element, with the columns behind its own.
pub read_column : FindMapping → List Cell → Result (GoValue × List Cell)
read_column fm cells =
    let ci = col_info fm in
    let c = current_cell cells in
    let behind = next_cells cells in
    if ci.is_aggregate
    then ok (int64 c.as_int, behind)
    else if ci.is_value && ci.is_typed
    then ok (read_typed_column (typed_view c) (type_of_number fm.value_type), next_cells behind)
    else if ci.is_value
    then (decode_value c.as_blob (type_of_number (current_cell behind).as_int) >>= λ v.
        ok (v, next_cells behind))
    else ok (int64 c.as_int, behind)

pub read_row : List FindMapping → List Cell → Result (List GoValue)
read_row [] cells = ok []
read_row (fm ∷ fms) cells =
    read_column fm cells >>= λ (v, behind). read_row fms behind >>= λ vs. ok (v ∷ vs)

pub read_rows : List FindMapping → List (List Cell) → Result (List (List GoValue))
read_rows fms [] = ok []
read_rows fms (row ∷ rows) = read_row fms row >>= λ r. read_rows fms rows >>= λ rs. ok (r ∷ rs)

pub record QueryResult : Type 0 where
  pub columns : List Bytes
  pub rows : List (List GoValue)

pub column_name : FindMapping → Bytes
column_name fm = if not (is_empty fm.variable) then fm.variable else fm.aggregate

-- The statement that `Prepare` makes of a text, and the rows that it steps through once its
-- parameters are bound.
abbrev pub Prepare : Type 0
Prepare = Bytes → Result (List SqlValue → Result (List (List Cell)))

pub execute_query : Connection → Prepare → Bool → SqlQuery → List FindMapping → Result QueryResult
execute_query c prepare dirty sq fms = acquire c dirty >>= λ _. prepare sq.sql >>= λ step.
    bind_params sq.params >>= λ params. step params >>= λ cells.
    read_rows fms cells >>= λ rows. ok (record { columns = map column_name fms; rows = rows })

-- The value of one column: an attribute's ID becomes its ident where the cache knows it.
pub resolve_value : SchemaCache → FindMapping → GoValue → GoValue
resolve_value cache fm (int64 id) =
    let resolved : GoValue = elim (get_by_id cache id) [
      | none ↦ int64 id
      | some attr ↦ string attr.ident
    ] in
    if bytes_eq fm.column (text "a") then resolved else int64 id
resolve_value cache fm v = v

pub resolve_row : SchemaCache → List FindMapping → List GoValue → List GoValue
resolve_row cache (fm ∷ fms) (v ∷ vs) = resolve_value cache fm v ∷ resolve_row cache fms vs
resolve_row cache fms vs = vs

pub resolve_attributes : SchemaCache → QueryResult → List FindMapping → QueryResult
resolve_attributes cache res fms = record res { rows = map (resolve_row cache fms) res.rows }

-- The options of a query, and the loop that applies them.
pub data QueryOpt : Type 0 where
  with_raw_attributes : QueryOpt

pub record QueryConfig : Type 0 where
  pub raw_attributes : Bool

abbrev pub apply_opt : QueryOpt → QueryConfig → QueryConfig
apply_opt with_raw_attributes cfg = record cfg { raw_attributes = true }

abbrev pub apply_opts : List QueryOpt → QueryConfig → QueryConfig
apply_opts [] cfg = cfg
apply_opts (o ∷ opts) cfg = apply_opts opts (apply_opt o cfg)

abbrev pub query_config : List QueryOpt → QueryConfig
query_config opts = apply_opts opts (record { raw_attributes = false })

module _ (parse_float : Bytes → Option ℕ) where
  -- `QueryWithOpts` of a view.
  pub view_query_with_opts :
      Connection
      → Prepare
      → Db
      → DbView
      → Bytes
      → List (Option GoValue)
      → List QueryOpt
      → Result QueryResult
  view_query_with_opts c prepare db view datalog args opts =
      let cfg = query_config opts in
      compile_query parse_float db view datalog args >>= λ (sq, fms).
      execute_query c prepare db.udfs_dirty sq fms >>= λ res.
      ok (if cfg.raw_attributes then res else resolve_attributes db.schema res fms)

  -- `Query` of a view.
  pub view_query :
      Connection → Prepare → Db → DbView → Bytes → List (Option GoValue) → Result QueryResult
  view_query c prepare db view datalog args = view_query_with_opts c prepare db view datalog args []

  -- `QueryWithOpts` of a database, which compiles as the view with no transaction and no time does.
  pub query_with_opts :
      Connection → Prepare → Db → Bytes → List (Option GoValue) → List QueryOpt → Result QueryResult
  query_with_opts c prepare db datalog args opts =
      view_query_with_opts c prepare db (record { tx_id = 0; valid_time = none }) datalog args opts

  pub query : Connection → Prepare → Db → Bytes → List (Option GoValue) → Result QueryResult
  query c prepare db datalog args = query_with_opts c prepare db datalog args []
