-- ===== src/Functions.antt =====
-- udf.go: the functions that a caller registers, their installation on connections, and the values that
-- they are given and return. `CreateFunction` of the SQLite package is a parameter.
pub mod Registered
pub mod Arguments
pub mod Tests
use litelog.Prelude.{
  ℕ, Bytes, Bool, true, Option, none, some, List, [], ◌∷◌, if◌then◌else◌, map, lookup, insert,
  bytes_key,
}
use litelog.Result.{Result, ok, err, ◌>>=◌, unsupported_result}
use litelog.Types.{GoValue, int64, int, string, float64, bool, bytes, time, other}
use litelog.Pool.{Db}
use litelog.Execute.{SqlValue, sql_null, sql_int, sql_float, sql_real, sql_text, sql_blob}

-- `none` is Go's nil.
abbrev pub UdfFunc : Type 0
UdfFunc = List (Option GoValue) → Result (Option GoValue)

-- `n_args` is an int64's bit pattern; -1 stands for any number of arguments.
pub record UdfDef : Type 0 where
  pub name : Bytes
  pub n_args : ℕ
  pub deterministic : Bool
  pub fn : UdfFunc

-- The map of `udfRegistry`, with no two entries for one name.
abbrev pub UdfRegistry : Type 0
UdfRegistry = List (Bytes × UdfDef)

abbrev pub new_udf_registry : UdfRegistry
new_udf_registry = []

abbrev pub register_udf : UdfDef → UdfRegistry → UdfRegistry
register_udf def r = insert def.name def r

abbrev pub get_udf : UdfRegistry → Bytes → Option UdfDef
get_udf r name = lookup name r

abbrev pub all_udfs : UdfRegistry → List UdfDef
all_udfs r = map (λ (entry : Bytes × UdfDef). entry.1) r

-- `RegisterFunction`, on the registry and the rest of the database.
pub register_function : Bytes → ℕ → Bool → UdfFunc → UdfRegistry × Db → UdfRegistry × Db
register_function name n_args deterministic fn (r, db) =
    let def : UdfDef = record {
      name = name;
      n_args = n_args;
      deterministic = deterministic;
      fn = fn;
    } in
    (register_udf def r, record db { udfs_dirty = true })

-- The value that a function is given for an argument.
unfoldable pub go_arg : SqlValue → Option GoValue
go_arg (sql_int n) = some (int64 n)
go_arg (sql_float f) = some (float64 f)
go_arg (sql_text s) = some (string s)
go_arg (sql_blob bs) = some (bytes bs)
go_arg sql_null = none

unfoldable pub go_value_to_sqlite : Option GoValue → Result SqlValue
go_value_to_sqlite none = ok sql_null
go_value_to_sqlite (some (bool b)) = ok (if b then sql_int 1 else sql_int 0)
go_value_to_sqlite (some (int64 n)) = ok (sql_int n)
go_value_to_sqlite (some (int n)) = ok (sql_int n)
go_value_to_sqlite (some (float64 f)) = ok (sql_real f)
go_value_to_sqlite (some (string s)) = ok (sql_text s)
go_value_to_sqlite (some (bytes bs)) = ok (sql_blob bs)
go_value_to_sqlite (some (time ms ns)) = err unsupported_result
go_value_to_sqlite (some other) = err unsupported_result

-- The field `Scalar`.
pub scalar : UdfFunc → List SqlValue → Result SqlValue
scalar fn args = fn (map go_arg args) >>= go_value_to_sqlite

pub record FunctionImpl : Type 0 where
  pub n_args : ℕ
  pub deterministic : Bool
  pub scalar : List SqlValue → Result SqlValue

abbrev pub function_impl : UdfDef → FunctionImpl
function_impl def = record {
  n_args = def.n_args;
  deterministic = def.deterministic;
  scalar = scalar def.fn;
}

module _ {Conn : Type 0} (create_function : Bytes → FunctionImpl → Conn → Result Conn) where
  abbrev pub install_one_udf : UdfDef → Conn → Result Conn
  install_one_udf def conn = create_function def.name (function_impl def) conn

  -- The loop of `installUDFs`.
  pub install_each : List UdfDef → Conn → Result Conn
  install_each [] conn = ok conn
  install_each (def ∷ defs) conn = install_one_udf def conn >>= install_each defs

  abbrev pub install_udfs : UdfRegistry → Conn → Result Conn
  install_udfs r conn = install_each (all_udfs r) conn

  -- What `withConn` and `withWriteConn` do to a connection that they have taken.
  pub use_conn : UdfRegistry × Db → Conn → Result Conn
  use_conn (r, db) conn = if db.udfs_dirty then install_udfs r conn else ok conn
