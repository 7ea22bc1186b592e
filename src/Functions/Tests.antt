-- ===== src/Functions/Tests.antt =====
-- udf.go: the predicate of udf_test.go, registered with one argument and then with two.
use litelog.Prelude.{
  ℕ, ◌≡◌, refl, sym, ap, ◌∙◌, Bytes, bytes_eq, bytes_eq_iff, ◌==◌, ==_iff, true, false, ◌&&◌,
  Option, none, some, [], ◌∷◌, if◌then◌else◌, text, leb, arith,
}
use litelog.Result.{Result, ok, err, ◌>>=◌}
use litelog.Types.{int64, bool}
use litelog.Store.{Tables}
use litelog.Pool.{load_state}
use litelog.Compile.{number_of}
use litelog.Query.Translate.{column_of, to_upper}
use litelog.Execute.{sql_int}
use litelog.Execute.Rows.{column_value}
use litelog.Execute.Tests.{thirty, thirty-Holds}
use litelog.Functions.{
  UdfFunc, UdfDef, FunctionImpl, go_arg, go_value_to_sqlite, scalar, use_conn, new_udf_registry,
}
use litelog.Functions.Registered.{IsCreateFunction, register_all, latest, expected, use_conn-get}
use litelog.Functions.Arguments.{seen, scalar-column_value}

abbrev is_adult : UdfFunc
is_adult (some (int64 age) ∷ []) = ok (some (bool (leb 18 age)))
is_adult _ = ok (some (bool false))

abbrev adult : ℕ → UdfDef
adult n = record { name = text "is-adult"; n_args = n; deterministic = true; fn = is_adult }

-- A connection as its functions.
abbrev FunctionTable : Type 0
FunctionTable = Bytes → ℕ → Option FunctionImpl

abbrev create : Bytes → FunctionImpl → FunctionTable → Result FunctionTable
create name impl conn = ok (λ asked n.
    if bytes_eq (to_upper name) (to_upper asked) && impl.n_args == n
    then some impl
    else conn asked n)

abbrev find_function : FunctionTable → Bytes → ℕ → Option FunctionImpl
find_function conn = conn

abbrev functions_of : Result FunctionTable → FunctionTable
functions_of (ok conn) = conn
functions_of (err e) = λ name n. none

create-IsCreateFunction : IsCreateFunction create find_function
create-IsCreateFunction = record {
  created = λ name impl conn conn' made.
      ap (λ r. functions_of r name impl.n_args) (sym made)
      ∙ ground
          (arith, bytes_eq_iff (to_upper name) (to_upper name), ==_iff impl.n_args impl.n_args);
  keeps = λ name impl conn conn' asked n made apart.
      ap (λ r. functions_of r asked n) (sym made) ∙ rw apart refl;
}

abbrev no_tables : Tables
no_tables = record { datoms = []; current_datoms = []; transactions = []; attributes = [] }

use_conn-get_example :
    (conn' : FunctionTable) × (use_conn create
        (register_all (adult 1 ∷ adult 2 ∷ []) (new_udf_registry, load_state no_tables []))
        (λ name n. none)
      ≡ ok conn')
    × ((n : ℕ)
        → conn' (text "is-adult") n
          ≡ expected (latest (adult 1 ∷ adult 2 ∷ []) (text "is-adult") none) n none)
use_conn-get_example =
    use_conn-get create find_function create-IsCreateFunction (text "is-adult") no_tables []
      (adult 1 ∷ adult 2 ∷ []) (λ name n. none) (λ conn. (_, refl), (λ conn. (_, refl), tt))
      (λ _. refl, (λ _. refl, tt))

scalar-column_value_example :
    scalar is_adult (column_value (column_of (text "v") (number_of thirty.v_type)) thirty ∷ [])
    ≡ (is_adult (seen (int64 30) ∷ []) >>= go_value_to_sqlite)
scalar-column_value_example = scalar-column_value is_adult (int64 30) thirty thirty-Holds

-- The predicate on an age, and on what it says of it.
adult_test : scalar is_adult (sql_int 30 ∷ []) ≡ ok (sql_int 1)
unfolding scalar go_arg go_value_to_sqlite
adult_test = refl

adult_twice : (scalar is_adult (sql_int 30 ∷ []) >>= λ x. scalar is_adult (x ∷ [])) ≡ ok (sql_int 0)
unfolding scalar go_arg go_value_to_sqlite
adult_twice = refl
