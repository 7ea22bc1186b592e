-- ===== src/Compile/Whole.antt =====
-- query_api.go: `compileQuery`. `parse_float` is the parameter of the EDN parser.
pub mod Placeholders
pub mod Leftover
use litelog.Prelude.{ℕ, ◌||◌, Bool, Bytes, Option, none, some, List, ltb, if◌then◌else◌}
use litelog.Result.{Result, ok, ◌>>=◌}
use litelog.Types.{GoValue}
use litelog.Pool.{Db, datoms_table}
use litelog.Temporal.{DbView}
use litelog.Query.Ast.{InputSpec}
use litelog.Query.Algebra.{FindMapping, AlgebraicQuery, algebraic}
use litelog.Query.Parser.{parse_query}
use litelog.Query.Algebrize.Phases.{algebrize}
use litelog.Query.Translate.{SqlQuery, translate}
use litelog.Compile.{schema_adapter}
use litelog.Compile.Inputs.{bind_input_args}
use litelog.Compile.Views.{apply_as_of}
use litelog.Compile.Params.{encode_params}

abbrev pub find_of : AlgebraicQuery → List FindMapping
find_of (algebraic find _ _ _ _ _ _ _ _) = find

-- `v.txID > 0 || v.validTime != nil`
unfoldable pub is_as_of : DbView → Bool
is_as_of view = ltb 0 view.tx_id || elim view.valid_time [ none ↦ Bool.false | some t ↦ Bool.true ]

-- The steps behind the algebrizer, on the history's table where the view asks for it.
unfoldable pub compile_algebraic :
    DbView
    → Bytes
    → List InputSpec
    → List (Option GoValue)
    → AlgebraicQuery
    → Result (SqlQuery × List FindMapping)
compile_algebraic view hist specs args aq = bind_input_args specs args aq >>= λ bound.
    let viewed = if is_as_of view then apply_as_of view hist bound else bound in
    translate viewed >>= λ sq. encode_params sq viewed >>= λ encoded. ok (encoded, find_of viewed)

module _ (parse_float : Bytes → Option ℕ) where
  -- A query of the current state is one of the view with no transaction and no time.
  pub compile_query :
      Db → DbView → Bytes → List (Option GoValue) → Result (SqlQuery × List FindMapping)
  compile_query db view datalog args = parse_query parse_float datalog >>= λ q.
      algebrize (schema_adapter db.schema) q >>= λ aq.
      compile_algebraic view (datoms_table db) q.in_specs args aq
