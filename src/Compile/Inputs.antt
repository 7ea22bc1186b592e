-- ===== src/Compile/Inputs.antt =====
-- query_api.go: `bindInputArgs`, the arguments of a query in the place of its `:in` variables.
pub mod Clean
pub mod Counts
use litelog.Prelude.{
  ℕ, Bytes, Bool, true, false, not, ◌&&◌, Option, none, some, List, [], ◌∷◌, ◌==◌, ltb, bytes_eq,
  if◌then◌else◌, length,
}
use litelog.Result.{Result, ok, err, ◌>>=◌, too_few_args, input_not_found}
use litelog.Types.{GoValue}
use litelog.Query.Ast.{InputSpec}
use litelog.Query.Algebra.{
  TableRef, table_input, table_at, TableBinding, FilterArg, Filter, AlgebraicQuery, algebraic,
}
use litelog.Query.Translate.Inputs.{refers_to}
use litelog.Compile.{encode_untyped}

unfoldable pub input_vars : List InputSpec → List Bytes
input_vars [] = []
input_vars (i ∷ is) = if i.source then input_vars is else i.variable ∷ input_vars is

-- Behind an element that stays as it is.
abbrev pub behind : {A : Type 0} → A → Option (List A) → Option (List A)
behind x none = none
behind x (some xs) = some (x ∷ xs)

-- The first table whose pattern has the variable, in the order value, entity, transaction.
unfoldable pub bind_table :
    Bytes → Option GoValue → List TableBinding → Result (Option (List TableBinding))
bind_table v val [] = ok none
bind_table v val (tb ∷ tables) =
    let rest = bind_table v val tables in
    if bytes_eq tb.pattern.v.variable v
    then (encode_untyped val tb.value_type >>= λ b. ok (some (record tb { v_bound = b } ∷ tables)))
    else if bytes_eq tb.pattern.e.variable v
    then ok (some (record tb { e_bound = val } ∷ tables))
    else if bytes_eq tb.pattern.tx.variable v
    then ok (some (record tb { tx_bound = val } ∷ tables))
    else rest >>= λ r. ok (behind tb r)

-- The first argument's type that is known.
unfoldable pub first_type : List FilterArg → ℕ
first_type [] = 0
first_type (arg ∷ args) =
    let rest = first_type args in if arg.value_type == 0 then rest else arg.value_type

-- The value of an input in a filter: one of an unknown type is left as it is.
unfoldable pub filter_value : Option GoValue → ℕ → Result (Option GoValue)
filter_value val vtype =
    let encoded = encode_untyped val vtype in if vtype == 0 then ok val else encoded

-- The first argument that refers to the input becomes a constant.
unfoldable pub bind_arg :
    Bytes → Option GoValue → ℕ → List FilterArg → Result (Option (List FilterArg))
bind_arg v val others [] = ok none
bind_arg v val others (arg ∷ args) =
    let rest = bind_arg v val others args in
    if refers_to v arg
    then (filter_value val (if arg.value_type == 0 then others else arg.value_type) >>= λ c. ok (
        some (
          record {
            variable = [];
            table = table_at 0;
            column = [];
            constant = c;
            value_type = arg.value_type;
          }
          ∷ args)))
    else rest >>= λ r. ok (behind arg r)

-- The rest of the loop over the filters, with what the loop over one filter's arguments has found.
abbrev pub bound_filter :
    Filter
    → List Filter
    → Option (List FilterArg)
    → Result (Option (List Filter))
    → Result (Option (List Filter))
bound_filter f fs (some args) rest = ok (some (record f { args = args } ∷ fs))
bound_filter f fs none rest = rest >>= λ r. ok (behind f r)

unfoldable pub bind_filters : Bytes → Option GoValue → List Filter → Result (Option (List Filter))
bind_filters v val [] = ok none
bind_filters v val (f ∷ fs) =
    let rest = bind_filters v val fs in
    bind_arg v val (first_type f.args) f.args >>= λ found. bound_filter f fs found rest

abbrev found_in_filters :
    List TableBinding → Option (List Filter) → Result (List TableBinding × List Filter)
found_in_filters tables none = err input_not_found
found_in_filters tables (some fs) = ok (tables, fs)

abbrev found_in_tables :
    Option (List TableBinding)
    → List TableBinding
    → List Filter
    → Result (Option (List Filter))
    → Result (List TableBinding × List Filter)
found_in_tables (some bound) tables fs searched = ok (bound, fs)
found_in_tables none tables fs searched = searched >>= λ r. found_in_filters tables r

-- One input variable.
unfoldable pub bind_input :
    Bytes
    → Option GoValue
    → List TableBinding
    → List Filter
    → Result (List TableBinding × List Filter)
bind_input v val tables fs =
    bind_table v val tables >>= λ r. found_in_tables r tables fs (bind_filters v val fs)

-- Each variable with the argument in its place.
unfoldable pub bind_inputs :
    List Bytes
    → List (Option GoValue)
    → List TableBinding
    → List Filter
    → Result (List TableBinding × List Filter)
bind_inputs [] args tables fs = ok (tables, fs)
bind_inputs (v ∷ vs) [] tables fs = err too_few_args
bind_inputs (v ∷ vs) (val ∷ args) tables fs =
    bind_input v val tables fs >>= λ (tables', fs'). bind_inputs vs args tables' fs'

unfoldable pub bind_input_args :
    List InputSpec → List (Option GoValue) → AlgebraicQuery → Result AlgebraicQuery
bind_input_args specs args (algebraic find tables joins fs raw nots ors orders agg) =
    let bound = bind_inputs (input_vars specs) args tables fs in
    if ltb (length args) (length (input_vars specs))
    then err too_few_args
    else bound >>= λ (tables', fs'). ok (algebraic find tables' joins fs' raw nots ors orders agg)
