-- ===== src/Compile/Params.antt =====
-- query_api.go: `encodeParams`, the blobs in the place of the parameters that are compared with the
-- column `v`.
pub mod Kept
use litelog.Prelude.{
  ℕ, zero, suc, ◌+◌, Bytes, Bool, true, false, not, ◌&&◌, ◌||◌, Option, none, some, List, [], ◌∷◌,
  ◌==◌, leb, if◌then◌else◌, length,
}
use litelog.Result.{Result, ok, err, ◌>>=◌, index_out_of_range}
use litelog.Types.{GoValue, bytes}
use litelog.Query.Algebra.{typed_column, TableBinding, FilterArg, Filter, AlgebraicQuery, algebraic}
use litelog.Query.Translate.{SqlQuery, is_empty}
use litelog.Compile.{encode_any}

abbrev pub Params : Type 0
Params = List (Option GoValue)

-- `sq.Params[i] = v` and `sq.Params[i]`, whose panics are errors here.
pub set_param : ℕ → Option GoValue → Params → Result Params
set_param i v [] = err index_out_of_range
set_param zero v (p ∷ ps) = ok (v ∷ ps)
set_param (suc i) v (p ∷ ps) = set_param i v ps >>= λ rest. ok (p ∷ rest)

pub nth_param : ℕ → Params → Result (Option GoValue)
nth_param i [] = err index_out_of_range
nth_param zero (p ∷ ps) = ok p
nth_param (suc i) (p ∷ ps) = nth_param i ps

-- One for a value that is there, which has a parameter.
abbrev pub slot : Option GoValue → ℕ
slot none = 0
slot (some v) = 1

abbrev pub is_blob : Option GoValue → Bool
is_blob (some (bytes b)) = true
is_blob _ = false

-- The bound value of a table, at the index of its parameter.
unfoldable pub encode_bound : ℕ → ℕ → Option GoValue → Params → Result Params
encode_bound vtype i none params = ok params
encode_bound vtype i (some v) params =
    let encoded = encode_any (some v) vtype in
    if is_empty (typed_column vtype) && not (is_blob (some v)) && not (vtype == 0)
    then (encoded >>= λ b. set_param i (some (bytes b)) params)
    else ok params

abbrev pub before_value : TableBinding → ℕ
before_value tb = (if tb.attr_id == 0 then 0 else 1) + slot tb.e_bound

-- The parameters of a table's own conditions.
abbrev pub table_slots : TableBinding → ℕ
table_slots tb = before_value tb + slot tb.v_bound + slot tb.tx_bound

unfoldable pub encode_tables : ℕ → List TableBinding → Params → Result (ℕ × Params)
encode_tables i [] params = ok (i, params)
encode_tables i (tb ∷ tables) params =
    encode_bound tb.value_type (i + before_value tb) tb.v_bound params >>= λ params'.
    encode_tables (i + table_slots tb) tables params'

-- A constant of a filter, at the index of its parameter.
unfoldable pub encode_constant : ℕ → ℕ → Params → Result Params
encode_constant vtype i params =
    let encoded =
      nth_param i params >>= λ p. encode_any p vtype >>= λ b. set_param i (some (bytes b)) params in
    if not (vtype == 0) && is_empty (typed_column vtype) then encoded else ok params

-- The loop over a filter's arguments ends at the end of the parameters.
unfoldable pub encode_args : ℕ → List FilterArg → Params → Result (ℕ × Params)
encode_args i [] params = ok (i, params)
encode_args i (arg ∷ args) params =
    let skipped = encode_args i args params in
    let encoded =
      encode_constant arg.value_type i params >>= λ params'. encode_args (i + 1) args params' in
    if not (is_empty arg.variable)
    then skipped
    else if leb (length params) i
    then ok (i, params)
    else encoded

unfoldable pub encode_filters : ℕ → List Filter → Params → Result (ℕ × Params)
encode_filters i [] params = ok (i, params)
encode_filters i (f ∷ fs) params =
    encode_args i f.args params >>= λ (i', params'). encode_filters i' fs params'

unfoldable pub encode_params : SqlQuery → AlgebraicQuery → Result SqlQuery
encode_params sq (algebraic _ tables _ fs _ _ _ _ _) =
    encode_tables 0 tables sq.params >>= λ (i, params).
    encode_filters i fs params >>= λ (_, params'). ok (record { sql = sq.sql; params = params' })
