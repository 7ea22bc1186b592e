-- ===== src/Compile/Params/Kept.antt =====
-- query_api.go: `encodeParams` replaces parameters in their places.
use litelog.Prelude.{
  sym, Option, ℕ, zero, suc, ◌+◌, ◌≡◌, refl, ◌∙◌, inl, inr, not, ◌&&◌, none, some, List, [], ◌∷◌,
  ◌==◌, leb, length, Bool-cases, arith,
}
use litelog.Result.{◌>>=◌, Returns, returns, fails, Returns->>=, Result-cases}
use litelog.Types.{GoValue, bytes}
use litelog.Query.Algebra.{typed_column, TableBinding, FilterArg, Filter, AlgebraicQuery, algebraic}
use litelog.Query.Translate.{SqlQuery, is_empty}
use litelog.Query.Translate.Marks.{Ignored}
use litelog.Compile.{encode_any}
use litelog.Compile.Params.{
  Params, set_param, nth_param, is_blob, before_value, table_slots, encode_bound, encode_tables,
  encode_constant, encode_args, encode_filters, encode_params,
}

-- As many parameters as there were.
abbrev HasLength : ℕ → Params → Type 0
HasLength n params = length params ≡ n

abbrev SecondHasLength : ℕ → ℕ × Params → Type 0
SecondHasLength n r = length r.1 ≡ n

set_param-length :
    (i : ℕ) (v : Option GoValue) (ps : Params)
    → Returns Ignored (HasLength (length ps)) (set_param i v ps)
unfolding set_param
set_param-length i v [] = fails tt
set_param-length zero v (p ∷ ps) = returns refl
set_param-length (suc i) v (p ∷ ps) =
    Returns->>= (set_param i v ps) _ (set_param-length i v ps) (λ rest _ h. returns (omega arith))

-- Whatever is encoded, for an index.
encoded-length :
    (v : Option GoValue) (vtype i : ℕ) (ps : Params)
    → Returns Ignored
        (HasLength (length ps))
        (encode_any v vtype >>= λ b. set_param i (some (bytes b)) ps)
encoded-length v vtype i ps = elim (Result-cases (encode_any v vtype)) [
  | inl (e, failed) ↦ rw failed (fails tt)
  | inr (b, done) ↦ rw done (set_param-length i (some (bytes b)) ps)
]

encode_bound-length :
    (vtype i : ℕ) (v : Option GoValue) (ps : Params)
    → Returns Ignored (HasLength (length ps)) (encode_bound vtype i v ps)
unfolding encode_bound
encode_bound-length vtype i none ps = returns refl
encode_bound-length vtype i (some v) ps =
    elim (Bool-cases
      (is_empty (typed_column vtype) && not (is_blob (some v)) && not (vtype == 0))) [
        | inl blob ↦ rw blob (encoded-length (some v) vtype i ps)
        | inr native ↦ rw native (returns refl)
      ]

encode_tables-length :
    (i : ℕ) (tables : List TableBinding) (ps : Params)
    → Returns Ignored (SecondHasLength (length ps)) (encode_tables i tables ps)
unfolding encode_tables
encode_tables-length i [] ps = returns refl
encode_tables-length i (tb ∷ tables) ps =
    Returns->>= (encode_bound tb.value_type (i + before_value tb) tb.v_bound ps) _
      (encode_bound-length tb.value_type (i + before_value tb) tb.v_bound ps)
      (λ ps' _ h. rw (sym h) (encode_tables-length (i + table_slots tb) tables ps'))

encode_constant-length :
    (vtype i : ℕ) (ps : Params)
    → Returns Ignored (HasLength (length ps)) (encode_constant vtype i ps)
unfolding encode_constant
encode_constant-length vtype i ps =
    elim (Bool-cases (not (vtype == 0) && is_empty (typed_column vtype))) [
      | inl blob ↦ rw blob (elim (Result-cases (nth_param i ps)) [
        | inl (e, failed) ↦ rw failed (fails tt)
        | inr (p, found) ↦ rw found (encoded-length p vtype i ps)
      ])
      | inr native ↦ rw native (returns refl)
    ]

encode_args-length :
    (i : ℕ) (args : List FilterArg) (ps : Params)
    → Returns Ignored (SecondHasLength (length ps)) (encode_args i args ps)
unfolding encode_args
encode_args-length i [] ps = returns refl
encode_args-length i (arg ∷ args) ps = elim (Bool-cases (not (is_empty arg.variable))) [
  | inl variable ↦ rw variable (encode_args-length i args ps)
  | inr constant ↦ rw constant (elim (Bool-cases (leb (length ps) i)) [
    | inl ended ↦ rw ended (returns refl)
    | inr more ↦ rw more (
        Returns->>= (encode_constant arg.value_type i ps) _
          (encode_constant-length arg.value_type i ps)
          (λ ps' _ h. rw (sym h) (encode_args-length (i + 1) args ps')))
  ])
]

encode_filters-length :
    (i : ℕ) (fs : List Filter) (ps : Params)
    → Returns Ignored (SecondHasLength (length ps)) (encode_filters i fs ps)
unfolding encode_filters
encode_filters-length i [] ps = returns refl
encode_filters-length i (f ∷ fs) ps =
    Returns->>= (encode_args i f.args ps) _ (encode_args-length i f.args ps)
      (λ (i', ps') _ h. rw (sym h) (encode_filters-length i' fs ps'))

-- The text and the number of the parameters stay.
abbrev pub IsKept : SqlQuery → SqlQuery → Type 0
IsKept sq sq' = (sq'.sql ≡ sq.sql) × (length sq'.params ≡ length sq.params)

pub encode_params-IsKept :
    (sq : SqlQuery) (q : AlgebraicQuery) → Returns Ignored (IsKept sq) (encode_params sq q)
unfolding encode_params
encode_params-IsKept sq (algebraic find tables joins fs raw nots ors orders agg) =
    Returns->>= (encode_tables 0 tables sq.params) _ (encode_tables-length 0 tables sq.params)
      (λ (i, ps) _ h.
        Returns->>= (encode_filters i fs ps) _ (encode_filters-length i fs ps)
          (λ (j, ps') _ k. returns (refl, k ∙ h)))
