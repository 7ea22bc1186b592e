-- ===== src/Compile/Inputs/Counts.antt =====
-- query_api.go: how many references to an input `bindInputArgs` leaves in the filters.
use litelog.Prelude.{
  length, ltb, refl, ◌≡◌, false, ℕ, ◌+◌, ◌≤◌, inl, inr, Bytes, true, Option, none, some, List, [],
  ◌∷◌, ◌==◌, bytes_eq, bytes_eq_iff, Bool-cases, if◌then◌else◌, arith,
}
use litelog.Result.{
  Returns-ok, Returns-mono, Result, Returns, returns, fails, Returns->>=, Result-cases,
}
use litelog.Types.{GoValue}
use litelog.Query.Ast.{InputSpec}
use litelog.Query.Algebra.{
  AlgebraicQuery, algebraic, no_alternatives, alternative, TableBinding, FilterArg, Filter,
}
use litelog.Query.Translate.Marks.{Ignored}
use litelog.Query.Translate.Inputs.{
  refers_to, arg_refs, input_refs, Leaves, own_refs, has_alternatives,
}
use litelog.Compile.Inputs.{
  behind, bind_table, refers_to, first_type, filter_value, bind_arg, bound_filter, bind_filters,
  bind_input, bind_inputs, bind_input_args, input_vars,
}

unfoldable pub occurrences : Bytes → List Bytes → ℕ
occurrences w [] = 0
occurrences w (v ∷ vs) = (if bytes_eq v w then 1 else 0) + occurrences w vs

abbrev same : Bytes → Bytes → ℕ
same v w = if bytes_eq v w then 1 else 0

-- What is found has at most one reference less, and none less to any other input.
abbrev ArgsBound : Bytes → Bytes → ℕ → Option (List FilterArg) → Type 0
ArgsBound v w n none = Unit {0}
ArgsBound v w n (some args) = n ≤ arg_refs w args + same v w

abbrev FiltersBound : Bytes → Bytes → ℕ → Option (List Filter) → Type 0
FiltersBound v w n none = Unit {0}
FiltersBound v w n (some fs) = n ≤ input_refs w fs + same v w

refers_to-same :
    (v w : Bytes) (arg : FilterArg)
    → refers_to v arg ≡ true
    → (if refers_to w arg then 1 else 0) ≤ same v w
unfolding refers_to
refers_to-same v w arg h =
    ground (arith, h, bytes_eq_iff arg.variable v, bytes_eq_iff arg.variable w, bytes_eq_iff v w)

ArgsBound-behind :
    (v w : Bytes) (n : ℕ) (arg : FilterArg) (r : Option (List FilterArg))
    → ArgsBound v w n r
    → ArgsBound v w ((if refers_to w arg then 1 else 0) + n) (behind arg r)
unfolding arg_refs
ArgsBound-behind v w n arg none h = tt
ArgsBound-behind v w n arg (some args) h = omega (arith, h)

bind_arg-ArgsBound :
    (v w : Bytes) (val : Option GoValue) (others : ℕ) (args : List FilterArg)
    → Returns Ignored (ArgsBound v w (arg_refs w args)) (bind_arg v val others args)
unfolding bind_arg arg_refs
bind_arg-ArgsBound v w val others [] = returns tt
bind_arg-ArgsBound v w val others (arg ∷ args) = elim (Bool-cases (refers_to v arg)) [
  | inl here ↦
      rw here
        (elim (Result-cases
          (filter_value val (if arg.value_type == 0 then others else arg.value_type))) [
            | inl (e, failed) ↦ rw failed (fails tt)
            | inr (b, done) ↦
                rw done (returns (let le = refers_to-same v w arg here in omega (arith, le)))
          ])
  | inr further ↦ rw further (
      Returns->>= (bind_arg v val others args) _ (bind_arg-ArgsBound v w val others args)
        (λ r _ k. returns (ArgsBound-behind v w (arg_refs w args) arg r k)))
]

FiltersBound-behind :
    (v w : Bytes) (n : ℕ) (f : Filter) (r : Option (List Filter))
    → FiltersBound v w n r
    → FiltersBound v w (arg_refs w f.args + n) (behind f r)
unfolding input_refs
FiltersBound-behind v w n f none h = tt
FiltersBound-behind v w n f (some fs) h = omega (arith, h)

bound_filter-FiltersBound :
    (v w : Bytes) (f : Filter) (fs : List Filter) (found : Option (List FilterArg))
    (rest : Result (Option (List Filter)))
    → ArgsBound v w (arg_refs w f.args) found
    → Returns Ignored (FiltersBound v w (input_refs w fs)) rest
    → Returns Ignored
        (FiltersBound v w (arg_refs w f.args + input_refs w fs))
        (bound_filter f fs found rest)
unfolding input_refs
bound_filter-FiltersBound v w f fs (some args) rest h k = returns (omega (arith, h))
bound_filter-FiltersBound v w f fs none rest h k =
    Returns->>= rest _ k (λ r _ m. returns (FiltersBound-behind v w (input_refs w fs) f r m))

bind_filters-FiltersBound :
    (v w : Bytes) (val : Option GoValue) (fs : List Filter)
    → Returns Ignored (FiltersBound v w (input_refs w fs)) (bind_filters v val fs)
unfolding bind_filters input_refs
bind_filters-FiltersBound v w val [] = returns tt
bind_filters-FiltersBound v w val (f ∷ fs) =
    Returns->>= (bind_arg v val (first_type f.args) f.args) _
      (bind_arg-ArgsBound v w val (first_type f.args) f.args)
      (λ found _ k.
        bound_filter-FiltersBound v w f fs found (bind_filters v val fs) k
          (bind_filters-FiltersBound v w val fs))

abbrev pub RefsLeft : Bytes → ℕ → ℕ → List TableBinding × List Filter → Type 0
RefsLeft w n bound r = n ≤ input_refs w r.1 + bound

bind_input-RefsLeft :
    (v w : Bytes) (val : Option GoValue) (tables : List TableBinding) (fs : List Filter)
    → Returns Ignored (RefsLeft w (input_refs w fs) (same v w)) (bind_input v val tables fs)
unfolding bind_input
bind_input-RefsLeft v w val tables fs = elim (Result-cases (bind_table v val tables)) [
  | inl (e, failed) ↦ rw failed (fails tt)
  | inr (some bound, found) ↦ rw found (returns (omega arith))
  | inr (none, missing) ↦ rw missing (elim (Result-cases (bind_filters v val fs)) [
    | inl (e, failed) ↦ rw failed (fails tt)
    | inr (none, nowhere) ↦ rw nowhere (fails tt)
    | inr (some fs', found) ↦
        rw found (returns (Returns-ok (bind_filters-FiltersBound v w val fs) found))
  ])
]

-- Every input variable takes one reference at most from the filters.
pub bind_inputs-RefsLeft :
    (w : Bytes) (vs : List Bytes) (args : List (Option GoValue)) (tables : List TableBinding)
    (fs : List Filter)
    → Returns Ignored
        (RefsLeft w (input_refs w fs) (occurrences w vs))
        (bind_inputs vs args tables fs)
unfolding bind_inputs occurrences
bind_inputs-RefsLeft w [] args tables fs = returns (omega arith)
bind_inputs-RefsLeft w (v ∷ vs) [] tables fs = fails tt
bind_inputs-RefsLeft w (v ∷ vs) (val ∷ args) tables fs =
    Returns->>= (bind_input v val tables fs) _ (bind_input-RefsLeft v w val tables fs)
      (λ (tables', fs') _ h.
        Returns-mono (bind_inputs vs args tables' fs') (λ r k. omega (arith, h, k))
          (bind_inputs-RefsLeft w vs args tables' fs'))

pub bind_input_args-Leaves :
    (w : Bytes) (specs : List InputSpec) (args : List (Option GoValue)) (q : AlgebraicQuery)
    → has_alternatives q ≡ false
    → Returns Ignored
        (Leaves w (own_refs w q) (occurrences w (input_vars specs)))
        (bind_input_args specs args q)
unfolding bind_input_args own_refs has_alternatives
bind_input_args-Leaves w specs args
      (algebraic find tables joins fs raw nots (alternative b ors) o agg) h =
    cc
bind_input_args-Leaves w specs args (algebraic find tables joins fs raw nots no_alternatives o agg)
      h =
    elim (Bool-cases (ltb (length args) (length (input_vars specs)))) [
      | inl few ↦ rw few (fails tt)
      | inr enough ↦ rw enough (
          Returns->>= (bind_inputs (input_vars specs) args tables fs) _
            (bind_inputs-RefsLeft w (input_vars specs) args tables fs)
            (λ (tables', fs') _ k. returns (k, refl)))
    ]
