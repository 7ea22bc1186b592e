-- ===== src/Compile/Inputs/Clean.antt =====
-- query_api.go: the placeholders of a query whose inputs are bound.
use litelog.Prelude.{
  ℕ, All, refl, inl, inr, Bytes, Option, none, some, List, [], ◌∷◌, ◌==◌, ltb, bytes_eq, length,
  Bool-cases, if◌then◌else◌,
}
use litelog.Result.{Returns-ok, Result, Returns, returns, fails, Returns->>=, Result-cases}
use litelog.Types.{GoValue}
use litelog.Query.Ast.{InputSpec}
use litelog.Query.Algebra.{TableBinding, FilterArg, Filter, AlgebraicQuery, algebraic}
use litelog.Query.Translate.Marks.{Ignored, marks, IsCleanTable, IsCleanArg, IsCleanFilter}
use litelog.Query.Translate.Statement.{IsCleanQuery}
use litelog.Query.Translate.Inputs.{refers_to}
use litelog.Compile.{encode_untyped}
use litelog.Compile.Inputs.{
  input_vars, behind, bind_table, refers_to, first_type, filter_value, bind_arg, bound_filter,
  bind_filters, bind_input, bind_inputs, bind_input_args,
}

-- Of a list that may not have been found.
abbrev pub Found : {A : Type 0} → (A → Type 0) → Option (List A) → Type 0
Found P none = Unit {0}
Found P (some xs) = All P xs

Found-behind :
    {A : Type 0} (P : A → Type 0) (x : A) (r : Option (List A))
    → P x
    → Found P r
    → Found P (behind x r)
Found-behind P x none h k = tt
Found-behind P x (some xs) h k = (h, k)

bind_table-Found :
    (v : Bytes) (val : Option GoValue) (tables : List TableBinding)
    → All IsCleanTable tables
    → Returns Ignored (Found IsCleanTable) (bind_table v val tables)
unfolding bind_table
bind_table-Found v val [] h = returns tt
bind_table-Found v val (tb ∷ tables) (h, hs) =
    elim (Bool-cases (bytes_eq tb.pattern.v.variable v)) [
      | inl value ↦ rw value (elim (Result-cases (encode_untyped val tb.value_type)) [
        | inl (e, failed) ↦ rw failed (fails tt)
        | inr (b, done) ↦ rw done (returns (h, hs))
      ])
      | inr other ↦ rw other (elim (Bool-cases (bytes_eq tb.pattern.e.variable v)) [
        | inl entity ↦ rw entity (returns (h, hs))
        | inr other' ↦ rw other' (elim (Bool-cases (bytes_eq tb.pattern.tx.variable v)) [
          | inl tx ↦ rw tx (returns (h, hs))
          | inr none_of_them ↦ rw none_of_them (
              Returns->>= (bind_table v val tables) _ (bind_table-Found v val tables hs)
                (λ r _ k. returns (Found-behind IsCleanTable tb r h k)))
        ])
      ])
    ]

bind_arg-Found :
    (v : Bytes) (val : Option GoValue) (others : ℕ) (args : List FilterArg)
    → All IsCleanArg args
    → Returns Ignored (Found IsCleanArg) (bind_arg v val others args)
unfolding bind_arg marks
bind_arg-Found v val others [] h = returns tt
bind_arg-Found v val others (arg ∷ args) (h, hs) = elim (Bool-cases (refers_to v arg)) [
  | inl here ↦
      rw here
        (elim (Result-cases
          (filter_value val (if arg.value_type == 0 then others else arg.value_type))) [
            | inl (e, failed) ↦ rw failed (fails tt)
            | inr (b, done) ↦ rw done (returns (refl, hs))
          ])
  | inr further ↦ rw further (
      Returns->>= (bind_arg v val others args) _ (bind_arg-Found v val others args hs)
        (λ r _ k. returns (Found-behind IsCleanArg arg r h k)))
]

bound_filter-Found :
    (f : Filter) (fs : List Filter) (found : Option (List FilterArg))
    (rest : Result (Option (List Filter)))
    → IsCleanFilter f
    → All IsCleanFilter fs
    → Found IsCleanArg found
    → Returns Ignored (Found IsCleanFilter) rest
    → Returns Ignored (Found IsCleanFilter) (bound_filter f fs found rest)
bound_filter-Found f fs (some args) rest (fn, _) hs k l = returns ((fn, k), hs)
bound_filter-Found f fs none rest h hs k l =
    Returns->>= rest _ l (λ r _ m. returns (Found-behind IsCleanFilter f r h m))

bind_filters-Found :
    (v : Bytes) (val : Option GoValue) (fs : List Filter)
    → All IsCleanFilter fs
    → Returns Ignored (Found IsCleanFilter) (bind_filters v val fs)
unfolding bind_filters
bind_filters-Found v val [] h = returns tt
bind_filters-Found v val (f ∷ fs) (h, hs) =
    Returns->>= (bind_arg v val (first_type f.args) f.args) _
      (bind_arg-Found v val (first_type f.args) f.args h.1)
      (λ found _ k.
        bound_filter-Found f fs found (bind_filters v val fs) h hs k
          (bind_filters-Found v val fs hs))

abbrev AreClean : List TableBinding × List Filter → Type 0
AreClean (tables, fs) = All IsCleanTable tables × All IsCleanFilter fs

bind_input-AreClean :
    (v : Bytes) (val : Option GoValue) (tables : List TableBinding) (fs : List Filter)
    → All IsCleanTable tables
    → All IsCleanFilter fs
    → Returns Ignored AreClean (bind_input v val tables fs)
unfolding bind_input
bind_input-AreClean v val tables fs h k = elim (Result-cases (bind_table v val tables)) [
  | inl (e, failed) ↦ rw failed (fails tt)
  | inr (some bound, found) ↦
      rw found (returns (Returns-ok (bind_table-Found v val tables h) found, k))
  | inr (none, missing) ↦ rw missing (elim (Result-cases (bind_filters v val fs)) [
    | inl (e, failed) ↦ rw failed (fails tt)
    | inr (none, nowhere) ↦ rw nowhere (fails tt)
    | inr (some fs', found) ↦
        rw found (returns (h, Returns-ok (bind_filters-Found v val fs k) found))
  ])
]

bind_inputs-AreClean :
    (vs : List Bytes) (args : List (Option GoValue)) (tables : List TableBinding) (fs : List Filter)
    → All IsCleanTable tables
    → All IsCleanFilter fs
    → Returns Ignored AreClean (bind_inputs vs args tables fs)
unfolding bind_inputs
bind_inputs-AreClean [] args tables fs h k = returns (h, k)
bind_inputs-AreClean (v ∷ vs) [] tables fs h k = fails tt
bind_inputs-AreClean (v ∷ vs) (val ∷ args) tables fs h k =
    Returns->>= (bind_input v val tables fs) _ (bind_input-AreClean v val tables fs h k)
      (λ (tables', fs') _ (h', k'). bind_inputs-AreClean vs args tables' fs' h' k')

pub bind_input_args-IsCleanQuery :
    (specs : List InputSpec) (args : List (Option GoValue)) (q : AlgebraicQuery)
    → IsCleanQuery q
    → Returns Ignored IsCleanQuery (bind_input_args specs args q)
unfolding bind_input_args IsCleanQuery
bind_input_args-IsCleanQuery specs args (algebraic find tables joins fs raw nots ors orders agg)
      (cf, ct, cj, cl, cr, cn, ca, co) =
    elim (Bool-cases (ltb (length args) (length (input_vars specs)))) [
      | inl few ↦ rw few (fails tt)
      | inr enough ↦ rw enough (
          Returns->>= (bind_inputs (input_vars specs) args tables fs) _
            (bind_inputs-AreClean (input_vars specs) args tables fs ct cl)
            (λ (tables', fs') _ (ct', cl'). returns (cf, ct', cj, cl', cr, cn, ca, co)))
    ]
