-- ===== src/Query/Translate/Inputs.antt =====
-- query/translate.go: filters that refer to an input variable, whose table has the index -1.
use litelog.Prelude.{
  ℕ, ◌+◌, ◌≤◌, ◌≡◌, refl, sym, ap, ◌∙◌, inl, inr, Bytes, Bool, true, false, ◌&&◌, List, [], ◌∷◌,
  ◌++◌, bytes_eq, bytes_eq_iff, if◌then◌else◌, Bool-cases, arith,
}
use litelog.Result.{ok, Returns, returns, fails, Returns->>=, Returns-ok, Result-cases}
use litelog.Query.Algebra.{
  TableRef, table_input, table_at, FindMapping, TableBinding, JoinCondition, FilterArg, Filter,
  RawFilter, OrderMapping, AlgebraicQuery, algebraic, Queries, no_alternatives, alternative,
}
use litelog.Query.Translate.{
  SqlQuery, is_empty, table_of, filter_refs, build_filter, filter_conditions, build_where,
  build_select, join_conditions, translate_core, translate,
}
use litelog.Query.Translate.Marks.{Ignored}

abbrev pub is_input : TableRef → Bool
is_input table_input = true
is_input (table_at i) = false

-- An argument that refers to the input of this name.
unfoldable pub refers_to : Bytes → FilterArg → Bool
refers_to w arg = bytes_eq arg.variable w && is_input arg.table

unfoldable pub arg_refs : Bytes → List FilterArg → ℕ
arg_refs w [] = 0
arg_refs w (arg ∷ args) = (if refers_to w arg then 1 else 0) + arg_refs w args

-- The references to the input `w` in filters.
unfoldable pub input_refs : Bytes → List Filter → ℕ
input_refs w [] = 0
input_refs w (f ∷ fs) = arg_refs w f.args + input_refs w fs

pub input_refs-append :
    (w : Bytes) (fs gs : List Filter) → input_refs w (fs ++ gs) ≡ input_refs w fs + input_refs w gs
unfolding input_refs
input_refs-append w [] gs = omega arith
input_refs-append w (f ∷ fs) gs = omega (arith, input_refs-append w fs gs)

-- The references in the filters of a query itself.
unfoldable pub own_refs : Bytes → AlgebraicQuery → ℕ
own_refs w (algebraic _ _ _ fs _ _ _ _ _) = input_refs w fs

unfoldable pub has_alternatives : AlgebraicQuery → Bool
has_alternatives (algebraic _ _ _ _ _ _ no_alternatives _ _) = false
has_alternatives (algebraic _ _ _ _ _ _ ors _ _) = true

-- A query without alternatives that has at least so many references to the input.
abbrev pub Leaves : Bytes → ℕ → ℕ → AlgebraicQuery → Type 0
Leaves w n bound q = (n ≤ own_refs w q + bound) × (has_alternatives q ≡ false)

refers_to-real :
    (w v : Bytes) (r : TableRef) (tables : List TableBinding) (tb : TableBinding)
    → table_of r tables ≡ ok tb
    → (bytes_eq v w && is_input r) ≡ false
unfolding table_of
refers_to-real w v table_input tables tb e = cc
refers_to-real w v (table_at i) tables tb e = ground arith

refers_to-table :
    (w : Bytes) (arg : FilterArg) (tables : List TableBinding) (tb : TableBinding)
    → table_of arg.table tables ≡ ok tb
    → refers_to w arg ≡ false
unfolding refers_to
refers_to-table w arg tables tb e = refers_to-real w arg.variable arg.table tables tb e

refers_to-constant :
    (w : Bytes) (arg : FilterArg)
    → is_empty w ≡ false
    → is_empty arg.variable ≡ true
    → refers_to w arg ≡ false
unfolding refers_to
refers_to-constant w arg h k = elim (Bool-cases (bytes_eq arg.variable w)) [
  | inl same ↦
      let equal : arg.variable ≡ w = (bytes_eq_iff arg.variable w).0 same in
      let wrong : false ≡ true = sym h ∙ ap is_empty (sym equal) ∙ k in cc
  | inr different ↦ rw different
]

-- The translator reads no reference to an input.
filter_refs-none :
    (w : Bytes) (tables : List TableBinding) (args : List FilterArg)
    → is_empty w ≡ false
    → Returns Ignored (λ r. arg_refs w args ≡ 0) (filter_refs tables args)
unfolding filter_refs arg_refs
filter_refs-none w tables [] h = returns refl
filter_refs-none w tables (arg ∷ args) h = elim (Bool-cases (is_empty arg.variable)) [
  | inl constant ↦ rw constant (
      Returns->>= (filter_refs tables args) _ (filter_refs-none w tables args h)
        (λ rest _ k. returns (rw (refers_to-constant w arg h constant) (omega (arith, k)))))
  | inr variable ↦ rw variable (elim (Result-cases (table_of arg.table tables)) [
    | inl (e, failed) ↦ rw failed (fails tt)
    | inr (tb, found) ↦ rw found (
        Returns->>= (filter_refs tables args) _ (filter_refs-none w tables args h)
          (λ rest _ k. returns (rw (refers_to-table w arg tables tb found) (omega (arith, k)))))
  ])
]

filter_conditions-none :
    (w : Bytes) (tables : List TableBinding) (fs : List Filter)
    → is_empty w ≡ false
    → Returns Ignored (λ r. input_refs w fs ≡ 0) (filter_conditions tables fs)
unfolding filter_conditions build_filter input_refs
filter_conditions-none w tables [] h = returns refl
filter_conditions-none w tables (f ∷ fs) h = elim (Result-cases (filter_refs tables f.args)) [
  | inl (e, failed) ↦ rw failed (fails tt)
  | inr (refs, done) ↦ rw done (
      Returns->>= (filter_conditions tables fs) _ (filter_conditions-none w tables fs h)
        (λ rest _ k. returns (
          let own : arg_refs w f.args ≡ 0 = Returns-ok (filter_refs-none w tables f.args h) done in
          omega (arith, own, k))))
]

build_where-none :
    (w : Bytes) (tables : List TableBinding) (joins : List JoinCondition) (fs : List Filter)
    (raw : List RawFilter)
    → is_empty w ≡ false
    → Returns Ignored (λ r. input_refs w fs ≡ 0) (build_where tables joins fs raw)
unfolding build_where
build_where-none w tables joins fs raw h = elim (Result-cases (join_conditions tables joins)) [
  | inl (e, failed) ↦ rw failed (fails tt)
  | inr (j, done) ↦ rw done (
      Returns->>= (filter_conditions tables fs) _ (filter_conditions-none w tables fs h)
        (λ f _ k. returns k))
]

core-none :
    (w : Bytes) (fms : List FindMapping) (tables : List TableBinding) (joins : List JoinCondition)
    (fs : List Filter) (raw : List RawFilter) (nots : Queries) (orders : List OrderMapping)
    (agg : Bool) (sq : SqlQuery)
    → is_empty w ≡ false
    → translate_core fms tables joins fs raw nots orders agg ≡ ok sq
    → input_refs w fs ≡ 0
unfolding translate_core
core-none w fms tables joins fs raw nots orders agg sq h e =
    elim (Result-cases (build_select tables agg fms)) [
      | inl (e', failed) ↦ cc
      | inr (select, selected) ↦ elim (Result-cases (build_where tables joins fs raw)) [
        | inl (e', failed) ↦ cc
        | inr (own, built) ↦ Returns-ok (build_where-none w tables joins fs raw h) built
      ]
    ]

-- A query without alternatives that is translated has no reference to an input in its filters.
pub translate-none :
    (w : Bytes) (q : AlgebraicQuery) (sq : SqlQuery)
    → is_empty w ≡ false
    → has_alternatives q ≡ false
    → translate q ≡ ok sq
    → own_refs w q ≡ 0
unfolding translate has_alternatives own_refs
translate-none w (algebraic fms [] joins fs raw nots ors orders agg) sq h k e = cc
translate-none w (algebraic fms (tb ∷ tables) joins fs raw nots no_alternatives orders agg) sq h k
      e =
    core-none w fms (tb ∷ tables) joins fs raw nots orders agg sq h e
translate-none w (algebraic fms (tb ∷ tables) joins fs raw nots (alternative b ors) orders agg) sq h
      k e =
    cc
