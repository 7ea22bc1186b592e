-- ===== src/Compile/Views/Clean.antt =====
-- query_api.go: the placeholders of a query that `applyAsOf` has moved to the history.
use litelog.Prelude.{
  Option-cases, inl, inr, All-append, Bool, true, false, All, ℕ, ◌+◌, refl, Bytes, List, [], ◌∷◌,
  ◌++◌, map, ltb, text, if◌then◌else◌, arith,
}
use litelog.Query.Algebra.{TableBinding, Filter, RawFilter, AlgebraicQuery, algebraic}
use litelog.Query.Translate.Marks.{
  marks, marks-append, IsClean, IsCleanTable, IsCleanFilter, IsCleanRaw,
}
use litelog.Query.Translate.Statement.{IsCleanQuery}
use litelog.Temporal.{DbView}
use litelog.Compile.Views.{
  on_history, compares, not_retracted, not_ended, view_filters, view_raw, all_view_filters,
  all_view_raw, apply_as_of,
}

IsCleanTable-on_history :
    (hist : Bytes) (tables : List TableBinding)
    → IsClean hist
    → All IsCleanTable tables
    → All IsCleanTable (map (on_history hist) tables)
unfolding on_history marks
IsCleanTable-on_history hist [] h k = tt
IsCleanTable-on_history hist (tb ∷ tables) h ((alias, table, hint), ks) =
    ((alias, h, refl), IsCleanTable-on_history hist tables h ks)

IsCleanRaw-not_retracted :
    (hist alias : Bytes) (tx : ℕ)
    → IsClean hist
    → IsClean alias
    → IsCleanRaw (not_retracted hist alias tx)
unfolding not_retracted marks
IsCleanRaw-not_retracted hist alias tx h k = simp marks-append (omega arith)

IsCleanRaw-not_ended : (alias : Bytes) (ms : ℕ) → IsClean alias → IsCleanRaw (not_ended alias ms)
unfolding not_ended marks
IsCleanRaw-not_ended alias ms k = simp marks-append (omega arith)

IsCleanFilter-optional :
    (b : Bool) (f : Filter) → IsCleanFilter f → All IsCleanFilter (if b then f ∷ [] else [])
IsCleanFilter-optional true f h = (h, tt)
IsCleanFilter-optional false f h = tt

IsCleanRaw-optional :
    (b : Bool) (f : RawFilter) → IsCleanRaw f → All IsCleanRaw (if b then f ∷ [] else [])
IsCleanRaw-optional true f h = (h, tt)
IsCleanRaw-optional false f h = tt

view_filters-IsCleanFilter :
    (view : DbView) (i : ℕ) (alias : Bytes) → All IsCleanFilter (view_filters view i alias)
unfolding view_filters marks
view_filters-IsCleanFilter view i alias = (
  (refl, (refl, (refl, tt))),
  All-append IsCleanFilter (if ltb 0 view.tx_id then _ else []) _
      (IsCleanFilter-optional (ltb 0 view.tx_id)
        (compares (text "<=") (alias ++ text "_tx") (text "tx") i view.tx_id)
        (refl, (refl, (refl, tt))))
      (elim (Option-cases view.valid_time) [
        | inl e ↦ rw e tt
        | inr (ms, e) ↦ rw e ((refl, (refl, (refl, tt))), tt)
      ]),
)

view_raw-IsCleanRaw :
    (view : DbView) (hist alias : Bytes)
    → IsClean hist
    → IsClean alias
    → All IsCleanRaw (view_raw view hist alias)
unfolding view_raw
view_raw-IsCleanRaw view hist alias h k =
    All-append IsCleanRaw (if ltb 0 view.tx_id then _ else []) _
      (IsCleanRaw-optional (ltb 0 view.tx_id) (not_retracted hist alias view.tx_id)
        (IsCleanRaw-not_retracted hist alias view.tx_id h k))
      (elim (Option-cases view.valid_time) [
        | inl e ↦ rw e tt
        | inr (ms, e) ↦ rw e (IsCleanRaw-not_ended alias ms k, tt)
      ])

all_view_filters-IsCleanFilter :
    (view : DbView) (i : ℕ) (tables : List TableBinding)
    → All IsCleanFilter (all_view_filters view i tables)
unfolding all_view_filters
all_view_filters-IsCleanFilter view i [] = tt
all_view_filters-IsCleanFilter view i (tb ∷ tables) =
    All-append IsCleanFilter (view_filters view i tb.alias) _
      (view_filters-IsCleanFilter view i tb.alias)
      (all_view_filters-IsCleanFilter view (i + 1) tables)

all_view_raw-IsCleanRaw :
    (view : DbView) (hist : Bytes) (tables : List TableBinding)
    → IsClean hist
    → All IsCleanTable tables
    → All IsCleanRaw (all_view_raw view hist tables)
unfolding all_view_raw
all_view_raw-IsCleanRaw view hist [] h k = tt
all_view_raw-IsCleanRaw view hist (tb ∷ tables) h ((alias, _, _), ks) =
    All-append IsCleanRaw (view_raw view hist tb.alias) _
      (view_raw-IsCleanRaw view hist tb.alias h alias)
      (all_view_raw-IsCleanRaw view hist tables h ks)

pub apply_as_of-IsCleanQuery :
    (view : DbView) (hist : Bytes) (q : AlgebraicQuery)
    → IsClean hist
    → IsCleanQuery q
    → IsCleanQuery (apply_as_of view hist q)
unfolding apply_as_of IsCleanQuery
apply_as_of-IsCleanQuery view hist (algebraic find tables joins fs raw nots ors orders agg) h
      (cf, ct, cj, cl, cr, cn, ca, co) =
    (
      cf,
      IsCleanTable-on_history hist tables h ct,
      cj,
      All-append IsCleanFilter fs _ cl (all_view_filters-IsCleanFilter view 0 tables),
      All-append IsCleanRaw raw _ cr (all_view_raw-IsCleanRaw view hist tables h ct),
      cn,
      ca,
      co,
    )
