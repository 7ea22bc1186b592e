-- ===== src/Compile/Views/References.antt =====
-- query_api.go: the filters of a query before `applyAsOf` are among those after.
use litelog.Prelude.{ℕ, refl, Bytes, arith}
use litelog.Temporal.{DbView}
use litelog.Query.Algebra.{AlgebraicQuery, algebraic, no_alternatives, alternative}
use litelog.Query.Translate.Inputs.{input_refs-append, Leaves, own_refs, has_alternatives}
use litelog.Compile.Views.{apply_as_of, all_view_filters}

pub apply_as_of-Leaves :
    (w : Bytes) (n bound : ℕ) (view : DbView) (hist : Bytes) (q : AlgebraicQuery)
    → Leaves w n bound q
    → Leaves w n bound (apply_as_of view hist q)
unfolding apply_as_of own_refs has_alternatives
apply_as_of-Leaves w n bound view hist
      (algebraic find tables joins fs raw nots (alternative b ors) o agg) (h, k) =
    cc
apply_as_of-Leaves w n bound view hist
      (algebraic find tables joins fs raw nots no_alternatives o agg) (h, k) =
    (omega (arith, h, input_refs-append w fs (all_view_filters view 0 tables)), refl)
