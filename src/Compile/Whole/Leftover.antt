-- ===== src/Compile/Whole/Leftover.antt =====
-- query_api.go: a query whose filters refer to an input more often than its `:in` names it.
use litelog.Prelude.{
  ℕ, ◌≤◌, ◌≡◌, inl, inr, Bytes, Bool, true, false, Option, List, if◌then◌else◌, arith,
}
use litelog.Result.{ok, Returns, returns, fails, Returns->>=, Returns-ok, Result-cases}
use litelog.Types.{GoValue}
use litelog.Temporal.{DbView}
use litelog.Query.Ast.{InputSpec}
use litelog.Query.Algebra.{FindMapping, AlgebraicQuery}
use litelog.Query.Translate.{SqlQuery, is_empty, translate}
use litelog.Query.Translate.Marks.{Ignored}
use litelog.Query.Translate.Inputs.{Leaves, own_refs, has_alternatives, translate-none}
use litelog.Compile.Inputs.{input_vars, bind_input_args}
use litelog.Compile.Inputs.Counts.{occurrences, bind_input_args-Leaves}
use litelog.Compile.Views.{apply_as_of}
use litelog.Compile.Views.References.{apply_as_of-Leaves}
use litelog.Compile.Params.{encode_params}
use litelog.Compile.Whole.{is_as_of, compile_algebraic}

Leaves-either :
    (b : Bool) (w : Bytes) (n bound : ℕ) (p q : AlgebraicQuery)
    → Leaves w n bound p
    → Leaves w n bound q
    → Leaves w n bound (if b then p else q)
Leaves-either true w n bound p q h k = h
Leaves-either false w n bound p q h k = k

leftover :
    (w : Bytes) (view : DbView) (hist : Bytes) (specs : List InputSpec)
    (args : List (Option GoValue)) (q : AlgebraicQuery)
    → is_empty w ≡ false
    → has_alternatives q ≡ false
    → Returns Ignored
        (λ r. own_refs w q ≤ occurrences w (input_vars specs))
        (compile_algebraic view hist specs args q)
unfolding compile_algebraic
leftover w view hist specs args q h k =
    Returns->>= (bind_input_args specs args q) _ (bind_input_args-Leaves w specs args q k)
      (λ q' _ l.
        let v : AlgebraicQuery = if is_as_of view then apply_as_of view hist q' else q' in
        let left : Leaves w (own_refs w q) (occurrences w (input_vars specs)) v =
          Leaves-either (is_as_of view) w (own_refs w q) (occurrences w (input_vars specs))
            (apply_as_of view hist q') q'
            (apply_as_of-Leaves w (own_refs w q) (occurrences w (input_vars specs)) view hist q' l)
            l in
        elim (Result-cases (translate v)) [
          | inl (e, failed) ↦ rw failed (fails tt)
          | inr (sq, done) ↦
              let none_left : own_refs w v ≡ 0 = translate-none w v sq h left.1 done in
              rw done (elim (Result-cases (encode_params sq v)) [
                | inl (e, failed) ↦ rw failed (fails tt)
                | inr (sq', encoded) ↦ rw encoded (returns (omega (arith, none_left, left.0)))
              ])
        ])

-- A query without alternatives that compiles refers to an input in its own filters at most as often
-- as its `:in` names that input: each name takes the place of one reference, and the translator
-- fails on any that is left.
pub compile_algebraic-refs :
    (w : Bytes) (view : DbView) (hist : Bytes) (specs : List InputSpec)
    (args : List (Option GoValue)) (q : AlgebraicQuery) (sq : SqlQuery) (find : List FindMapping)
    → is_empty w ≡ false
    → has_alternatives q ≡ false
    → compile_algebraic view hist specs args q ≡ ok (sq, find)
    → own_refs w q ≤ occurrences w (input_vars specs)
compile_algebraic-refs w view hist specs args q sq find h k e =
    Returns-ok (leftover w view hist specs args q h k) e
