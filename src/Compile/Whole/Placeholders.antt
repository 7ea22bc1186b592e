-- ===== src/Compile/Whole/Placeholders.antt =====
-- query_api.go: the placeholders of a compiled query.
use litelog.Prelude.{
  sym, ap, ◌≡◌, ◌∙◌, inl, inr, Bytes, Bool, true, false, Option, List, length, if◌then◌else◌,
}
use litelog.Result.{Result-cases, fails, ok, Returns, returns, Returns->>=, Returns-ok}
use litelog.Types.{GoValue}
use litelog.Temporal.{DbView}
use litelog.Query.Ast.{InputSpec}
use litelog.Query.Algebra.{FindMapping, AlgebraicQuery}
use litelog.Query.Translate.{SqlQuery, translate}
use litelog.Query.Translate.Marks.{marks, IsClean, Ignored}
use litelog.Query.Translate.Statement.{IsCleanQuery, Matches, translate-marks}
use litelog.Compile.Inputs.{bind_input_args}
use litelog.Compile.Inputs.Clean.{bind_input_args-IsCleanQuery}
use litelog.Compile.Views.{apply_as_of}
use litelog.Compile.Views.Clean.{apply_as_of-IsCleanQuery}
use litelog.Compile.Params.{encode_params}
use litelog.Compile.Params.Kept.{encode_params-IsKept}
use litelog.Compile.Whole.{is_as_of, compile_algebraic}

abbrev viewed : DbView → Bytes → AlgebraicQuery → AlgebraicQuery
viewed view hist q = if is_as_of view then apply_as_of view hist q else q

IsCleanQuery-either :
    (b : Bool) (p q : AlgebraicQuery)
    → IsCleanQuery p
    → IsCleanQuery q
    → IsCleanQuery (if b then p else q)
IsCleanQuery-either true p q h k = h
IsCleanQuery-either false p q h k = k

IsCleanQuery-viewed :
    (view : DbView) (hist : Bytes) (q : AlgebraicQuery)
    → IsClean hist
    → IsCleanQuery q
    → IsCleanQuery (viewed view hist q)
IsCleanQuery-viewed view hist q h k =
    IsCleanQuery-either (is_as_of view) (apply_as_of view hist q) q
      (apply_as_of-IsCleanQuery view hist q h k) k

abbrev FirstMatches : SqlQuery × List FindMapping → Type 0
FirstMatches r = Matches r.0

translated : (q : AlgebraicQuery) → IsCleanQuery q → Returns Ignored Matches (translate q)
translated q h = elim (Result-cases (translate q)) [
  | inl (e, failed) ↦ rw failed (fails tt)
  | inr (s, done) ↦ rw done (returns (translate-marks q s h done))
]

compiled :
    (view : DbView) (hist : Bytes) (specs : List InputSpec) (args : List (Option GoValue))
    (q : AlgebraicQuery)
    → IsClean hist
    → IsCleanQuery q
    → Returns Ignored FirstMatches (compile_algebraic view hist specs args q)
unfolding compile_algebraic
compiled view hist specs args q h k =
    Returns->>= (bind_input_args specs args q) _ (bind_input_args-IsCleanQuery specs args q k)
      (λ q' _ k'.
        let v : AlgebraicQuery = viewed view hist q' in
        Returns->>= (translate v) _ (translated v (IsCleanQuery-viewed view hist q' h k'))
          (λ sq _ m.
            Returns->>= (encode_params sq v) _ (encode_params-IsKept sq v)
              (λ sq' _ (text_kept, number_kept).
                returns (ap marks text_kept ∙ m ∙ sym number_kept))))

-- The statement that the steps behind the algebrizer make of a query, of the current state or of
-- any temporal view and with any arguments bound, has exactly as many placeholders as parameters,
-- if no name of the query and of the history's table has a question mark in it.
pub compile_algebraic-marks :
    (view : DbView) (hist : Bytes) (specs : List InputSpec) (args : List (Option GoValue))
    (q : AlgebraicQuery) (sq : SqlQuery) (find : List FindMapping)
    → IsClean hist
    → IsCleanQuery q
    → compile_algebraic view hist specs args q ≡ ok (sq, find)
    → marks sq.sql ≡ length sq.params
compile_algebraic-marks view hist specs args q sq find h k e =
    Returns-ok (compiled view hist specs args q h k) e
