-- ===== src/Query/Algebrize/Phases/Tables.antt =====
-- query/algebrize.go: the tables that the results of `Algebrize` name.
use litelog.Prelude.{
  ◌≡◌, Bytes, Bool, true, false, List, [], ◌∷◌, if◌then◌else◌, length, bytes_key, All,
}
use litelog.Result.{ok, Returns, returns, fails, Returns->>=, Returns-ok}
use litelog.Query.Ast.{
  FindElem, Pattern, pattern_clause, expr_clause, not_clause, or_clause, rule_application, Clauses,
  no_clauses, ◌▹◌, InputSpec, OrderClause, ParsedQuery,
}
use litelog.Query.Algebra.{AlgebraicQuery, algebraic}
use litelog.Query.Algebrize.{SchemaLookup, VarLocation, Algebrizer, add_pattern, first_location}
use litelog.Query.Algebrize.Phases.{
  Sorted, sort_clauses, register_inputs, resolve_filters, resolve_nots, resolve_ors,
  resolve_find_elem, resolve_find, resolve_order_by, resolve_orders, algebrize, lookup_var,
}
use litelog.Query.Algebrize.Ranges.{
  Ignored, IsBelow, MapBelow, insert-Below, IsMapped, add_pattern-IsMapped, any_result,
  first_location-Below, IsJoinBelow, build_joins-Below,
}

sort_clauses-IsMapped :
    (schema : SchemaLookup) (st : Algebrizer) (s : Sorted) (cs : Clauses)
    → IsMapped st
    → Returns Ignored (λ r. IsMapped r.0) (sort_clauses schema st s cs)
unfolding sort_clauses
sort_clauses-IsMapped schema st s no_clauses h = returns h
sort_clauses-IsMapped schema st s (pattern_clause e a v tx ▹ cs) h =
    let p : Pattern = record { e = e; a = a; v = v; tx = tx } in
    Returns->>= (add_pattern schema p st) _ (add_pattern-IsMapped schema p st h)
      (λ st' _ k. sort_clauses-IsMapped schema st' s cs k)
sort_clauses-IsMapped schema st s (expr_clause _ _ _ ▹ cs) h =
    sort_clauses-IsMapped schema st _ cs h
sort_clauses-IsMapped schema st s (not_clause _ ▹ cs) h = sort_clauses-IsMapped schema st _ cs h
sort_clauses-IsMapped schema st s (or_clause _ ▹ cs) h = sort_clauses-IsMapped schema st _ cs h
sort_clauses-IsMapped schema st s (rule_application _ _ ▹ cs) h = fails tt

if_Below :
    (b : Bool) (xs ys : List (Bytes × List VarLocation))
    → MapBelow 0 xs
    → MapBelow 0 ys
    → MapBelow 0 (if b then xs else ys)
if_Below true xs ys h k = h
if_Below false xs ys h k = k

register_inputs-Below :
    (specs : List InputSpec) (vars : List (Bytes × List VarLocation))
    → MapBelow 0 vars
    → MapBelow 0 (register_inputs specs vars)
unfolding register_inputs
register_inputs-Below [] vars h = h
register_inputs-Below (i ∷ specs) vars h =
    register_inputs-Below specs _
      (if_Below _ _ vars (insert-Below 0 i.variable _ vars h (tt, tt)) h)

resolve_find_elem-Below :
    (st : Algebrizer) (f : FindElem)
    → IsMapped st
    → Returns Ignored (λ m. IsBelow (length st.tables) m.table) (resolve_find_elem st f)
unfolding resolve_find_elem
resolve_find_elem-Below st f h =
    Returns->>= (first_location (lookup_var f) st) _ (first_location-Below (lookup_var f) st h)
      (λ l _ b. returns b)

resolve_find-Below :
    (st : Algebrizer) (fs : List FindElem)
    → IsMapped st
    → Returns Ignored (All (λ m. IsBelow (length st.tables) m.table)) (resolve_find st fs)
unfolding resolve_find
resolve_find-Below st [] h = returns tt
resolve_find-Below st (f ∷ fs) h =
    Returns->>= (resolve_find_elem st f) _ (resolve_find_elem-Below st f h) (λ m _ b.
      Returns->>= (resolve_find st fs) _ (resolve_find-Below st fs h) (λ ms _ bs. returns (b, bs)))

resolve_order_by-Below :
    (st : Algebrizer) (o : OrderClause)
    → IsMapped st
    → Returns Ignored (λ m. IsBelow (length st.tables) m.table) (resolve_order_by st o)
unfolding resolve_order_by
resolve_order_by-Below st o h =
    Returns->>= (first_location o.variable st) _ (first_location-Below o.variable st h)
      (λ l _ b. returns b)

resolve_orders-Below :
    (st : Algebrizer) (os : List OrderClause)
    → IsMapped st
    → Returns Ignored (All (λ m. IsBelow (length st.tables) m.table)) (resolve_orders st os)
unfolding resolve_orders
resolve_orders-Below st [] h = returns tt
resolve_orders-Below st (o ∷ os) h =
    Returns->>= (resolve_order_by st o) _ (resolve_order_by-Below st o h) (λ m _ b.
      Returns->>= (resolve_orders st os) _ (resolve_orders-Below st os h)
        (λ ms _ bs. returns (b, bs)))

-- Find and order elements name tables of the query or inputs, and joins go between tables of it.
abbrev pub IsInRange : AlgebraicQuery → Type 0
IsInRange (algebraic find tables joins _ _ _ _ orders _) =
    All (λ m. IsBelow (length tables) m.table) find
    × All (IsJoinBelow (length tables)) joins
    × All (λ m. IsBelow (length tables) m.table) orders

algebrize-Returns :
    (schema : SchemaLookup) (q : ParsedQuery) → Returns Ignored IsInRange (algebrize schema q)
unfolding algebrize
algebrize-Returns schema q =
    let start : Algebrizer = record {
      tables = [];
      var_map = register_inputs q.in_specs [];
      var_types = [];
    } in
    let unsorted : Sorted = record { exprs = []; nots = []; ors = [] } in
    Returns->>= (sort_clauses schema start unsorted q.where_clauses) _
      (sort_clauses-IsMapped schema start unsorted q.where_clauses
        (register_inputs-Below q.in_specs [] tt))
      (λ (st, s) _ mapped. Returns->>= (resolve_filters st s.exprs) _ (any_result _) (λ filters _ _.
        Returns->>= (resolve_nots schema st s.nots) _ (any_result _) (λ nots _ _.
          Returns->>= (resolve_ors schema st s.ors) _ (any_result _) (λ ors _ _.
            Returns->>= (resolve_find st q.find_elems) _ (resolve_find-Below st q.find_elems mapped)
              (λ find _ f.
                Returns->>= (resolve_orders st q.order_by) _
                  (resolve_orders-Below st q.order_by mapped)
                  (λ orders _ o.
                    returns (f, build_joins-Below (length st.tables) st.var_map mapped, o)))))))

-- In the algebraic query that `Algebrize` returns, every join goes between two tables of the query,
-- and every find and order element names one of its tables, or else is an input variable.
pub algebrize-IsInRange :
    (schema : SchemaLookup) (q : ParsedQuery) (aq : AlgebraicQuery)
    → algebrize schema q ≡ ok aq
    → IsInRange aq
algebrize-IsInRange schema q aq h = Returns-ok (algebrize-Returns schema q) h
