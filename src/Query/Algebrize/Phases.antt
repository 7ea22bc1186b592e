-- ===== src/Query/Algebrize/Phases.antt =====
-- query/algebrize.go: the subqueries of negations and alternatives, and the whole of `Algebrize`.
pub mod Tables
pub mod Tests
use litelog.Prelude.{
  ℕ, ◌+◌, Bytes, Bool, true, false, not, ◌&&◌, some, none, List, [], ◌∷◌, ◌++◌, text, if◌then◌else◌,
  lookup, insert, bytes_key,
}
use litelog.Result.{Result, ok, err, ◌>>=◌, unsupported_clause}
use litelog.Query.Ast.{
  FindElem, PatternElem, pattern_clause, expr_clause, not_clause, or_clause, rule_application,
  Clauses, no_clauses, ◌▹◌, Branches, no_branches, branch, InputSpec, OrderClause, ParsedQuery,
}
use litelog.Query.Algebra.{
  table_input, table_at, FindMapping, TableBinding, JoinCondition, Filter, OrderMapping,
  AlgebraicQuery, algebraic, Queries, no_queries, query, Alternatives, no_alternatives, alternative,
}
use litelog.Query.Algebrize.{
  SchemaLookup, VarLocation, Algebrizer, locations, type_in, is_variable, add_pattern, build_joins,
  first_location, resolve_filter,
}

-- The variables of a subquery's patterns, each with its first location.
note_first : PatternElem → ℕ → Bytes → List (Bytes × VarLocation) → List (Bytes × VarLocation)
note_first p idx column vars =
    if is_variable p
    then elim (lookup p.variable vars) [
      | some loc ↦ vars
      | none ↦ insert p.variable (record { table = table_at idx; column = column }) vars
    ]
    else vars

pub sub_vars : ℕ → List TableBinding → List (Bytes × VarLocation) → List (Bytes × VarLocation)
unfolding note_first
sub_vars idx [] vars = vars
sub_vars idx (tb ∷ tables) vars =
    let p = tb.pattern in
    sub_vars (idx + 1) tables (
      note_first p.tx idx (text "tx") (
        note_first p.v idx (text "v")
          (note_first p.a idx (text "a") (note_first p.e idx (text "e") vars))))

-- A join for each of them that the parent has a location of.
pub parent_joins : Algebrizer → List (Bytes × VarLocation) → List JoinCondition
parent_joins st [] = []
parent_joins st ((v, sub) ∷ vars) =
    let rest = parent_joins st vars in
    elim (locations v st.var_map) [
      | [] ↦ rest
      | parent ∷ locs ↦
          record {
            variable = v;
            left_table = parent.table;
            left_col = parent.column;
            right_table = sub.table;
            right_col = sub.column;
          }
          ∷ rest
    ]

pub build_subquery_joins : Algebrizer → AlgebraicQuery → List JoinCondition
build_subquery_joins st (algebraic _ tables _ _ _ _ _ _ _) = parent_joins st (sub_vars 0 tables [])

-- A subquery with its joins to the parent behind its own.
pub correlated : Algebrizer → AlgebraicQuery → AlgebraicQuery
correlated st (algebraic find tables joins filters raw nots ors orders agg) =
    let inner = algebraic find tables joins filters raw nots ors orders agg in
    algebraic find tables (joins ++ build_subquery_joins st inner) filters raw nots ors orders agg

-- What the loop over the clauses of a subquery has gathered beside its tables.
pub record Gathered : Type 0 where
  pub filters : List Filter
  pub nots : Queries
  pub ors : Alternatives

abbrev pub nothing_gathered : Gathered
nothing_gathered = record { filters = []; nots = no_queries; ors = no_alternatives }

pub append_query : Queries → AlgebraicQuery → Queries
append_query no_queries q = query q no_queries
append_query (query p ps) q = query p (append_query ps q)

pub append_alternative : Alternatives → Queries → Alternatives
append_alternative no_alternatives qs = alternative qs no_alternatives
append_alternative (alternative ps ors) qs = alternative ps (append_alternative ors qs)

abbrev pub sub_algebrizer : Algebrizer → Algebrizer
sub_algebrizer st = record { tables = []; var_map = []; var_types = st.var_types }

-- The end of `algebrizeSubquery`.
abbrev pub subquery_of : Algebrizer × Gathered → AlgebraicQuery
subquery_of (sub, g) =
    algebraic [] sub.tables (build_joins sub.var_map) g.filters [] g.nots g.ors [] false

module _ (schema : SchemaLookup) where
  -- The loop of `algebrizeSubquery`, and the loop over the branches of an OR in it. A negation and a
  -- branch start from an algebrizer of their own, which has the types of the variables so far.
  mutual
    pub sub_clauses : Algebrizer → Gathered → Clauses → Result (Algebrizer × Gathered)
    sub_clauses sub g no_clauses = ok (sub, g)
    sub_clauses sub g (pattern_clause e a v tx ▹ cs) =
        add_pattern schema (record { e = e; a = a; v = v; tx = tx }) sub >>= λ sub'.
        sub_clauses sub' g cs
    sub_clauses sub g (expr_clause fn args binding ▹ cs) =
        resolve_filter sub fn args binding >>= λ f.
        sub_clauses sub (record g { filters = g.filters ++ f ∷ [] }) cs
    sub_clauses sub g (not_clause inner ▹ cs) =
        sub_clauses (sub_algebrizer sub) nothing_gathered inner >>= λ r.
        sub_clauses sub (record g { nots = append_query g.nots (correlated sub (subquery_of r)) })
          cs
    sub_clauses sub g (or_clause branches ▹ cs) = sub_branches sub branches >>= λ qs.
        sub_clauses sub (record g { ors = append_alternative g.ors qs }) cs
    sub_clauses sub g (rule_application name args ▹ cs) = err unsupported_clause

    pub sub_branches : Algebrizer → Branches → Result Queries
    sub_branches st no_branches = ok no_queries
    sub_branches st (branch clauses branches) =
        sub_clauses (sub_algebrizer st) nothing_gathered clauses >>= λ r.
        sub_branches st branches >>= λ qs. ok (query (correlated st (subquery_of r)) qs)

  pub algebrize_subquery : Algebrizer → Clauses → Result AlgebraicQuery
  algebrize_subquery st clauses =
      sub_clauses (sub_algebrizer st) nothing_gathered clauses >>= λ r. ok (subquery_of r)

-- The first phase of `Algebrize`: the patterns become tables, and the other clauses are kept.
pub record Sorted : Type 0 where
  pub exprs : List (Bytes × List PatternElem × PatternElem)
  pub nots : List Clauses
  pub ors : List Branches

pub sort_clauses : SchemaLookup → Algebrizer → Sorted → Clauses → Result (Algebrizer × Sorted)
sort_clauses schema st s no_clauses = ok (st, s)
sort_clauses schema st s (pattern_clause e a v tx ▹ cs) =
    add_pattern schema (record { e = e; a = a; v = v; tx = tx }) st >>= λ st'.
    sort_clauses schema st' s cs
sort_clauses schema st s (expr_clause fn args binding ▹ cs) =
    sort_clauses schema st (record s { exprs = s.exprs ++ (fn, args, binding) ∷ [] }) cs
sort_clauses schema st s (not_clause inner ▹ cs) =
    sort_clauses schema st (record s { nots = s.nots ++ inner ∷ [] }) cs
sort_clauses schema st s (or_clause branches ▹ cs) =
    sort_clauses schema st (record s { ors = s.ors ++ branches ∷ [] }) cs
sort_clauses schema st s (rule_application name args ▹ cs) = err unsupported_clause

-- The variables of `:in` stand for inputs before any pattern is read.
pub register_inputs :
    List InputSpec → List (Bytes × List VarLocation) → List (Bytes × List VarLocation)
register_inputs [] m = m
register_inputs (i ∷ is) m =
    let named : Bool = elim i.variable [ [] ↦ false | b ∷ s ↦ true ] in
    let input : VarLocation = record { table = table_input; column = text "input" } in
    register_inputs is (if not i.source && named then insert i.variable (input ∷ []) m else m)

pub resolve_filters :
    Algebrizer → List (Bytes × List PatternElem × PatternElem) → Result (List Filter)
resolve_filters st [] = ok []
resolve_filters st ((fn, args, binding) ∷ es) =
    resolve_filter st fn args binding >>= λ f. resolve_filters st es >>= λ fs. ok (f ∷ fs)

pub resolve_nots : SchemaLookup → Algebrizer → List Clauses → Result Queries
resolve_nots schema st [] = ok no_queries
resolve_nots schema st (c ∷ cs) = algebrize_subquery schema st c >>= λ q.
    resolve_nots schema st cs >>= λ qs. ok (query (correlated st q) qs)

pub resolve_ors : SchemaLookup → Algebrizer → List Branches → Result Alternatives
resolve_ors schema st [] = ok no_alternatives
resolve_ors schema st (b ∷ bs) =
    sub_branches schema st b >>= λ qs. resolve_ors schema st bs >>= λ ors. ok (alternative qs ors)

-- The variable that a find element is looked up by: for an aggregate, its argument.
abbrev pub lookup_var : FindElem → Bytes
lookup_var f = elim f.variable [ [] ↦ f.agg_arg | b ∷ s ↦ b ∷ s ]

pub resolve_find_elem : Algebrizer → FindElem → Result FindMapping
resolve_find_elem st f = first_location (lookup_var f) st >>= λ loc. ok (record {
  variable = f.variable;
  table = loc.table;
  column = loc.column;
  value_type = type_in (lookup_var f) st.var_types;
  aggregate = f.aggregate;
  agg_arg = f.agg_arg;
})

pub resolve_find : Algebrizer → List FindElem → Result (List FindMapping)
resolve_find st [] = ok []
resolve_find st (f ∷ fs) = resolve_find_elem st f >>= λ m. resolve_find st fs >>= λ ms. ok (m ∷ ms)

pub resolve_order_by : Algebrizer → OrderClause → Result OrderMapping
resolve_order_by st o = first_location o.variable st >>= λ loc.
    ok (record { variable = o.variable; table = loc.table; column = loc.column; desc = o.desc })

pub resolve_orders : Algebrizer → List OrderClause → Result (List OrderMapping)
resolve_orders st [] = ok []
resolve_orders st (o ∷ os) =
    resolve_order_by st o >>= λ m. resolve_orders st os >>= λ ms. ok (m ∷ ms)

abbrev pub aggregates : List FindMapping → Bool
aggregates [] = false
aggregates (m ∷ ms) = elim m.aggregate [ [] ↦ aggregates ms | b ∷ s ↦ true ]

pub algebrize : SchemaLookup → ParsedQuery → Result AlgebraicQuery
algebrize schema q =
    let start : Algebrizer = record {
      tables = [];
      var_map = register_inputs q.in_specs [];
      var_types = [];
    } in
    sort_clauses schema start (record { exprs = []; nots = []; ors = [] }) q.where_clauses
    >>= λ (st, s). resolve_filters st s.exprs >>= λ filters.
        resolve_nots schema st s.nots >>= λ nots. resolve_ors schema st s.ors >>= λ ors.
        resolve_find st q.find_elems >>= λ find. resolve_orders st q.order_by >>= λ orders. ok (
          algebraic find st.tables (build_joins st.var_map) filters [] nots ors orders
            (aggregates find))
