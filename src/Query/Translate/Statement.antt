-- ===== src/Query/Translate/Statement.antt =====
-- query/translate.go: the placeholders of a whole statement.
use litelog.Prelude.{
  All, ◌≡◌, refl, ◌∙◌, Bytes, Bool, true, false, List, [], ◌∷◌, ◌++◌, map, text, if◌then◌else◌,
  length, length-append, arith,
}
use litelog.Result.{ok, Returns, returns, fails, Returns->>=, Returns-ok}
use litelog.Query.Algebra.{
  FindMapping, TableBinding, JoinCondition, Filter, RawFilter, OrderMapping, AlgebraicQuery,
  algebraic, Queries, no_queries, query, Alternatives, no_alternatives, alternative,
}
use litelog.Query.Translate.{
  join, table_of, build_select, build_from, ◌<+>◌, tables_conditions, filter_conditions,
  build_where, is_inner, join_conditions, raw_conditions, not_join, not_joins, where_of,
  inner_entry, build_not_exists, not_conditions, group_columns, order_columns, part, SqlQuery,
  translate_core, params_of, sqls_of, union_all, translate, translate_branches,
}
use litelog.Query.Translate.Marks.{
  marks, all_marks, marks-append, all_marks-append, marks-join, IsClean, IsCleanTable, Ignored,
  table_of-clean, marks-ref_of, IsBalanced, IsBalanced-<+>, IsBalanced-equals, IsBalanced-tables,
  IsCleanJoin, IsBalanced-joins, IsCleanFilter, IsBalanced-filters, IsCleanRaw, IsBalanced-raw,
}
use litelog.Query.Translate.Columns.{
  IsCleanFind, IsCleanOrder, AreBare, marks-build_select, marks-build_from, marks-group_columns,
  marks-order_columns,
}

-- No name in the query has a question mark, and raw fragments bring their parameters.
unfoldable mutual
  pub IsCleanQuery : AlgebraicQuery → Type 0
  IsCleanQuery (algebraic fms tables joins filters raw nots ors orders agg) =
      All IsCleanFind fms
      × All IsCleanTable tables
      × All IsCleanJoin joins
      × All IsCleanFilter filters
      × All IsCleanRaw raw
      × AreClean nots
      × AllClean ors
      × All IsCleanOrder orders

  pub AreClean : Queries → Type 0
  AreClean no_queries = Unit {0}
  AreClean (query q qs) = IsCleanQuery q × AreClean qs

  pub AllClean : Alternatives → Type 0
  AllClean no_alternatives = Unit {0}
  AllClean (alternative qs ors) = AreClean qs × AllClean ors

clean_either :
    (b : Bool) (xs ys : List TableBinding)
    → All IsCleanTable ys
    → All IsCleanTable xs
    → All IsCleanTable (if b then xs else ys)
clean_either true xs ys h k = k
clean_either false xs ys h k = h

IsBalanced-not_join :
    (outer inner : List TableBinding) (jc : JoinCondition)
    → All IsCleanTable outer
    → All IsCleanTable inner
    → IsCleanJoin jc
    → Returns Ignored IsBalanced (not_join outer inner jc)
unfolding not_join
IsBalanced-not_join outer inner jc h k (left, right) =
    let tables = if is_inner jc.left_table inner then inner else outer in
    Returns->>= (table_of jc.left_table tables) _
      (table_of-clean jc.left_table tables
        (clean_either (is_inner jc.left_table inner) inner outer h k))
      (λ l _ (cl, _, _).
        Returns->>= (table_of jc.right_table inner) _ (table_of-clean jc.right_table inner k)
          (λ r _ (cr, _, _). returns (
            IsBalanced-equals _ _ (marks-ref_of l.alias jc.left_col cl left)
              (marks-ref_of r.alias jc.right_col cr right))))

IsBalanced-not_joins :
    (outer inner : List TableBinding) (jcs : List JoinCondition)
    → All IsCleanTable outer
    → All IsCleanTable inner
    → All IsCleanJoin jcs
    → Returns Ignored IsBalanced (not_joins outer inner jcs)
unfolding not_joins all_marks
IsBalanced-not_joins outer inner [] h k js = returns refl
IsBalanced-not_joins outer inner (jc ∷ jcs) h k (j, js) =
    Returns->>= (not_join outer inner jc) _ (IsBalanced-not_join outer inner jc h k j) (λ c _ b.
      Returns->>= (not_joins outer inner jcs) _ (IsBalanced-not_joins outer inner jcs h k js)
        (λ rest _ bs. returns (IsBalanced-<+> c rest b bs)))

marks-inner_entries :
    (tables : List TableBinding) → All IsCleanTable tables → AreBare (map inner_entry tables)
unfolding all_marks marks
marks-inner_entries [] h = refl
marks-inner_entries (tb ∷ tables) ((alias, table, _), hs) =
    simp marks-append (omega (arith, marks-inner_entries tables hs))

marks-where_of :
    (keyword : Bytes) (frags : List Bytes)
    → IsClean keyword
    → marks (where_of keyword frags) ≡ all_marks frags
unfolding marks all_marks
marks-where_of keyword [] h = refl
marks-where_of keyword (f ∷ fs) h =
    marks-append keyword (join (text " AND ") (f ∷ fs))
    ∙ omega (arith, marks-join (text " AND ") (f ∷ fs) refl)

IsBalanced-not_exists :
    (outer : List TableBinding) (q : AlgebraicQuery)
    → All IsCleanTable outer
    → IsCleanQuery q
    → Returns Ignored IsBalanced (build_not_exists outer q)
unfolding build_not_exists IsCleanQuery all_marks marks
IsBalanced-not_exists outer (algebraic _ [] _ _ _ _ _ _ _) h k = fails tt
IsBalanced-not_exists outer (algebraic _ (tb ∷ tables) joins filters _ _ _ _ _) h
      (_, ts, js, fs, _, _, _, _) =
    let inner = tb ∷ tables in
    Returns->>= (not_joins outer inner joins) _ (IsBalanced-not_joins outer inner joins h ts js)
      (λ j _ bj.
        Returns->>= (filter_conditions inner filters) _ (IsBalanced-filters inner filters ts fs)
          (λ f _ bf.
            let c = tables_conditions inner <+> j <+> f in
            let balanced : IsBalanced c =
              IsBalanced-<+> (tables_conditions inner) (j <+> f) (IsBalanced-tables inner ts)
                (IsBalanced-<+> j f bj bf) in
            returns (
              simp marks-append (
                omega (
                  arith,
                  balanced,
                  marks-where_of (text " WHERE ") c.frags refl,
                  marks-join (text ", ") (map inner_entry inner) refl,
                  marks-inner_entries inner ts,
                )))))

IsBalanced-nots :
    (outer : List TableBinding) (qs : Queries)
    → All IsCleanTable outer
    → AreClean qs
    → Returns Ignored IsBalanced (not_conditions outer qs)
unfolding not_conditions AreClean all_marks
IsBalanced-nots outer no_queries h k = returns refl
IsBalanced-nots outer (query q qs) h (k, ks) =
    Returns->>= (build_not_exists outer q) _ (IsBalanced-not_exists outer q h k) (λ c _ b.
      Returns->>= (not_conditions outer qs) _ (IsBalanced-nots outer qs h ks)
        (λ rest _ bs. returns (IsBalanced-<+> c rest b bs)))

marks-part :
    (keyword sep : Bytes) (ss : List Bytes)
    → IsClean keyword
    → IsClean sep
    → all_marks (part keyword sep ss) ≡ all_marks ss
unfolding all_marks
marks-part keyword sep [] h k = refl
marks-part keyword sep (s ∷ ss) h k = simp marks-append (omega (arith, marks-join sep (s ∷ ss) k))

-- As many question marks in the text as parameters.
abbrev pub Matches : SqlQuery → Type 0
Matches s = marks s.sql ≡ length s.params

marks-groups :
    (agg : Bool) (tables : List TableBinding) (fms : List FindMapping)
    → All IsCleanTable tables
    → All IsCleanFind fms
    → Returns Ignored AreBare (if agg then group_columns tables fms else ok [])
unfolding all_marks
marks-groups true tables fms h k = marks-group_columns tables fms h k
marks-groups false tables fms h k = returns refl

IsBalanced-where :
    (tables : List TableBinding) (joins : List JoinCondition) (filters : List Filter)
    (raw : List RawFilter)
    → All IsCleanTable tables
    → All IsCleanJoin joins
    → All IsCleanFilter filters
    → All IsCleanRaw raw
    → Returns Ignored IsBalanced (build_where tables joins filters raw)
unfolding build_where
IsBalanced-where tables joins filters raw ct cj cl cr =
    Returns->>= (join_conditions tables joins) _ (IsBalanced-joins tables joins ct cj) (λ j _ bj.
      Returns->>= (filter_conditions tables filters) _ (IsBalanced-filters tables filters ct cl)
        (λ f _ bf. returns (
          IsBalanced-<+> (tables_conditions tables) (j <+> f <+> raw_conditions raw)
            (IsBalanced-tables tables ct)
            (IsBalanced-<+> j (f <+> raw_conditions raw) bj
              (IsBalanced-<+> f (raw_conditions raw) bf (IsBalanced-raw raw cr))))))

-- The text of a statement from its parts.
abbrev statement : Bytes → Bytes → List Bytes → List Bytes → List Bytes → Bytes
statement select from frags groups order = join (text "\n") (
    select
    ∷ from
    ∷ (part (text "WHERE ") (text " AND ") frags
        ++ part (text "GROUP BY ") (text ", ") groups
        ++ part (text "ORDER BY ") (text ", ") order))

marks-statement :
    (select from : Bytes) (frags groups order : List Bytes)
    → IsClean select
    → IsClean from
    → AreBare groups
    → AreBare order
    → marks (statement select from frags groups order) ≡ all_marks frags
unfolding all_marks marks
marks-statement select from frags groups order s f g o =
    marks-join (text "\n") _ refl
    ∙ simp all_marks-append (
        omega (
          arith,
          marks-part (text "WHERE ") (text " AND ") frags refl refl,
          marks-part (text "GROUP BY ") (text ", ") groups refl refl,
          marks-part (text "ORDER BY ") (text ", ") order refl refl,
        ))

Matches-core :
    (fms : List FindMapping) (tables : List TableBinding) (joins : List JoinCondition)
    (filters : List Filter) (raw : List RawFilter) (nots : Queries) (orders : List OrderMapping)
    (agg : Bool)
    → All IsCleanFind fms
    → All IsCleanTable tables
    → All IsCleanJoin joins
    → All IsCleanFilter filters
    → All IsCleanRaw raw
    → AreClean nots
    → All IsCleanOrder orders
    → Returns Ignored Matches (translate_core fms tables joins filters raw nots orders agg)
unfolding translate_core
Matches-core fms tables joins filters raw nots orders agg cf ct cj cl cr cn co =
    Returns->>= (build_select tables agg fms) _ (marks-build_select tables agg fms ct cf)
      (λ select _ s.
        Returns->>= (build_where tables joins filters raw) _
          (IsBalanced-where tables joins filters raw ct cj cl cr)
          (λ own _ b.
            Returns->>= (not_conditions tables nots) _ (IsBalanced-nots tables nots ct cn)
              (λ negated _ bn.
                Returns->>= (if agg then group_columns tables fms else ok []) _
                  (marks-groups agg tables fms ct cf)
                  (λ groups _ g.
                    Returns->>= (order_columns tables orders) _
                      (marks-order_columns tables orders ct co)
                      (λ order _ o. returns (
                        marks-statement select (build_from tables) (own <+> negated).frags groups
                          order s (marks-build_from tables ct) g o
                        ∙ IsBalanced-<+> own negated b bn))))))

Matches-params :
    (qs : List SqlQuery) → All Matches qs → all_marks (sqls_of qs) ≡ length (params_of qs)
unfolding all_marks
Matches-params [] h = refl
Matches-params (q ∷ qs) (h, hs) =
    omega (arith, length-append q.params (params_of qs), Matches-params qs hs)

Matches-union : (qs : List SqlQuery) → All Matches qs → Matches (union_all qs)
unfolding union_all marks
Matches-union qs h = marks-join (text "\nUNION ALL\n") (sqls_of qs) refl ∙ Matches-params qs h

mutual
  unfolding translate translate_branches IsCleanQuery AreClean AllClean

  matches : (q : AlgebraicQuery) → IsCleanQuery q → Returns Ignored Matches (translate q)
  matches (algebraic fms [] joins filters raw nots ors orders agg) h = fails tt
  matches (algebraic fms (tb ∷ tables) joins filters raw nots no_alternatives orders agg) h =
      Matches-core fms (tb ∷ tables) joins filters raw nots orders agg h.0 h.1 h.2 h.3 h.4 h.5 h.7
  matches (algebraic fms (tb ∷ tables) joins filters raw nots (alternative branches ors) orders agg)
        h =
      Returns->>= (translate_branches branches) _ (branches_match branches h.6.0)
        (λ qs _ m. returns (Matches-union qs m))

  branches_match :
      (qs : Queries) → AreClean qs → Returns Ignored (All Matches) (translate_branches qs)
  branches_match no_queries h = returns tt
  branches_match (query q qs) (h, hs) = Returns->>= (translate q) _ (matches q h) (λ s _ m.
      Returns->>= (translate_branches qs) _ (branches_match qs hs) (λ rest _ ms. returns (m, ms)))

-- The statement that a query translates to has exactly as many placeholders as parameters, if no
-- name of the query has a question mark in it and each raw fragment brings the parameters of its own.
pub translate-marks :
    (q : AlgebraicQuery) (s : SqlQuery)
    → IsCleanQuery q
    → translate q ≡ ok s
    → marks s.sql ≡ length s.params
translate-marks q s h e = Returns-ok (matches q h) e
