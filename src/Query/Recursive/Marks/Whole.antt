-- ===== src/Query/Recursive/Marks/Whole.antt =====
-- query/recursive.go: the placeholders of a whole statement and of a rule's body.
use litelog.Prelude.{
  ℕ, ◌+◌, ◌≡◌, refl, ◌∙◌, inl, inr, Bytes, Option, List, [], ◌∷◌, ◌++◌, text, length, length-append,
  lookup, bytes_key, Bool-cases, Option-cases, arith,
}
use litelog.Result.{Returns-ok, Returns, returns, fails, Returns->>=, Result-cases}
use litelog.Types.{GoValue}
use litelog.Query.Ast.{
  PatternElem, Clause, pattern_clause, expr_clause, not_clause, or_clause, rule_application,
  Clauses, no_clauses, ◌▹◌, Rule,
}
use litelog.Query.Algebrize.{SchemaLookup, is_variable}
use litelog.Query.Translate.{join}
use litelog.Query.Translate.Marks.{
  marks, all_marks, marks-append, all_marks-append, marks-join, IsClean, Ignored,
}
use litelog.Query.Translate.Statement.{Matches}
use litelog.Query.Recursive.{
  column_names, VarTracker, Body, empty_body, Arities, expr_refs, expr_clause_to_sql, add_clause,
  add_clauses, select_head, optional_part, insert_text, rule_body_to_sql,
}
use litelog.Query.Recursive.Marks.{
  marks-numbered, AreCleanRefs, IsBalanced, lookup-some, all_marks-snoc,
}
use litelog.Query.Recursive.Marks.Patterns.{IsBalanced-data_pattern, IsBalanced-application}

-- As many question marks as parameters.
abbrev AreMatched : List Bytes × List (Option GoValue) → Type 0
AreMatched r = all_marks r.0 ≡ length r.1

expr_refs-AreMatched :
    (refs : List (Bytes × Bytes)) (ps : List PatternElem)
    → AreCleanRefs refs
    → Returns Ignored AreMatched (expr_refs refs ps)
unfolding expr_refs all_marks marks
expr_refs-AreMatched refs [] h = returns refl
expr_refs-AreMatched refs (p ∷ ps) h = elim (Bool-cases (is_variable p)) [
  | inl variable ↦ rw variable (elim (Option-cases (lookup p.variable refs)) [
    | inl unresolved ↦ rw unresolved (fails tt)
    | inr (ref, found) ↦ rw found (
        Returns->>= (expr_refs refs ps) _ (expr_refs-AreMatched refs ps h)
          (λ r _ m. returns (omega (arith, m, lookup-some p.variable ref refs h found))))
  ])
  | inr constant ↦ rw constant (
      Returns->>= (expr_refs refs ps) _ (expr_refs-AreMatched refs ps h)
        (λ r _ m. returns (omega (arith, m))))
]

select_head-AreMatched :
    (vt : VarTracker) (ps : List PatternElem)
    → AreCleanRefs vt.first_ref
    → Returns Ignored AreMatched (select_head vt ps)
unfolding select_head all_marks marks
select_head-AreMatched vt [] h = returns refl
select_head-AreMatched vt (p ∷ ps) h = elim (Bool-cases (is_variable p)) [
  | inl variable ↦ rw variable (elim (Option-cases (lookup p.variable vt.first_ref)) [
    | inl unbound ↦ rw unbound (fails tt)
    | inr (ref, found) ↦ rw found (
        Returns->>= (select_head vt ps) _ (select_head-AreMatched vt ps h)
          (λ r _ m. returns (omega (arith, m, lookup-some p.variable ref vt.first_ref h found))))
  ])
  | inr constant ↦ rw constant (elim (Option-cases p.constant) [
    | inl blank ↦ rw blank (fails tt)
    | inr (c, given) ↦ rw given (
        Returns->>= (select_head vt ps) _ (select_head-AreMatched vt ps h)
          (λ r _ m. returns (omega (arith, m))))
  ])
]

-- No name in a clause has a question mark.
unfoldable pub IsCleanClause : Clause → Type 0
IsCleanClause (rule_application name args) = IsClean name
IsCleanClause (expr_clause fn args binding) = IsClean fn
IsCleanClause _ = Unit {0}

unfoldable pub AreCleanClauses : Clauses → Type 0
AreCleanClauses no_clauses = Unit {0}
AreCleanClauses (c ▹ cs) = IsCleanClause c × AreCleanClauses cs

IsBalanced-clause :
    (schema : SchemaLookup) (arities : Arities) (delta : Option Bytes) (c : Clause) (b : Body)
    → IsCleanClause c
    → IsBalanced b
    → Returns Ignored IsBalanced (add_clause schema arities delta c b)
unfolding add_clause IsCleanClause expr_clause_to_sql marks
IsBalanced-clause schema arities delta (pattern_clause e a v tx) b h k =
    IsBalanced-data_pattern schema e a v tx b k
IsBalanced-clause schema arities delta (rule_application name args) b h k =
    IsBalanced-application arities delta name args b h k
IsBalanced-clause schema arities delta (expr_clause fn args binding) b h k =
    elim (Result-cases (expr_refs b.tracker.first_ref args)) [
      | inl (e, failed) ↦ rw failed (fails tt)
      | inr ((refs, params), done) ↦
          let matched : AreMatched (refs, params) =
            Returns-ok (expr_refs-AreMatched b.tracker.first_ref args k.refs_clean) done in
          let sep : Bytes = text " " ++ fn ++ text " " in
          let clean : IsClean sep = simp marks-append (omega (arith, h)) in
          rw done (
            returns (record {
              where_marks =
                  all_marks-snoc b.where_parts (join sep refs)
                  ∙ omega (
                    arith,
                    k.where_marks,
                    marks-join sep refs clean,
                    matched,
                    length-append b.params params,
                  );
              join_marks = k.join_marks;
              from_marks = k.from_marks;
              refs_clean = k.refs_clean;
            }))
    ]
IsBalanced-clause schema arities delta (not_clause cs) b h k = fails tt
IsBalanced-clause schema arities delta (or_clause alternatives) b h k = fails tt

IsBalanced-clauses :
    (schema : SchemaLookup) (arities : Arities) (delta : Option Bytes) (cs : Clauses) (b : Body)
    → AreCleanClauses cs
    → IsBalanced b
    → Returns Ignored IsBalanced (add_clauses schema arities delta cs b)
unfolding add_clauses AreCleanClauses
IsBalanced-clauses schema arities delta no_clauses b h k = returns k
IsBalanced-clauses schema arities delta (c ▹ cs) b (h, hs) k =
    Returns->>= (add_clause schema arities delta c b) _
      (IsBalanced-clause schema arities delta c b h k)
      (λ b' _ k'. IsBalanced-clauses schema arities delta cs b' hs k')

marks-column_names : (i : ℕ) (ps : List PatternElem) → all_marks (column_names i ps) ≡ 0
unfolding column_names all_marks marks
marks-column_names i [] = refl
marks-column_names i (p ∷ ps) =
    omega (arith, marks-numbered (text "c") i refl, marks-column_names (i + 1) ps)

marks-optional_part :
    (keyword sep : Bytes) (ss : List Bytes)
    → IsClean keyword
    → IsClean sep
    → marks (optional_part keyword sep ss) ≡ all_marks ss
unfolding marks all_marks
marks-optional_part keyword sep [] h k = refl
marks-optional_part keyword sep (s ∷ ss) h k =
    marks-append keyword (join sep (s ∷ ss)) ∙ omega (arith, h, marks-join sep (s ∷ ss) k)

abbrev pub IsCleanRule : Rule → Type 0
IsCleanRule r = IsClean r.name × AreCleanClauses r.body

marks-insert_text :
    (r : Rule) (cols from where_parts : List Bytes)
    → IsClean r.name
    → all_marks from ≡ 0
    → marks (insert_text r cols from where_parts) ≡ all_marks cols + all_marks where_parts
unfolding insert_text marks
marks-insert_text r cols from where_parts h k = simp marks-append (
    omega (
      arith,
      h,
      k,
      marks-join (text ", ") (column_names 0 r.head) refl,
      marks-column_names 0 r.head,
      marks-join (text ", ") cols refl,
      marks-optional_part (text "\nFROM ") (text ", ") from refl refl,
      marks-optional_part (text "\nWHERE ") (text " AND ") where_parts refl refl,
    ))

empty_body-IsBalanced : IsBalanced empty_body
unfolding all_marks
empty_body-IsBalanced = record {
  where_marks = refl;
  join_marks = refl;
  from_marks = refl;
  refs_clean = tt;
}

pub rule_body_to_sql-Matches :
    (schema : SchemaLookup) (arities : Arities) (delta : Option Bytes) (r : Rule)
    → IsCleanRule r
    → Returns Ignored Matches (rule_body_to_sql schema arities delta r)
unfolding rule_body_to_sql
rule_body_to_sql-Matches schema arities delta r (name, clauses) =
    Returns->>= (add_clauses schema arities delta r.body empty_body) _
      (IsBalanced-clauses schema arities delta r.body empty_body clauses empty_body-IsBalanced)
      (λ b _ k.
        Returns->>= (select_head b.tracker r.head) _
          (select_head-AreMatched b.tracker r.head k.refs_clean)
          (λ (cols, params) _ m. returns (
            marks-insert_text r cols b.from_parts (b.where_parts ++ b.tracker.joins) name
              k.from_marks
            ∙ omega (
              arith,
              m,
              k.where_marks,
              k.join_marks,
              all_marks-append b.where_parts b.tracker.joins,
              length-append b.params params,
            ))))
