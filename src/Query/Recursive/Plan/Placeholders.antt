-- ===== src/Query/Recursive/Plan/Placeholders.antt =====
-- query/recursive.go: the placeholders of a plan's statements.
use litelog.Prelude.{
  ℕ, ◌==◌, bytes_eq, bytes_key, insert, lookup, Option-cases, All, All-append, ◌≡◌, inl, inr, Bytes,
  some, none, List, [], ◌∷◌, length, Bool-cases, arith,
}
use litelog.Result.{ok, Returns, returns, fails, Returns->>=, Returns-ok}
use litelog.Query.Ast.{Rule}
use litelog.Query.Algebrize.{SchemaLookup}
use litelog.Query.Translate.Marks.{marks, marks-append, IsClean, Ignored}
use litelog.Query.Translate.Statement.{Matches}
use litelog.Query.Recursive.{Arities, rule_body_to_sql}
use litelog.Query.Recursive.Marks.Whole.{IsCleanRule, rule_body_to_sql-Matches}
use litelog.Query.Recursive.Plan.{
  RecursivePlan, rule_names, rule_arities, rule_is_recursive, body_rule_refs, base_sql_of,
  variants_of, delta_sql_of, plan_recursive, seeds_of, clears_of,
}

base_sql_of-Match :
    (schema : SchemaLookup) (arities : Arities) (names : List Bytes) (rules : List Rule)
    → All IsCleanRule rules
    → Returns Ignored (All Matches) (base_sql_of schema arities names rules)
unfolding base_sql_of
base_sql_of-Match schema arities names [] h = returns tt
base_sql_of-Match schema arities names (r ∷ rs) (h, hs) =
    elim (Bool-cases (rule_is_recursive names r)) [
      | inl recursive ↦ rw recursive (base_sql_of-Match schema arities names rs hs)
      | inr base ↦ rw base (
          Returns->>= (rule_body_to_sql schema arities none r) _
            (rule_body_to_sql-Matches schema arities none r h)
            (λ sq _ m.
              Returns->>= (base_sql_of schema arities names rs) _
                (base_sql_of-Match schema arities names rs hs) (λ sqs _ ms. returns (m, ms))))
    ]

variants_of-Match :
    (schema : SchemaLookup) (arities : Arities) (r : Rule) (deltas : List Bytes)
    → IsCleanRule r
    → Returns Ignored (All Matches) (variants_of schema arities r deltas)
unfolding variants_of
variants_of-Match schema arities r [] h = returns tt
variants_of-Match schema arities r (delta ∷ deltas) h =
    Returns->>= (rule_body_to_sql schema arities (some delta) r) _
      (rule_body_to_sql-Matches schema arities (some delta) r h)
      (λ sq _ m.
        Returns->>= (variants_of schema arities r deltas) _
          (variants_of-Match schema arities r deltas h) (λ sqs _ ms. returns (m, ms)))

delta_sql_of-Match :
    (schema : SchemaLookup) (arities : Arities) (names : List Bytes) (rules : List Rule)
    → All IsCleanRule rules
    → Returns Ignored (All Matches) (delta_sql_of schema arities names rules)
unfolding delta_sql_of
delta_sql_of-Match schema arities names [] h = returns tt
delta_sql_of-Match schema arities names (r ∷ rs) (h, hs) =
    elim (Bool-cases (rule_is_recursive names r)) [
      | inl recursive ↦ rw recursive (
          Returns->>= (variants_of schema arities r (body_rule_refs names r)) _
            (variants_of-Match schema arities r (body_rule_refs names r) h)
            (λ sqs _ ms.
              Returns->>= (delta_sql_of schema arities names rs) _
                (delta_sql_of-Match schema arities names rs hs)
                (λ others _ ns. returns (All-append Matches sqs others ms ns))))
      | inr base ↦ rw base (delta_sql_of-Match schema arities names rs hs)
    ]

abbrev AreCleanNames : Arities → Type 0
AreCleanNames arities = All (λ entry. IsClean entry.0) arities

insert-clean :
    (name : Bytes) (n : ℕ) (arities : Arities)
    → IsClean name
    → AreCleanNames arities
    → AreCleanNames (insert name n arities)
unfolding insert
insert-clean name n [] h k = (h, tt)
insert-clean name n ((key, m) ∷ arities) h (k, ks) = elim (Bool-cases (bytes_eq key name)) [
  | inl same ↦ rw same (h, ks)
  | inr differs ↦ rw differs (k, insert-clean name n arities h ks)
]

rule_arities-clean :
    (arities : Arities) (rules : List Rule)
    → AreCleanNames arities
    → All IsCleanRule rules
    → Returns Ignored AreCleanNames (rule_arities arities rules)
unfolding rule_arities
rule_arities-clean arities [] h k = returns h
rule_arities-clean arities (r ∷ rs) h (k, ks) = elim (Option-cases (lookup r.name arities)) [
  | inl new ↦
      rw (rule_arities, new)
        (rule_arities-clean (insert r.name (length r.head) arities) rs
          (insert-clean r.name (length r.head) arities k.0 h) ks)
  | inr (prev, old) ↦
      rw (rule_arities, old)
        (elim (Bool-cases (prev == length r.head)) [
          | inl same ↦ rw same (rule_arities-clean arities rs h ks)
          | inr differs ↦ rw differs (fails tt)
        ])
]

seeds_of-Match : (arities : Arities) → AreCleanNames arities → All Matches (seeds_of arities)
unfolding seeds_of marks
seeds_of-Match [] h = tt
seeds_of-Match ((name, n) ∷ arities) (h, hs) =
    (simp marks-append (omega (arith, h)), seeds_of-Match arities hs)

clears_of-Match : (arities : Arities) → AreCleanNames arities → All Matches (clears_of arities)
unfolding clears_of marks
clears_of-Match [] h = tt
clears_of-Match ((name, n) ∷ arities) (h, hs) =
    (simp marks-append (omega (arith, h)), clears_of-Match arities hs)

abbrev PlanMatches : RecursivePlan → Type 0
PlanMatches plan = All Matches plan.base_sql × All Matches plan.delta_sql

planned :
    (rules : List Rule) (schema : SchemaLookup)
    → All IsCleanRule rules
    → Returns Ignored PlanMatches (plan_recursive rules schema)
unfolding plan_recursive
planned [] schema h = fails tt
planned (r ∷ rs) schema h =
    let rules : List Rule = r ∷ rs in
    Returns->>= (rule_arities [] rules) _ (rule_arities-clean [] rules tt h) (λ arities _ clean.
      Returns->>= (base_sql_of schema arities (rule_names rules) rules) _
        (base_sql_of-Match schema arities (rule_names rules) rules h)
        (λ base _ b.
          Returns->>= (delta_sql_of schema arities (rule_names rules) rules) _
            (delta_sql_of-Match schema arities (rule_names rules) rules h)
            (λ delta _ d. returns (
              All-append Matches base (seeds_of arities) b (seeds_of-Match arities clean),
              All-append Matches (clears_of arities) delta (clears_of-Match arities clean) d,
            ))))

-- Every statement of a plan, for the base as for the steps, has exactly as many placeholders as
-- parameters, if no name of the rules and of the expressions in them has a question mark in it.
pub plan_recursive-Match :
    (rules : List Rule) (schema : SchemaLookup) (plan : RecursivePlan)
    → All IsCleanRule rules
    → plan_recursive rules schema ≡ ok plan
    → All Matches plan.base_sql × All Matches plan.delta_sql
plan_recursive-Match rules schema plan h e = Returns-ok (planned rules schema h) e
