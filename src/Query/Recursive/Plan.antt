-- ===== src/Query/Recursive/Plan.antt =====
-- query/recursive.go: `PlanRecursive`. The order in which Go walks its maps is one that it may take.
pub mod Safe
pub mod Placeholders
pub mod Tests
use litelog.Prelude.{
  ℕ, zero, suc, ◌+◌, Bytes, Bool, false, ◌||◌, Option, none, some, List, [], ◌∷◌, ◌++◌, ◌==◌,
  bytes_eq, text, if◌then◌else◌, any, length, lookup, insert, bytes_key,
}
use litelog.Result.{Result, ok, err, ◌>>=◌, no_rules, inconsistent_arity}
use litelog.Query.Ast.{rule_application, Clauses, no_clauses, ◌▹◌, Rule, ParsedQuery}
use litelog.Query.Algebrize.{SchemaLookup}
use litelog.Query.Parser.{parse_rules, parse_query}
use litelog.Query.Translate.{join, SqlQuery}
use litelog.Query.Recursive.{numbered, Arities, rule_body_to_sql}

pub record RecursivePlan : Type 0 where
  pub setup_sql : List Bytes
  pub base_sql : List SqlQuery
  pub delta_sql : List SqlQuery
  pub cleanup_sql : List Bytes
  pub result_table : Bytes
  pub columns : List Bytes

-- A set of names.
abbrev pub is_member : Bytes → List Bytes → Bool
is_member name names = any (λ n. bytes_eq n name) names

pub add_name : Bytes → List Bytes → List Bytes
add_name name names = if is_member name names then names else names ++ name ∷ []

pub rule_names : List Rule → List Bytes
rule_names [] = []
rule_names (r ∷ rs) = r.name ∷ rule_names rs

pub rule_arities : Arities → List Rule → Result Arities
rule_arities arities [] = ok arities
rule_arities arities (r ∷ rs) = elim (lookup r.name arities) [
  | none ↦ rule_arities (insert r.name (length r.head) arities) rs
  | some prev ↦
      let rest = rule_arities arities rs in
      if prev == length r.head then rest else err inconsistent_arity
]

pub is_recursive : List Bytes → Clauses → Bool
is_recursive names no_clauses = false
is_recursive names (rule_application name args ▹ cs) = is_member name names || is_recursive names cs
is_recursive names (c ▹ cs) = is_recursive names cs

pub rule_is_recursive : List Bytes → Rule → Bool
rule_is_recursive names r = is_recursive names r.body

pub body_refs : List Bytes → List Bytes → Clauses → List Bytes
body_refs names refs no_clauses = refs
body_refs names refs (rule_application name args ▹ cs) =
    body_refs names (if is_member name names then add_name name refs else refs) cs
body_refs names refs (c ▹ cs) = body_refs names refs cs

pub body_rule_refs : List Bytes → Rule → List Bytes
body_rule_refs names r = body_refs names [] r.body

-- The columns c0, c1 and so on, from the i-th on.
pub plan_columns : ℕ → ℕ → List Bytes
plan_columns i zero = []
plan_columns i (suc n) = numbered (text "c") i ∷ plan_columns (i + 1) n

abbrev pub create_table : Bytes → Bytes → ℕ → Bytes
create_table prefix name arity =
    let cols : Bytes = join (text ", ") (plan_columns 0 arity) in
    text "CREATE TEMP TABLE IF NOT EXISTS "
    ++ prefix
    ++ name
    ++ text " ("
    ++ cols
    ++ text ", PRIMARY KEY("
    ++ cols
    ++ text ")) WITHOUT ROWID"

pub setup_of : Arities → List Bytes
setup_of [] = []
setup_of ((name, arity) ∷ rest) =
    create_table (text "_rule_") name arity
    ∷ create_table (text "_delta_") name arity
    ∷ setup_of rest

abbrev pub plain : Bytes → SqlQuery
plain sql = record { sql = sql; params = [] }

pub seeds_of : Arities → List SqlQuery
seeds_of [] = []
seeds_of ((name, arity) ∷ rest) =
    plain (text "INSERT OR IGNORE INTO _delta_" ++ name ++ text " SELECT * FROM _rule_" ++ name)
    ∷ seeds_of rest

pub clears_of : Arities → List SqlQuery
clears_of [] = []
clears_of ((name, arity) ∷ rest) = plain (text "DELETE FROM _delta_" ++ name) ∷ clears_of rest

pub cleanup_of : Arities → List Bytes
cleanup_of [] = []
cleanup_of ((name, arity) ∷ rest) =
    (text "DROP TABLE IF EXISTS _rule_" ++ name)
    ∷ (text "DROP TABLE IF EXISTS _delta_" ++ name)
    ∷ cleanup_of rest

-- The rules that refer to no rule.
pub base_sql_of : SchemaLookup → Arities → List Bytes → List Rule → Result (List SqlQuery)
base_sql_of schema arities names [] = ok []
base_sql_of schema arities names (r ∷ rs) =
    let rest = base_sql_of schema arities names rs in
    if rule_is_recursive names r
    then rest
    else rule_body_to_sql schema arities none r >>= λ sq. rest >>= λ sqs. ok (sq ∷ sqs)

-- A variant of a recursive rule for each rule that it refers to.
pub variants_of : SchemaLookup → Arities → Rule → List Bytes → Result (List SqlQuery)
variants_of schema arities r [] = ok []
variants_of schema arities r (delta ∷ deltas) =
    rule_body_to_sql schema arities (some delta) r >>= λ sq.
    variants_of schema arities r deltas >>= λ sqs. ok (sq ∷ sqs)

pub delta_sql_of : SchemaLookup → Arities → List Bytes → List Rule → Result (List SqlQuery)
delta_sql_of schema arities names [] = ok []
delta_sql_of schema arities names (r ∷ rs) =
    let rest = delta_sql_of schema arities names rs in
    if rule_is_recursive names r
    then (variants_of schema arities r (body_rule_refs names r) >>= λ sqs.
        rest >>= λ others. ok (sqs ++ others))
    else rest

abbrev pub arity_in : Bytes → Arities → ℕ
arity_in name arities = elim (lookup name arities) [ none ↦ 0 | some arity ↦ arity ]

pub plan_recursive : List Rule → SchemaLookup → Result RecursivePlan
plan_recursive [] schema = err no_rules
plan_recursive (r ∷ rs) schema =
    let rules : List Rule = r ∷ rs in
    let names : List Bytes = rule_names rules in
    rule_arities [] rules >>= λ arities. base_sql_of schema arities names rules >>= λ base.
    delta_sql_of schema arities names rules >>= λ delta. ok (record {
      setup_sql = setup_of arities;
      base_sql = base ++ seeds_of arities;
      delta_sql = clears_of arities ++ delta;
      cleanup_sql = cleanup_of arities;
      result_table = text "_rule_" ++ r.name;
      columns = plan_columns 0 (arity_in r.name arities);
    })

module _ (parse_float : Bytes → Option ℕ) where
  pub parse_rules_and_query : Bytes → Bytes → Result (List Rule × ParsedQuery)
  parse_rules_and_query rules_input query_input = parse_rules parse_float rules_input >>= λ rules.
      parse_query parse_float query_input >>= λ q. ok (rules, q)
