-- ===== src/Query/Recursive/Plan/Safe.antt =====
-- query/recursive.go: the rules for which there is a plan.
use litelog.Prelude.{
  if◌then◌else◌, any, ◌⊎◌, All, ℕ, ◌≡◌, refl, sym, ap, ◌∙◌, inl, inr, Bytes, Bool, true, false, not,
  ◌&&◌, none, some, List, [], ◌∷◌, ◌==◌, bytes_eq, length, lookup, insert, lookup-insert,
  lookup-insert_self, bytes_eq_iff, bytes_key, Bool-cases, Option-cases, ==→eq, arith,
}
use litelog.Result.{
  ok, Returns, returns, fails, Returns->>=, Returns-ok, Returns-mono, Result-cases,
}
use litelog.Query.Ast.{
  pattern_clause, expr_clause, not_clause, or_clause, rule_application, Clauses, no_clauses, ◌▹◌,
  Rule,
}
use litelog.Query.Algebrize.{SchemaLookup}
use litelog.Query.Translate.Marks.{Ignored}
use litelog.Query.Recursive.{Arities, rule_body_to_sql}
use litelog.Query.Recursive.Bound.{IsSafe, rule_body_to_sql-IsSafe}
use litelog.Query.Recursive.Plan.{
  RecursivePlan, is_member, add_name, rule_names, rule_arities, is_recursive, rule_is_recursive,
  body_refs, body_rule_refs, base_sql_of, variants_of, delta_sql_of, plan_recursive,
}

abbrev is_nil : List Bytes → Bool
is_nil [] = true
is_nil (x ∷ xs) = false

is_nil-add_name : (name : Bytes) (refs : List Bytes) → is_nil (add_name name refs) ≡ false
unfolding add_name any
is_nil-add_name name [] = refl
is_nil-add_name name (x ∷ refs) = elim (Bool-cases (is_member name (x ∷ refs))) [
  | inl old ↦ rw old refl
  | inr new ↦ rw new refl
]

-- The references that are gathered are there exactly if the rule is recursive.
is_nil-body_refs :
    (names refs : List Bytes) (cs : Clauses)
    → is_nil (body_refs names refs cs) ≡ (is_nil refs && not (is_recursive names cs))
unfolding body_refs is_recursive
is_nil-body_refs names refs no_clauses = ground arith
is_nil-body_refs names refs (rule_application name args ▹ cs) =
    elim (Bool-cases (is_member name names)) [
      | inl member ↦ rw member (
          ground (arith, is_nil-body_refs names (add_name name refs) cs, is_nil-add_name name refs))
      | inr stranger ↦ rw stranger (is_nil-body_refs names refs cs)
    ]
is_nil-body_refs names refs (pattern_clause e a v tx ▹ cs) = is_nil-body_refs names refs cs
is_nil-body_refs names refs (expr_clause fn args binding ▹ cs) = is_nil-body_refs names refs cs
is_nil-body_refs names refs (not_clause inner ▹ cs) = is_nil-body_refs names refs cs
is_nil-body_refs names refs (or_clause alternatives ▹ cs) = is_nil-body_refs names refs cs

abbrev SafeIf : Bool → List Bytes → Arities → Rule → Type 0
SafeIf b names arities r = rule_is_recursive names r ≡ b → IsSafe arities r

base_sql_of-Safe :
    (schema : SchemaLookup) (arities : Arities) (names : List Bytes) (rules : List Rule)
    → Returns Ignored
        (λ sqs. All (SafeIf false names arities) rules)
        (base_sql_of schema arities names rules)
unfolding base_sql_of
base_sql_of-Safe schema arities names [] = returns tt
base_sql_of-Safe schema arities names (r ∷ rs) = elim (Bool-cases (rule_is_recursive names r)) [
  | inl recursive ↦ rw recursive (
      Returns-mono (base_sql_of schema arities names rs) (λ sqs h. ((λ absurd. cc), h))
        (base_sql_of-Safe schema arities names rs))
  | inr base ↦ rw base (
      Returns->>= (rule_body_to_sql schema arities none r) _
        (rule_body_to_sql-IsSafe schema arities none r)
        (λ sq _ safe.
          Returns->>= (base_sql_of schema arities names rs) _
            (base_sql_of-Safe schema arities names rs) (λ sqs _ h. returns ((λ _. safe), h))))
]

variants_of-Safe :
    (schema : SchemaLookup) (arities : Arities) (r : Rule) (deltas : List Bytes)
    → is_nil deltas ≡ false
    → Returns Ignored (λ sqs. IsSafe arities r) (variants_of schema arities r deltas)
unfolding variants_of
variants_of-Safe schema arities r [] h = cc
variants_of-Safe schema arities r (delta ∷ deltas) h =
    Returns->>= (rule_body_to_sql schema arities (some delta) r) _
      (rule_body_to_sql-IsSafe schema arities (some delta) r)
      (λ sq _ safe. elim (Result-cases (variants_of schema arities r deltas)) [
        | inl (e, failed) ↦ rw failed (fails tt)
        | inr (sqs, done) ↦ rw done (returns safe)
      ])

delta_sql_of-Safe :
    (schema : SchemaLookup) (arities : Arities) (names : List Bytes) (rules : List Rule)
    → Returns Ignored
        (λ sqs. All (SafeIf true names arities) rules)
        (delta_sql_of schema arities names rules)
unfolding delta_sql_of body_rule_refs rule_is_recursive
delta_sql_of-Safe schema arities names [] = returns tt
delta_sql_of-Safe schema arities names (r ∷ rs) = elim (Bool-cases (is_recursive names r.body)) [
  | inl recursive ↦ rw recursive (
      Returns->>= (variants_of schema arities r (body_refs names [] r.body)) _
        (variants_of-Safe schema arities r (body_refs names [] r.body)
          (is_nil-body_refs names [] r.body ∙ ap not recursive))
        (λ sqs _ safe.
          Returns->>= (delta_sql_of schema arities names rs) _
            (delta_sql_of-Safe schema arities names rs) (λ others _ h. returns ((λ _. safe), h))))
  | inr base ↦ rw base (
      Returns-mono (delta_sql_of schema arities names rs) (λ sqs h. ((λ absurd. cc), h))
        (delta_sql_of-Safe schema arities names rs))
]

both-Safe :
    (names : List Bytes) (arities : Arities) (rules : List Rule)
    → All (SafeIf false names arities) rules
    → All (SafeIf true names arities) rules
    → All (IsSafe arities) rules
both-Safe names arities [] h k = tt
both-Safe names arities (r ∷ rs) (h, hs) (k, ks) = (
  elim (Bool-cases (rule_is_recursive names r)) [ inl recursive ↦ k recursive | inr base ↦ h base ],
  both-Safe names arities rs hs ks,
)

-- The arities keep what they had, and have each rule's head.
abbrev Keeps : Arities → Arities → Type 0
Keeps before after =
    (name : Bytes) (arity : ℕ) → lookup name before ≡ some arity → lookup name after ≡ some arity

abbrev pub HasArity : Arities → Rule → Type 0
HasArity arities r = lookup r.name arities ≡ some (length r.head)

Keeps-insert :
    (name : Bytes) (arity : ℕ) (arities : Arities)
    → lookup name arities ≡ none
    → Keeps arities (insert name arity arities)
Keeps-insert name arity arities new asked n h =
    lookup-insert name asked arity arities ∙ elim (Bool-cases (bytes_eq name asked)) [
      | inl same ↦
          let q : name ≡ asked = (bytes_eq_iff name asked).0 same in
          let missing : lookup asked arities ≡ none = ap (λ x. lookup x arities) (sym q) ∙ new in cc
      | inr differs ↦ rw differs h
    ]

-- Each name comes from before, or is that of a rule.
abbrev Comes : Arities → List Bytes → Arities → Type 0
Comes before names after =
    (name : Bytes) (arity : ℕ)
    → lookup name after ≡ some arity
    → (lookup name before ≡ some arity) ⊎ (is_member name names ≡ true)

Comes-insert :
    (new : Bytes) (n : ℕ) (before after : Arities) (names : List Bytes)
    → Comes (insert new n before) names after
    → Comes before (new ∷ names) after
unfolding any
Comes-insert new n before after names h name arity e = elim (Bool-cases (bytes_eq new name)) [
  | inl same ↦ inr (rw same refl)
  | inr differs ↦ elim (h name arity e) [
    | inl old ↦
        let written : lookup name (insert new n before) ≡ lookup name before =
          lookup-insert new name n before
          ∙ ap (λ c. if c then some n else lookup name before) differs in
        inl (sym written ∙ old)
    | inr member ↦ inr (rw (differs, member) refl)
  ]
]

Comes-mono :
    (new : Bytes) (before after : Arities) (names : List Bytes)
    → Comes before names after
    → Comes before (new ∷ names) after
unfolding any
Comes-mono new before after names h name arity e = elim (h name arity e) [
  | inl old ↦ inl old
  | inr member ↦ inr (ground (arith, member))
]

abbrev AfterArities : Arities → List Rule → Arities → Type 0
AfterArities before rules after =
    Keeps before after × Comes before (rule_names rules) after × All (HasArity after) rules

rule_arities-After :
    (arities : Arities) (rules : List Rule)
    → Returns Ignored (AfterArities arities rules) (rule_arities arities rules)
unfolding rule_arities rule_names
rule_arities-After arities [] = returns ((λ name arity h. h), (λ name arity h. inl h), tt)
rule_arities-After arities (r ∷ rs) = elim (Option-cases (lookup r.name arities)) [
  | inl new ↦
      rw (rule_arities, new)
        (let more : Arities = insert r.name (length r.head) arities in
          Returns-mono (rule_arities more rs)
            (λ after (keeps, comes, all). (
              (λ name arity h.
                  keeps name arity (Keeps-insert r.name (length r.head) arities new name arity h)),
              Comes-insert r.name (length r.head) arities after (rule_names rs) comes,
              (
                keeps r.name (length r.head) (lookup-insert_self r.name (length r.head) arities),
                all,
              ),
            ))
            (rule_arities-After more rs))
  | inr (prev, old) ↦
      rw (rule_arities, old)
        (elim (Bool-cases (prev == length r.head)) [
          | inl same ↦ rw same (
              Returns-mono (rule_arities arities rs)
                (λ after (keeps, comes, all). (
                  keeps,
                  Comes-mono r.name arities after (rule_names rs) comes,
                  (
                    keeps r.name (length r.head) (old ∙ ap some (==→eq prev (length r.head) same)),
                    all,
                  ),
                ))
                (rule_arities-After arities rs))
          | inr differs ↦ rw differs (fails tt)
        ])
]

-- One number of arguments for each of the rules' names, with which its heads and all applications agree; and each
-- head is bound by its body.
abbrev pub ArePlanned : List Rule → Type 0
ArePlanned rules =
    (arities : Arities) × ((name : Bytes) (arity : ℕ)
      → lookup name arities ≡ some arity
      → is_member name (rule_names rules) ≡ true)
    × All (HasArity arities) rules
    × All (IsSafe arities) rules

members :
    (after : Arities) (rules : List Rule)
    → Comes [] (rule_names rules) after
    → (name : Bytes) (arity : ℕ) → lookup name after ≡ some arity
    → is_member name (rule_names rules) ≡ true
unfolding lookup
members after rules comes name arity e = elim (comes name arity e) [
  | inl nowhere ↦ cc
  | inr member ↦ member
]

planned :
    (rules : List Rule) (schema : SchemaLookup)
    → Returns Ignored (λ plan. ArePlanned rules) (plan_recursive rules schema)
unfolding plan_recursive
planned [] schema = fails tt
planned (r ∷ rs) schema =
    let rules : List Rule = r ∷ rs in
    Returns->>= (rule_arities [] rules) _ (rule_arities-After [] rules)
      (λ arities _ (_, comes, has).
        Returns->>= (base_sql_of schema arities (rule_names rules) rules) _
          (base_sql_of-Safe schema arities (rule_names rules) rules)
          (λ base _ h.
            Returns->>= (delta_sql_of schema arities (rule_names rules) rules) _
              (delta_sql_of-Safe schema arities (rule_names rules) rules)
              (λ delta _ k. returns (
                arities,
                members arities rules comes,
                has,
                both-Safe (rule_names rules) arities rules h k,
              ))))

-- Where there is a plan, the heads of the rules with one name have one number of elements, each
-- application in a body names one of the rules and has as many arguments, and each variable of a
-- head is bound by a pattern or an application of its body.
pub plan_recursive-ArePlanned :
    (rules : List Rule) (schema : SchemaLookup) (plan : RecursivePlan)
    → plan_recursive rules schema ≡ ok plan
    → ArePlanned rules
plan_recursive-ArePlanned rules schema plan e = Returns-ok (planned rules schema) e
