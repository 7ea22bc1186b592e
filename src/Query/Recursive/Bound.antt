-- ===== src/Query/Recursive/Bound.antt =====
-- query/recursive.go: the variables that a body binds, and the applications that it may have.
use litelog.Prelude.{
  All-mono, All, ℕ, ◌+◌, ◌≡◌, refl, sym, ◌∙◌, ap, inl, inr, Bytes, Bool, true, false, ◌&&◌, ◌||◌,
  Option, none, some, List, [], ◌∷◌, ◌==◌, bytes_eq, bytes_eq_iff, text, length, lookup,
  lookup-insert, bytes_key, Bool-cases, Option-cases, ==→eq, arith,
}
use litelog.Result.{Returns-ok, Returns, returns, fails, Returns->>=, Returns-mono, Result-cases}
use litelog.Types.{GoValue, string}
use litelog.Query.Ast.{
  PatternElem, Clause, pattern_clause, expr_clause, not_clause, or_clause, rule_application,
  Clauses, no_clauses, ◌▹◌, Rule,
}
use litelog.Query.Algebrize.{SchemaLookup, is_variable}
use litelog.Query.Translate.{ref_of}
use litelog.Query.Translate.Marks.{Ignored}
use litelog.Query.Recursive.{
  numbered, VarTracker, record_ref, Body, empty_body, bind_constant, bind_elem, bind_named,
  bind_attribute, from_table, add_data_pattern, bind_args, Arities, rule_table, add_application,
  expr_clause_to_sql, add_clause, add_clauses, select_head, rule_body_to_sql,
}

abbrev pub is_some {ℓ} : {A : Type ℓ} → Option A → Bool
is_some none = false
is_some (some a) = true

abbrev pub names : Bytes → PatternElem → Bool
names v p = is_variable p && bytes_eq p.variable v

pub any_names : Bytes → List PatternElem → Bool
any_names v [] = false
any_names v (p ∷ ps) = names v p || any_names v ps

-- The element of the attribute binds only where it has no constant.
abbrev pub attribute_names : Bytes → PatternElem → Bool
attribute_names v p = elim p.constant [ none ↦ names v p | some c ↦ false ]

-- The variables that a clause binds: those of patterns and of applications of rules.
pub clause_binds : Bytes → Clause → Bool
clause_binds v (pattern_clause e a x tx) =
    attribute_names v a || names v e || names v x || names v tx
clause_binds v (rule_application name args) = any_names v args
clause_binds v _ = false

pub binds : Bytes → Clauses → Bool
binds v no_clauses = false
binds v (c ▹ cs) = clause_binds v c || binds v cs

abbrev has : Bytes → Body → Bool
has v b = is_some (lookup v b.tracker.first_ref)

has_ref-record_ref :
    (v w col : Bytes) (vt : VarTracker)
    → is_some (lookup v (record_ref w col vt).first_ref)
      ≡ (is_some (lookup v vt.first_ref) || bytes_eq w v)
unfolding record_ref
has_ref-record_ref v w col vt = elim (Option-cases (lookup w vt.first_ref)) [
  | inl new ↦ rw (record_ref, new, lookup-insert w v col vt.first_ref) (ground arith)
  | inr (prev, old) ↦
      rw (record_ref, old)
        (elim (Bool-cases (bytes_eq w v)) [
          | inl same ↦
              let q : w ≡ v = (bytes_eq_iff w v).0 same in
              let known : is_some (lookup v vt.first_ref) ≡ true =
                ap (λ x. is_some (lookup x vt.first_ref)) (sym q) ∙ ap is_some old in
              rw known refl
          | inr differs ↦ rw differs (ground arith)
        ])
]

has-bind_constant :
    (v : Bytes) (c : Option GoValue) (col : Bytes) (b : Body)
    → has v (bind_constant col c b) ≡ (has v b || false)
has-bind_constant v none col b = ground arith
has-bind_constant v (some c) col b = ground arith

has-bind_elem :
    (v : Bytes) (p : PatternElem) (col : Bytes) (b : Body)
    → has v (bind_elem p col b) ≡ (has v b || names v p)
unfolding bind_elem
has-bind_elem v p col b = elim (Bool-cases (is_variable p)) [
  | inl variable ↦ rw variable (has_ref-record_ref v p.variable col b.tracker)
  | inr constant ↦ rw constant (has-bind_constant v p.constant col b)
]

-- A body after a step, which has bound what it says beside what was bound.
abbrev Adds : Bytes → Bool → Body → Body → Type 0
Adds v more b b' = has v b' ≡ (has v b || more)

bind_named-Adds :
    (schema : SchemaLookup) (v ident col : Bytes) (b : Body)
    → Returns Ignored (Adds v false b) (bind_named schema ident col b)
bind_named-Adds schema v ident col b = elim (Option-cases (schema ident)) [
  | inl unknown ↦ rw (bind_named, unknown) (fails tt)
  | inr (info, found) ↦ rw (bind_named, found) (returns (ground arith))
]

bind_attribute-fields :
    (schema : SchemaLookup) (v w : Bytes) (c : Option GoValue) (blank : Bool) (col : Bytes)
    (b : Body)
    → let p : PatternElem = record { variable = w; constant = c; blank = blank } in
      Returns Ignored (Adds v (attribute_names v p) b) (bind_attribute schema p col b)
unfolding bind_attribute
bind_attribute-fields schema v [] none blank col b = returns (ground arith)
bind_attribute-fields schema v (x ∷ w) none blank col b =
    returns (has_ref-record_ref v (x ∷ w) col b.tracker)
bind_attribute-fields schema v w (some (string ident)) blank col b =
    bind_named-Adds schema v ident col b
bind_attribute-fields schema v w (some c) blank col b = fails tt

bind_attribute-Adds :
    (schema : SchemaLookup) (v : Bytes) (p : PatternElem) (col : Bytes) (b : Body)
    → Returns Ignored (Adds v (attribute_names v p) b) (bind_attribute schema p col b)
bind_attribute-Adds schema v p col b =
    bind_attribute-fields schema v p.variable p.constant p.blank col b

add_data_pattern-Adds :
    (schema : SchemaLookup) (v : Bytes) (e a x tx : PatternElem) (b : Body)
    → Returns Ignored
        (Adds v (clause_binds v (pattern_clause e a x tx)) b)
        (add_data_pattern schema e a x tx b)
unfolding add_data_pattern clause_binds
add_data_pattern-Adds schema v e a x tx b =
    let alias : Bytes = numbered (text "d") b.alias_idx in
    let b₀ : Body = from_table (text "current_datoms") alias b in
    Returns->>= (bind_attribute schema a (ref_of alias (text "a")) b₀) _
      (bind_attribute-Adds schema v a (ref_of alias (text "a")) b₀)
      (λ b₁ _ h.
        let b₂ : Body = bind_elem e (ref_of alias (text "e")) b₁ in
        let b₃ : Body = bind_elem x (ref_of alias (text "v")) b₂ in
        returns (
          ground (
            arith,
            h,
            has-bind_elem v e (ref_of alias (text "e")) b₁,
            has-bind_elem v x (ref_of alias (text "v")) b₂,
            has-bind_elem v tx (ref_of alias (text "tx")) b₃,
          )))

bind_args-Adds :
    (v alias : Bytes) (i : ℕ) (ps : List PatternElem) (b : Body)
    → Adds v (any_names v ps) b (bind_args alias i ps b)
unfolding bind_args any_names
bind_args-Adds v alias i [] b = ground arith
bind_args-Adds v alias i (p ∷ ps) b =
    let col : Bytes = ref_of alias (numbered (text "c") i) in
    ground (arith, bind_args-Adds v alias (i + 1) ps (bind_elem p col b), has-bind_elem v p col b)

-- An application of a rule with as many arguments as it has.
pub FitsCall : Arities → Clause → Type 0
FitsCall arities (rule_application name args) = lookup name arities ≡ some (length args)
FitsCall arities _ = Unit {0}

pub FitsCalls : Arities → Clauses → Type 0
FitsCalls arities no_clauses = Unit {0}
FitsCalls arities (c ▹ cs) = FitsCall arities c × FitsCalls arities cs

abbrev AfterClause : Bytes → Arities → Clause → Body → Body → Type 0
AfterClause v arities c b b' = Adds v (clause_binds v c) b b' × FitsCall arities c

add_application-After :
    (arities : Arities) (delta : Option Bytes) (v name : Bytes) (args : List PatternElem) (b : Body)
    → Returns Ignored
        (AfterClause v arities (rule_application name args) b)
        (add_application arities delta name args b)
unfolding add_application clause_binds FitsCall
add_application-After arities delta v name args b = elim (Option-cases (lookup name arities)) [
  | inl unknown ↦ rw (add_application, unknown) (fails tt)
  | inr (arity, known) ↦
      rw (add_application, known)
        (elim (Bool-cases (length args == arity)) [
          | inl fits ↦
              let alias : Bytes = numbered (text "r") b.alias_idx in
              let b₀ : Body = from_table (rule_table delta name) alias b in
              rw fits (
                returns (
                  bind_args-Adds v alias 0 args b₀,
                  known ∙ ap some (sym (==→eq (length args) arity fits)),
                ))
          | inr wrong ↦ rw wrong (fails tt)
        ])
]

add_clause-After :
    (schema : SchemaLookup) (arities : Arities) (delta : Option Bytes) (v : Bytes) (c : Clause)
    (b : Body)
    → Returns Ignored (AfterClause v arities c b) (add_clause schema arities delta c b)
unfolding add_clause clause_binds FitsCall
add_clause-After schema arities delta v (pattern_clause e a x tx) b =
    Returns-mono (add_data_pattern schema e a x tx b) (λ b' h. (h, tt))
      (add_data_pattern-Adds schema v e a x tx b)
add_clause-After schema arities delta v (rule_application name args) b =
    add_application-After arities delta v name args b
add_clause-After schema arities delta v (expr_clause fn args binding) b =
    elim (Result-cases (expr_clause_to_sql fn args b.tracker.first_ref)) [
      | inl (e, failed) ↦ rw failed (fails tt)
      | inr (r, done) ↦ rw done (returns (ground arith, tt))
    ]
add_clause-After schema arities delta v (not_clause cs) b = fails tt
add_clause-After schema arities delta v (or_clause alternatives) b = fails tt

add_clauses-After :
    (schema : SchemaLookup) (arities : Arities) (delta : Option Bytes) (v : Bytes) (cs : Clauses)
    (b : Body)
    → Returns Ignored
        (λ b'. Adds v (binds v cs) b b' × FitsCalls arities cs)
        (add_clauses schema arities delta cs b)
unfolding add_clauses binds FitsCalls
add_clauses-After schema arities delta v no_clauses b = returns (ground arith, tt)
add_clauses-After schema arities delta v (c ▹ cs) b =
    Returns->>= (add_clause schema arities delta c b) _
      (add_clause-After schema arities delta v c b)
      (λ b' _ (h, fits).
        Returns-mono (add_clauses schema arities delta cs b')
          (λ b'' (k, fit). (ground (arith, h, k), (fits, fit)))
          (add_clauses-After schema arities delta v cs b'))

-- Each variable of a head is bound.
abbrev pub IsBoundElem : Clauses → PatternElem → Type 0
IsBoundElem cs p = is_variable p ≡ true → binds p.variable cs ≡ true

abbrev KnownElem : VarTracker → PatternElem → Type 0
KnownElem vt p = is_variable p ≡ true → is_some (lookup p.variable vt.first_ref) ≡ true

select_head-Known :
    (vt : VarTracker) (ps : List PatternElem)
    → Returns Ignored (λ r. All (KnownElem vt) ps) (select_head vt ps)
unfolding select_head
select_head-Known vt [] = returns tt
select_head-Known vt (p ∷ ps) = elim (Bool-cases (is_variable p)) [
  | inl variable ↦ rw variable (elim (Option-cases (lookup p.variable vt.first_ref)) [
    | inl unbound ↦ rw unbound (fails tt)
    | inr (ref, found) ↦ rw found (
        Returns->>= (select_head vt ps) _ (select_head-Known vt ps)
          (λ r _ h. returns ((λ _. refl), h)))
  ])
  | inr constant ↦ rw constant (elim (Option-cases p.constant) [
    | inl blank ↦ rw blank (fails tt)
    | inr (c, given) ↦ rw given (
        Returns->>= (select_head vt ps) _ (select_head-Known vt ps)
          (λ r _ h. returns ((λ absurd. cc), h)))
  ])
]

-- A rule whose applications fit and whose head is bound.
abbrev pub IsSafe : Arities → Rule → Type 0
IsSafe arities r = FitsCalls arities r.body × All (IsBoundElem r.body) r.head

pub rule_body_to_sql-IsSafe :
    (schema : SchemaLookup) (arities : Arities) (delta : Option Bytes) (r : Rule)
    → Returns Ignored (λ sq. IsSafe arities r) (rule_body_to_sql schema arities delta r)
unfolding rule_body_to_sql lookup binds
rule_body_to_sql-IsSafe schema arities delta r =
    elim (Result-cases (add_clauses schema arities delta r.body empty_body)) [
      | inl (e, failed) ↦ rw failed (fails tt)
      | inr (b, done) ↦ rw done (
          Returns->>= (select_head b.tracker r.head) _ (select_head-Known b.tracker r.head)
            (λ cols _ known. returns (
              (Returns-ok (add_clauses-After schema arities delta [] r.body empty_body) done).1,
              All-mono (KnownElem b.tracker) (IsBoundElem r.body) r.head
                  (λ p h variable.
                    sym
                      (Returns-ok
                        (add_clauses-After schema arities delta p.variable r.body empty_body)
                        done).0
                    ∙ h variable)
                  known,
            )))
    ]
