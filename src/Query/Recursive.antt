-- ===== src/Query/Recursive.antt =====
-- query/recursive.go: the SQL of a rule's body. A map from variables to columns is an association list
-- in the order of first writes.
pub mod Plan
pub mod Marks
pub mod Bound
use litelog.Prelude.{
  ℕ, zero, suc, ◌+◌, Bytes, Bool, true, false, not, Option, none, some, List, [], ◌∷◌, ◌++◌, ◌==◌,
  bytes_eq, text, if◌then◌else◌, any, length, lookup, insert, bytes_key,
}
use litelog.Result.{
  Result, ok, err, ◌>>=◌, bad_attribute_constant, unknown_attribute, unknown_rule, wrong_arity,
  unresolved_variable, unsupported_clause, unbound_head_variable, blank_head,
}
use litelog.Types.{GoValue, int64, string}
use litelog.Query.Ast.{
  PatternElem, Clause, pattern_clause, expr_clause, not_clause, or_clause, rule_application,
  Clauses, no_clauses, ◌▹◌, Rule,
}
use litelog.Query.Algebrize.{SchemaLookup, digits_of, is_variable}
use litelog.Query.Translate.{join, ref_of, SqlQuery}

-- fmt.Sprintf("c%d", i)
pub numbered : Bytes → ℕ → Bytes
numbered prefix i = prefix ++ digits_of (i + 1) i

-- The names from the i-th on, as many as there are elements.
pub column_names {ℓ} : {A : Type ℓ} → ℕ → List A → List Bytes
column_names i [] = []
column_names i (x ∷ xs) = numbered (text "c") i ∷ column_names (i + 1) xs

-- `varTracker`
pub record VarTracker : Type 0 where
  pub first_ref : List (Bytes × Bytes)
  pub joins : List Bytes

abbrev pub new_var_tracker : VarTracker
new_var_tracker = record { first_ref = []; joins = [] }

pub record_ref : Bytes → Bytes → VarTracker → VarTracker
record_ref variable col_ref vt = elim (lookup variable vt.first_ref) [
  | some prev ↦ record vt { joins = vt.joins ++ (prev ++ text " = " ++ col_ref) ∷ [] }
  | none ↦ record vt { first_ref = insert variable col_ref vt.first_ref }
]

pub resolve : Bytes → VarTracker → Option Bytes
resolve variable vt = lookup variable vt.first_ref

-- What the loop over the clauses of a body gathers.
pub record Body : Type 0 where
  pub from_parts : List Bytes
  pub where_parts : List Bytes
  pub params : List (Option GoValue)
  pub alias_idx : ℕ
  pub tracker : VarTracker

abbrev pub empty_body : Body
empty_body = record {
  from_parts = [];
  where_parts = [];
  params = [];
  alias_idx = 0;
  tracker = new_var_tracker;
}

abbrev pub bind_constant : Bytes → Option GoValue → Body → Body
bind_constant col_ref none b = b
bind_constant col_ref (some v) b = record b {
  where_parts = b.where_parts ++ (col_ref ++ text " = ?") ∷ [];
  params = b.params ++ some v ∷ [];
}

-- An element at a column: a variable is recorded, and a constant compared with.
pub bind_elem : PatternElem → Bytes → Body → Body
bind_elem p col_ref b =
    if is_variable p
    then record b { tracker = record_ref p.variable col_ref b.tracker }
    else bind_constant col_ref p.constant b

abbrev pub bind_named : SchemaLookup → Bytes → Bytes → Body → Result Body
bind_named schema ident col_ref b = elim (schema ident) [
  | none ↦ err unknown_attribute
  | some info ↦ ok (record b {
    where_parts = b.where_parts ++ (col_ref ++ text " = ?") ∷ [];
    params = b.params ++ some (int64 info.id) ∷ [];
  })
]

-- The attribute: here a constant goes before a variable.
pub bind_attribute : SchemaLookup → PatternElem → Bytes → Body → Result Body
bind_attribute schema p col_ref b = elim p.constant [
  | none ↦
      ok (
        if is_variable p then record b { tracker = record_ref p.variable col_ref b.tracker } else b)
  | some (string ident) ↦ bind_named schema ident col_ref b
  | some v ↦ err bad_attribute_constant
]

abbrev pub from_table : Bytes → Bytes → Body → Body
from_table table alias b = record b {
  from_parts = b.from_parts ++ (table ++ text " AS " ++ alias) ∷ [];
  alias_idx = b.alias_idx + 1;
}

pub add_data_pattern :
    SchemaLookup → PatternElem → PatternElem → PatternElem → PatternElem → Body → Result Body
add_data_pattern schema e a v tx b =
    let alias : Bytes = numbered (text "d") b.alias_idx in
    bind_attribute schema a (ref_of alias (text "a")) (from_table (text "current_datoms") alias b)
    >>= λ b'. ok (
        bind_elem tx (ref_of alias (text "tx"))
          (bind_elem v (ref_of alias (text "v")) (bind_elem e (ref_of alias (text "e")) b')))

-- The arguments of a rule's application, at the columns from the i-th on.
pub bind_args : Bytes → ℕ → List PatternElem → Body → Body
bind_args alias i [] b = b
bind_args alias i (p ∷ ps) b =
    bind_args alias (i + 1) ps (bind_elem p (ref_of alias (numbered (text "c") i)) b)

abbrev pub Arities : Type 0
Arities = List (Bytes × ℕ)

-- `useDelta` is nil or names one rule.
pub rule_table : Option Bytes → Bytes → Bytes
rule_table none name = text "_rule_" ++ name
rule_table (some delta) name =
    if bytes_eq delta name then text "_delta_" ++ name else text "_rule_" ++ name

pub add_application : Arities → Option Bytes → Bytes → List PatternElem → Body → Result Body
add_application arities use_delta name args b =
    let alias : Bytes = numbered (text "r") b.alias_idx in
    elim (lookup name arities) [
      | none ↦ err unknown_rule
      | some arity ↦
          if length args == arity
          then ok (bind_args alias 0 args (from_table (rule_table use_delta name) alias b))
          else err wrong_arity
    ]

-- The operands of an expression, and the parameters of the constants among them.
pub expr_refs :
    List (Bytes × Bytes) → List PatternElem → Result (List Bytes × List (Option GoValue))
expr_refs first_ref [] = ok ([], [])
expr_refs first_ref (p ∷ ps) =
    let rest = expr_refs first_ref ps in
    if is_variable p
    then elim (lookup p.variable first_ref) [
      | none ↦ err unresolved_variable
      | some ref ↦ rest >>= λ (refs, params). ok (ref ∷ refs, params)
    ]
    else rest >>= λ (refs, params). ok (text "?" ∷ refs, p.constant ∷ params)

-- `exprClauseToSQL`: the operators of `filterOps` are written as they are named.
pub expr_clause_to_sql :
    Bytes → List PatternElem → List (Bytes × Bytes) → Result (Bytes × List (Option GoValue))
expr_clause_to_sql fn args first_ref = expr_refs first_ref args >>= λ (refs, params).
    ok (join (text " " ++ fn ++ text " ") refs, params)

pub add_clause : SchemaLookup → Arities → Option Bytes → Clause → Body → Result Body
add_clause schema arities use_delta (pattern_clause e a v tx) b = add_data_pattern schema e a v tx b
add_clause schema arities use_delta (rule_application name args) b =
    add_application arities use_delta name args b
add_clause schema arities use_delta (expr_clause fn args binding) b =
    expr_clause_to_sql fn args b.tracker.first_ref >>= λ (frag, params).
    ok (record b { where_parts = b.where_parts ++ frag ∷ []; params = b.params ++ params })
add_clause schema arities use_delta _ b = err unsupported_clause

pub add_clauses : SchemaLookup → Arities → Option Bytes → Clauses → Body → Result Body
add_clauses schema arities use_delta no_clauses b = ok b
add_clauses schema arities use_delta (c ▹ cs) b =
    add_clause schema arities use_delta c b >>= λ b'. add_clauses schema arities use_delta cs b'

-- The columns of the SELECT, and the parameters of the constants among them.
pub select_head : VarTracker → List PatternElem → Result (List Bytes × List (Option GoValue))
select_head vt [] = ok ([], [])
select_head vt (p ∷ ps) =
    let rest = select_head vt ps in
    if is_variable p
    then elim (lookup p.variable vt.first_ref) [
      | none ↦ err unbound_head_variable
      | some ref ↦ rest >>= λ (cols, params). ok (ref ∷ cols, params)
    ]
    else elim p.constant [
      | none ↦ err blank_head
      | some v ↦ rest >>= λ (cols, params). ok (text "?" ∷ cols, some v ∷ params)
    ]

abbrev pub optional_part : Bytes → Bytes → List Bytes → Bytes
optional_part keyword sep [] = []
optional_part keyword sep (s ∷ ss) = keyword ++ join sep (s ∷ ss)

pub insert_text : Rule → List Bytes → List Bytes → List Bytes → Bytes
insert_text r select_cols from_parts where_parts =
    text "INSERT OR IGNORE INTO _rule_"
    ++ r.name
    ++ text " ("
    ++ join (text ", ") (column_names 0 r.head)
    ++ text ")\nSELECT DISTINCT "
    ++ join (text ", ") select_cols
    ++ optional_part (text "\nFROM ") (text ", ") from_parts
    ++ optional_part (text "\nWHERE ") (text " AND ") where_parts

-- The parameters of the head come behind those of the body, but their placeholders before.
pub rule_body_to_sql : SchemaLookup → Arities → Option Bytes → Rule → Result SqlQuery
rule_body_to_sql schema arities use_delta r =
    add_clauses schema arities use_delta r.body empty_body >>= λ b.
    select_head b.tracker r.head >>= λ (cols, params). ok (record {
      sql = insert_text r cols b.from_parts (b.where_parts ++ b.tracker.joins);
      params = b.params ++ params;
    })
