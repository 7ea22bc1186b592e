-- ===== src/Query/Algebrize.antt =====
-- query/algebrize.go: from a parsed query to an algebraic one. The schema is a parameter, the function
-- behind the interface `SchemaLookup`. Go's maps are association lists in the order of first writes:
-- the order in which Go walks a map is not fixed, and this is one of those it may take.
pub mod Phases
pub mod Ranges
use litelog.Prelude.{
  ℕ, zero, suc, ◌+◌, ◌/◌, ◌%◌, Bytes, Bool, true, false, not, ◌&&◌, ◌||◌, Option, some, none, List,
  [], ◌∷◌, ◌++◌, ◌==◌, text, if◌then◌else◌, length, lookup, insert, bytes_key,
}
use litelog.Result.{
  Result, ok, err, ◌>>=◌, bad_attribute_constant, unknown_attribute, unsupported_clause,
  unresolved_variable,
}
use litelog.Types.{GoValue, string}
use litelog.Query.Ast.{
  FindElem, PatternElem, Pattern, Clause, pattern_clause, expr_clause, not_clause, or_clause,
  rule_application, Clauses, no_clauses, ◌▹◌, Branches, no_branches, branch, InputSpec, OrderClause,
  ParsedQuery,
}
use litelog.Query.Algebra.{
  TableRef, table_input, table_at, FindMapping, TableBinding, JoinCondition, FilterArg, Filter,
  OrderMapping, AlgebraicQuery, algebraic, Queries, no_queries, query, Alternatives,
  no_alternatives, alternative,
}

pub record AttrInfo : Type 0 where
  pub id : ℕ
  pub ident : Bytes
  pub value_type : ℕ
  pub cardinality : ℕ
  pub indexed : Bool
  pub unique : Bool

abbrev pub SchemaLookup : Type 0
SchemaLookup = Bytes → Option AttrInfo

pub record VarLocation : Type 0 where
  pub table : TableRef
  pub column : Bytes

-- `schema` is an argument of the functions that read it.
pub record Algebrizer : Type 0 where
  pub tables : List TableBinding
  pub var_map : List (Bytes × List VarLocation)
  pub var_types : List (Bytes × ℕ)

-- The digits of a number, on fuel: a number has no more digits than itself and one.
unfoldable pub digits_of : ℕ → ℕ → Bytes
digits_of zero n = []
digits_of (suc fuel) n =
    let above = digits_of fuel (n / 10) in
    if n / 10 == 0 then (b'0' + n % 10) ∷ [] else above ++ (b'0' + n % 10) ∷ []

-- fmt.Sprintf("d%d", idx)
pub alias_of : ℕ → Bytes
alias_of idx = b'd' ∷ digits_of (idx + 1) idx

-- A missing variable reads as the empty slice, a missing type as 0.
pub locations : Bytes → List (Bytes × List VarLocation) → List VarLocation
locations v var_map = elim (lookup v var_map) [ none ↦ [] | some locs ↦ locs ]

pub type_in : Bytes → List (Bytes × ℕ) → ℕ
type_in v var_types = elim (lookup v var_types) [ none ↦ 0 | some t ↦ t ]

pub record_var : Bytes → ℕ → Bytes → Algebrizer → Algebrizer
record_var v idx column st =
    let locs = locations v st.var_map ++ record { table = table_at idx; column = column } ∷ [] in
    record st { var_map = insert v locs st.var_map }

abbrev pub is_variable : PatternElem → Bool
is_variable p = elim p.variable [ [] ↦ false | b ∷ s ↦ true ]

-- An element of a pattern: a variable is recorded, and a constant is the bound of its column.
pub note_elem : PatternElem → ℕ → Bytes → Algebrizer → Algebrizer
note_elem p idx column st = if is_variable p then record_var p.variable idx column st else st

abbrev pub bound_of : PatternElem → Option GoValue
bound_of p = if is_variable p then none else p.constant

-- The attribute that a constant names.
named_attribute : SchemaLookup → Option GoValue → Result (Option AttrInfo)
named_attribute schema none = ok none
named_attribute schema (some (string ident)) = elim (schema ident) [
  | none ↦ err unknown_attribute
  | some info ↦ ok (some info)
]
named_attribute schema (some v) = err bad_attribute_constant

abbrev pub id_of : Option AttrInfo → ℕ
id_of none = 0
id_of (some info) = info.id

abbrev pub value_type_of : Option AttrInfo → ℕ
value_type_of none = 0
value_type_of (some info) = info.value_type

abbrev pub ident_of : Option AttrInfo → Option GoValue → Bytes
ident_of (some info) (some (string ident)) = ident
ident_of _ _ = []

abbrev is_bound : Option GoValue → Bool
is_bound none = false
is_bound (some v) = true

pub choose_index : SchemaLookup → TableBinding → Bytes
choose_index schema tb =
    let indexed : Bool = elim (schema tb.attr_ident) [ none ↦ false | some info ↦ info.indexed ] in
    if is_bound tb.e_bound
    then text "eavt"
    else if not (tb.attr_id == 0) && is_bound tb.v_bound
    then (if indexed then text "avet" else text "aevt")
    else if not (tb.attr_id == 0)
    then text "aevt"
    else text ""

-- The type of a variable in the place of a value is the attribute's, where that is known.
infer_type : PatternElem → ℕ → Algebrizer → Algebrizer
infer_type p value_type st =
    if is_variable p && not (value_type == 0)
    then record st { var_types = insert p.variable value_type st.var_types }
    else st

-- The table of a pattern, as it is before its index is chosen.
pub table_of_pattern : ℕ → Pattern → Option AttrInfo → TableBinding
table_of_pattern idx p info = record {
  alias = alias_of idx;
  table = text "current_datoms";
  attr_id = id_of info;
  attr_ident = ident_of info (bound_of p.a);
  value_type = value_type_of info;
  e_bound = bound_of p.e;
  v_bound = bound_of p.v;
  tx_bound = bound_of p.tx;
  pattern = p;
  index_hint = [];
}

-- The variables of a pattern, in the order of its elements.
pub note_pattern : Pattern → ℕ → ℕ → Algebrizer → Algebrizer
unfolding infer_type
note_pattern p idx value_type st = note_elem p.tx idx (text "tx") (
    infer_type p.v value_type (
      note_elem p.v idx (text "v")
        (note_elem p.a idx (text "a") (note_elem p.e idx (text "e") st))))

pub add_pattern : SchemaLookup → Pattern → Algebrizer → Result Algebrizer
unfolding named_attribute
add_pattern schema p st = named_attribute schema (bound_of p.a) >>= λ info.
    let idx = length st.tables in
    let tb = table_of_pattern idx p info in
    let noted = note_pattern p idx tb.value_type st in
    ok (record noted {
      tables = noted.tables ++ record tb { index_hint = choose_index schema tb } ∷ [];
    })

-- The locations that are not those of an input.
keep_real : TableRef → VarLocation → List VarLocation → List VarLocation
keep_real table_input l rest = rest
keep_real (table_at i) l rest = l ∷ rest

pub real_locations : List VarLocation → List VarLocation
unfolding keep_real
real_locations [] = []
real_locations (l ∷ ls) = keep_real l.table l (real_locations ls)

-- Each further location is joined with the first.
pub joins_with : Bytes → VarLocation → List VarLocation → List JoinCondition
joins_with v first [] = []
joins_with v first (l ∷ ls) =
    record {
      variable = v;
      left_table = first.table;
      left_col = first.column;
      right_table = l.table;
      right_col = l.column;
    }
    ∷ joins_with v first ls

pub joins_of_variable : Bytes → List VarLocation → List JoinCondition
joins_of_variable v [] = []
joins_of_variable v (first ∷ rest) = joins_with v first rest

pub build_joins : List (Bytes × List VarLocation) → List JoinCondition
build_joins [] = []
build_joins ((v, locs) ∷ m) = joins_of_variable v (real_locations locs) ++ build_joins m

-- Where a variable occurs first.
first_of : List VarLocation → Result VarLocation
first_of [] = err unresolved_variable
first_of (loc ∷ locs) = ok loc

pub first_location : Bytes → Algebrizer → Result VarLocation
unfolding first_of
first_location v st = first_of (locations v st.var_map)

pub resolve_filter_arg : Algebrizer → PatternElem → Result FilterArg
resolve_filter_arg st p =
    if is_variable p
    then (first_location p.variable st >>= λ loc. ok (record {
      variable = p.variable;
      table = loc.table;
      column = loc.column;
      constant = none;
      value_type = type_in p.variable st.var_types;
    }))
    else ok (record {
      variable = [];
      table = table_at 0;
      column = [];
      constant = p.constant;
      value_type = 0;
    })

pub resolve_args : Algebrizer → List PatternElem → Result (List FilterArg)
resolve_args st [] = ok []
resolve_args st (p ∷ ps) =
    resolve_filter_arg st p >>= λ a. resolve_args st ps >>= λ others. ok (a ∷ others)

abbrev is_reference : FilterArg → Bool
is_reference a = elim a.variable [ [] ↦ false | b ∷ s ↦ true ]

-- The type of the first variable whose type is known, or 0.
pub inferred_type : List FilterArg → ℕ
inferred_type [] = 0
inferred_type (a ∷ others) =
    let rest = inferred_type others in
    if is_reference a && not (a.value_type == 0) then a.value_type else rest

-- The constants get that type.
pub propagate : ℕ → List FilterArg → List FilterArg
propagate t [] = []
propagate t (a ∷ others) =
    (if not (is_reference a) && a.value_type == 0 then record a { value_type = t } else a)
    ∷ propagate t others

pub resolve_binding : Algebrizer → PatternElem → Result (Option FilterArg)
resolve_binding st p =
    if is_variable p || is_bound p.constant
    then (resolve_filter_arg st p >>= λ a. ok (some a))
    else ok none

pub resolve_filter : Algebrizer → Bytes → List PatternElem → PatternElem → Result Filter
resolve_filter st fn ps binding = resolve_args st ps >>= λ args. resolve_binding st binding >>= λ b.
    ok (record { fn = fn; args = propagate (inferred_type args) args; binding = b })
