-- ===== src/Query/Recursive/Plan/Tests.antt =====
-- query/recursive.go: the plan of `ancestor`, from `parent`.
use litelog.Prelude.{
  All, ◌≡◌, refl, Bytes, false, none, some, List, [], ◌∷◌, lookup, insert, any, bytes_eq, text,
}
use litelog.Result.{ok}
use litelog.Types.{int64, string}
use litelog.Query.Ast.{PatternElem, Clause, pattern_clause, rule_application, no_clauses, ◌▹◌, Rule}
use litelog.Query.Algebrize.{SchemaLookup, digits_of}
use litelog.Query.Translate.{join}
use litelog.Query.Translate.Marks.{marks}
use litelog.Query.Translate.Statement.{Matches}
use litelog.Query.Recursive.{
  record_ref, bind_elem, bind_attribute, add_data_pattern, bind_args, rule_table, add_application,
  add_clause, add_clauses, select_head, insert_text, rule_body_to_sql, numbered, column_names,
}
use litelog.Query.Recursive.Marks.Whole.{IsCleanClause, AreCleanClauses, IsCleanRule}
use litelog.Query.Recursive.Plan.{
  RecursivePlan, add_name, rule_names, rule_arities, is_recursive, rule_is_recursive, body_refs,
  body_rule_refs, plan_columns, setup_of, seeds_of, clears_of, cleanup_of, base_sql_of, variants_of,
  delta_sql_of, plan_recursive, plain,
}
use litelog.Query.Recursive.Plan.Safe.{ArePlanned, plan_recursive-ArePlanned}
use litelog.Query.Recursive.Plan.Placeholders.{plan_recursive-Match}

abbrev variable : Bytes → PatternElem
variable v = record { variable = v; constant = none; blank = false }

abbrev attribute : Bytes → PatternElem
attribute ident = record { variable = []; constant = some (string ident); blank = false }

abbrev nothing : PatternElem
nothing = record { variable = []; constant = none; blank = false }

abbrev parent : SchemaLookup
parent ident = some (record {
  id = 5;
  ident = ident;
  value_type = 5;
  cardinality = 1;
  indexed = false;
  unique = false;
})

abbrev parent_of : Bytes → Bytes → Clause
parent_of child p =
    pattern_clause (variable child) (attribute (text ":parent")) (variable p) nothing

-- `[(ancestor ?x ?y) [?x :parent ?y]]` and `[(ancestor ?x ?y) [?x :parent ?z] (ancestor ?z ?y)]`
abbrev x_and_y : List PatternElem
x_and_y = variable (text "?x") ∷ variable (text "?y") ∷ []

abbrev ancestors : List Rule
ancestors =
    record {
      name = text "ancestor";
      head = x_and_y;
      body = parent_of (text "?x") (text "?y") ▹ no_clauses;
    }
    ∷ record {
      name = text "ancestor";
      head = x_and_y;
      body =
          parent_of (text "?x") (text "?z")
          ▹ rule_application (text "ancestor") (variable (text "?z") ∷ variable (text "?y") ∷ [])
          ▹ no_clauses;
    }
    ∷ []

abbrev ancestor_plan : RecursivePlan
ancestor_plan = record {
  setup_sql =
      text
        "CREATE TEMP TABLE IF NOT EXISTS _rule_ancestor (c0, c1, PRIMARY KEY(c0, c1)) WITHOUT ROWID"
      ∷ text
          "CREATE TEMP TABLE IF NOT EXISTS _delta_ancestor (c0, c1, PRIMARY KEY(c0, c1)) WITHOUT ROWID"
      ∷ [];
  base_sql =
      record {
        sql =
            text
              "INSERT OR IGNORE INTO _rule_ancestor (c0, c1)\nSELECT DISTINCT d0.e, d0.v\nFROM current_datoms AS d0\nWHERE d0.a = ?";
        params = some (int64 5) ∷ [];
      }
      ∷ plain (text "INSERT OR IGNORE INTO _delta_ancestor SELECT * FROM _rule_ancestor")
      ∷ [];
  delta_sql =
      plain (text "DELETE FROM _delta_ancestor")
      ∷ record {
        sql =
            text
              "INSERT OR IGNORE INTO _rule_ancestor (c0, c1)\nSELECT DISTINCT d0.e, r1.c1\nFROM current_datoms AS d0, _delta_ancestor AS r1\nWHERE d0.a = ? AND d0.v = r1.c0";
        params = some (int64 5) ∷ [];
      }
      ∷ [];
  cleanup_sql =
      text "DROP TABLE IF EXISTS _rule_ancestor" ∷ text "DROP TABLE IF EXISTS _delta_ancestor" ∷ [];
  result_table = text "_rule_ancestor";
  columns = text "c0" ∷ text "c1" ∷ [];
}

-- The step reads from `_delta_ancestor`, which it has emptied before.
plan-ancestors : plan_recursive ancestors parent ≡ ok ancestor_plan
unfolding plan_recursive rule_names rule_arities base_sql_of rule_is_recursive is_recursive any
    bytes_eq lookup insert rule_body_to_sql add_clauses add_clause add_data_pattern add_application
    bind_attribute bind_elem bind_args record_ref numbered digits_of rule_table select_head
    insert_text column_names join delta_sql_of variants_of body_rule_refs body_refs add_name
    plan_columns setup_of seeds_of clears_of cleanup_of
plan-ancestors = refl

ancestors-clean : All IsCleanRule ancestors
unfolding IsCleanClause AreCleanClauses marks
ancestors-clean = ((refl, (tt, tt)), ((refl, (tt, (refl, tt))), tt))

plan_recursive-ArePlanned_example : ArePlanned ancestors
plan_recursive-ArePlanned_example =
    plan_recursive-ArePlanned ancestors parent ancestor_plan plan-ancestors

plan_recursive-Match_example :
    All Matches ancestor_plan.base_sql × All Matches ancestor_plan.delta_sql
plan_recursive-Match_example =
    plan_recursive-Match ancestors parent ancestor_plan ancestors-clean plan-ancestors
