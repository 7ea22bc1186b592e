-- ===== src/Query/Algebrize/Phases/Tests.antt =====
-- query/algebrize.go on a small query, and its theorem there.
use litelog.Prelude.{
  ◌≡◌, refl, text, Bytes, [], ◌∷◌, true, false, none, bytes_eq, lookup, insert, bytes_key,
}
use litelog.Result.{ok}
use litelog.Query.Ast.{PatternElem, Pattern, pattern_clause, no_clauses, ◌▹◌, ParsedQuery}
use litelog.Query.Algebra.{
  table_at, TableBinding, JoinCondition, AlgebraicQuery, algebraic, no_queries, no_alternatives,
}
use litelog.Query.Algebrize.{
  SchemaLookup, add_pattern, note_pattern, note_elem, record_var, locations, named_attribute,
  table_of_pattern, alias_of, digits_of, choose_index, infer_type, build_joins, joins_of_variable,
  joins_with, real_locations, keep_real, first_location, first_of, type_in,
}
use litelog.Query.Algebrize.Phases.{
  algebrize, sort_clauses, register_inputs, resolve_filters, resolve_nots, resolve_ors,
  resolve_find, resolve_find_elem, resolve_orders, resolve_order_by,
}
use litelog.Query.Algebrize.Phases.Tables.{algebrize-IsInRange, IsInRange}

abbrev var : Bytes → PatternElem
var v = record { variable = v; constant = none; blank = false }

abbrev absent : PatternElem
absent = record { variable = []; constant = none; blank = false }

-- `[:find ?age :where [?e ?a ?age] [?e ?b] :order-by ?e]`, with a blank for what is left out.
abbrev ages : Pattern
ages = record { e = var (text "?e"); a = var (text "?a"); v = var (text "?age"); tx = absent }

abbrev more : Pattern
more = record { e = var (text "?e"); a = var (text "?b"); v = absent; tx = absent }

abbrev parsed : ParsedQuery
parsed = record {
  find_elems = record { variable = text "?age"; aggregate = []; agg_arg = [] } ∷ [];
  where_clauses =
      pattern_clause ages.e ages.a ages.v ages.tx
      ▹ pattern_clause more.e more.a more.v more.tx
      ▹ no_clauses;
  in_specs = [];
  order_by = record { variable = text "?e"; desc = true } ∷ [];
}

abbrev no_schema : SchemaLookup
no_schema ident = none

abbrev binding : Bytes → Pattern → TableBinding
binding alias p = record {
  alias = alias;
  table = text "current_datoms";
  attr_id = 0;
  attr_ident = [];
  value_type = 0;
  e_bound = none;
  v_bound = none;
  tx_bound = none;
  pattern = p;
  index_hint = [];
}

abbrev entity_join : JoinCondition
entity_join = record {
  variable = text "?e";
  left_table = table_at 0;
  left_col = text "e";
  right_table = table_at 1;
  right_col = text "e";
}

abbrev expected : AlgebraicQuery
expected =
    algebraic
      (record {
        variable = text "?age";
        table = table_at 0;
        column = text "v";
        value_type = 0;
        aggregate = [];
        agg_arg = [];
      }
        ∷ [])
      (binding (text "d0") ages ∷ binding (text "d1") more ∷ []) (entity_join ∷ []) [] [] no_queries
      no_alternatives
      (record { variable = text "?e"; table = table_at 0; column = text "e"; desc = true } ∷ [])
      false

algebrize-parsed : algebrize no_schema parsed ≡ ok expected
unfolding algebrize sort_clauses register_inputs resolve_filters resolve_nots resolve_ors
    resolve_find resolve_find_elem resolve_orders resolve_order_by add_pattern note_pattern
    note_elem record_var locations named_attribute table_of_pattern alias_of digits_of choose_index
    infer_type build_joins joins_of_variable joins_with real_locations keep_real first_location
    first_of type_in lookup insert bytes_eq
algebrize-parsed = refl

algebrize-IsInRange_example : IsInRange expected
algebrize-IsInRange_example = algebrize-IsInRange no_schema parsed expected algebrize-parsed
