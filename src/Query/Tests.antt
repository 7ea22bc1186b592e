-- ===== src/Query/Tests.antt =====
-- query/parser.go on small clauses, and its theorems there.
use litelog.Prelude.{◌≡◌, refl, text, [], ◌∷◌, false, bytes_eq}
use litelog.Result.{ok}
use litelog.Query.Parser.{parse_clause}
use litelog.Query.Parser.Print.{
  variable, keyword, integer, Written, nothing, also, pattern_of_two, pattern_of_three, negation,
  alternatives, application, clause_of, print_clause, parse_clause-print_clause,
}

adult_not_not : bytes_eq (text "adult") (text "not") ≡ false
unfolding bytes_eq
adult_not_not = refl

adult_not_or : bytes_eq (text "adult") (text "or") ≡ false
unfolding bytes_eq
adult_not_or = refl

number_not_blank : bytes_eq (text "21") (text "_") ≡ false
unfolding bytes_eq
number_not_blank = refl

age_not_blank : bytes_eq (text ":person/age") (text "_") ≡ false
unfolding bytes_eq
age_not_blank = refl

-- `(not [?e :person/age 21] (or [?e ?a] (adult ?e)))`
abbrev refused : Written
refused = negation (
    also
      (pattern_of_three (variable (text "e")) (keyword (text ":person/age") age_not_blank)
        (integer (text "21") 21 number_not_blank))
      (also
        (alternatives (
          also (pattern_of_two (variable (text "e")) (variable (text "a"))) (
            also (application (text "adult") (variable (text "e") ∷ []) adult_not_not adult_not_or)
              nothing)))
        nothing))

parse_clause-print_clause_example : parse_clause (print_clause refused) ≡ ok (clause_of refused)
parse_clause-print_clause_example = parse_clause-print_clause refused
