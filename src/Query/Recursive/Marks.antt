-- ===== src/Query/Recursive/Marks.antt =====
-- query/recursive.go: the placeholders of a rule's statement.
pub mod Whole
pub mod Patterns
use litelog.Prelude.{
  All, All-append, ℕ, zero, suc, ◌+◌, ◌/◌, ◌%◌, ◌≡◌, refl, sym, subst, ◌∙◌, inl, inr, Bytes, Bool,
  true, false, Option, none, some, List, [], ◌∷◌, ◌++◌, ◌==◌, bytes_eq, bytes_eq_iff, text,
  if◌then◌else◌, length, length-append, lookup, insert, bytes_key, Bool-cases, Option-cases, arith,
}
use litelog.Result.{
  Result, ok, err, ◌>>=◌, Returns, returns, fails, Returns->>=, Returns-mono, Result-cases,
}
use litelog.Types.{GoValue, int64, string}
use litelog.Query.Ast.{
  PatternElem, Clause, pattern_clause, expr_clause, not_clause, or_clause, rule_application,
  Clauses, no_clauses, ◌▹◌, Rule,
}
use litelog.Query.Algebrize.{SchemaLookup, digits_of, is_variable}
use litelog.Query.Translate.{join, ref_of}
use litelog.Query.Translate.Marks.{
  marks, all_marks, marks-append, all_marks-append, marks-join, IsClean, Ignored, marks-ref_of,
}
use litelog.Query.Translate.Statement.{Matches}
use litelog.Query.Recursive.{
  numbered, column_names, VarTracker, record_ref, Body, empty_body, bind_constant, bind_elem,
  bind_named, bind_attribute, from_table, add_data_pattern, bind_args, Arities, rule_table,
  add_application, expr_refs, expr_clause_to_sql, add_clause, add_clauses, select_head,
  optional_part, insert_text, rule_body_to_sql,
}

pub marks-digit : (n : ℕ) → IsClean ((b'0' + n % 10) ∷ [])
unfolding marks
marks-digit n = ground arith

pub marks-digits_of : (fuel n : ℕ) → IsClean (digits_of fuel n)
unfolding digits_of marks
marks-digits_of zero n = refl
marks-digits_of (suc fuel) n = elim (Bool-cases (n / 10 == 0)) [
  | inl last ↦ rw last (marks-digit n)
  | inr more ↦ rw more (
      marks-append (digits_of fuel (n / 10)) ((b'0' + n % 10) ∷ [])
      ∙ omega (arith, marks-digits_of fuel (n / 10), marks-digit n))
]

pub marks-numbered : (prefix : Bytes) (i : ℕ) → IsClean prefix → IsClean (numbered prefix i)
unfolding numbered
marks-numbered prefix i h =
    marks-append prefix (digits_of (i + 1) i) ∙ omega (arith, marks-digits_of (i + 1) i)

-- Each entry's column has no question mark.
abbrev pub AreCleanRefs : List (Bytes × Bytes) → Type 0
AreCleanRefs refs = All (λ entry. IsClean entry.1) refs

-- As many question marks in the conditions as parameters, and none in the rest.
pub record IsBalanced (b : Body) : Type 0 where
  pub where_marks : all_marks b.where_parts ≡ length b.params
  pub join_marks : all_marks b.tracker.joins ≡ 0
  pub from_marks : all_marks b.from_parts ≡ 0
  pub refs_clean : AreCleanRefs b.tracker.first_ref

abbrev CleanFound : Option Bytes → Type 0
CleanFound none = Unit {0}
CleanFound (some ref) = IsClean ref

lookup-clean :
    (v : Bytes) (refs : List (Bytes × Bytes)) → AreCleanRefs refs → CleanFound (lookup v refs)
unfolding lookup
lookup-clean v [] h = tt
lookup-clean v ((key, col) ∷ refs) (h, hs) = elim (Bool-cases (bytes_eq key v)) [
  | inl here ↦ rw here h
  | inr behind ↦ rw behind (lookup-clean v refs hs)
]

pub lookup-some :
    (v ref : Bytes) (refs : List (Bytes × Bytes))
    → AreCleanRefs refs
    → lookup v refs ≡ some ref
    → IsClean ref
lookup-some v ref refs h e = subst CleanFound e (lookup-clean v refs h)

pub all_marks-snoc :
    (ss : List Bytes) (s : Bytes) → all_marks (ss ++ s ∷ []) ≡ all_marks ss + marks s
unfolding all_marks
all_marks-snoc ss s = all_marks-append ss (s ∷ []) ∙ omega arith

insert-clean :
    (v ref : Bytes) (refs : List (Bytes × Bytes))
    → AreCleanRefs refs
    → IsClean ref
    → AreCleanRefs (insert v ref refs)
unfolding insert
insert-clean v ref [] h k = (k, tt)
insert-clean v ref ((key, col) ∷ refs) (h, hs) k = elim (Bool-cases (bytes_eq key v)) [
  | inl same ↦ rw same (k, hs)
  | inr differs ↦ rw differs (h, insert-clean v ref refs hs k)
]

pub IsBalanced-record_ref :
    (v col : Bytes) (b : Body)
    → IsClean col
    → IsBalanced b
    → IsBalanced (record b { tracker = record_ref v col b.tracker })
unfolding marks record_ref
IsBalanced-record_ref v col b h k = elim (Option-cases (lookup v b.tracker.first_ref)) [
  | inl new ↦
      rw (record_ref, new)
        (record {
          where_marks = k.where_marks;
          join_marks = k.join_marks;
          from_marks = k.from_marks;
          refs_clean = insert-clean v col b.tracker.first_ref k.refs_clean h;
        })
  | inr (prev, old) ↦
      rw (record_ref, old)
        (record {
          where_marks = k.where_marks;
          join_marks =
              all_marks-snoc b.tracker.joins (prev ++ text " = " ++ col)
              ∙ simp marks-append (
                  omega (
                    arith,
                    k.join_marks,
                    lookup-some v prev b.tracker.first_ref k.refs_clean old,
                    h,
                  ));
          from_marks = k.from_marks;
          refs_clean = k.refs_clean;
        })
]

pub IsBalanced-bind_constant :
    (col : Bytes) (c : Option GoValue) (b : Body)
    → IsClean col
    → IsBalanced b
    → IsBalanced (bind_constant col c b)
unfolding marks
IsBalanced-bind_constant col none b h k = k
IsBalanced-bind_constant col (some v) b h k = record {
  where_marks =
      all_marks-snoc b.where_parts (col ++ text " = ?")
      ∙ simp marks-append (omega (arith, k.where_marks, h, length-append b.params (some v ∷ [])));
  join_marks = k.join_marks;
  from_marks = k.from_marks;
  refs_clean = k.refs_clean;
}

pub IsBalanced-bind_elem :
    (p : PatternElem) (col : Bytes) (b : Body)
    → IsClean col
    → IsBalanced b
    → IsBalanced (bind_elem p col b)
unfolding bind_elem
IsBalanced-bind_elem p col b h k = elim (Bool-cases (is_variable p)) [
  | inl variable ↦ rw variable (IsBalanced-record_ref p.variable col b h k)
  | inr constant ↦ rw constant (IsBalanced-bind_constant col p.constant b h k)
]
