-- ===== src/Query/Recursive/Marks/Patterns.antt =====
-- query/recursive.go: the placeholders of one pattern and of one application of a rule.
use litelog.Prelude.{
  ℕ, ◌+◌, refl, ◌∙◌, inl, inr, Bytes, Bool, Option, none, some, List, [], ◌∷◌, ◌++◌, ◌==◌, bytes_eq,
  text, length, lookup, bytes_key, Bool-cases, Option-cases, arith,
}
use litelog.Result.{Returns, returns, fails, Returns->>=}
use litelog.Types.{GoValue, int64, string}
use litelog.Query.Ast.{PatternElem}
use litelog.Query.Algebrize.{SchemaLookup}
use litelog.Query.Translate.{ref_of}
use litelog.Query.Translate.Marks.{marks, marks-append, IsClean, Ignored, marks-ref_of}
use litelog.Query.Recursive.{
  numbered, Body, bind_elem, bind_named, bind_attribute, from_table, add_data_pattern, bind_args,
  Arities, rule_table, add_application,
}
use litelog.Query.Recursive.Marks.{
  marks-numbered, IsBalanced, all_marks-snoc, IsBalanced-record_ref, IsBalanced-bind_constant,
  IsBalanced-bind_elem,
}

IsBalanced-bind_named :
    (schema : SchemaLookup) (ident col : Bytes) (b : Body)
    → IsClean col
    → IsBalanced b
    → Returns Ignored IsBalanced (bind_named schema ident col b)
IsBalanced-bind_named schema ident col b h k = elim (Option-cases (schema ident)) [
  | inl unknown ↦ rw (bind_named, unknown) (fails tt)
  | inr (info, found) ↦
      rw (bind_named, found) (returns (IsBalanced-bind_constant col (some (int64 info.id)) b h k))
]

bind_attribute-fields :
    (schema : SchemaLookup) (w : Bytes) (c : Option GoValue) (blank : Bool) (col : Bytes) (b : Body)
    → IsClean col
    → IsBalanced b
    → Returns Ignored IsBalanced
        (bind_attribute schema (record { variable = w; constant = c; blank = blank }) col b)
unfolding bind_attribute
bind_attribute-fields schema [] none blank col b h k = returns k
bind_attribute-fields schema (x ∷ w) none blank col b h k =
    returns (IsBalanced-record_ref (x ∷ w) col b h k)
bind_attribute-fields schema w (some (string ident)) blank col b h k =
    IsBalanced-bind_named schema ident col b h k
bind_attribute-fields schema w (some c) blank col b h k = fails tt

IsBalanced-from_table :
    (table alias : Bytes) (b : Body)
    → IsClean table
    → IsClean alias
    → IsBalanced b
    → IsBalanced (from_table table alias b)
unfolding marks
IsBalanced-from_table table alias b h l k = record {
  where_marks = k.where_marks;
  join_marks = k.join_marks;
  from_marks =
      all_marks-snoc b.from_parts (table ++ text " AS " ++ alias)
      ∙ simp marks-append (omega (arith, k.from_marks, h, l));
  refs_clean = k.refs_clean;
}

pub IsBalanced-data_pattern :
    (schema : SchemaLookup) (e a v tx : PatternElem) (b : Body)
    → IsBalanced b
    → Returns Ignored IsBalanced (add_data_pattern schema e a v tx b)
unfolding add_data_pattern marks
IsBalanced-data_pattern schema e a v tx b k =
    let alias : Bytes = numbered (text "d") b.alias_idx in
    let clean : IsClean alias = marks-numbered (text "d") b.alias_idx refl in
    let b₀ : Body = from_table (text "current_datoms") alias b in
    Returns->>= (bind_attribute schema a (ref_of alias (text "a")) b₀) _
      (bind_attribute-fields schema a.variable a.constant a.blank (ref_of alias (text "a")) b₀
        (marks-ref_of alias (text "a") clean refl)
        (IsBalanced-from_table (text "current_datoms") alias b refl clean k))
      (λ b₁ _ h. returns (
        IsBalanced-bind_elem tx (ref_of alias (text "tx")) _
          (marks-ref_of alias (text "tx") clean refl)
          (IsBalanced-bind_elem v (ref_of alias (text "v")) _
            (marks-ref_of alias (text "v") clean refl)
            (IsBalanced-bind_elem e (ref_of alias (text "e")) b₁
              (marks-ref_of alias (text "e") clean refl) h))))

IsBalanced-bind_args :
    (alias : Bytes) (i : ℕ) (ps : List PatternElem) (b : Body)
    → IsClean alias
    → IsBalanced b
    → IsBalanced (bind_args alias i ps b)
unfolding bind_args marks
IsBalanced-bind_args alias i [] b h k = k
IsBalanced-bind_args alias i (p ∷ ps) b h k =
    let col : Bytes = numbered (text "c") i in
    IsBalanced-bind_args alias (i + 1) ps (bind_elem p (ref_of alias col) b) h (
      IsBalanced-bind_elem p (ref_of alias col) b
        (marks-ref_of alias col h (marks-numbered (text "c") i refl)) k)

marks-rule_table :
    (delta : Option Bytes) (name : Bytes) → IsClean name → IsClean (rule_table delta name)
unfolding rule_table marks
marks-rule_table none name h = marks-append (text "_rule_") name ∙ omega (arith, h)
marks-rule_table (some d) name h = elim (Bool-cases (bytes_eq d name)) [
  | inl same ↦ rw same (marks-append (text "_delta_") name ∙ omega (arith, h))
  | inr differs ↦ rw differs (marks-append (text "_rule_") name ∙ omega (arith, h))
]

pub IsBalanced-application :
    (arities : Arities) (delta : Option Bytes) (name : Bytes) (args : List PatternElem) (b : Body)
    → IsClean name
    → IsBalanced b
    → Returns Ignored IsBalanced (add_application arities delta name args b)
unfolding add_application marks
IsBalanced-application arities delta name args b h k = elim (Option-cases (lookup name arities)) [
  | inl unknown ↦ rw (add_application, unknown) (fails tt)
  | inr (arity, known) ↦
      rw (add_application, known)
        (elim (Bool-cases (length args == arity)) [
          | inl fits ↦
              let alias : Bytes = numbered (text "r") b.alias_idx in
              let clean : IsClean alias = marks-numbered (text "r") b.alias_idx refl in
              rw fits (
                returns (
                  IsBalanced-bind_args alias 0 args _ clean (
                    IsBalanced-from_table (rule_table delta name) alias b
                      (marks-rule_table delta name h) clean k)))
          | inr wrong ↦ rw wrong (fails tt)
        ])
]
