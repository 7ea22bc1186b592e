-- ===== src/Query/Translate/Marks.antt =====
-- query/translate.go: the placeholders of the conditions of a statement, and their parameters.
use litelog.Prelude.{
  All, ℕ, zero, suc, ◌+◌, ◌≡◌, refl, inl, inr, Bytes, Option, some, none, List, [], ◌∷◌, ◌++◌, ◌==◌,
  text, if◌then◌else◌, length, length-append, Bool-cases, arith,
}
use litelog.Result.{Returns, returns, fails, Returns->>=, Error}
use litelog.Types.{GoValue}
use litelog.Query.Algebra.{
  typed_column, TableRef, table_input, table_at, TableBinding, JoinCondition, FilterArg, Filter,
  RawFilter,
}
use litelog.Query.Translate.{
  join, to_upper, nth_table, table_of, is_empty, typed_or, resolve_join_col, column_of, ref_of,
  Conditions, ◌<+>◌, bound, table_conditions, tables_conditions, equals, join_conditions,
  is_builtin, filter_refs, filter_text, build_filter, filter_conditions, raw_conditions,
}

-- The question marks of a text.
unfoldable pub marks : Bytes → ℕ
marks [] = 0
marks (b ∷ s) = (if b == b'?' then 1 else 0) + marks s

unfoldable pub all_marks : List Bytes → ℕ
all_marks [] = 0
all_marks (s ∷ ss) = marks s + all_marks ss

pub marks-append : (s t : Bytes) → marks (s ++ t) ≡ marks s + marks t
unfolding marks
marks-append [] t = omega arith
marks-append (b ∷ s) t = omega (arith, marks-append s t)

pub all_marks-append : (ss ts : List Bytes) → all_marks (ss ++ ts) ≡ all_marks ss + all_marks ts
unfolding all_marks
all_marks-append [] ts = omega arith
all_marks-append (s ∷ ss) ts = omega (arith, all_marks-append ss ts)

-- A separator without question marks adds none.
pub marks-join :
    (sep : Bytes) (ss : List Bytes) → marks sep ≡ 0 → marks (join sep ss) ≡ all_marks ss
unfolding join marks all_marks
marks-join sep [] h = refl
marks-join sep (s ∷ []) h = omega arith
marks-join sep (s ∷ t ∷ ss) h = simp marks-append (omega (arith, marks-join sep (t ∷ ss) h))

pub marks-to_upper : (s : Bytes) → marks (to_upper s) ≡ marks s
unfolding marks to_upper
marks-to_upper [] = refl
marks-to_upper (b ∷ s) = ground (arith, marks-to_upper s)

-- Names without question marks.
abbrev pub IsClean : Bytes → Type 0
IsClean s = marks s ≡ 0

abbrev pub IsCleanTable : TableBinding → Type 0
IsCleanTable tb = IsClean tb.alias × IsClean tb.table × IsClean tb.index_hint

abbrev pub Ignored : Error → Type 0
Ignored e = Unit {0}

pub nth_table-clean :
    (i : ℕ) (tables : List TableBinding)
    → All IsCleanTable tables
    → Returns Ignored IsCleanTable (nth_table i tables)
unfolding nth_table
nth_table-clean i [] h = fails tt
nth_table-clean zero (tb ∷ tables) h = returns h.0
nth_table-clean (suc i) (tb ∷ tables) h = nth_table-clean i tables h.1

pub table_of-clean :
    (r : TableRef) (tables : List TableBinding)
    → All IsCleanTable tables
    → Returns Ignored IsCleanTable (table_of r tables)
unfolding table_of
table_of-clean table_input tables h = fails tt
table_of-clean (table_at i) tables h = nth_table-clean i tables h

pub marks-ref_of : (alias col : Bytes) → IsClean alias → IsClean col → IsClean (ref_of alias col)
unfolding marks
marks-ref_of alias col h k = simp marks-append (omega arith)

pub marks-typed_or :
    (vtype : ℕ) (col : Bytes) → IsClean col → IsClean (typed_or (typed_column vtype) col)
unfolding marks typed_column
marks-typed_or vtype col h = ground (arith, h)

pub marks-column_of : (col : Bytes) (vtype : ℕ) → IsClean col → IsClean (column_of col vtype)
unfolding column_of
marks-column_of col vtype h = ground (arith, h, marks-typed_or vtype col h)

marks-resolve_join_col :
    (col : Bytes) (vtype : ℕ) → IsClean col → IsClean (resolve_join_col col vtype)
unfolding resolve_join_col
marks-resolve_join_col col vtype h = ground (arith, h, marks-typed_or vtype col h)

-- As many question marks as parameters.
abbrev pub IsBalanced : Conditions → Type 0
IsBalanced c = all_marks c.frags ≡ length c.params

pub IsBalanced-<+> : (c d : Conditions) → IsBalanced c → IsBalanced d → IsBalanced (c <+> d)
IsBalanced-<+> c d h k =
    omega (arith, all_marks-append c.frags d.frags, length-append c.params d.params)

IsBalanced-bound : (ref : Bytes) (v : Option GoValue) → IsClean ref → IsBalanced (bound ref v)
unfolding all_marks marks
IsBalanced-bound ref none h = refl
IsBalanced-bound ref (some v) h = omega (arith, marks-append ref (text " = ?"))

pub IsBalanced-equals : (l r : Bytes) → IsClean l → IsClean r → IsBalanced (equals l r)
unfolding all_marks marks
IsBalanced-equals l r h k = simp marks-append (omega arith)

IsBalanced-column :
    (alias col : Bytes) (v : Option GoValue)
    → IsClean alias
    → IsClean col
    → IsBalanced (bound (ref_of alias col) v)
IsBalanced-column alias col v h k =
    IsBalanced-bound (ref_of alias col) v (marks-ref_of alias col h k)

IsBalanced-table : (tb : TableBinding) → IsCleanTable tb → IsBalanced (table_conditions tb)
unfolding table_conditions marks
IsBalanced-table tb (alias, _, _) =
    let value = typed_or (typed_column tb.value_type) (text "v") in
    IsBalanced-<+> (bound _ _) _ (IsBalanced-column tb.alias (text "a") _ alias refl) (
      IsBalanced-<+> (bound _ _) _ (IsBalanced-column tb.alias (text "e") tb.e_bound alias refl) (
        IsBalanced-<+> (bound _ _) (bound _ _)
          (IsBalanced-column tb.alias value tb.v_bound alias
            (marks-typed_or tb.value_type (text "v") refl))
          (IsBalanced-column tb.alias (text "tx") tb.tx_bound alias refl)))

pub IsBalanced-tables :
    (tables : List TableBinding) → All IsCleanTable tables → IsBalanced (tables_conditions tables)
unfolding tables_conditions all_marks
IsBalanced-tables [] h = refl
IsBalanced-tables (tb ∷ tables) (h, hs) =
    IsBalanced-<+> (table_conditions tb) (tables_conditions tables) (IsBalanced-table tb h)
      (IsBalanced-tables tables hs)

abbrev pub IsCleanJoin : JoinCondition → Type 0
IsCleanJoin jc = IsClean jc.left_col × IsClean jc.right_col

pub IsBalanced-joins :
    (tables : List TableBinding) (jcs : List JoinCondition)
    → All IsCleanTable tables
    → All IsCleanJoin jcs
    → Returns Ignored IsBalanced (join_conditions tables jcs)
unfolding join_conditions all_marks
IsBalanced-joins tables [] h k = returns refl
IsBalanced-joins tables (jc ∷ jcs) h ((left, right), ks) =
    Returns->>= (table_of jc.left_table tables) _ (table_of-clean jc.left_table tables h)
      (λ l _ (cl, _, _).
        Returns->>= (table_of jc.right_table tables) _ (table_of-clean jc.right_table tables h)
          (λ r _ (cr, _, _).
            Returns->>= (join_conditions tables jcs) _ (IsBalanced-joins tables jcs h ks)
              (λ rest _ b. returns (
                IsBalanced-<+> (equals _ _) rest
                  (IsBalanced-equals _ _
                    (marks-ref_of l.alias (resolve_join_col jc.left_col l.value_type) cl
                      (marks-resolve_join_col jc.left_col l.value_type left))
                    (marks-ref_of r.alias (resolve_join_col jc.right_col r.value_type) cr
                      (marks-resolve_join_col jc.right_col r.value_type right)))
                  b))))

abbrev pub IsCleanArg : FilterArg → Type 0
IsCleanArg arg = IsClean arg.column

abbrev pub IsCleanFilter : Filter → Type 0
IsCleanFilter f = IsClean f.fn × All IsCleanArg f.args

IsBalanced-filter_refs :
    (tables : List TableBinding) (args : List FilterArg)
    → All IsCleanTable tables
    → All IsCleanArg args
    → Returns Ignored IsBalanced (filter_refs tables args)
unfolding filter_refs all_marks marks
IsBalanced-filter_refs tables [] h k = returns refl
IsBalanced-filter_refs tables (arg ∷ args) h (k, ks) = elim (Bool-cases (is_empty arg.variable)) [
  | inl constant ↦ rw constant (
      Returns->>= (filter_refs tables args) _ (IsBalanced-filter_refs tables args h ks)
        (λ rest _ b. returns (omega arith)))
  | inr variable ↦ rw variable (
      Returns->>= (table_of arg.table tables) _ (table_of-clean arg.table tables h)
        (λ tb _ (c, _, _).
          Returns->>= (filter_refs tables args) _ (IsBalanced-filter_refs tables args h ks)
            (λ rest _ b.
              let column = column_of arg.column arg.value_type in
              returns (
                omega (
                  arith,
                  marks-ref_of tb.alias column c (marks-column_of arg.column arg.value_type k),
                )))))
]

marks-filter_text :
    (fn : Bytes) (refs : List Bytes) → IsClean fn → marks (filter_text fn refs) ≡ all_marks refs
unfolding filter_text marks
marks-filter_text fn refs h = elim (Bool-cases (is_builtin fn)) [
  | inl builtin ↦
      rw builtin (marks-join (text " " ++ fn ++ text " ") refs (simp marks-append (omega arith)))
  | inr call ↦ rw call (simp marks-append (omega (arith, marks-join (text ", ") refs refl)))
]

IsBalanced-filter :
    (tables : List TableBinding) (f : Filter)
    → All IsCleanTable tables
    → IsCleanFilter f
    → Returns Ignored IsBalanced (build_filter tables f)
unfolding build_filter all_marks
IsBalanced-filter tables f h (fn, args) =
    Returns->>= (filter_refs tables f.args) _ (IsBalanced-filter_refs tables f.args h args)
      (λ refs _ b. returns (omega (arith, marks-filter_text f.fn refs.frags fn)))

pub IsBalanced-filters :
    (tables : List TableBinding) (fs : List Filter)
    → All IsCleanTable tables
    → All IsCleanFilter fs
    → Returns Ignored IsBalanced (filter_conditions tables fs)
unfolding filter_conditions all_marks
IsBalanced-filters tables [] h k = returns refl
IsBalanced-filters tables (f ∷ fs) h (k, ks) =
    Returns->>= (build_filter tables f) _ (IsBalanced-filter tables f h k) (λ c _ b.
      Returns->>= (filter_conditions tables fs) _ (IsBalanced-filters tables fs h ks)
        (λ rest _ bs. returns (IsBalanced-<+> c rest b bs)))

-- A fragment that is given brings the parameters of its own question marks.
abbrev pub IsCleanRaw : RawFilter → Type 0
IsCleanRaw rf = marks rf.sql ≡ length rf.params

pub IsBalanced-raw : (rfs : List RawFilter) → All IsCleanRaw rfs → IsBalanced (raw_conditions rfs)
unfolding raw_conditions all_marks
IsBalanced-raw [] h = refl
IsBalanced-raw (rf ∷ rfs) (h, hs) =
    IsBalanced-<+> (record { frags = rf.sql ∷ []; params = rf.params }) (raw_conditions rfs)
      (omega arith) (IsBalanced-raw rfs hs)
