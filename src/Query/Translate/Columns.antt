-- ===== src/Query/Translate/Columns.antt =====
-- query/translate.go: the placeholders of the columns and the tables of a statement.
use litelog.Prelude.{
  All, ◌≡◌, refl, inl, inr, Bytes, Bool, true, false, not, List, [], ◌∷◌, map, bytes_eq, text,
  if◌then◌else◌, Bool-cases, arith,
}
use litelog.Result.{Returns, returns, Returns->>=}
use litelog.Query.Algebra.{FindMapping, TableBinding, OrderMapping}
use litelog.Query.Translate.{
  table_of, is_empty, column_of, select_columns, find_columns, build_select, from_entry, build_from,
  group_columns, order_columns,
}
use litelog.Query.Translate.Marks.{
  marks, all_marks, marks-append, all_marks-append, marks-join, marks-to_upper, IsClean,
  IsCleanTable, Ignored, table_of-clean, marks-ref_of, marks-column_of,
}

abbrev pub IsCleanFind : FindMapping → Type 0
IsCleanFind fm = IsClean fm.column × IsClean fm.aggregate

abbrev pub IsCleanOrder : OrderMapping → Type 0
IsCleanOrder om = IsClean om.column

-- Texts without question marks.
abbrev pub AreBare : List Bytes → Type 0
AreBare ss = all_marks ss ≡ 0

marks-select_columns :
    (alias : Bytes) (fm : FindMapping)
    → IsClean alias
    → IsCleanFind fm
    → AreBare (select_columns alias fm)
unfolding select_columns all_marks marks
marks-select_columns alias fm h (column, aggregate) =
    let typed =
      marks-ref_of alias (column_of fm.column fm.value_type) h
        (marks-column_of fm.column fm.value_type column) in
    elim (Bool-cases (not (is_empty fm.aggregate))) [
      | inl aggregated ↦ rw aggregated (
          simp marks-append (
            omega
              (arith, marks-column_of fm.column fm.value_type column, marks-to_upper fm.aggregate)))
      | inr plain ↦ elim (Bool-cases (bytes_eq fm.column (text "v"))) [
        | inl value ↦
            rw (plain, value) (omega (arith, typed, marks-ref_of alias (text "v_type") h refl))
        | inr other ↦ rw (plain, other) (omega (arith, typed))
      ]
    ]

marks-find_columns :
    (tables : List TableBinding) (fms : List FindMapping)
    → All IsCleanTable tables
    → All IsCleanFind fms
    → Returns Ignored AreBare (find_columns tables fms)
unfolding find_columns all_marks
marks-find_columns tables [] h k = returns refl
marks-find_columns tables (fm ∷ fms) h (k, ks) =
    Returns->>= (table_of fm.table tables) _ (table_of-clean fm.table tables h) (λ tb _ (c, _, _).
      Returns->>= (find_columns tables fms) _ (marks-find_columns tables fms h ks) (λ cols _ b.
        returns (
          omega (
            arith,
            all_marks-append (select_columns tb.alias fm) cols,
            marks-select_columns tb.alias fm c k,
          ))))

marks-distinct : (agg : Bool) → IsClean (if agg then [] else text "DISTINCT ")
unfolding marks
marks-distinct true = refl
marks-distinct false = refl

marks-direction : (desc : Bool) → IsClean (if desc then text "DESC" else text "ASC")
unfolding marks
marks-direction true = refl
marks-direction false = refl

pub marks-build_select :
    (tables : List TableBinding) (agg : Bool) (fms : List FindMapping)
    → All IsCleanTable tables
    → All IsCleanFind fms
    → Returns Ignored IsClean (build_select tables agg fms)
unfolding build_select marks
marks-build_select tables agg fms h k =
    Returns->>= (find_columns tables fms) _ (marks-find_columns tables fms h k) (λ cols _ b.
      returns
        (simp marks-append (omega (arith, marks-distinct agg, marks-join (text ", ") cols refl))))

marks-from_entry : (tb : TableBinding) → IsCleanTable tb → IsClean (from_entry tb)
unfolding from_entry marks
marks-from_entry tb (alias, table, hint) = elim (Bool-cases (is_empty tb.index_hint)) [
  | inl bare ↦ rw bare (simp marks-append (omega arith))
  | inr hinted ↦ rw hinted (simp marks-append (omega arith))
]

marks-from_entries :
    (tables : List TableBinding) → All IsCleanTable tables → AreBare (map from_entry tables)
unfolding all_marks
marks-from_entries [] h = refl
marks-from_entries (tb ∷ tables) (h, hs) =
    omega (arith, marks-from_entry tb h, marks-from_entries tables hs)

pub marks-build_from :
    (tables : List TableBinding) → All IsCleanTable tables → IsClean (build_from tables)
unfolding build_from marks
marks-build_from tables h = simp marks-append (
    omega (arith, marks-join (text ", ") (map from_entry tables) refl, marks-from_entries tables h))

pub marks-group_columns :
    (tables : List TableBinding) (fms : List FindMapping)
    → All IsCleanTable tables
    → All IsCleanFind fms
    → Returns Ignored AreBare (group_columns tables fms)
unfolding group_columns all_marks
marks-group_columns tables [] h k = returns refl
marks-group_columns tables (fm ∷ fms) h (k, ks) = elim (Bool-cases (is_empty fm.aggregate)) [
  | inl plain ↦ rw plain (
      Returns->>= (table_of fm.table tables) _ (table_of-clean fm.table tables h) (λ tb _ (c, _, _).
        Returns->>= (group_columns tables fms) _ (marks-group_columns tables fms h ks)
          (λ cols _ b. returns (omega (arith, marks-ref_of tb.alias fm.column c k.0)))))
  | inr aggregated ↦ rw aggregated (marks-group_columns tables fms h ks)
]

pub marks-order_columns :
    (tables : List TableBinding) (oms : List OrderMapping)
    → All IsCleanTable tables
    → All IsCleanOrder oms
    → Returns Ignored AreBare (order_columns tables oms)
unfolding order_columns all_marks marks
marks-order_columns tables [] h k = returns refl
marks-order_columns tables (om ∷ oms) h (k, ks) =
    Returns->>= (table_of om.table tables) _ (table_of-clean om.table tables h) (λ tb _ (c, _, _).
      Returns->>= (order_columns tables oms) _ (marks-order_columns tables oms h ks)
        (λ cols _ b. returns (simp marks-append (omega (arith, marks-direction om.desc)))))
