-- ===== src/Query/Translate/Selected.antt =====
-- query/translate.go: the names of the columns that the SELECT has for a find element.
use litelog.Prelude.{
  not, ◌==◌, ◌&&◌, arith, ◌≡◌, refl, inl, inr, Bytes, true, false, List, [], ◌∷◌, map, bytes_eq,
  text, if◌then◌else◌, Bool-cases,
}
use litelog.Query.Algebra.{FindMapping, typed_column}
use litelog.Query.Translate.{typed_or, is_empty, column_of, ref_of, select_columns}

unfoldable pub selected : FindMapping → List Bytes
selected fm =
    if bytes_eq fm.column (text "v")
    then column_of fm.column fm.value_type ∷ text "v_type" ∷ []
    else column_of fm.column fm.value_type ∷ []

pub select_columns-selected :
    (alias : Bytes) (fm : FindMapping)
    → is_empty fm.aggregate ≡ true
    → select_columns alias fm ≡ map (ref_of alias) (selected fm)
unfolding select_columns selected
select_columns-selected alias fm h = elim (Bool-cases (bytes_eq fm.column (text "v"))) [
  | inl value ↦ rw (h, value) refl
  | inr other ↦ rw (h, other) refl
]

-- A column that is not `v` is selected under its own name, and `v` under that of the typed column.
pub selected-other :
    (fm : FindMapping) → bytes_eq fm.column (text "v") ≡ false → selected fm ≡ fm.column ∷ []
unfolding selected column_of
selected-other fm h = rw h refl

typed_or-empty : (tc col : Bytes) → is_empty tc ≡ true → typed_or tc col ≡ col
typed_or-empty [] col h = refl
typed_or-empty (b ∷ tc) col h = cc

typed_or-typed : (tc col : Bytes) → is_empty tc ≡ false → typed_or tc col ≡ tc
typed_or-typed [] col h = cc
typed_or-typed (b ∷ tc) col h = refl

-- A value whose type is not known, or has no typed column, is selected as it is, and else as its
-- typed column.
pub selected-blob :
    (fm : FindMapping)
    → fm.column ≡ text "v"
    → (not (fm.value_type == 0) && not (is_empty (typed_column fm.value_type))) ≡ false
    → selected fm ≡ text "v" ∷ text "v_type" ∷ []
unfolding selected column_of bytes_eq
selected-blob fm q h = elim (Bool-cases (fm.value_type == 0)) [
  | inl unknown ↦ rw (q, unknown) refl
  | inr known ↦ elim (Bool-cases (is_empty (typed_column fm.value_type))) [
    | inl empty ↦ rw (q, known, typed_or-empty (typed_column fm.value_type) (text "v") empty) refl
    | inr typed ↦ ground (arith, known, typed, h)
  ]
]

pub selected-typed :
    (fm : FindMapping)
    → fm.column ≡ text "v"
    → (fm.value_type == 0) ≡ false
    → is_empty (typed_column fm.value_type) ≡ false
    → selected fm ≡ typed_column fm.value_type ∷ text "v_type" ∷ []
unfolding selected column_of bytes_eq
selected-typed fm q h k = rw (q, h, typed_or-typed (typed_column fm.value_type) (text "v") k) refl
