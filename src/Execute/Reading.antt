-- ===== src/Execute/Reading.antt =====
-- query_api.go and query/translate.go: what is read from a row is what the SELECT put there.
use litelog.Prelude.{
  ◌≡◌, refl, sym, ap, ◌∙◌, ◌⊎◌, inl, inr, Bytes, Bool, true, false, not, ◌&&◌, List, [], ◌∷◌, ◌++◌,
  ◌==◌, map, bytes_eq, bytes_eq_iff, text, if◌then◌else◌, Bool-cases, arith,
}
use litelog.Result.{ok}
use litelog.Types.{
  is_nan, GoValue, int64, int, string, float64, bool, time, ValueType, type_int, type_string,
  type_float, type_bool, type_ref, type_inst,
}
use litelog.Values.{encode_value, decode_value}
use litelog.Values.RoundTrip.{stored, decode_value-encode_value}
use litelog.Store.{CurrentRow}
use litelog.Transact.{bind_typed_columns}
use litelog.TypedRead.{read_typed_column}
use litelog.TypedRead.Agree.{kept}
use litelog.Query.Algebra.{typed_column, FindMapping}
use litelog.Query.Translate.{is_empty, select_columns, ref_of}
use litelog.Query.Translate.Selected.{
  selected, selected-other, selected-blob, selected-typed, select_columns-selected,
}
use litelog.Compile.{number_of, type_of_number}
use litelog.Execute.{SqlValue, sql_int, sql_blob, Cell, typed_view, read_column, col_info, read_row}
use litelog.Execute.Rows.{column_value, Holds, IsCells}

-- Is the value selected from a typed column?
abbrev pub is_typed : FindMapping → Bool
is_typed fm = not (fm.value_type == 0) && not (is_empty (typed_column fm.value_type))

-- What a find element asks of a row that holds a value.
unfoldable pub asked : FindMapping → CurrentRow → GoValue → GoValue
asked fm r v =
    if bytes_eq fm.column (text "v")
    then (if is_typed fm then kept (stored v) else stored v)
    else if bytes_eq fm.column (text "e")
    then int64 r.e
    else if bytes_eq fm.column (text "a")
    then int64 r.a
    else int64 r.tx

type_of_number-number_of :
    (v : GoValue) (t : ValueType) (bs : Bytes)
    → encode_value v t ≡ ok bs
    → type_of_number (number_of t) ≡ t
unfolding encode_value type_of_number number_of
type_of_number-number_of v t bs e = ground (arith, e)

-- A typed column is read as the value that is held.
typed-stored :
    (cell_of : SqlValue → Cell) (v : GoValue) (t : ValueType) (r : CurrentRow)
    → IsCells cell_of
    → encode_value v t ≡ ok r.v
    → r.typed ≡ bind_typed_columns v t
    → is_empty (typed_column (number_of t)) ≡ false
    → read_typed_column (typed_view (cell_of (column_value (typed_column (number_of t)) r))) t
      ≡ kept (stored v)
unfolding encode_value bind_typed_columns number_of typed_column column_value bytes_eq
    read_typed_column
typed-stored cell_of (int64 n) type_int r k e h c = rw h (ap int64 (k.int_as_int n))
typed-stored cell_of (int n) type_int r k e h c = rw h (ap int64 (k.int_as_int n))
typed-stored cell_of (int64 n) type_ref r k e h c = rw h (ap int64 (k.int_as_int n))
typed-stored cell_of (int n) type_ref r k e h c = rw h (ap int64 (k.int_as_int n))
typed-stored cell_of (string s) type_string r k e h c = rw h (ap string (k.text_as_text s))
typed-stored cell_of (float64 f) type_float r k e h c = rw h (elim (Bool-cases (is_nan f)) [
  | inl nan ↦ rw nan (ap float64 k.null_as_float)
  | inr number ↦ rw number (ap float64 (k.float_as_float _))
])
typed-stored cell_of (bool true) type_bool r k e h c =
    rw h (ap (λ n. bool (not (n == 0))) (k.int_as_int 1))
typed-stored cell_of (bool false) type_bool r k e h c =
    rw h (ap (λ n. bool (not (n == 0))) (k.int_as_int 0))
typed-stored cell_of (time ms ns) type_inst r k e h c = rw h (ap (λ n. time n 0) (k.int_as_int ms))
typed-stored cell_of v t r k e h c = ground (arith, e, c)

-- The cells of a find element, for its row.
abbrev pub cells_of : (SqlValue → Cell) → FindMapping → CurrentRow → List Cell
cells_of cell_of fm r = map (λ name. cell_of (column_value name r)) (selected fm)

-- A find element that is no aggregate, for a column of the row, whose type is that of the row or not
-- known.
pub record Fits (fm : FindMapping) (r : CurrentRow) (v : GoValue) : Type 0 where
  pub holds : Holds r v
  pub plain : is_empty fm.aggregate ≡ true
  pub named :
      (bytes_eq fm.column (text "v") ≡ true)
      ⊎ (fm.column ≡ text "e")
      ⊎ (fm.column ≡ text "a")
      ⊎ (fm.column ≡ text "tx")
  pub typed : (fm.value_type ≡ 0) ⊎ (fm.value_type ≡ number_of r.v_type)

-- The blob is read as the value that is held.
blob-stored :
    (cell_of : SqlValue → Cell) (v : GoValue) (r : CurrentRow)
    → IsCells cell_of
    → Holds r v
    → decode_value
        (cell_of (sql_blob r.v)).as_blob
        (type_of_number (cell_of (sql_int (number_of r.v_type))).as_int)
      ≡ ok (stored v)
blob-stored cell_of v r k h =
    rw
      (
        k.blob_as_blob r.v,
        k.int_as_int (number_of r.v_type),
        type_of_number-number_of v r.v_type r.v h.encoded,
      )
      (decode_value-encode_value v r.v_type r.v h.in_range h.encoded)

read_column-named :
    (cell_of : SqlValue → Cell) (fm : FindMapping) (r : CurrentRow) (v : GoValue) (rest : List Cell)
    → IsCells cell_of
    → Fits fm r v
    → bytes_eq fm.column (text "v") ≡ false
    → read_column fm (cells_of cell_of fm r ++ rest) ≡ ok (asked fm r v, rest)
unfolding read_column col_info asked column_value bytes_eq
read_column-named cell_of fm r v rest k f unlike =
    let names = selected-other fm unlike in
    elim f.named [
      | inl value ↦ cc
      | inr (inl q) ↦ rw (f.plain, names, q, k.int_as_int r.e) refl
      | inr (inr (inl q)) ↦ rw (f.plain, names, q, k.int_as_int r.a) refl
      | inr (inr (inr q)) ↦ rw (f.plain, names, q, k.int_as_int r.tx) refl
    ]

read_column-blob :
    (cell_of : SqlValue → Cell) (fm : FindMapping) (r : CurrentRow) (v : GoValue) (rest : List Cell)
    → IsCells cell_of
    → Fits fm r v
    → fm.column ≡ text "v"
    → is_typed fm ≡ false
    → read_column fm (cells_of cell_of fm r ++ rest) ≡ ok (asked fm r v, rest)
unfolding read_column col_info asked column_value bytes_eq
read_column-blob cell_of fm r v rest k f q untyped =
    rw (f.plain, selected-blob fm q untyped, q, untyped, blob-stored cell_of v r k f.holds) refl

read_column-typed :
    (cell_of : SqlValue → Cell) (fm : FindMapping) (r : CurrentRow) (v : GoValue) (rest : List Cell)
    → IsCells cell_of
    → Fits fm r v
    → fm.column ≡ text "v"
    → fm.value_type ≡ number_of r.v_type
    → (fm.value_type == 0) ≡ false
    → is_empty (typed_column fm.value_type) ≡ false
    → read_column fm (cells_of cell_of fm r ++ rest) ≡ ok (asked fm r v, rest)
unfolding read_column col_info asked bytes_eq
read_column-typed cell_of fm r v rest k f q t known typed =
    let typed' : is_empty (typed_column (number_of r.v_type)) ≡ false =
      ap (λ n. is_empty (typed_column n)) (sym t) ∙ typed in
    let known' : (number_of r.v_type == 0) ≡ false = ap (λ n. n == 0) (sym t) ∙ known in
    rw
      (
        f.plain,
        selected-typed fm q known typed,
        q,
        t,
        known',
        typed',
        type_of_number-number_of v r.v_type r.v f.holds.encoded,
        typed-stored cell_of v r.v_type r k f.holds.encoded f.holds.typed typed',
      )
      refl

read_column-asked :
    (cell_of : SqlValue → Cell) (fm : FindMapping) (r : CurrentRow) (v : GoValue) (rest : List Cell)
    → IsCells cell_of
    → Fits fm r v
    → read_column fm (cells_of cell_of fm r ++ rest) ≡ ok (asked fm r v, rest)
read_column-asked cell_of fm r v rest k f = elim (Bool-cases (bytes_eq fm.column (text "v"))) [
  | inr unlike ↦ read_column-named cell_of fm r v rest k f unlike
  | inl value ↦
      let q : fm.column ≡ text "v" = (bytes_eq_iff fm.column (text "v")).0 value in
      elim (Bool-cases (fm.value_type == 0)) [
        | inl unknown ↦ read_column-blob cell_of fm r v rest k f q (ground (arith, unknown))
        | inr known ↦ elim (Bool-cases (is_empty (typed_column fm.value_type))) [
          | inl empty ↦ read_column-blob cell_of fm r v rest k f q (ground (arith, known, empty))
          | inr typed ↦ elim f.typed [
            | inl zero_type ↦ ground (arith, zero_type, known)
            | inr t ↦ read_column-typed cell_of fm r v rest k f q t known typed
          ]
        ]
      ]
]

-- A row of a result: for each find element the row of its table, under the table's alias, with the
-- value that it holds.
pub record Source : Type 0 where
  pub alias : Bytes
  pub row : CurrentRow
  pub value : GoValue

pub data AllFit : List FindMapping → List Source → Type 0 where
  none_fit : AllFit [] []
  also_fits :
      {fm : FindMapping} {s : Source} {fms : List FindMapping} {ss : List Source}
      → Fits fm s.row s.value
      → AllFit fms ss
      → AllFit (fm ∷ fms) (s ∷ ss)

-- The texts of the SELECT's columns, and SQLite's cells for them.
unfoldable pub column_texts : List FindMapping → List Source → List Bytes
column_texts (fm ∷ fms) (s ∷ ss) = map (ref_of s.alias) (selected fm) ++ column_texts fms ss
column_texts fms ss = []

unfoldable pub row_cells : (SqlValue → Cell) → List FindMapping → List Source → List Cell
row_cells cell_of (fm ∷ fms) (s ∷ ss) = cells_of cell_of fm s.row ++ row_cells cell_of fms ss
row_cells cell_of fms ss = []

unfoldable pub row_asked : List FindMapping → List Source → List GoValue
row_asked (fm ∷ fms) (s ∷ ss) = asked fm s.row s.value ∷ row_asked fms ss
row_asked fms ss = []

unfoldable pub select_all : List FindMapping → List Source → List Bytes
select_all (fm ∷ fms) (s ∷ ss) = select_columns s.alias fm ++ select_all fms ss
select_all fms ss = []

-- The translator selects, and the executor reads: with a cell for each column that the SELECT has
-- for the find elements, in that order and with the value that the named column has in the row of
-- the element's table, the row that is read back holds the values asked for, whether they come
-- from blobs or from typed columns, which keep a NaN and -0.0 as 0.0. The find elements are no
-- aggregates, each is for a column of its table, of the row's type or of no known type, and the rows
-- hold values as transactions write them.
pub read_row-select_columns :
    (cell_of : SqlValue → Cell) (fms : List FindMapping) (ss : List Source)
    → IsCells cell_of
    → AllFit fms ss
    → (select_all fms ss ≡ column_texts fms ss)
      × (read_row fms (row_cells cell_of fms ss) ≡ ok (row_asked fms ss))
unfolding read_row select_all column_texts row_cells row_asked
read_row-select_columns cell_of [] [] k none_fit = (refl, refl)
read_row-select_columns cell_of [] (s ∷ ss) k fit = elim fit [ ]
read_row-select_columns cell_of (fm ∷ fms) [] k fit = elim fit [ ]
read_row-select_columns cell_of (fm ∷ fms) (s ∷ ss) k (also_fits f fs) =
    let (texts, values) = read_row-select_columns cell_of fms ss k fs in
    (
      rw (select_columns-selected s.alias fm f.plain, texts) refl,
      rw (read_column-asked cell_of fm s.row s.value (row_cells cell_of fms ss) k f, values) refl,
    )
