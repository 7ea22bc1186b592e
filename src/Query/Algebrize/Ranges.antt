-- ===== src/Query/Algebrize/Ranges.antt =====
-- query/algebrize.go: the tables that locations, and what is resolved by them, name.
use litelog.Prelude.{
  ℕ, ◌+◌, ◌≤◌, ◌<◌, ◌≡◌, refl, ◌∙◌, inl, inr, Bytes, not, ◌&&◌, List, [], ◌∷◌, ◌++◌, ◌==◌, length,
  length-append, lookup, insert, bytes_key, bytes_eq, Bool-cases, arith, All,
}
use litelog.Result.{Error, Result, ok, err, Returns, returns, fails, Returns->>=}
use litelog.Query.Ast.{PatternElem, Pattern}
use litelog.Query.Algebra.{TableRef, table_input, table_at, JoinCondition}
use litelog.Query.Algebrize.{
  SchemaLookup, VarLocation, Algebrizer, locations, record_var, is_variable, note_elem, infer_type,
  note_pattern, named_attribute, bound_of, add_pattern, real_locations, joins_with,
  joins_of_variable, build_joins, keep_real, first_of, first_location, table_of_pattern,
}

abbrev pub Ignored : Error → Type 0
Ignored e = Unit {0}

-- The mark of an input, or one of the first `n` tables.
abbrev pub IsBelow : ℕ → TableRef → Type 0
IsBelow n table_input = Unit {0}
IsBelow n (table_at i) = i < n

-- One of the first `n` tables.
abbrev pub IsTable : ℕ → TableRef → Type 0
IsTable n table_input = ⊥
IsTable n (table_at i) = i < n

abbrev pub LocationsBelow : ℕ → List VarLocation → Type 0
LocationsBelow n locs = All (λ l. IsBelow n l.table) locs

abbrev pub MapBelow : ℕ → List (Bytes × List VarLocation) → Type 0
MapBelow n m = All (λ entry. LocationsBelow n entry.1) m

IsBelow-mono : (m n : ℕ) (r : TableRef) → m ≤ n → IsBelow m r → IsBelow n r
IsBelow-mono m n table_input le h = tt
IsBelow-mono m n (table_at i) le h = omega arith

LocationsBelow-mono :
    (m n : ℕ) (locs : List VarLocation) → m ≤ n → LocationsBelow m locs → LocationsBelow n locs
LocationsBelow-mono m n [] le h = tt
LocationsBelow-mono m n (l ∷ locs) le (h, hs) =
    (IsBelow-mono m n l.table le h, LocationsBelow-mono m n locs le hs)

pub MapBelow-mono :
    (m n : ℕ) (vars : List (Bytes × List VarLocation)) → m ≤ n → MapBelow m vars → MapBelow n vars
MapBelow-mono m n [] le h = tt
MapBelow-mono m n ((v, locs) ∷ vars) le (h, hs) =
    (LocationsBelow-mono m n locs le h, MapBelow-mono m n vars le hs)

LocationsBelow-append :
    (n : ℕ) (xs ys : List VarLocation)
    → LocationsBelow n xs
    → LocationsBelow n ys
    → LocationsBelow n (xs ++ ys)
LocationsBelow-append n [] ys h k = k
LocationsBelow-append n (x ∷ xs) ys (h, hs) k = (h, LocationsBelow-append n xs ys hs k)

pub locations-Below :
    (n : ℕ) (v : Bytes) (vars : List (Bytes × List VarLocation))
    → MapBelow n vars
    → LocationsBelow n (locations v vars)
unfolding locations lookup
locations-Below n v [] h = tt
locations-Below n v ((key, locs) ∷ vars) (h, hs) = elim (Bool-cases (bytes_eq key v)) [
  | inl same ↦ rw (same, locations) h
  | inr other ↦ rw (other, locations) (locations-Below n v vars hs)
]

pub insert-Below :
    (n : ℕ) (v : Bytes) (locs : List VarLocation) (vars : List (Bytes × List VarLocation))
    → MapBelow n vars
    → LocationsBelow n locs
    → MapBelow n (insert v locs vars)
unfolding insert
insert-Below n v locs [] h k = (k, tt)
insert-Below n v locs ((key, old) ∷ vars) (h, hs) k = elim (Bool-cases (bytes_eq key v)) [
  | inl same ↦ rw same (k, hs)
  | inr other ↦ rw other (h, insert-Below n v locs vars hs k)
]

note_elem-Below :
    (p : PatternElem) (n idx : ℕ) (column : Bytes) (st : Algebrizer)
    → idx < n
    → MapBelow n st.var_map
    → MapBelow n (note_elem p idx column st).var_map
unfolding note_elem record_var
note_elem-Below p n idx column st le h = elim (Bool-cases (is_variable p)) [
  | inl variable ↦ rw variable (
      insert-Below n p.variable _ st.var_map h (
        LocationsBelow-append n (locations p.variable st.var_map) _
          (locations-Below n p.variable st.var_map h) (le, tt)))
  | inr other ↦ rw other h
]

note_elem-tables :
    (p : PatternElem) (idx : ℕ) (column : Bytes) (st : Algebrizer)
    → (note_elem p idx column st).tables ≡ st.tables
unfolding note_elem record_var
note_elem-tables p idx column st = elim (Bool-cases (is_variable p)) [
  | inl variable ↦ rw variable refl
  | inr other ↦ rw other refl
]

infer_type-keeps :
    (p : PatternElem) (t : ℕ) (st : Algebrizer)
    → ((infer_type p t st).var_map ≡ st.var_map) × ((infer_type p t st).tables ≡ st.tables)
unfolding infer_type
infer_type-keeps p t st = elim (Bool-cases (is_variable p && not (t == 0))) [
  | inl known ↦ rw known (refl, refl)
  | inr other ↦ rw other (refl, refl)
]

note_pattern-Below :
    (p : Pattern) (n idx t : ℕ) (st : Algebrizer)
    → idx < n
    → MapBelow n st.var_map
    → MapBelow n (note_pattern p idx t st).var_map
unfolding note_pattern
note_pattern-Below p n idx t st le h =
    let e = note_elem p.e idx _ st in
    let a = note_elem p.a idx _ e in
    let v = note_elem p.v idx _ a in
    note_elem-Below p.tx n idx _ (infer_type p.v t v) le (
      rw (infer_type-keeps p.v t v).0 (
        note_elem-Below p.v n idx _ a le
          (note_elem-Below p.a n idx _ e le (note_elem-Below p.e n idx _ st le h))))

note_pattern-tables :
    (p : Pattern) (idx t : ℕ) (st : Algebrizer) → (note_pattern p idx t st).tables ≡ st.tables
unfolding note_pattern
note_pattern-tables p idx t st =
    let e = note_elem p.e idx _ st in
    let a = note_elem p.a idx _ e in
    let v = note_elem p.v idx _ a in
    note_elem-tables p.tx idx _ (infer_type p.v t v)
    ∙ (infer_type-keeps p.v t v).1
    ∙ note_elem-tables p.v idx _ a
    ∙ note_elem-tables p.a idx _ e
    ∙ note_elem-tables p.e idx _ st

-- Every location is that of an input or of a table that there is.
abbrev pub IsMapped : Algebrizer → Type 0
IsMapped st = MapBelow (length st.tables) st.var_map

pub any_result {ℓ} : {A : Type ℓ} (m : Result A) → Returns Ignored (λ _. Unit {0}) m
any_result (ok a) = returns tt
any_result (err e) = fails tt

pub add_pattern-IsMapped :
    (schema : SchemaLookup) (p : Pattern) (st : Algebrizer)
    → IsMapped st
    → Returns Ignored IsMapped (add_pattern schema p st)
unfolding add_pattern
add_pattern-IsMapped schema p st h =
    Returns->>= (named_attribute schema (bound_of p.a)) _
      (any_result (named_attribute schema (bound_of p.a)))
      (λ info _ _.
        let idx = length st.tables in
        let tb = table_of_pattern idx p info in
        let noted = note_pattern p idx tb.value_type st in
        let same : noted.tables ≡ st.tables = note_pattern-tables p idx tb.value_type st in
        returns (
          rw (same, length-append st.tables (record tb { index_hint = _ } ∷ []))
            (note_pattern-Below p (idx + 1) idx tb.value_type st (omega arith)
              (MapBelow-mono idx (idx + 1) st.var_map (omega arith) h))))

first_of-Below :
    (n : ℕ) (locs : List VarLocation)
    → LocationsBelow n locs
    → Returns Ignored (λ l. IsBelow n l.table) (first_of locs)
unfolding first_of
first_of-Below n [] h = fails tt
first_of-Below n (l ∷ locs) (h, hs) = returns h

-- The first location of a variable.
pub first_location-Below :
    (v : Bytes) (st : Algebrizer)
    → IsMapped st
    → Returns Ignored (λ l. IsBelow (length st.tables) l.table) (first_location v st)
unfolding first_location
first_location-Below v st h =
    first_of-Below (length st.tables) (locations v st.var_map)
      (locations-Below (length st.tables) v st.var_map h)

-- The joins of a query go between its tables.
abbrev pub IsJoinBelow : ℕ → JoinCondition → Type 0
IsJoinBelow n jc = IsTable n jc.left_table × IsTable n jc.right_table

keep_real-IsTable :
    (n : ℕ) (r : TableRef) (l : VarLocation) (rest : List VarLocation)
    → l.table ≡ r
    → IsBelow n r
    → All (λ k. IsTable n k.table) rest
    → All (λ k. IsTable n k.table) (keep_real r l rest)
unfolding keep_real
keep_real-IsTable n table_input l rest e h hs = hs
keep_real-IsTable n (table_at i) l rest e h hs = (rw e h, hs)

real_locations-IsTable :
    (n : ℕ) (locs : List VarLocation)
    → LocationsBelow n locs
    → All (λ l. IsTable n l.table) (real_locations locs)
unfolding real_locations
real_locations-IsTable n [] h = tt
real_locations-IsTable n (l ∷ locs) (h, hs) =
    keep_real-IsTable n l.table l (real_locations locs) refl h (real_locations-IsTable n locs hs)

joins_with-Below :
    (n : ℕ) (v : Bytes) (first : VarLocation) (locs : List VarLocation)
    → IsTable n first.table
    → All (λ l. IsTable n l.table) locs
    → All (IsJoinBelow n) (joins_with v first locs)
unfolding joins_with
joins_with-Below n v first [] h k = tt
joins_with-Below n v first (l ∷ locs) h (k, ks) = ((h, k), joins_with-Below n v first locs h ks)

joins_of_variable-Below :
    (n : ℕ) (v : Bytes) (locs : List VarLocation)
    → All (λ l. IsTable n l.table) locs
    → All (IsJoinBelow n) (joins_of_variable v locs)
unfolding joins_of_variable
joins_of_variable-Below n v [] h = tt
joins_of_variable-Below n v (l ∷ locs) (h, hs) = joins_with-Below n v l locs h hs

joins-append :
    (n : ℕ) (xs ys : List JoinCondition)
    → All (IsJoinBelow n) xs
    → All (IsJoinBelow n) ys
    → All (IsJoinBelow n) (xs ++ ys)
joins-append n [] ys h k = k
joins-append n (x ∷ xs) ys (h, hs) k = (h, joins-append n xs ys hs k)

pub build_joins-Below :
    (n : ℕ) (vars : List (Bytes × List VarLocation))
    → MapBelow n vars
    → All (IsJoinBelow n) (build_joins vars)
unfolding build_joins
build_joins-Below n [] h = tt
build_joins-Below n ((v, locs) ∷ vars) (h, hs) =
    joins-append n (joins_of_variable v (real_locations locs)) (build_joins vars)
      (joins_of_variable-Below n v (real_locations locs) (real_locations-IsTable n locs h))
      (build_joins-Below n vars hs)
