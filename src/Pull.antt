-- ===== src/Pull.antt =====
-- pull.go: patterns, results, and the pull of all attributes. Both of `DB` and of `DBView`: these differ in
-- the rows that their statements select, which are a parameter here.
pub mod Rows
pub mod Specific
pub mod Depth
use litelog.Prelude.{
  ℕ, zero, suc, Bytes, Bool, true, false, Option, none, some, List, [], ◌∷◌, bytes_eq, text,
  if◌then◌else◌,
}
use litelog.Result.{Result, ok, err, ◌>>=◌, pull_too_deep, not_a_list, out_of_fuel}
use litelog.Types.{GoValue, int64, ValueType, type_ref, value_type_eq, card_many, cardinality_eq}
use litelog.Store.{CachedAttribute}
use litelog.Schema.{SchemaCache, get_by_id}

-- `PullPattern` and `PullAttr`. A pattern is finite: it does not point back into itself.
mutual
  pub data PullPattern : Type 0 where
    pull_pattern : (wildcard : Bool) → PullAttrs → PullPattern

  pub data PullAttrs : Type 0 where
    no_attrs : PullAttrs
    pull_attr : (ident : Bytes) → Nested → (as_alias : Bytes) → PullAttrs → PullAttrs

  pub data Nested : Type 0 where
    no_nested : Nested
    nested : PullPattern → Nested

abbrev pub pull_wildcard_pattern : PullPattern
pull_wildcard_pattern = pull_pattern true no_attrs

pub attrs_of : List Bytes → PullAttrs
attrs_of [] = no_attrs
attrs_of (ident ∷ idents) = pull_attr ident no_nested [] (attrs_of idents)

-- `PullAttrs`, the function
pub pull_attrs_pattern : List Bytes → PullPattern
pull_attrs_pattern idents = pull_pattern false (attrs_of idents)

-- `PullResult`, a map in the order of first writes, with the three kinds of its values.
mutual
  pub data PullValue : Type 0 where
    pulled : GoValue → PullValue
    pulled_many : PullValues → PullValue
    pulled_entity : PullResult → PullValue

  pub data PullValues : Type 0 where
    no_values : PullValues
    value_and : PullValue → PullValues → PullValues

  pub data PullResult : Type 0 where
    no_entries : PullResult
    entry : Bytes → PullValue → PullResult → PullResult

-- `append(vals, val)`
unfoldable pub append_value : PullValues → PullValue → PullValues
append_value no_values v = value_and v no_values
append_value (value_and w ws) v = value_and w (append_value ws v)

unfoldable pub put_entry : Bytes → PullValue → PullResult → PullResult
put_entry key v no_entries = entry key v no_entries
put_entry key v (entry k w rest) =
    let behind = put_entry key v rest in
    if bytes_eq k key then entry key v rest else entry k w behind

unfoldable pub get_entry : Bytes → PullResult → Option PullValue
get_entry key no_entries = none
get_entry key (entry k w rest) = if bytes_eq k key then some w else get_entry key rest

-- `result[":db/id"] = eid`
abbrev pub start_result : ℕ → PullResult
start_result eid = entry (text ":db/id") (pulled (int64 eid)) no_entries

-- `append(existing.([]any), val)`, whose panic on a value of another type is an error here.
unfoldable pub append_existing : Option PullValue → PullValue → Result PullValue
append_existing none v = ok (pulled_many (value_and v no_values))
append_existing (some (pulled_many vs)) v = ok (pulled_many (append_value vs v))
append_existing (some _) v = err not_a_list

abbrev pub is_many : CachedAttribute → Bool
is_many attr = cardinality_eq attr.cardinality card_many

abbrev pub is_ref : CachedAttribute → Bool
is_ref attr = value_type_eq attr.value_type type_ref

unfoldable pub add_value : CachedAttribute → PullValue → PullResult → Result PullResult
add_value attr v result =
    let many =
      append_existing (get_entry attr.ident result) v >>= λ w. ok (put_entry attr.ident w result) in
    if is_many attr then many else ok (put_entry attr.ident v result)

-- A nested pull that fails leaves the ID; a panic is not an error that is returned, nor is the end of
-- fuel.
unfoldable pub nested_or_id : ℕ → Result PullResult → Result PullValue
nested_or_id ref_id (ok r) = ok (pulled_entity r)
nested_or_id ref_id (err not_a_list) = err not_a_list
nested_or_id ref_id (err out_of_fuel) = err out_of_fuel
nested_or_id ref_id (err e) = ok (pulled (int64 ref_id))

-- A value that is a reference is pulled.
unfoldable pub follow : (ℕ → Result PullResult) → CachedAttribute → GoValue → Result PullValue
follow pull attr (int64 ref_id) =
    let followed = nested_or_id ref_id (pull ref_id) in
    if is_ref attr then followed else ok (pulled (int64 ref_id))
follow pull attr v = ok (pulled v)

-- The loop over the rows that have been read; an attribute that the cache does not know is skipped.
unfoldable pub add_rows :
    (ℕ → Result PullResult) → SchemaCache → List (ℕ × GoValue) → PullResult → Result PullResult
add_rows pull cache [] result = ok result
add_rows pull cache ((attr_id, v) ∷ rows) result = elim (get_by_id cache attr_id) [
  | none ↦ add_rows pull cache rows result
  | some attr ↦
      follow pull attr v >>= λ w. add_value attr w result >>= λ r. add_rows pull cache rows r
]

-- `pullWildcard` and `pullWildcardTemporal`, where `read eid` are the attributes and the values of the
-- entity's rows, or the error of a value that does not decode. All rows are read before any is followed.
-- `left` is `maxPullDepth + 1 - depth`.
unfoldable pub pull_wildcard :
    SchemaCache → (ℕ → Result (List (ℕ × GoValue))) → ℕ → ℕ → Result PullResult
pull_wildcard cache read zero eid = err pull_too_deep
pull_wildcard cache read (suc left) eid =
    let pull = pull_wildcard cache read left in
    read eid >>= λ rows. add_rows pull cache rows (start_result eid)

abbrev pub max_pull_depth : ℕ
max_pull_depth = 16
