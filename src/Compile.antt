-- ===== src/Compile.antt =====
-- query_api.go: from the text of a query and its arguments to an SQL statement, in the steps of
-- `compileQuery`: the schema that the algebrizer sees, the binding of inputs, the move to a temporal
-- view and the encoding of parameters.
pub mod Inputs
pub mod Views
pub mod Params
pub mod Whole
pub mod Tests
use litelog.Prelude.{ℕ, Bytes, Option, none, some, ◌==◌, if◌then◌else◌}
use litelog.Result.{Result, ok, ◌>>=◌}
use litelog.Types.{
  GoValue, bytes, other, ValueType, type_int, type_string, type_float, type_bool, type_ref,
  type_bytes, type_inst, type_other, Cardinality, card_one, card_many, card_other,
}
use litelog.Values.{encode_value}
use litelog.Store.{CachedAttribute}
use litelog.Schema.{SchemaCache, get_by_ident}
use litelog.Query.Algebra.{typed_column}
use litelog.Query.Algebrize.{AttrInfo, SchemaLookup}
use litelog.Query.Translate.{is_empty}

-- `int(ValueType)` and `ValueType(int)`
unfoldable pub number_of : ValueType → ℕ
number_of type_int = 1
number_of type_string = 2
number_of type_float = 3
number_of type_bool = 4
number_of type_ref = 5
number_of type_bytes = 6
number_of type_inst = 7
number_of (type_other n) = n

unfoldable pub type_of_number : ℕ → ValueType
type_of_number n =
    if n == 1
    then type_int
    else if n == 2
    then type_string
    else if n == 3
    then type_float
    else if n == 4
    then type_bool
    else if n == 5
    then type_ref
    else if n == 6
    then type_bytes
    else if n == 7
    then type_inst
    else type_other n

abbrev cardinality_number : Cardinality → ℕ
cardinality_number card_one = 1
cardinality_number card_many = 2
cardinality_number (card_other n) = n

pub attr_info : CachedAttribute → AttrInfo
attr_info ca = record {
  id = ca.id;
  ident = ca.ident;
  value_type = number_of ca.value_type;
  cardinality = cardinality_number ca.cardinality;
  indexed = ca.indexed;
  unique = ca.unique;
}

-- `schemaAdapter.LookupAttribute`
pub schema_adapter : SchemaCache → SchemaLookup
schema_adapter cache ident = elim (get_by_ident cache ident) [
  | none ↦ none
  | some ca ↦ some (attr_info ca)
]

-- `encodeValue` of an `any`: nil fails its type assertions as a value of another type does.
unfoldable pub encode_any : Option GoValue → ℕ → Result Bytes
encode_any none vtype = encode_value other (type_of_number vtype)
encode_any (some v) vtype = encode_value v (type_of_number vtype)

-- A value to compare with a column of the type: encoded, unless that has a typed column.
unfoldable pub encode_untyped : Option GoValue → ℕ → Result (Option GoValue)
encode_untyped v vtype =
    let encoded = encode_any v vtype in
    if is_empty (typed_column vtype) then (encoded >>= λ b. ok (some (bytes b))) else ok v
