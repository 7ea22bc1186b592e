-- ===== src/Types.antt =====
-- types.go: value types, schema entries, datoms and transaction input. Go strings are their bytes.
-- A 64-bit number is held as its bit pattern, a number below 2 ^ 64.
use litelog.Prelude.{
  ℕ, ◌^◌, Bytes, Bool, true, false, Option, List, ◌==◌, ◌*◌, ◌/◌, ◌%◌, ltb, if◌then◌else◌,
}

abbrev pub word64 : ℕ
word64 = 2 ^ 64

-- `bits & (1<<63) != 0`
abbrev pub sign_bit : ℕ → Bool
sign_bit bits = bits / 2 ^ 63 % 2 == 1

-- The numbers that 64-bit patterns stand for, in order: a negative one has the top bit set.
abbrev pub signed_lt : ℕ → ℕ → Bool
signed_lt m n =
    if sign_bit m
    then (if sign_bit n then ltb m n else true)
    else (if sign_bit n then false else ltb m n)

-- The pattern of a NaN: all bits of the exponent are set, and some of the fraction.
abbrev pub is_nan : ℕ → Bool
is_nan bits = ltb (2047 * 2 ^ 52) (bits % 2 ^ 63)

-- The seven named value types; `type_other n` is any other value of Go's integer type `ValueType`.
pub data ValueType : Type 0 where
  type_int type_string type_float type_bool type_ref type_bytes type_inst : ValueType
  type_other : ℕ → ValueType

-- CardOne and CardMany are 1 and 2; `card_other n` is any other value of the integer type, zero too.
pub data Cardinality : Type 0 where
  card_one card_many : Cardinality
  card_other : ℕ → Cardinality

-- The Go values behind `any` that the program tells apart. `float64` holds the IEEE 754 bit
-- pattern; `time` holds Unix milliseconds and the nanoseconds past them; `other` is any other type.
pub data GoValue : Type 0 where
  int64 : ℕ → GoValue
  int : ℕ → GoValue
  string : Bytes → GoValue
  float64 : ℕ → GoValue
  bool : Bool → GoValue
  bytes : Bytes → GoValue
  time : ℕ → ℕ → GoValue
  other : GoValue

pub record AttributeSchema : Type 0 where
  pub ident : Bytes
  pub value_type : ValueType
  pub cardinality : Cardinality
  pub indexed : Bool
  pub unique : Bool
  pub identity : Bool
  pub is_component : Bool

pub record Datom : Type 0 where
  pub e : ℕ
  pub a : ℕ
  pub v : GoValue
  pub tx : ℕ
  pub added : Bool

-- The Go types that `TxDatom.E` may hold.
pub data EntityRef : Type 0 where
  temp_id : Bytes → EntityRef
  entity : ℕ → EntityRef
  entity_int : ℕ → EntityRef
  lookup_ref : Bytes → GoValue → EntityRef
  other_ref : EntityRef

pub record TxDatom : Type 0 where
  pub e : EntityRef
  pub a : Bytes
  pub v : GoValue
  pub retract : Bool

-- `none` is Go's zero time; a set time is its Unix milliseconds.
pub record TransactOpts : Type 0 where
  pub tx_time : Option ℕ
  pub valid_time : Option ℕ

pub record TxResult : Type 0 where
  pub tx_id : ℕ
  pub tx_time : ℕ
  pub tempids : List (Bytes × ℕ)
  pub datoms : List Datom

-- Go's `==` on the integer types.
abbrev pub value_type_eq : ValueType → ValueType → Bool
value_type_eq type_int type_int = true
value_type_eq type_string type_string = true
value_type_eq type_float type_float = true
value_type_eq type_bool type_bool = true
value_type_eq type_ref type_ref = true
value_type_eq type_bytes type_bytes = true
value_type_eq type_inst type_inst = true
value_type_eq (type_other m) (type_other n) = m == n
value_type_eq _ _ = false

abbrev pub cardinality_eq : Cardinality → Cardinality → Bool
cardinality_eq card_one card_one = true
cardinality_eq card_many card_many = true
cardinality_eq (card_other m) (card_other n) = m == n
cardinality_eq _ _ = false

abbrev pub bool_eq : Bool → Bool → Bool
bool_eq true b = b
bool_eq false true = false
bool_eq false false = true
