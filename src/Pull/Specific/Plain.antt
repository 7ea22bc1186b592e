-- ===== src/Pull/Specific/Plain.antt =====
-- pull.go: a pull as it is meant, which reads the rows of each attribute as a list, without a statement that
-- pulls share; and the patterns for which the code does so.
use litelog.Prelude.{
  ℕ, zero, suc, ◌≡◌, Bytes, false, ◌&&◌, Option, none, some, List, [], ◌∷◌, if◌then◌else◌,
}
use litelog.Result.{Result, ok, err, ◌>>=◌, pull_too_deep}
use litelog.Types.{GoValue, int64}
use litelog.Store.{CachedAttribute}
use litelog.Schema.{SchemaCache, get_by_ident}
use litelog.Pull.{
  PullPattern, pull_pattern, PullAttrs, no_attrs, pull_attr, Nested, no_nested, nested, PullValue,
  pulled, PullValues, no_values, PullResult, append_value, put_entry, start_result, is_many, is_ref,
  nested_or_id, pull_wildcard,
}
use litelog.Pull.Rows.{PullRow, read_value}
use litelog.Pull.Specific.{key_of, put_many}

-- The values of all rows, in their order.
unfoldable pub plain_values : PullValues → List PullRow → Result PullValues
plain_values vals [] = ok vals
plain_values vals (r ∷ rows) =
    read_value r >>= λ v. plain_values (append_value vals (pulled v)) rows

-- A value, pulled by a function without a cursor.
unfoldable pub follow_plain :
    Option (ℕ → Result PullResult) → CachedAttribute → GoValue → Result PullValue
follow_plain (some pull) attr (int64 ref_id) =
    let followed = nested_or_id ref_id (pull ref_id) in
    if is_ref attr then followed else ok (pulled (int64 ref_id))
follow_plain pull attr v = ok (pulled v)

unfoldable pub first_plain :
    Option (ℕ → Result PullResult)
    → CachedAttribute
    → Bytes
    → PullResult
    → List PullRow
    → Result PullResult
first_plain pull attr key result [] = ok result
first_plain pull attr key result (r ∷ rows) =
    read_value r >>= λ v. follow_plain pull attr v >>= λ w. ok (put_entry key w result)

module _ (cache : SchemaCache) (read : ℕ → Result (List (ℕ × GoValue)))
    (select : ℕ → ℕ → List PullRow) where
  unfoldable pub attr_plain :
      Option (ℕ → Result PullResult) → CachedAttribute → Bytes → ℕ → PullResult → Result PullResult
  attr_plain pull attr key eid result =
      let many =
        plain_values no_values (select eid attr.id) >>= λ vs. ok (put_many key vs result) in
      let one = first_plain pull attr key result (select eid attr.id) in
      if is_many attr then many else one

  unfoldable mutual
    pub plain_entity : ℕ → PullPattern → ℕ → Result PullResult
    plain_entity zero p eid = err pull_too_deep
    plain_entity (suc left) (pull_pattern wildcard attrs) eid =
        let specific = plain_specific left attrs eid (start_result eid) in
        if wildcard then pull_wildcard cache read (suc left) eid else specific

    pub plain_specific : ℕ → PullAttrs → ℕ → PullResult → Result PullResult
    plain_specific left no_attrs eid result = ok result
    plain_specific left (pull_attr ident n as_alias attrs) eid result =
        elim (get_by_ident cache ident) [
          | none ↦ plain_specific left attrs eid result
          | some attr ↦
              attr_plain (plain_nested left n) attr (key_of ident as_alias) eid result >>= λ r.
              plain_specific left attrs eid r
        ]

    pub plain_nested : ℕ → Nested → Option (ℕ → Result PullResult)
    plain_nested left no_nested = none
    plain_nested left (nested p) = some (plain_entity left p)

module _ (cache : SchemaCache) where
  -- No CardMany reference has a nested pattern.
  abbrev pub IsPlain : Nested → CachedAttribute → Type 0
  IsPlain no_nested attr = Unit {0}
  IsPlain (nested p) attr = (is_many attr && is_ref attr) ≡ false

  unfoldable mutual
    pub IsSimple : PullPattern → Type 0
    IsSimple (pull_pattern wildcard attrs) = AreSimple attrs

    pub AreSimple : PullAttrs → Type 0
    AreSimple no_attrs = Unit {0}
    AreSimple (pull_attr ident n as_alias attrs) =
        ((attr : CachedAttribute) → get_by_ident cache ident ≡ some attr → IsPlain n attr)
        × NestedSimple n
        × AreSimple attrs

    pub NestedSimple : Nested → Type 0
    NestedSimple no_nested = Unit {0}
    NestedSimple (nested p) = IsSimple p
