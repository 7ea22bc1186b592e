-- ===== src/Pull/Specific.antt =====
-- pull.go: `pullEntity` with `pullSpecific`, and with `pullSpecificTemporal`. A connection has one statement
-- for one text: `Prepare` hands out the statement that it has, reset and without its bindings, so that a
-- nested pull works on the cursor of the pull around it.
pub mod Plain
pub mod Simple
pub mod Agree
pub mod Endless
pub mod Tests
use litelog.Prelude.{
  ℕ, zero, suc, ◌+◌, Bytes, Bool, true, false, Option, none, some, List, [], ◌∷◌, if◌then◌else◌,
}
use litelog.Result.{Result, ok, err, ◌>>=◌, pull_too_deep, out_of_fuel}
use litelog.Types.{GoValue, int64}
use litelog.Store.{Tables, CachedAttribute}
use litelog.Schema.{SchemaCache, get_by_ident}
use litelog.Temporal.{DbView}
use litelog.Pool.{Db, Connection, acquire}
use litelog.Pull.{
  PullPattern, pull_pattern, PullAttrs, no_attrs, pull_attr, Nested, no_nested, nested, PullValue,
  pulled, pulled_many, PullValues, no_values, value_and, PullResult, append_value, put_entry,
  start_result, is_many, is_ref, nested_or_id, pull_wildcard, max_pull_depth,
}
use litelog.Pull.Rows.{
  PullRow, read_value, current_entity, view_entity, of_attribute, read_current_entity,
  read_view_entity,
}

-- The statement: the entity and the attribute that are bound, if any, and the rows that are left once
-- it runs.
pub record Cursor : Type 0 where
  pub bound : Option (ℕ × ℕ)
  pub pending : Option (List PullRow)

abbrev pub cleared : Cursor
cleared = record { bound = none; pending = none }

abbrev pub bind_cursor : ℕ → ℕ → Cursor
bind_cursor eid a = record { bound = some (eid, a); pending = none }

abbrev pub reset : Cursor → Cursor
reset c = record c { pending = none }

-- `key`
abbrev pub key_of : Bytes → Bytes → Bytes
key_of ident [] = ident
key_of ident (b ∷ as_alias) = b ∷ as_alias

abbrev pub Pulling : Type 0 → Type 0
Pulling A = Cursor → Result A × Cursor

-- `if err != nil { return nil, err }`
abbrev pub then_pull : {A B : Type 0} → Result A × Cursor → (A → Pulling B) → Result B × Cursor
then_pull (err e, c) next = (err e, c)
then_pull (ok a, c) next = next a c

-- Whether `stmt.Step()` has a row.
abbrev pub with_row :
    {B : Type 0} → Option PullRow × Cursor → (Cursor → B) → (PullRow → Cursor → B) → B
with_row (none, c) ended next = ended c
with_row (some r, c) ended next = next r c

abbrev pub NestedPull : Type 0
NestedPull = Option (ℕ → Pulling PullResult)

-- A value of an attribute, pulled where there is a nested pattern and the value is a reference.
pub follow_nested : NestedPull → CachedAttribute → GoValue → Pulling PullValue
follow_nested (some pull) attr (int64 ref_id) c =
    let (r, c') = pull ref_id c in
    if is_ref attr then (nested_or_id ref_id r, c') else (ok (pulled (int64 ref_id)), c)
follow_nested pull attr v c = (ok (pulled v), c)

abbrev pub put_many : Bytes → PullValues → PullResult → PullResult
put_many key no_values result = result
put_many key (value_and v vs) result = put_entry key (pulled_many (value_and v vs)) result

-- `clear` is what the entry of a pull does to the statement; `fuel` bounds the rows of one attribute.
module _ (cache : SchemaCache) (read : ℕ → Result (List (ℕ × GoValue)))
    (select : ℕ → ℕ → List PullRow) (clear : Cursor → Cursor) (fuel : ℕ) where
  pub rows_left : Cursor → List PullRow
  rows_left c = elim c.pending [
    | some rows ↦ rows
    | none ↦ elim c.bound [ none ↦ [] | some (eid, a) ↦ select eid a ]
  ]

  -- `stmt.Step()`: at the end the statement is ready to run again.
  pub step : Cursor → Option PullRow × Cursor
  step c = elim (rows_left c) [
    | [] ↦ (none, reset c)
    | r ∷ rows ↦ (some r, record c { pending = some rows })
  ]

  -- What the value of a row becomes.
  pub row_value : NestedPull → CachedAttribute → PullRow → Pulling PullValue
  row_value pull attr r c = then_pull (read_value r, c) (follow_nested pull attr)

  -- The loop over the rows of a CardMany attribute.
  pub many_loop : NestedPull → CachedAttribute → ℕ → PullValues → Pulling PullValues
  many_loop pull attr zero vals c = (err out_of_fuel, c)
  many_loop pull attr (suc n) vals c =
      with_row (step c) (λ c₁. (ok vals, c₁))
        (λ r c₁.
          then_pull (row_value pull attr r c₁) (λ v. many_loop pull attr n (append_value vals v)))

  -- The first row of a CardOne attribute.
  pub one_value : NestedPull → CachedAttribute → Bytes → PullResult → Pulling PullResult
  one_value pull attr key result c =
      with_row (step c) (λ c₁. (ok result, c₁))
        (λ r c₁. then_pull (row_value pull attr r c₁) (λ v c₂. (ok (put_entry key v result), c₂)))

  pub many_values : NestedPull → CachedAttribute → Bytes → PullResult → Pulling PullResult
  many_values pull attr key result c =
      then_pull (many_loop pull attr fuel no_values c) (λ vs c₁. (ok (put_many key vs result), c₁))

  -- One attribute of a pattern: the statement is bound, and reset at the end.
  pub attr_values :
      NestedPull → CachedAttribute → Bytes → ℕ → PullResult → Result PullResult × Cursor
  attr_values pull attr key eid result =
      let many = many_values pull attr key result (bind_cursor eid attr.id) in
      let one = one_value pull attr key result (bind_cursor eid attr.id) in
      if is_many attr then (many.0, reset many.1) else (one.0, reset one.1)

  mutual
    -- `left` is `maxPullDepth + 1 - depth`.
    pub pull_entity : ℕ → PullPattern → ℕ → Pulling PullResult
    pull_entity zero p eid c = (err pull_too_deep, c)
    pull_entity (suc left) (pull_pattern wildcard attrs) eid c =
        let specific = pull_specific left attrs eid (start_result eid) (clear c) in
        if wildcard then (pull_wildcard cache read (suc left) eid, c) else specific

    pub pull_specific : ℕ → PullAttrs → ℕ → PullResult → Pulling PullResult
    pull_specific left no_attrs eid result c = (ok result, c)
    pull_specific left (pull_attr ident n as_alias attrs) eid result c =
        elim (get_by_ident cache ident) [
          | none ↦ pull_specific left attrs eid result c
          | some attr ↦
              then_pull (attr_values (nested_pull left n) attr (key_of ident as_alias) eid result)
                (pull_specific left attrs eid)
        ]

    pub nested_pull : ℕ → Nested → NestedPull
    nested_pull left no_nested = none
    nested_pull left (nested p) = some (pull_entity left p)

-- A pull of the current facts: each pull prepares the statement, which clears it.
pub pull_current : ℕ → Db → PullPattern → ℕ → Result PullResult
pull_current fuel db p eid =
    (pull_entity db.schema (read_current_entity db.tables)
      (λ e a. of_attribute a (current_entity e db.tables.current_datoms)) (λ _. cleared) fuel
      (max_pull_depth + 1) p eid cleared).0

-- `DB.Pull`
pub pull : Connection → ℕ → Db → ℕ → PullPattern → Result PullResult
pull c fuel db eid p = acquire c db.udfs_dirty >>= λ _. pull_current fuel db p eid

-- `DBView.Pull`: the statement is prepared for each attribute that is known.
pub pull_view : Connection → ℕ → Db → DbView → ℕ → PullPattern → Result PullResult
pull_view c fuel db view eid p = acquire c db.udfs_dirty >>= λ _.
    (pull_entity db.schema (read_view_entity view db.tables)
      (λ e a. of_attribute a (view_entity view db.tables e)) (λ c. c) fuel (max_pull_depth + 1) p
      eid cleared).0

pub pull_each : ℕ → Db → PullPattern → List ℕ → Result (List PullResult)
pull_each fuel db p [] = ok []
pull_each fuel db p (eid ∷ eids) =
    pull_current fuel db p eid >>= λ r. pull_each fuel db p eids >>= λ rs. ok (r ∷ rs)

-- `PullMany`
pub pull_many : Connection → ℕ → Db → List ℕ → PullPattern → Result (List PullResult)
pull_many c fuel db eids p = acquire c db.udfs_dirty >>= λ _. pull_each fuel db p eids
