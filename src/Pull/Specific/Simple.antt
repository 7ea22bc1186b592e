-- ===== src/Pull/Specific/Simple.antt =====
-- pull.go: pulls in which no CardMany reference has a nested pattern, against a reading of the rows as lists.
use litelog.Prelude.{
  ℕ, zero, suc, ◌+◌, ◌<◌, ◌≡◌, refl, sym, ◌∙◌, ap, inl, inr, Bytes, true, false, Option, none, some,
  List, [], ◌∷◌, length, Bool-cases, Option-cases, arith,
}
use litelog.Result.{Result, ok, err, ◌>>=◌, Result-cases}
use litelog.Types.{GoValue, int64, int, string, float64, bool, bytes, time, other}
use litelog.Store.{CachedAttribute}
use litelog.Schema.{SchemaCache, get_by_ident}
use litelog.Pull.{
  PullPattern, pull_pattern, PullAttrs, no_attrs, pull_attr, Nested, no_nested, nested, pulled,
  PullValues, no_values, PullResult, append_value, put_entry, start_result, is_many, is_ref,
  nested_or_id, max_pull_depth,
}
use litelog.Pull.Rows.{
  PullRow, read_value, of_attribute, current_entity, view_entity, read_current_entity,
  read_view_entity,
}
use litelog.Temporal.{DbView}
use litelog.Pool.{Db, Connection, acquire}
use litelog.Pull.Specific.{
  pull, pull_current, pull_view, Cursor, cleared, bind_cursor, reset, key_of, NestedPull,
  follow_nested, put_many, Pulling, then_pull, rows_left, step, row_value, many_loop, one_value,
  many_values, attr_values, pull_entity, pull_specific, nested_pull,
}
use litelog.Pull.Specific.Plain.{
  plain_values, follow_plain, first_plain, attr_plain, plain_entity, plain_specific, plain_nested,
  IsPlain, IsSimple, AreSimple, NestedSimple,
}
use litelog.Pull.Rows.Lengths.{of_attribute-length, current_entity-length, view_entity-length}

-- A step that does not mind the cursor.
then_pull-plain :
    {A B : Type 0} (m : Result A × Cursor) (next : A → Pulling B) (plain : A → Result B)
    → ((a : A) (c : Cursor) → (next a c).0 ≡ plain a)
    → (then_pull m next).0 ≡ (m.0 >>= plain)
then_pull-plain (err e, c) next plain h = refl
then_pull-plain (ok a, c) next plain h = h a c

module _ (cache : SchemaCache) (read : ℕ → Result (List (ℕ × GoValue)))
    (select : ℕ → ℕ → List PullRow) where
  module _ (clear : Cursor → Cursor) (fuel : ℕ) where
    rows_left-pending :
        (c : Cursor) (rows : List PullRow)
        → rows_left cache read select clear fuel (record c { pending = some rows }) ≡ rows
    unfolding rows_left
    rows_left-pending c rows = refl

    rows_left-bind_cursor :
        (eid a : ℕ) → rows_left cache read select clear fuel (bind_cursor eid a) ≡ select eid a
    unfolding rows_left
    rows_left-bind_cursor eid a = refl

    step-end :
        (c : Cursor)
        → rows_left cache read select clear fuel c ≡ []
        → step cache read select clear fuel c ≡ (none, reset c)
    unfolding step
    step-end c q = rw (step, q) refl

    step-row :
        (c : Cursor) (r : PullRow) (rows : List PullRow)
        → rows_left cache read select clear fuel c ≡ r ∷ rows
        → step cache read select clear fuel c ≡ (some r, record c { pending = some rows })
    unfolding step
    step-row c r rows q = rw (step, q) refl

    -- A loop that follows nothing reads the rows that are left.
    many_loop-plain :
        (pull : NestedPull) (attr : CachedAttribute) (n : ℕ) (vals : PullValues)
        (rows : List PullRow) (c : Cursor)
        → ((v : GoValue) (c' : Cursor) → follow_nested pull attr v c' ≡ (ok (pulled v), c'))
        → rows_left cache read select clear fuel c ≡ rows
        → length rows < n
        → (many_loop cache read select clear fuel pull attr n vals c).0 ≡ plain_values vals rows
    unfolding many_loop plain_values row_value
    many_loop-plain pull attr zero vals rows c stays q h = ground (arith, h)
    many_loop-plain pull attr (suc n) vals [] c stays q h = rw (many_loop, step-end c q) refl
    many_loop-plain pull attr (suc n) vals (r ∷ rows) c stays q h =
        let c' : Cursor = record c { pending = some rows } in
        elim (Result-cases (read_value r)) [
          | inl (e, failed) ↦ rw (many_loop, step-row c r rows q, failed) refl
          | inr (v, done) ↦
              rw (many_loop, step-row c r rows q, done, stays v c')
                (many_loop-plain pull attr n (append_value vals (pulled v)) rows c' stays
                  (rows_left-pending c rows) (omega (arith, h)))
        ]

    -- What is followed has the reference's value, on any cursor.
    abbrev Follows : NestedPull → Option (ℕ → Result PullResult) → CachedAttribute → Type 0
    Follows pull plain attr =
        (v : GoValue) (c : Cursor) → (follow_nested pull attr v c).0 ≡ follow_plain plain attr v

    one_value-plain :
        (pull : NestedPull) (plain : Option (ℕ → Result PullResult)) (attr : CachedAttribute)
        (key : Bytes) (result : PullResult) (rows : List PullRow) (c : Cursor)
        → Follows pull plain attr
        → rows_left cache read select clear fuel c ≡ rows
        → (one_value cache read select clear fuel pull attr key result c).0
          ≡ first_plain plain attr key result rows
    unfolding one_value first_plain row_value
    one_value-plain pull plain attr key result [] c follows q = rw (one_value, step-end c q) refl
    one_value-plain pull plain attr key result (r ∷ rows) c follows q =
        let c' : Cursor = record c { pending = some rows } in
        elim (Result-cases (read_value r)) [
          | inl (e, failed) ↦ rw (one_value, step-row c r rows q, failed) refl
          | inr (v, done) ↦
              rw (one_value, step-row c r rows q, done, sym (follows v c'))
                (then_pull-plain (follow_nested pull attr v c') _ (λ w. ok (put_entry key w result))
                  (λ w c₂. refl))
        ]

    follow_plainly :
        (f : ℕ → Pulling PullResult) (attr : CachedAttribute) (v : GoValue) (c : Cursor)
        → is_ref attr ≡ false
        → follow_nested (some f) attr v c ≡ (ok (pulled v), c)
    unfolding follow_nested
    follow_plainly f attr (int64 n) c h = rw h refl
    follow_plainly f attr (int n) c h = refl
    follow_plainly f attr (string n) c h = refl
    follow_plainly f attr (float64 n) c h = refl
    follow_plainly f attr (bool n) c h = refl
    follow_plainly f attr (bytes n) c h = refl
    follow_plainly f attr (time n m) c h = refl
    follow_plainly f attr other c h = refl

    stays :
        (left : ℕ) (n : Nested) (attr : CachedAttribute) (v : GoValue) (c : Cursor)
        → IsPlain cache n attr
        → is_many attr ≡ true
        → follow_nested (nested_pull cache read select clear fuel left n) attr v c
          ≡ (ok (pulled v), c)
    unfolding nested_pull follow_nested
    stays left no_nested attr v c h many = refl
    stays left (nested p) attr v c h many =
        follow_plainly (pull_entity cache read select clear fuel left p) attr v c
          (ground (arith, h, many))

    Follows-none : (attr : CachedAttribute) → Follows none none attr
    unfolding follow_nested follow_plain
    Follows-none attr v c = refl

    Follows-some :
        (f : ℕ → Pulling PullResult) (g : ℕ → Result PullResult) (attr : CachedAttribute)
        → ((eid : ℕ) (c : Cursor) → (f eid c).0 ≡ g eid)
        → Follows (some f) (some g) attr
    unfolding follow_nested follow_plain
    Follows-some f g attr h (int64 n) c = elim (Bool-cases (is_ref attr)) [
      | inl ref ↦ rw ref (ap (nested_or_id n) (h n c))
      | inr value ↦ rw value refl
    ]
    Follows-some f g attr h (int n) c = refl
    Follows-some f g attr h (string n) c = refl
    Follows-some f g attr h (float64 n) c = refl
    Follows-some f g attr h (bool n) c = refl
    Follows-some f g attr h (bytes n) c = refl
    Follows-some f g attr h (time n m) c = refl
    Follows-some f g attr h other c = refl

    attr_values-plain :
        (pull : NestedPull) (plain : Option (ℕ → Result PullResult)) (attr : CachedAttribute)
        (key : Bytes) (eid : ℕ) (result : PullResult)
        → (is_many attr ≡ true
            → (v : GoValue) (c : Cursor) → follow_nested pull attr v c ≡ (ok (pulled v), c))
        → Follows pull plain attr
        → length (select eid attr.id) < fuel
        → (attr_values cache read select clear fuel pull attr key eid result).0
          ≡ attr_plain cache read select plain attr key eid result
    unfolding attr_values many_values attr_plain
    attr_values-plain pull plain attr key eid result stay follows h =
        elim (Bool-cases (is_many attr)) [
          | inl many ↦ rw many (
              then_pull-plain
                (many_loop cache read select clear fuel pull attr fuel no_values
                  (bind_cursor eid attr.id))
                _ (λ vs. ok (put_many key vs result)) (λ vs c. refl)
              ∙ ap (λ m. m >>= λ vs. ok (put_many key vs result))
                  (many_loop-plain pull attr fuel no_values (select eid attr.id)
                    (bind_cursor eid attr.id) (stay many) (rows_left-bind_cursor eid attr.id) h))
          | inr one ↦ rw one (
              one_value-plain pull plain attr key result (select eid attr.id)
                (bind_cursor eid attr.id) follows (rows_left-bind_cursor eid attr.id))
        ]

    module _ (enough : (eid a : ℕ) → length (select eid a) < fuel) where
      mutual
        unfolding pull_entity pull_specific nested_pull plain_entity plain_specific plain_nested
            IsSimple AreSimple NestedSimple

        entity_plain :
            (left : ℕ) (p : PullPattern) (eid : ℕ) (c : Cursor)
            → IsSimple cache p
            → (pull_entity cache read select clear fuel left p eid c).0
              ≡ plain_entity cache read select left p eid
        entity_plain zero p eid c h = refl
        entity_plain (suc left) (pull_pattern true attrs) eid c h = refl
        entity_plain (suc left) (pull_pattern false attrs) eid c h =
            specific_plain left attrs eid (start_result eid) (clear c) h

        specific_plain :
            (left : ℕ) (attrs : PullAttrs) (eid : ℕ) (result : PullResult) (c : Cursor)
            → AreSimple cache attrs
            → (pull_specific cache read select clear fuel left attrs eid result c).0
              ≡ plain_specific cache read select left attrs eid result
        specific_plain left no_attrs eid result c h = refl
        specific_plain left (pull_attr ident n as_alias attrs) eid result c (h, k, hs) =
            elim (Option-cases (get_by_ident cache ident)) [
              | inl unknown ↦
                  rw (pull_specific, plain_specific, unknown)
                    (specific_plain left attrs eid result c hs)
              | inr (attr, known) ↦
                  rw (pull_specific, plain_specific, known)
                    (then_pull-plain
                        (attr_values cache read select clear fuel
                          (nested_pull cache read select clear fuel left n) attr
                          (key_of ident as_alias) eid result)
                        _ (plain_specific cache read select left attrs eid)
                        (λ r c'. specific_plain left attrs eid r c' hs)
                      ∙ ap (λ m. m >>= plain_specific cache read select left attrs eid)
                          (attr_values-plain (nested_pull cache read select clear fuel left n)
                            (plain_nested cache read select left n) attr (key_of ident as_alias) eid
                            result (λ many v c'. stays left n attr v c' (h attr known) many)
                            (nested_plain left n attr k) (enough eid attr.id)))
            ]

        nested_plain :
            (left : ℕ) (n : Nested) (attr : CachedAttribute)
            → NestedSimple cache n
            → Follows
                (nested_pull cache read select clear fuel left n)
                (plain_nested cache read select left n)
                attr
        nested_plain left no_nested attr h = Follows-none attr
        nested_plain left (nested p) attr h =
            Follows-some (pull_entity cache read select clear fuel left p)
              (plain_entity cache read select left p) attr (λ eid c. entity_plain left p eid c h)

-- What a pull of the current facts means.
abbrev pub meant : Db → PullPattern → ℕ → Result PullResult
meant db p eid =
    plain_entity db.schema (read_current_entity db.tables)
      (λ e a. of_attribute a (current_entity e db.tables.current_datoms)) (max_pull_depth + 1) p eid

abbrev pub meant_view : Db → DbView → PullPattern → ℕ → Result PullResult
meant_view db view p eid =
    plain_entity db.schema (read_view_entity view db.tables)
      (λ e a. of_attribute a (view_entity view db.tables e)) (max_pull_depth + 1) p eid

-- A pull whose pattern nests nothing under a CardMany reference ends, with a turn of the loop for each
-- row of the table and one more, and returns what reading the rows of each attribute as a list
-- gives; of the current facts, and of a view.
pub pull-plain :
    (c : Connection) (fuel : ℕ) (db : Db) (view : DbView) (eid : ℕ) (p : PullPattern)
    → IsSimple db.schema p
    → length db.tables.datoms + length db.tables.current_datoms < fuel
    → (pull c fuel db eid p ≡ (acquire c db.udfs_dirty >>= λ _. meant db p eid))
      × (pull_view c fuel db view eid p
          ≡ (acquire c db.udfs_dirty >>= λ _. meant_view db view p eid))
unfolding pull pull_current pull_view
pull-plain c fuel db view eid p h enough = (
  ap (λ r. acquire c db.udfs_dirty >>= λ _. r)
      (entity_plain db.schema (read_current_entity db.tables)
        (λ e a. of_attribute a (current_entity e db.tables.current_datoms)) (λ _. cleared) fuel
        (λ e a.
          let x = of_attribute-length a (current_entity e db.tables.current_datoms) in
          let y = current_entity-length e db.tables.current_datoms in omega (arith, x, y, enough))
        (max_pull_depth + 1) p eid cleared h),
  ap (λ r. acquire c db.udfs_dirty >>= λ _. r)
      (entity_plain db.schema (read_view_entity view db.tables)
        (λ e a. of_attribute a (view_entity view db.tables e)) (λ c. c) fuel
        (λ e a.
          let x = of_attribute-length a (view_entity view db.tables e) in
          let y = view_entity-length view db.tables e in omega (arith, x, y, enough))
        (max_pull_depth + 1) p eid cleared h),
)
