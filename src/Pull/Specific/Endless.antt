-- ===== src/Pull/Specific/Endless.antt =====
-- pull.go: a nested pattern under a CardMany reference, whose pull takes the statement of the loop around it.
use litelog.Prelude.{
  ℕ, zero, suc, ◌≡◌, refl, ◌∙◌, ap, ◌⊎◌, inl, inr, Bytes, true, false, none, some, List, [], ◌∷◌,
}
use litelog.Result.{Error, Result, ok, err, out_of_fuel}
use litelog.Types.{GoValue, int64}
use litelog.Store.{CachedAttribute}
use litelog.Schema.{SchemaCache, get_by_ident}
use litelog.Pull.{
  PullAttrs, Nested, PullPattern, pull_pattern, no_attrs, pull_attr, no_nested, nested, pulled,
  pulled_entity, PullValues, no_values, PullResult, append_value, start_result, is_many, is_ref,
  nested_or_id,
}
use litelog.Pull.Rows.{PullRow, read_value}
use litelog.Pull.Specific.{
  Cursor, bind_cursor, reset, NestedPull, follow_nested, then_pull, rows_left, step, row_value,
  many_loop, put_many, many_values, attr_values, pull_entity, pull_specific, nested_pull,
}

then_failed :
    {A B : Type 0} (m : Result A × Cursor) (next : A → Cursor → Result B × Cursor) (e : Error)
    → m.0 ≡ err e
    → (then_pull m next).0 ≡ err e
then_failed (err e', c) next e h = cc
then_failed (ok a, c) next e h = cc

-- `{Attrs: {Ident: ident}}`, and the same with itself nested.
abbrev pub inner_pattern : Bytes → PullPattern
inner_pattern ident = pull_pattern false (pull_attr ident no_nested [] no_attrs)

abbrev pub outer_pattern : Bytes → PullPattern
outer_pattern ident =
    pull_pattern false (pull_attr ident (nested (inner_pattern ident)) [] no_attrs)

-- Each entity of a set has one row of the attribute, which refers to another entity of the set.
pub record Circles (select : ℕ → ℕ → List PullRow) (a : ℕ) (InSet : ℕ → Type 0) (next : ℕ → ℕ)
    (row : ℕ → PullRow) : Type 0 where
  pub one_row : (e : ℕ) → InSet e → select e a ≡ row e ∷ []
  pub reads : (e : ℕ) → InSet e → read_value (row e) ≡ ok (int64 (next e))
  pub stays_in : (e : ℕ) → InSet e → InSet (next e)

module _ (cache : SchemaCache) (read : ℕ → Result (List (ℕ × GoValue)))
    (select : ℕ → ℕ → List PullRow) (clear : Cursor → Cursor) (fuel : ℕ) (ident : Bytes)
    (attr : CachedAttribute) (InSet : ℕ → Type 0) (next : ℕ → ℕ) (row : ℕ → PullRow)
    (known : get_by_ident cache ident ≡ some attr) (many : is_many attr ≡ true)
    (ref : is_ref attr ≡ true) (circles : Circles select attr.id InSet next row) where
  first_row :
      (e : ℕ)
      → InSet e
      → step cache read select clear fuel (bind_cursor e attr.id)
        ≡ (some (row e), record { bound = some (e, attr.id); pending = some [] })
  unfolding step rows_left
  first_row e h = rw (step, circles.one_row e h) refl

  no_more :
      (e : ℕ)
      → step cache read select clear fuel (record { bound = some (e, attr.id); pending = some [] })
        ≡ (none, bind_cursor e attr.id)
  unfolding step rows_left
  no_more e = refl

  -- A pull that nests nothing ends on the statement as it was bound, if not on fuel.
  abbrev EndsAt : (A : Type 0) → ℕ → Result A × Cursor → Type 0
  EndsAt A e m =
      ((c : Cursor) × (m ≡ (err out_of_fuel, c))) ⊎ ((a : A) × (m ≡ (ok a, bind_cursor e attr.id)))

  inner_loop :
      (n e : ℕ)
      → InSet e
      → EndsAt PullValues e
          (many_loop cache read select clear fuel none attr n no_values (bind_cursor e attr.id))
  unfolding many_loop row_value follow_nested
  inner_loop zero e h = inl (bind_cursor e attr.id, refl)
  inner_loop (suc zero) e h = inl (
    record { bound = some (e, attr.id); pending = some [] },
    rw (many_loop, first_row e h, circles.reads e h) refl,
  )
  inner_loop (suc (suc n)) e h = inr (
    append_value no_values (pulled (int64 (next e))),
    rw (many_loop, first_row e h, circles.reads e h, no_more e) refl,
  )

  open_entity :
      (left e : ℕ) (attrs : PullAttrs) (c : Cursor)
      → pull_entity cache read select clear fuel (suc left) (pull_pattern false attrs) e c
        ≡ pull_specific cache read select clear fuel left attrs e (start_result e) (clear c)
  unfolding pull_entity
  open_entity left e attrs c = refl

  -- A pattern of the one attribute.
  open_attr :
      (left e : ℕ) (n : Nested) (result : PullResult) (c : Cursor)
      → pull_specific cache read select clear fuel left (pull_attr ident n [] no_attrs) e result c
        ≡ then_pull
            (attr_values cache read select clear fuel
              (nested_pull cache read select clear fuel left n)
              attr
              ident
              e
              result)
            (λ r c'. (ok r, c'))
  unfolding pull_specific
  open_attr left e n result c = rw (pull_specific, known) refl

  open_values :
      (pull : NestedPull) (e : ℕ) (result : PullResult)
      → attr_values cache read select clear fuel pull attr ident e result ≡ (
          let m =
            many_values cache read select clear fuel pull attr ident result
              (bind_cursor e attr.id) in
          (m.0, reset m.1))
  unfolding attr_values
  open_values pull e result = rw (attr_values, many) refl

  inner_pull :
      (left e : ℕ) (c : Cursor)
      → InSet e
      → EndsAt PullResult e
          (pull_entity cache read select clear fuel (suc left) (inner_pattern ident) e c)
  unfolding nested_pull many_values
  inner_pull left e c h = elim (inner_loop fuel e h) [
    | inl (c', q) ↦ inl (
      reset c',
      open_entity left e (pull_attr ident no_nested [] no_attrs) c
          ∙ open_attr left e no_nested (start_result e) (clear c)
          ∙ rw (open_values none e (start_result e), q) refl,
    )
    | inr (vs, q) ↦ inr (
      put_many ident vs (start_result e),
      open_entity left e (pull_attr ident no_nested [] no_attrs) c
          ∙ open_attr left e no_nested (start_result e) (clear c)
          ∙ rw (open_values none e (start_result e), q) refl,
    )
  ]

  outer_loop :
      (left n e : ℕ) (vals : PullValues)
      → InSet e
      → (many_loop cache read select clear fuel
          (some (pull_entity cache read select clear fuel (suc left) (inner_pattern ident)))
          attr
          n
          vals
          (bind_cursor e attr.id)).0
        ≡ err out_of_fuel
  unfolding many_loop row_value follow_nested nested_or_id
  outer_loop left zero e vals h = refl
  outer_loop left (suc n) e vals h =
      let c : Cursor = record { bound = some (e, attr.id); pending = some [] } in
      elim (inner_pull left (next e) c (circles.stays_in e h)) [
        | inl (c', q) ↦ rw (many_loop, first_row e h, circles.reads e h, ref, q) refl
        | inr (r, q) ↦
            rw (many_loop, first_row e h, circles.reads e h, ref, q)
              (outer_loop left n (next e) (append_value vals (pulled_entity r))
                (circles.stays_in e h))
      ]

  -- On a circle of references, the pull of a CardMany attribute with the attribute itself nested under
  -- it never ends, whatever the fuel: the nested pull leaves the statement bound to the entity that
  -- it has read, and the loop goes on with that one's references.
  pub pull_entity-endless :
      (left e : ℕ) (c : Cursor)
      → InSet e
      → (pull_entity cache read select clear fuel (suc (suc left)) (outer_pattern ident) e c).0
        ≡ err out_of_fuel
  unfolding nested_pull many_values
  pull_entity-endless left e c h =
      ap (λ m. m.0)
        (open_entity (suc left) e (pull_attr ident (nested (inner_pattern ident)) [] no_attrs) c
          ∙ open_attr (suc left) e (nested (inner_pattern ident)) (start_result e) (clear c))
      ∙ rw
          (open_values
            (some (pull_entity cache read select clear fuel (suc left) (inner_pattern ident))) e
            (start_result e))
          (then_failed (_, _) (λ r c'. (ok r, c')) out_of_fuel
            (then_failed
              (many_loop cache read select clear fuel
                (some (pull_entity cache read select clear fuel (suc left) (inner_pattern ident)))
                attr fuel no_values (bind_cursor e attr.id))
              (λ vs c'. (ok (put_many ident vs (start_result e)), c')) out_of_fuel
              (outer_loop left fuel e no_values h)))
