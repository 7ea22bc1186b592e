-- ===== src/Pull/Specific/Agree.antt =====
-- pull.go: the view with no transaction and no time, and the pull of the current facts, which reads typed
-- columns where it pulls all attributes.
use litelog.Prelude.{
  All, ℕ, ◌+◌, ◌<◌, ◌≡◌, refl, sym, ap, ◌∙◌, inl, inr, false, none, List, [], ◌∷◌, ◌==◌, length,
  Bool-cases, arith,
}
use mathlib.Core.Path.{fun_ext, ap₂}
use litelog.Result.{Result, ok, err, ◌>>=◌}
use litelog.Types.{GoValue, ValueType}
use litelog.Store.{Tables, CurrentRow}
use litelog.TypedRead.{read_typed_column_from_pull}
use litelog.TypedRead.Agree.{has_typed_column, kept, read_typed_column-decode_value}
use litelog.Execute.Rows.{Holds}
use litelog.Values.RoundTrip.{stored}
use litelog.Temporal.{DbView}
use litelog.Pool.{Db, Connection, acquire}
use litelog.Pull.{PullPattern, max_pull_depth}
use litelog.Pull.Rows.{
  PullRow, current_rows, read_current_row, read_current_rows, read_current_entity, of_current,
  current_entity, view_entity, of_attribute, read_value, read_values, read_view_entity,
}
use litelog.Pull.Specific.{pull, pull_view}
use litelog.Pull.Specific.Plain.{plain_entity, IsSimple}
use litelog.Pull.Specific.Simple.{meant, meant_view, pull-plain}

abbrev pub now : DbView
now = record { tx_id = 0; valid_time = none }

-- Every row holds some value, and none a NaN or -0.0, which typed columns do not keep.
abbrev pub AllHold : List CurrentRow → Type 0
AllHold rows = All (λ r. (v : GoValue) × Holds r v × (kept (stored v) ≡ stored v)) rows

no_typed_column :
    (r : CurrentRow) (t : ValueType)
    → has_typed_column t ≡ false
    → read_typed_column_from_pull r.typed t ≡ none
unfolding read_typed_column_from_pull
no_typed_column r t h = ground (arith, h)

bind_assoc :
    {A B C : Type 0} (m : Result A) (f : A → Result B) (g : B → Result C)
    → (m >>= f >>= g) ≡ (m >>= λ a. f a >>= g)
bind_assoc (ok a) f g = refl
bind_assoc (err e) f g = refl

read_row-agree :
    (r : CurrentRow) (v : GoValue)
    → Holds r v
    → kept (stored v) ≡ stored v
    → read_current_row r ≡ (read_value (of_current r) >>= λ w. ok (r.a, w))
unfolding read_current_row
read_row-agree r v h whole = elim (Bool-cases (has_typed_column r.v_type)) [
  | inl typed ↦
      let (blob, _, column) =
        read_typed_column-decode_value v r.v_type r.v h.in_range typed h.encoded in
      rw (read_current_row, h.typed, column, blob, whole) refl
  | inr untyped ↦ rw (read_current_row, no_typed_column r r.v_type untyped) refl
]

read_rows-agree :
    (e : ℕ) (rows : List CurrentRow)
    → AllHold rows
    → read_current_rows (current_rows e rows) ≡ read_values (current_entity e rows)
unfolding current_rows current_entity read_current_rows read_values
read_rows-agree e [] h = refl
read_rows-agree e (r ∷ rows) ((v, h, whole), hs) = elim (Bool-cases (r.e == e)) [
  | inl here ↦
      rw (here, read_row-agree r v h whole, read_rows-agree e rows hs)
        (bind_assoc (read_value (of_current r)) (λ w. ok (r.a, w))
          (λ w. read_values (current_entity e rows) >>= λ ws. ok (w ∷ ws)))
  | inr elsewhere ↦ rw elsewhere (read_rows-agree e rows hs)
]

read_entity-agree :
    (t : Tables) → AllHold t.current_datoms → read_current_entity t ≡ read_view_entity now t
unfolding read_current_entity read_view_entity view_entity
read_entity-agree t h = fun_ext (λ e. read_rows-agree e t.current_datoms h)

-- The rows of an attribute, from the table and through a view.
abbrev rows_of : Tables → ℕ → ℕ → List PullRow
rows_of t e a = of_attribute a (current_entity e t.current_datoms)

abbrev through : DbView → Tables → ℕ → ℕ → List PullRow
through view t e a = of_attribute a (view_entity view t e)

select-agree : (t : Tables) → rows_of t ≡ through now t
unfolding view_entity
select-agree t = refl

meant-agree :
    (db : Db) (p : PullPattern) (eid : ℕ)
    → AllHold db.tables.current_datoms
    → meant_view db now p eid ≡ meant db p eid
meant-agree db p eid h = sym (
    ap₂ (λ read select. plain_entity db.schema read select (max_pull_depth + 1) p eid)
      (read_entity-agree db.tables h) (select-agree db.tables))

-- The view with no transaction and no time pulls what the database does, if every current row holds
-- a value as transactions write it, but no NaN and no -0.0, and the pattern nests nothing under a CardMany reference.
pub pull_view-pull :
    (c : Connection) (fuel : ℕ) (db : Db) (eid : ℕ) (p : PullPattern)
    → AllHold db.tables.current_datoms
    → IsSimple db.schema p
    → length db.tables.datoms + length db.tables.current_datoms < fuel
    → pull_view c fuel db now eid p ≡ pull c fuel db eid p
pull_view-pull c fuel db eid p h simple enough =
    let (current, view) = pull-plain c fuel db now eid p simple enough in
    view ∙ ap (λ r. acquire c db.udfs_dirty >>= λ _. r) (meant-agree db p eid h) ∙ sym current
