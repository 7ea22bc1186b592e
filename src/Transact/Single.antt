-- ===== src/Transact/Single.antt =====
-- One datom of transact.go: a retraction or an assertion that succeeds keeps the datom tables
-- consistent.
use litelog.Prelude.{
  ℕ, ◌≡◌, refl, sym, subst, Bytes, true, false, some, inl, inr, Bool-cases, Option-cases, arith,
  bytes_key,
}
use mathlib.Core.Bool.{false≢true}
use litelog.Result.{Result, ok, err}
use litelog.Types.{
  GoValue, EntityRef, temp_id, entity, entity_int, lookup_ref, other_ref, card_one, cardinality_eq,
}
use litelog.Action.{OnSuccess, OnSuccess->>=, ◌>>◌}
use litelog.Schema.{SchemaCache, get_by_id}
use litelog.Store.{
  Tables, LogRow, CurrentRow, read_current, lookup_av, delete_current_eav, delete_current_ea,
  upsert_current, holds, logged,
}
use litelog.Store.Laws.{insert_datom-cases, read_current-none, lookup_av-none}
use litelog.Transact.{
  Tx, TxState, Fact, DatomKey, lookup_entity, retract_datom, check_identity, replace_value,
  retract_existing, record_assertion, assert_datom, log_datom, log_row, current_row, produce,
  on_tables, decoded_or_nil, resolve_entity, resolve_tempid, resolve_lookup_ref, check_seen,
}
use litelog.Transact.Facts.{
  IsConsistent, IsConsistent-retracted, replaced, holds-replaced, IsConsistent-replaced,
  IsConsistent-asserted,
}

-- What a successful `log_datom` leaves.
log_datom-OnSuccess :
    (P : TxState → Type 0) (r : LogRow) (s : TxState)
    → P (record s { tables = logged r s.tables })
    → OnSuccess (λ _. P) (log_datom r s)
unfolding log_datom
log_datom-OnSuccess P r s h = elim (insert_datom-cases r s.tables) [
  | inl refused ↦ rw (refused, log_datom) tt
  | inr done ↦ rw (done, log_datom) h
]

-- An action that leaves the tables alone.
abbrev pub KeepsTables : {A : Type 0} → Tx A → Type 0
KeepsTables m = (s : TxState) → (m s).1.tables ≡ s.tables

abbrev Sole : Fact → Tables → Type 0
Sole f t = f.attr.identity ≡ true → (e : ℕ) → holds t e f.attr.id f.v_bytes ≡ true → e ≡ f.eid

abbrev Free : Fact → Tables → Type 0
Free f t = f.attr.cardinality ≡ card_one → (w : Bytes) → holds t f.eid f.attr.id w ≡ false

module _ (sc : SchemaCache) (f : Fact) (cached : get_by_id sc f.attr.id ≡ some f.attr) where
  pub retract_datom-IsConsistent :
      (v : GoValue) (s : TxState)
      → IsConsistent sc s.tables
      → OnSuccess (λ _ s'. IsConsistent sc s'.tables) (retract_datom f v s)
  unfolding retract_datom
  retract_datom-IsConsistent v s h =
      OnSuccess->>= (λ _ s'. IsConsistent sc s'.tables) (λ _ s'. IsConsistent sc s'.tables)
        (log_datom (log_row f f.v_bytes v false)) (λ _. produce f v false)
        (record s { tables = delete_current_eav f.eid f.attr.id f.v_bytes s.tables })
        (log_datom-OnSuccess (λ s'. IsConsistent sc s'.tables) (log_row f f.v_bytes v false) _
          (IsConsistent-retracted sc f s.tables h v))
        (λ _ s' k. k)

  -- Past the identity check no other entity holds the value.
  check_identity-Sole :
      (s : TxState)
      → IsConsistent sc s.tables
      → OnSuccess (λ _ s'. IsConsistent sc s'.tables × Sole f s'.tables) (check_identity f s)
  unfolding check_identity lookup_entity
  check_identity-Sole s h = elim (Bool-cases f.attr.identity) [
    | inl one ↦ elim (Option-cases (lookup_av f.attr.id f.v_bytes f.eid s.tables)) [
      | inl nobody ↦
          rw (one, nobody)
            (h, λ _ e k. lookup_av-none f.attr.id f.v_bytes f.eid s.tables e nobody k)
      | inr (r, somebody) ↦ rw (one, somebody) tt
    ]
    | inr not_one ↦ rw not_one (h, λ one. absurd (false≢true one))
  ]

  replace_value-Free :
      (old : CurrentRow) (s : TxState)
      → IsConsistent sc s.tables
      → Sole f s.tables
      → f.attr.cardinality ≡ card_one
      → read_current f.eid f.attr.id s.tables ≡ some old
      → OnSuccess
          (λ _ s'. IsConsistent sc s'.tables × Sole f s'.tables × Free f s'.tables)
          (replace_value f old.v s)
  unfolding replace_value
  replace_value-Free old s h sole one found =
      OnSuccess->>= (λ _ s'. Ready (delete_current_ea f.eid f.attr.id s'.tables))
        (λ _ s'. Ready s'.tables) (log_datom row) (λ _ s'. replace_tail s') s
        (log_datom-OnSuccess (λ s'. Ready (delete_current_ea f.eid f.attr.id s'.tables)) row s
          (ready (IsConsistent-replaced sc f s.tables h old v cached one found)))
        (λ _ s' k. k)
    where
      v : GoValue
      v = decoded_or_nil old.v f.attr.value_type

      row : LogRow
      row = log_row f old.v v false

      Ready : Tables → Type 0
      Ready t = IsConsistent sc t × Sole f t × Free f t

      replace_tail : Tx (Unit {0})
      replace_tail = produce f v false >> on_tables (delete_current_ea f.eid f.attr.id)

      ready :
          IsConsistent sc (replaced f s.tables old v)
            × ((w : Bytes) → holds (replaced f s.tables old v) f.eid f.attr.id w ≡ false)
          → Ready (delete_current_ea f.eid f.attr.id (logged row s.tables))
      ready (good, free) = (
        good,
        λ identity e k.
            sole identity e (ground (arith, holds-replaced f s.tables old v e f.attr.id f.v_bytes)),
        λ _. free,
      )

  -- After the replacement step a CardOne attribute has no value.
  retract_existing-Free :
      (s : TxState)
      → IsConsistent sc s.tables
      → Sole f s.tables
      → OnSuccess
          (λ _ s'. IsConsistent sc s'.tables × Sole f s'.tables × Free f s'.tables)
          (retract_existing f s)
  unfolding retract_existing
  retract_existing-Free s h sole = elim (Bool-cases (cardinality_eq f.attr.cardinality card_one)) [
    | inl one ↦ elim (Option-cases (read_current f.eid f.attr.id s.tables)) [
      | inl nothing ↦
          rw (one, nothing) (h, sole, λ _ w. read_current-none f.eid f.attr.id s.tables w nothing)
      | inr (old, found) ↦ rw (one, found) (replace_value-Free old s h sole (ground arith) found)
    ]
    | inr many ↦ rw many (h, sole, λ one w. absurd (false≢true (cc (many, one))))
  ]

  record_assertion-IsConsistent :
      (v : GoValue) (s : TxState)
      → IsConsistent sc s.tables
      → Sole f s.tables
      → Free f s.tables
      → OnSuccess (λ _ s'. IsConsistent sc s'.tables) (record_assertion f v s)
  unfolding record_assertion
  record_assertion-IsConsistent v s h sole free =
      OnSuccess->>= (λ _ s'. IsConsistent sc (upsert_current (current_row f v) s'.tables))
        (λ _ s'. IsConsistent sc s'.tables) (log_datom (log_row f f.v_bytes v true))
        (λ _. on_tables (upsert_current (current_row f v)) >> produce f v true) s
        (log_datom-OnSuccess (λ s'. IsConsistent sc (upsert_current (current_row f v) s'.tables))
          (log_row f f.v_bytes v true) s (IsConsistent-asserted sc f s.tables h v cached free sole))
        (λ _ s' k. k)

  pub assert_datom-IsConsistent :
      (v : GoValue) (s : TxState)
      → IsConsistent sc s.tables
      → OnSuccess (λ _ s'. IsConsistent sc s'.tables) (assert_datom f v s)
  unfolding assert_datom
  assert_datom-IsConsistent v s h =
      OnSuccess->>= (λ _ s'. IsConsistent sc s'.tables × Sole f s'.tables)
        (λ _ s'. IsConsistent sc s'.tables) (check_identity f)
        (λ _. retract_existing f >> record_assertion f v) s (check_identity-Sole s h)
        λ _ s₁ (h₁, sole₁).
          OnSuccess->>= (λ _ s'. IsConsistent sc s'.tables × Sole f s'.tables × Free f s'.tables)
            (λ _ s'. IsConsistent sc s'.tables) (retract_existing f) (λ _. record_assertion f v) s₁
            (retract_existing-Free s₁ h₁ sole₁)
            λ _ s₂ (h₂, sole₂, free₂). record_assertion-IsConsistent v s₂ h₂ sole₂ free₂

-- The resolution of entities and the test for duplicates write to no table.
resolve_tempid-KeepsTables : (tid : Bytes) → KeepsTables (resolve_tempid tid)
unfolding resolve_tempid
resolve_tempid-KeepsTables tid s = ground arith

resolve_lookup_ref-KeepsTables :
    (sc : SchemaCache) (a : Bytes) (v : GoValue) → KeepsTables (resolve_lookup_ref sc a v)
unfolding resolve_lookup_ref
resolve_lookup_ref-KeepsTables sc a v s = ground arith

pub resolve_entity-KeepsTables :
    (sc : SchemaCache) (r : EntityRef) → KeepsTables (resolve_entity sc r)
unfolding resolve_entity
resolve_entity-KeepsTables sc (temp_id tid) s = resolve_tempid-KeepsTables tid s
resolve_entity-KeepsTables sc (entity e) s = refl
resolve_entity-KeepsTables sc (entity_int e) s = refl
resolve_entity-KeepsTables sc (lookup_ref a v) s = resolve_lookup_ref-KeepsTables sc a v s
resolve_entity-KeepsTables sc other_ref s = refl

pub check_seen-KeepsTables : (k : DatomKey) → KeepsTables (check_seen k)
unfolding check_seen
check_seen-KeepsTables k s = ground arith

-- An action that keeps the tables keeps whatever is true of them.
pub KeepsTables-OnSuccess :
    {A : Type 0} (P : Tables → Type 0) (m : Tx A) (s : TxState)
    → KeepsTables m
    → P s.tables
    → OnSuccess (λ _ s'. P s'.tables) (m s)
KeepsTables-OnSuccess {A} P m s keeps h = go (m s) (subst P (sym (keeps s)) h)
  where
    go : (out : Result A × TxState) → P out.1.tables → OnSuccess (λ _ s'. P s'.tables) out
    go (ok a, s') k = k
    go (err e, s') k = tt
