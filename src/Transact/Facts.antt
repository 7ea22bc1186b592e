-- ===== src/Transact/Facts.antt =====
-- What the writes of transact.go do to the facts: the invariants of the datom tables, and the steps
-- between them on tables.
use litelog.Prelude.{
  ℕ, ◌≡◌, sym, ap, ◌∙◌, Bool-cases, Bytes, true, false, not, ◌&&◌, ◌||◌, some, [], ◌∷◌, ◌++◌, inl,
  inr, ◌==◌, bytes_eq, bytes_eq_iff, if◌then◌else◌, arith,
}
use litelog.Types.{card_one}
use litelog.Types.{GoValue}
use litelog.Schema.{SchemaCache, get_by_id}
use litelog.Store.{
  Tables, LogRow, CurrentRow, CachedAttribute, is_log_fact, upsert_current, delete_current_eav,
  delete_current_ea, read_current, holds, live, logged,
}
use litelog.Store.Laws.{
  holds-delete_current_eav, holds-delete_current_ea, holds-upsert_current, live-logged,
  holds-logged, datoms-delete_current_eav, datoms-delete_current_ea, datoms-upsert_current,
  read_current-holds,
}
use litelog.Transact.{Fact, log_row, current_row}

-- A fact is in `current_datoms` exactly if the history leaves it asserted.
abbrev pub IsMaterialized : Tables → Type 0
IsMaterialized t = (e a : ℕ) (v : Bytes) → holds t e a v ≡ live t.datoms e a v

-- An entity has one value at most for each attribute that the cache declares CardOne.
abbrev pub IsSingleValued : SchemaCache → Tables → Type 0
IsSingleValued sc t =
    (attr : CachedAttribute)
    → get_by_id sc attr.id ≡ some attr
    → attr.cardinality ≡ card_one
    → (e : ℕ) (v w : Bytes) → holds t e attr.id v ≡ true
    → holds t e attr.id w ≡ true
    → v ≡ w

-- One entity at most holds a value of an attribute that the cache declares an identity.
abbrev pub IsIdentified : SchemaCache → Tables → Type 0
IsIdentified sc t =
    (attr : CachedAttribute)
    → get_by_id sc attr.id ≡ some attr
    → attr.identity ≡ true
    → (v : Bytes) (d e : ℕ) → holds t d attr.id v ≡ true
    → holds t e attr.id v ≡ true
    → d ≡ e

abbrev pub IsConsistent : SchemaCache → Tables → Type 0
IsConsistent sc t = IsMaterialized t × IsSingleValued sc t × IsIdentified sc t

-- Fewer facts hold of no entity more values.
IsSingleValued-mono :
    (sc : SchemaCache) (t t' : Tables)
    → ((e a : ℕ) (v : Bytes) → holds t' e a v ≡ true → holds t e a v ≡ true)
    → IsSingleValued sc t
    → IsSingleValued sc t'
IsSingleValued-mono sc t t' sub h attr cached one e v w hv hw =
    h attr cached one e v w (sub e attr.id v hv) (sub e attr.id w hw)

-- What the history says of a fact after one more row and a statement that keeps the history.
live-after :
    (row : LogRow) (t after : Tables) (e a : ℕ) (v : Bytes)
    → after.datoms ≡ (logged row t).datoms
    → live after.datoms e a v ≡ (if is_log_fact e a v row then row.added else live t.datoms e a v)
live-after row t after e a v same = rw same (live-logged row t e a v)

IsIdentified-mono :
    (sc : SchemaCache) (t t' : Tables)
    → ((e a : ℕ) (v : Bytes) → holds t' e a v ≡ true → holds t e a v ≡ true)
    → IsIdentified sc t
    → IsIdentified sc t'
IsIdentified-mono sc t t' sub h attr cached one v d e hd he =
    h attr cached one v d e (sub d attr.id v hd) (sub e attr.id v he)

module _ (f : Fact) (t : Tables) where
  open f use {eid, v_bytes, attr}

  -- The tables after a CardOne value is replaced.
  abbrev pub replaced : CurrentRow → GoValue → Tables
  replaced old v = delete_current_ea eid attr.id (logged (log_row f old.v v false) t)

  -- A replacement adds no fact.
  pub holds-replaced :
      (old : CurrentRow) (v : GoValue) (e a : ℕ) (w : Bytes)
      → holds (replaced old v) e a w ≡ (holds t e a w && not (eid == e && attr.id == a))
  holds-replaced old v e a w =
      holds-delete_current_ea eid attr.id (logged (log_row f old.v v false) t) e a w
      ∙ ap (λ b. b && not (eid == e && attr.id == a))
          (holds-logged (log_row f old.v v false) t e a w)

  -- The tables after an assertion.
  abbrev pub asserted : GoValue → Tables
  asserted v = upsert_current (current_row f v) (logged (log_row f v_bytes v true) t)

  pub holds-asserted :
      (v : GoValue) (e a : ℕ) (w : Bytes)
      → holds (asserted v) e a w ≡ (holds t e a w || eid == e && attr.id == a && bytes_eq v_bytes w)
  holds-asserted v e a w = rw (
    holds-upsert_current (current_row f v) (logged (log_row f v_bytes v true) t) e a w,
    holds-logged (log_row f v_bytes v true) t e a w,
  )

module _ (sc : SchemaCache) (f : Fact) (t : Tables) (good : IsConsistent sc t) where
  open f use {eid, v_bytes, attr}

  pub IsConsistent-retracted :
      (v : GoValue)
      → IsConsistent sc
          (logged (log_row f v_bytes v false) (delete_current_eav eid attr.id v_bytes t))
  IsConsistent-retracted v = (
    λ e a w. ground (
      arith,
      good.0 e a w,
      holds-logged row deleted e a w,
      holds-delete_current_eav eid attr.id v_bytes t e a w,
      live-after row t after e a w kept,
    ),
    IsSingleValued-mono sc t after fewer good.1,
    IsIdentified-mono sc t after fewer good.2,
  )
    where
      row : LogRow
      row = log_row f v_bytes v false

      deleted : Tables
      deleted = delete_current_eav eid attr.id v_bytes t

      after : Tables
      after = logged row deleted

      kept : after.datoms ≡ (logged row t).datoms
      kept = ap (λ l. l ++ row ∷ []) (datoms-delete_current_eav eid attr.id v_bytes t)

      fewer : (e a : ℕ) (w : Bytes) → holds after e a w ≡ true → holds t e a w ≡ true
      fewer e a w h = ground (
        arith,
        holds-logged row deleted e a w,
        holds-delete_current_eav eid attr.id v_bytes t e a w,
      )

  pub IsConsistent-replaced :
      (old : CurrentRow) (v : GoValue)
      → get_by_id sc attr.id ≡ some attr
      → attr.cardinality ≡ card_one
      → read_current eid attr.id t ≡ some old
      → IsConsistent sc (replaced f t old v)
        × ((w : Bytes) → holds (replaced f t old v) eid attr.id w ≡ false)
  IsConsistent-replaced old v cached one found = (
    (
      λ e a w. ground (
        arith,
        good.0 e a w,
        holds-replaced f t old v e a w,
        live-after row t (replaced f t old v) e a w
            (datoms-delete_current_ea eid attr.id (logged row t)),
        only w,
      ),
      IsSingleValued-mono sc t (replaced f t old v) fewer good.1,
      IsIdentified-mono sc t (replaced f t old v) fewer good.2,
    ),
    λ w. ground (arith, holds-replaced f t old v eid attr.id w),
  )
    where
      row : LogRow
      row = log_row f old.v v false

      fewer : (e a : ℕ) (w : Bytes) → holds (replaced f t old v) e a w ≡ true → holds t e a w ≡ true
      fewer e a w h = ground (arith, holds-replaced f t old v e a w)

      only : (w : Bytes) → holds t eid attr.id w ≡ true → bytes_eq old.v w ≡ true
      only w h =
          (bytes_eq_iff old.v w).1
            (good.1 attr cached one eid old.v w (read_current-holds eid attr.id t old found) h)

  -- What holds only since the assertion is the value asserted.
  added :
      (v : GoValue) (a e : ℕ) (x : Bytes)
      → holds (asserted f t v) e a x ≡ true
      → holds t e a x ≡ false
      → x ≡ v_bytes
  added v a e x h k = ground (arith, holds-asserted f t v e a x, bytes_eq_iff v_bytes x)

  pub IsConsistent-asserted :
      (v : GoValue)
      → get_by_id sc attr.id ≡ some attr
      → (attr.cardinality ≡ card_one → (w : Bytes) → holds t eid attr.id w ≡ false)
      → (attr.identity ≡ true → (e : ℕ) → holds t e attr.id v_bytes ≡ true → e ≡ eid)
      → IsConsistent sc (asserted f t v)
  IsConsistent-asserted v cached free sole = (
    λ e a w. ground (
      arith,
      good.0 e a w,
      holds-asserted f t v e a w,
      live-after (log_row f v_bytes v true) t (asserted f t v) e a w
          (datoms-upsert_current (current_row f v) (logged (log_row f v_bytes v true) t)),
    ),
    λ b b_cached one e x y hx hy. elim (Bool-cases (eid == e && attr.id == b.id)) [
      | inl same ↦
          let no_value = no_value_there b b_cached one e same in
          added v b.id e x hx (no_value x) ∙ sym (added v b.id e y hy (no_value y))
      | inr apart ↦
          good.1 b b_cached one e x y (ground (arith, holds-asserted f t v e b.id x))
            (ground (arith, holds-asserted f t v e b.id y))
    ],
    λ b b_cached one x d e hd he. elim (Bool-cases (attr.id == b.id && bytes_eq v_bytes x)) [
      | inl same ↦ is_holder b b_cached one x d same hd ∙ sym (is_holder b b_cached one x e same he)
      | inr apart ↦
          good.2 b b_cached one x d e (ground (arith, holds-asserted f t v d b.id x))
            (ground (arith, holds-asserted f t v e b.id x))
    ],
  )
    where
      attr_at :
          (b : CachedAttribute) → get_by_id sc b.id ≡ some b → (attr.id == b.id) ≡ true → attr ≡ b
      attr_at b b_cached same =
          let same_id : attr.id ≡ b.id = ground arith in cc (ap (get_by_id sc) same_id)

      is_holder :
          (b : CachedAttribute)
          → get_by_id sc b.id ≡ some b
          → b.identity ≡ true
          → (x : Bytes) (e : ℕ) → (attr.id == b.id && bytes_eq v_bytes x) ≡ true
          → holds (asserted f t v) e b.id x ≡ true
          → e ≡ eid
      is_holder b b_cached one x e same h =
          let same_attr = attr_at b b_cached (ground arith) in
          let same_v : v_bytes ≡ x = (bytes_eq_iff v_bytes x).0 (ground arith) in
          ground (
            arith,
            same_v,
            holds-asserted f t v e b.id x,
            sole (ap (λ (c : CachedAttribute). c.identity) same_attr ∙ one) e,
          )

      -- The attribute asserted is the one at hand, so that it had no value.
      no_value_there :
          (b : CachedAttribute)
          → get_by_id sc b.id ≡ some b
          → b.cardinality ≡ card_one
          → (e : ℕ) → (eid == e && attr.id == b.id) ≡ true
          → (w : Bytes) → holds t e b.id w ≡ false
      no_value_there b b_cached one e same w =
          let same_e : eid ≡ e = ground arith in
          let same_attr = attr_at b b_cached (ground arith) in
          let none_yet = free (ap (λ (c : CachedAttribute). c.cardinality) same_attr ∙ one) w in
          ground (arith, none_yet)
