-- ===== src/Store/Laws.antt =====
-- What each statement does to the facts that hold and to the history.
use litelog.Prelude.{
  ℕ, ◌≡◌, refl, Bytes, Bool, true, false, not, ◌&&◌, ◌||◌, none, some, List, [], ◌∷◌, ◌++◌, ◌==◌,
  bytes_eq, bytes_eq_iff, bytes_eq_refl, Bool-cases, ==→eq, ◌⊎◌, inl, inr, if◌then◌else◌, any,
  remove_if, any-remove_if, any-find, any-mono_false, find-none, find-some, arith,
}
use litelog.Result.{ok, err, unique_constraint}
use litelog.Store.{
  Tables, TransactionRow, insert_transaction, CachedAttribute, insert_attribute, LogRow, CurrentRow,
  is_fact, is_log_fact, insert_datom, upsert_current, delete_current_ea, delete_current_eav,
  read_current, lookup_av, holds, logged, same_log_row, replay, live,
}

module _ (e a : ℕ) (v : Bytes) (t : Tables) (e' a' : ℕ) (v' : Bytes) where
  -- A fact holds after the deletion exactly if it held before and is another one.
  pub holds-delete_current_eav :
      holds (delete_current_eav e a v t) e' a' v'
      ≡ (holds t e' a' v' && not (e == e' && a == a' && bytes_eq v v'))
  unfolding holds delete_current_eav
  holds-delete_current_eav =
      any-remove_if (is_fact e a v) (is_fact e' a' v') (e == e' && a == a' && bytes_eq v v')
        t.current_datoms
        λ r h. ground (arith, bytes_eq_iff r.v v', bytes_eq_iff r.v v, bytes_eq_iff v v')

module _ (e a : ℕ) (t : Tables) (e' a' : ℕ) (v' : Bytes) where
  -- The same for the deletion of all values of an entity for an attribute.
  pub holds-delete_current_ea :
      holds (delete_current_ea e a t) e' a' v' ≡ (holds t e' a' v' && not (e == e' && a == a'))
  unfolding holds delete_current_ea
  holds-delete_current_ea =
      any-remove_if (λ r. r.e == e && r.a == a) (is_fact e' a' v') (e == e' && a == a')
        t.current_datoms λ r h. ground arith

module _ (r : CurrentRow) (t : Tables) (e' a' : ℕ) (v' : Bytes) where
  pub holds-upsert_current :
      holds (upsert_current r t) e' a' v'
      ≡ (holds t e' a' v' || r.e == e' && r.a == a' && bytes_eq r.v v')
  unfolding upsert_current
  holds-upsert_current = ground (arith, holds-delete_current_eav r.e r.a r.v t e' a' v', head)
    where
      head :
          holds
            (record t { current_datoms = r ∷ remove_if (is_fact r.e r.a r.v) t.current_datoms })
            e'
            a'
            v'
          ≡ (is_fact e' a' v' r || holds (delete_current_eav r.e r.a r.v t) e' a' v')
      head = unfold holds delete_current_eav any in refl

-- A new last row decides about its fact and about no other.
pub replay-snoc :
    (last : Bool) (log : List LogRow) (r : LogRow) (e a : ℕ) (v : Bytes)
    → replay last (log ++ r ∷ []) e a v
      ≡ (if is_log_fact e a v r then r.added else replay last log e a v)
unfolding replay
replay-snoc last [] r e a v = refl
replay-snoc last (s ∷ log) r e a v =
    replay-snoc (if is_log_fact e a v s then s.added else last) log r e a v

pub live-logged :
    (r : LogRow) (t : Tables) (e a : ℕ) (v : Bytes)
    → live (logged r t).datoms e a v
      ≡ (if is_log_fact e a v r then r.added else live t.datoms e a v)
live-logged r t e a v = replay-snoc false t.datoms r e a v

pub holds-logged :
    (r : LogRow) (t : Tables) (e a : ℕ) (v : Bytes) → holds (logged r t) e a v ≡ holds t e a v
unfolding holds
holds-logged r t e a v = refl

pub insert_datom-cases :
    (r : LogRow) (t : Tables)
    → (insert_datom r t ≡ err unique_constraint) ⊎ (insert_datom r t ≡ ok (logged r t))
unfolding insert_datom
insert_datom-cases r t = elim (Bool-cases (any (λ s. same_log_row s r) t.datoms)) [
  | inl dup ↦ inl (rw dup)
  | inr new ↦ inr (rw new)
]

-- The history is touched by `insert_datom` alone.
pub datoms-delete_current_eav :
    (e a : ℕ) (v : Bytes) (t : Tables) → (delete_current_eav e a v t).datoms ≡ t.datoms
unfolding delete_current_eav
datoms-delete_current_eav e a v t = refl

pub datoms-delete_current_ea : (e a : ℕ) (t : Tables) → (delete_current_ea e a t).datoms ≡ t.datoms
unfolding delete_current_ea
datoms-delete_current_ea e a t = refl

pub datoms-upsert_current : (r : CurrentRow) (t : Tables) → (upsert_current r t).datoms ≡ t.datoms
unfolding upsert_current
datoms-upsert_current r t = refl

-- The row that `read_current` finds is a fact that holds.
pub read_current-holds :
    (e a : ℕ) (t : Tables) (r : CurrentRow) → read_current e a t ≡ some r → holds t e a r.v ≡ true
unfolding read_current holds
read_current-holds e a t r h =
    any-find (λ s. s.e == e && s.a == a) (is_fact e a r.v) t.current_datoms r h
      (ground
        (arith, bytes_eq_refl r.v, find-some (λ s. s.e == e && s.a == a) t.current_datoms r h))

-- Where `read_current` finds no row, the entity has no value for the attribute.
pub read_current-none :
    (e a : ℕ) (t : Tables) (v : Bytes) → read_current e a t ≡ none → holds t e a v ≡ false
unfolding read_current holds
read_current-none e a t v h =
    any-mono_false (λ s. s.e == e && s.a == a) (is_fact e a v) t.current_datoms
      (λ s k. ground arith) (find-none (λ s. s.e == e && s.a == a) t.current_datoms h)

-- Where `lookup_av` finds no row, no entity but the excluded one holds the value.
pub lookup_av-none :
    (a : ℕ) (v : Bytes) (exclude : ℕ) (t : Tables) (e : ℕ)
    → lookup_av a v exclude t ≡ none
    → holds t e a v ≡ true
    → e ≡ exclude
unfolding lookup_av holds
lookup_av-none a v exclude t e h k = elim (Bool-cases (e == exclude)) [
  | inl same ↦ ==→eq e exclude same
  | inr apart ↦
      let gone =
        any-mono_false (λ s. s.a == a && bytes_eq s.v v && not (s.e == exclude)) (is_fact e a v)
          t.current_datoms (λ s j. ground arith) (find-none _ t.current_datoms h) in
      cc (gone, k)
]

pub insert_transaction-cases :
    (r : TransactionRow) (t : Tables)
    → (insert_transaction r t ≡ err unique_constraint)
      ⊎ (insert_transaction r t ≡ ok (record t { transactions = t.transactions ++ r ∷ [] }))
unfolding insert_transaction
insert_transaction-cases r t = elim (Bool-cases (any (λ s. s.id == r.id) t.transactions)) [
  | inl dup ↦ inl (rw dup)
  | inr new ↦ inr (rw new)
]

pub insert_attribute-cases :
    (r : CachedAttribute) (t : Tables)
    → (insert_attribute r t ≡ err unique_constraint)
      ⊎ (insert_attribute r t ≡ ok (record t { attributes = t.attributes ++ r ∷ [] }))
unfolding insert_attribute
insert_attribute-cases r t =
    elim (Bool-cases (any (λ s. s.id == r.id || bytes_eq s.ident r.ident) t.attributes)) [
      | inl dup ↦ inl (rw dup)
      | inr new ↦ inr (rw new)
    ]
