-- ===== src/Pool/Load.antt =====
-- The counters that `loadState` reads from a database file.
use Prim.Native.Nat.{max}
use litelog.Prelude.{
  ℕ, ◌+◌, ◌-◌, ◌^◌, ◌<◌, ◌≡◌, ◌==◌, refl, Bytes, Bool, true, false, List, [], ◌∷◌, All, map, arith,
  if◌then◌else◌, some,
}
use litelog.Types.{word64, signed_lt}
use litelog.Store.{larger, max_of, or_zero, Tables, CurrentRow, TransactionRow, CachedAttribute}
use litelog.Pool.{max_or_zero, next_int64, free_entity_id, load_state}

-- Every number of the list lies below the bound.
abbrev pub AllBelow : ℕ → List ℕ → Type 0
AllBelow n [] = Unit {0}
AllBelow n (x ∷ xs) = (x < n) × AllBelow n xs

-- Every number of the list lies below the bound, as signed integers.
abbrev pub AllUnder : ℕ → List ℕ → Type 0
AllUnder n [] = Unit {0}
AllUnder n (x ∷ xs) = (signed_lt x n ≡ true) × AllUnder n xs

-- A 64-bit integer that is not the largest one.
abbrev pub HasNext : ℕ → Type 0
HasNext n = (n < word64) × ((n == 2 ^ 63 - 1) ≡ false)

abbrev pub entity_ids : Tables → List ℕ
entity_ids t = map (λ (r : CurrentRow). r.e) t.current_datoms

abbrev pub attribute_ids : Tables → List ℕ
attribute_ids t = map (λ (r : CachedAttribute). r.id) t.attributes

abbrev pub transaction_ids : Tables → List ℕ
transaction_ids t = map (λ (r : TransactionRow). r.id) t.transactions

-- Is no member above the bound?
abbrev NoneAbove : ℕ → List ℕ → Type 0
NoneAbove m xs = All (λ x. (signed_lt m x ≡ false) × (x < word64)) xs

NoneAbove-mono :
    (m n : ℕ) (xs : List ℕ)
    → m < word64
    → n < word64
    → signed_lt n m ≡ false
    → NoneAbove m xs
    → NoneAbove n xs
NoneAbove-mono m n [] hm hn le h = tt
NoneAbove-mono m n (x ∷ xs) hm hn le ((here, hx), h) =
    ((ground (arith, here, le, hx, hm, hn), hx), NoneAbove-mono m n xs hm hn le h)

-- A largest number, as far as the list goes, to which one can be added.
abbrev IsLargest : ℕ → List ℕ → Type 0
IsLargest m xs = HasNext m × NoneAbove m xs

IsLargest-larger :
    (m x : ℕ) (xs : List ℕ) → HasNext x → IsLargest m xs → IsLargest (larger x (some m)) (x ∷ xs)
IsLargest-larger m x xs h (next, above) = by_order (signed_lt m x) refl
  where
    by_order : (more : Bool) → signed_lt m x ≡ more → IsLargest (if more then x else m) (x ∷ xs)
    by_order true q =
        (h, ((ground arith, h.0), NoneAbove-mono m x xs next.0 h.0 (ground (arith, q)) above))
    by_order false q = (next, ((q, h.0), above))

max_of-IsLargest : (xs : List ℕ) → All HasNext xs → IsLargest (or_zero (max_of xs)) xs
unfolding max_of
max_of-IsLargest [] h = ((omega arith, refl), tt)
max_of-IsLargest (x ∷ []) (h, hs) = (h, ((ground arith, h.0), tt))
max_of-IsLargest (x ∷ y ∷ xs) (h, hs) =
    IsLargest-larger (larger y (max_of xs)) x (y ∷ xs) h (max_of-IsLargest (y ∷ xs) hs)

NoneAbove-AllUnder :
    (m n : ℕ) (xs : List ℕ)
    → m < word64
    → n < word64
    → signed_lt m n ≡ true
    → NoneAbove m xs
    → AllUnder n xs
NoneAbove-AllUnder m n [] hm hn lt above = tt
NoneAbove-AllUnder m n (x ∷ xs) hm hn lt ((here, hx), above) =
    (ground (arith, hm, hn, lt, here, hx), NoneAbove-AllUnder m n xs hm hn lt above)

-- The counter behind two maxima is behind both.
free_entity_id-next :
    (m n : ℕ)
    → HasNext m
    → HasNext n
    → (signed_lt m (free_entity_id m n) ≡ true)
      × (signed_lt n (free_entity_id m n) ≡ true)
      × (free_entity_id m n < word64)
unfolding free_entity_id
free_entity_id-next m n h k = (ground (arith, h, k), ground (arith, h, k), ground (arith, h, k))

-- A counter that is not 0, or else a small number.
counter-next :
    (m n k : ℕ)
    → m < word64
    → n < word64
    → 0 < k
    → k < 2 ^ 63
    → signed_lt m n ≡ true
    → (signed_lt m (if n == 0 then k else n) ≡ true) × ((if n == 0 then k else n) < word64)
counter-next m n k hm hn pos small h =
    (ground (arith, hm, hn, pos, small, h), ground (arith, hn, small))

-- The counters of a database that is opened are beyond every transaction, current entity and attribute
-- in the file, all of them 64-bit integers with their sign, where none of these IDs is the largest
-- int64, behind which the counters wrap around.
pub load_state-AllUnder :
    (t : Tables) (path : Bytes)
    → All HasNext (transaction_ids t)
    → All HasNext (entity_ids t)
    → All HasNext (attribute_ids t)
    → AllUnder (load_state t path).next_tx (transaction_ids t)
      × AllUnder (load_state t path).next_eid (entity_ids t)
      × AllUnder (load_state t path).next_eid (attribute_ids t)
unfolding load_state max_or_zero
load_state-AllUnder t path txs es as_ids =
    let (tx, tx_above) = max_of-IsLargest (transaction_ids t) txs in
    let (e, e_above) = max_of-IsLargest (entity_ids t) es in
    let (a, a_above) = max_of-IsLargest (attribute_ids t) as_ids in
    let m = or_zero (max_of (transaction_ids t)) in
    let (e_lt, a_lt, word) =
      free_entity_id-next (or_zero (max_of (entity_ids t))) (or_zero (max_of (attribute_ids t))) e
        a in
    let tx_next =
      counter-next m (next_int64 m) 1 tx.0 (omega arith) (omega arith) (omega arith)
        (ground (arith, tx)) in
    let e_next = counter-next _ _ 1000 e.0 word (omega arith) (omega arith) e_lt in
    let a_next = counter-next _ _ 1000 a.0 word (omega arith) (omega arith) a_lt in
    (
      NoneAbove-AllUnder _ _ (transaction_ids t) tx.0 tx_next.1 tx_next.0 tx_above,
      NoneAbove-AllUnder _ _ (entity_ids t) e.0 e_next.1 e_next.0 e_above,
      NoneAbove-AllUnder _ _ (attribute_ids t) a.0 a_next.1 a_next.0 a_above,
    )

-- The largest of some numbers without a sign, or 0.
abbrev pub largest : List ℕ → ℕ
largest [] = 0
largest (x ∷ xs) = max x (largest xs)

-- A number that is not negative, and not the largest one.
abbrev pub IsSmall : ℕ → Type 0
IsSmall n = n < 2 ^ 63 - 1

max_of-largest :
    (xs : List ℕ) → All IsSmall xs → (or_zero (max_of xs) ≡ largest xs) × (largest xs < 2 ^ 63 - 1)
unfolding max_of
max_of-largest [] h = (refl, omega arith)
max_of-largest (x ∷ []) (h, hs) = (ground arith, ground (arith, h))
max_of-largest (x ∷ y ∷ xs) (h, hs) =
    let (same, small) = max_of-largest (y ∷ xs) hs in
    (ground (arith, same, small, h), ground (arith, small, h))

free_entity_id-max : (m n : ℕ) → IsSmall m → IsSmall n → free_entity_id m n ≡ max m n + 1
unfolding free_entity_id
free_entity_id-max m n h k = ground (arith, h, k)

-- The first free entity ID is one more than the largest current entity or attribute ID, or 1 where
-- there are none, if all of these are not negative and below the largest int64: no range of IDs is kept
-- free.
pub load_state-next_eid :
    (t : Tables) (path : Bytes)
    → All IsSmall (entity_ids t)
    → All IsSmall (attribute_ids t)
    → (load_state t path).next_eid ≡ max (largest (entity_ids t)) (largest (attribute_ids t)) + 1
unfolding load_state max_or_zero
load_state-next_eid t path es as_ids =
    let (e, e_small) = max_of-largest (entity_ids t) es in
    let (a, a_small) = max_of-largest (attribute_ids t) as_ids in
    rw
      (
        e,
        a,
        free_entity_id-max (largest (entity_ids t)) (largest (attribute_ids t)) e_small a_small,
      )
      (ground arith)
