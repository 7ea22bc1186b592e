-- ===== src/Pull/Depth.antt =====
-- pull.go: how deep the pull of all attributes goes, and how it fails.
use litelog.Prelude.{
  ℕ, zero, suc, ◌≡◌, refl, ◌∙◌, ap, ◌⊎◌, inl, inr, Bytes, Option, none, some, List, [], ◌∷◌,
  bytes_eq, Bool-cases, Option-cases,
}
use litelog.Result.{
  Returns-errors, Error, Result, ok, err, Returns, returns, fails, Returns->>=, Result-cases,
  pull_too_deep, not_a_list, out_of_fuel,
}
use litelog.Types.{GoValue, int64, int, string, float64, bool, bytes, time, other}
use litelog.Store.{CachedAttribute}
use litelog.Schema.{SchemaCache, get_by_id}
use litelog.Pull.{
  PullValue, pulled, pulled_many, pulled_entity, PullValues, no_values, value_and, PullResult,
  no_entries, entry, append_value, put_entry, get_entry, start_result, append_existing, is_many,
  is_ref, add_value, nested_or_id, follow, add_rows, pull_wildcard,
}

-- Results that nest others at most `n` deep.
unfoldable mutual
  pub IsShallow : ℕ → PullResult → Type 0
  IsShallow n no_entries = Unit {0}
  IsShallow n (entry key v rest) = IsShallowValue n v × IsShallow n rest

  pub IsShallowValue : ℕ → PullValue → Type 0
  IsShallowValue n (pulled v) = Unit {0}
  IsShallowValue n (pulled_many vs) = AreShallow n vs
  IsShallowValue zero (pulled_entity r) = ⊥
  IsShallowValue (suc n) (pulled_entity r) = IsShallow n r

  pub AreShallow : ℕ → PullValues → Type 0
  AreShallow n no_values = Unit {0}
  AreShallow n (value_and v vs) = IsShallowValue n v × AreShallow n vs

AreShallow-append_value :
    (n : ℕ) (vs : PullValues) (v : PullValue)
    → AreShallow n vs
    → IsShallowValue n v
    → AreShallow n (append_value vs v)
unfolding append_value AreShallow
AreShallow-append_value n no_values v h k = (k, tt)
AreShallow-append_value n (value_and w ws) v (h, hs) k = (h, AreShallow-append_value n ws v hs k)

IsShallow-put_entry :
    (n : ℕ) (key : Bytes) (v : PullValue) (r : PullResult)
    → IsShallowValue n v
    → IsShallow n r
    → IsShallow n (put_entry key v r)
unfolding put_entry IsShallow
IsShallow-put_entry n key v no_entries h k = (h, tt)
IsShallow-put_entry n key v (entry old w rest) h (k, ks) = elim (Bool-cases (bytes_eq old key)) [
  | inl same ↦ rw same (h, ks)
  | inr differs ↦ rw differs (k, IsShallow-put_entry n key v rest h ks)
]

abbrev Found : ℕ → Option PullValue → Type 0
Found n none = Unit {0}
Found n (some v) = IsShallowValue n v

Found-get_entry : (n : ℕ) (key : Bytes) (r : PullResult) → IsShallow n r → Found n (get_entry key r)
unfolding get_entry IsShallow
Found-get_entry n key no_entries h = tt
Found-get_entry n key (entry old w rest) (h, hs) = elim (Bool-cases (bytes_eq old key)) [
  | inl same ↦ rw same h
  | inr differs ↦ rw differs (Found-get_entry n key rest hs)
]

module _ (cache : SchemaCache) (read : ℕ → Result (List (ℕ × GoValue))) where
  -- An error of the reading of some entity's rows, or the panic.
  abbrev pub IsFault : Error → Type 0
  IsFault e = (e ≡ not_a_list) ⊎ ((eid : ℕ) × (read eid ≡ err e))

  abbrev OrTooDeep : Error → Type 0
  OrTooDeep e = (e ≡ pull_too_deep) ⊎ IsFault e

  append_existing-Shallow :
      (n : ℕ) (old : Option PullValue) (v : PullValue)
      → Found n old
      → IsShallowValue n v
      → Returns IsFault (IsShallowValue n) (append_existing old v)
  unfolding append_existing IsShallowValue
  append_existing-Shallow n none v h k = returns (k, tt)
  append_existing-Shallow n (some (pulled_many vs)) v h k =
      returns (AreShallow-append_value n vs v h k)
  append_existing-Shallow n (some (pulled w)) v h k = fails (inl refl)
  append_existing-Shallow n (some (pulled_entity r)) v h k = fails (inl refl)

  add_value-Shallow :
      (n : ℕ) (attr : CachedAttribute) (v : PullValue) (r : PullResult)
      → IsShallowValue n v
      → IsShallow n r
      → Returns IsFault (IsShallow n) (add_value attr v r)
  unfolding add_value
  add_value-Shallow n attr v r h k = elim (Bool-cases (is_many attr)) [
    | inl many ↦ rw many (
        Returns->>= (append_existing (get_entry attr.ident r) v) _
          (append_existing-Shallow n (get_entry attr.ident r) v (Found-get_entry n attr.ident r k)
            h)
          (λ w _ l. returns (IsShallow-put_entry n attr.ident w r l k)))
    | inr one ↦ rw one (returns (IsShallow-put_entry n attr.ident v r h k))
  ]

  nested_or_id-err :
      (id : ℕ) (e : Error)
      → (e ≡ not_a_list) ⊎ (e ≡ out_of_fuel) ⊎ (nested_or_id id (err e) ≡ ok (pulled (int64 id)))
  unfolding nested_or_id
  nested_or_id-err id not_a_list = inl refl
  nested_or_id-err id out_of_fuel = inr (inl refl)
  nested_or_id-err id e = inr (inr refl)

  -- Running out of fuel is not the depth's error.
  fuel-IsFault : (e : Error) → e ≡ out_of_fuel → OrTooDeep e → IsFault out_of_fuel
  fuel-IsFault e q (inl deep) = cc
  fuel-IsFault e q (inr (inl panic)) = cc
  fuel-IsFault e q (inr (inr (eid, failed))) = inr (eid, failed ∙ ap err q)

  nested_or_id-Shallow :
      (n id : ℕ) (m : Result PullResult)
      → Returns OrTooDeep (λ r. IsShallowValue n (pulled_entity r)) m
      → Returns IsFault (IsShallowValue n) (nested_or_id id m)
  unfolding nested_or_id IsShallowValue
  nested_or_id-Shallow n id (ok r) (returns h) = returns h
  nested_or_id-Shallow n id (err e) (fails q) = elim (nested_or_id-err id e) [
    | inl panic ↦ rw panic (fails (inl refl))
    | inr (inl fuel) ↦ rw fuel (fails (fuel-IsFault e fuel q))
    | inr (inr swallowed) ↦ rw swallowed (returns tt)
  ]

  -- What a nested pull gives at this depth.
  abbrev Nests : ℕ → (ℕ → Result PullResult) → Type 0
  Nests n pull = (eid : ℕ) → Returns OrTooDeep (λ r. IsShallowValue n (pulled_entity r)) (pull eid)

  follow-Shallow :
      (n : ℕ) (pull : ℕ → Result PullResult) (attr : CachedAttribute) (v : GoValue)
      → Nests n pull
      → Returns IsFault (IsShallowValue n) (follow pull attr v)
  unfolding follow IsShallowValue
  follow-Shallow n pull attr (int64 id) h = elim (Bool-cases (is_ref attr)) [
    | inl ref ↦ rw ref (nested_or_id-Shallow n id (pull id) (h id))
    | inr value ↦ rw value (returns tt)
  ]
  follow-Shallow n pull attr (int x) h = returns tt
  follow-Shallow n pull attr (string x) h = returns tt
  follow-Shallow n pull attr (float64 x) h = returns tt
  follow-Shallow n pull attr (bool x) h = returns tt
  follow-Shallow n pull attr (bytes x) h = returns tt
  follow-Shallow n pull attr (time x y) h = returns tt
  follow-Shallow n pull attr other h = returns tt

  add_rows-Shallow :
      (n : ℕ) (pull : ℕ → Result PullResult) (rows : List (ℕ × GoValue)) (r : PullResult)
      → Nests n pull
      → IsShallow n r
      → Returns IsFault (IsShallow n) (add_rows pull cache rows r)
  unfolding add_rows
  add_rows-Shallow n pull [] r h k = returns k
  add_rows-Shallow n pull ((a, v) ∷ rows) r h k = elim (Option-cases (get_by_id cache a)) [
    | inl unknown ↦ rw (add_rows, unknown) (add_rows-Shallow n pull rows r h k)
    | inr (attr, known) ↦
        rw (add_rows, known)
          (Returns->>= (follow pull attr v) _ (follow-Shallow n pull attr v h) (λ w _ s.
            Returns->>= (add_value attr w r) _ (add_value-Shallow n attr w r s k)
              (λ r' _ k'. add_rows-Shallow n pull rows r' h k')))
  ]

  -- One level, from the level below.
  level :
      (n eid : ℕ)
      → Nests n (pull_wildcard cache read n)
      → Returns IsFault (IsShallow n) (pull_wildcard cache read (suc n) eid)
  unfolding pull_wildcard IsShallow IsShallowValue
  level n eid h = elim (Result-cases (read eid)) [
    | inl (e, failed) ↦ rw (pull_wildcard, failed) (fails (inr (eid, failed)))
    | inr (rows, done) ↦
        rw (pull_wildcard, done)
          (add_rows-Shallow n (pull_wildcard cache read n) rows (start_result eid) h (tt, tt))
  ]

  Nests-wildcard : (n : ℕ) → Nests n (pull_wildcard cache read n)
  unfolding IsShallowValue pull_wildcard
  Nests-wildcard zero eid = fails (inl refl)
  Nests-wildcard (suc n) eid =
      Returns-errors (pull_wildcard cache read (suc n) eid) (λ e q. inr q)
        (level n eid (Nests-wildcard n))

  -- From any entity, however its references run, the pull of all attributes nests at most so many
  -- entities in each other below the first as it has levels left, and it fails only with the error
  -- of reading the rows of some entity, or with a panic on a value that is not a list.
  pub pull_wildcard-IsShallow :
      (n eid : ℕ) → Returns IsFault (IsShallow n) (pull_wildcard cache read (suc n) eid)
  pull_wildcard-IsShallow n eid = level n eid (Nests-wildcard n)
