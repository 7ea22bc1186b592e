-- ===== src/Pull/Specific/Tests.antt =====
-- pull.go on two friends, 1 and 2, who refer to each other.
use litelog.Prelude.{
  ℕ, ◌^◌, ◌<◌, ◌≡◌, refl, ◌⊎◌, inl, inr, false, none, some, List, [], ◌∷◌, ◌==◌, text, bytes_eq,
  lookup, if◌then◌else◌, arith,
}
use litelog.Result.{ok, err, ◌>>=◌, out_of_fuel, Returns}
use litelog.Types.{int64, type_ref, card_many}
use litelog.Values.{encode_int64, encode_value, decode_value}
use litelog.Values.RoundTrip.{decode_value-encode_value}
use litelog.Store.{CachedAttribute, CurrentRow, Tables}
use litelog.Schema.{SchemaCache, get_by_ident}
use litelog.Transact.{bind_typed_columns}
use litelog.Temporal.{as_of}
use litelog.Pool.{Db, Connection, acquire}
use litelog.Execute.Rows.{Holds}
use litelog.Pull.{pull_wildcard}
use litelog.Pull.Rows.{PullRow, of_current, current_entity, of_attribute, read_current_entity}
use litelog.Pull.Depth.{IsShallow, IsFault, pull_wildcard-IsShallow}
use litelog.Pull.Specific.{cleared, pull, pull_view, pull_entity}
use litelog.Pull.Specific.Plain.{IsSimple, AreSimple, NestedSimple}
use litelog.Pull.Specific.Simple.{meant, meant_view, pull-plain}
use litelog.Pull.Specific.Agree.{AllHold, now, pull_view-pull}
use litelog.Pull.Specific.Endless.{outer_pattern, inner_pattern, Circles, pull_entity-endless}

abbrev friend : CachedAttribute
friend = record {
  id = 5;
  ident = text ":friend";
  value_type = type_ref;
  cardinality = card_many;
  indexed = false;
  unique = false;
  identity = false;
  is_component = false;
}

abbrev friends : SchemaCache
friends = record { by_ident = (text ":friend", friend) ∷ []; by_id = (5, friend) ∷ [] }

abbrev likes : ℕ → ℕ → CurrentRow
likes e who = record {
  e = e;
  a = 5;
  v = encode_int64 who;
  v_type = type_ref;
  typed = bind_typed_columns (int64 who) type_ref;
  tx = 1;
  valid_from = 0;
  valid_to = none;
}

abbrev two_friends : Tables
two_friends = record {
  datoms = [];
  current_datoms = likes 1 2 ∷ likes 2 1 ∷ [];
  transactions = [];
  attributes = friend ∷ [];
}

abbrev friends_db : Db
friends_db = record {
  tables = two_friends;
  schema = friends;
  next_tx = 2;
  next_eid = 3;
  udfs_dirty = false;
  history_path = [];
}

abbrev ready : Connection
ready = record { take = ok tt; install = ok tt; begin = ok tt }

pull_wildcard-IsShallow_example :
    Returns
      (IsFault friends (read_current_entity two_friends))
      (IsShallow 16)
      (pull_wildcard friends (read_current_entity two_friends) 17 1)
pull_wildcard-IsShallow_example =
    pull_wildcard-IsShallow friends (read_current_entity two_friends) 16 1

inner-IsSimple : IsSimple friends (inner_pattern (text ":friend"))
unfolding IsSimple AreSimple NestedSimple
inner-IsSimple = ((λ _ _. tt), tt, tt)

pull-plain_example :
    (pull ready 3 friends_db 1 (inner_pattern (text ":friend"))
      ≡ (acquire ready false >>= λ _. meant friends_db (inner_pattern (text ":friend")) 1))
    × (pull_view ready 3 friends_db (as_of 1) 1 (inner_pattern (text ":friend")) ≡ (
        acquire ready false >>= λ _.
        meant_view friends_db (as_of 1) (inner_pattern (text ":friend")) 1))
pull-plain_example =
    pull-plain ready 3 friends_db (as_of 1) 1 (inner_pattern (text ":friend")) inner-IsSimple
      (omega arith)

likes-Holds : (e who : ℕ) → who < 2 ^ 64 → Holds (likes e who) (int64 who)
unfolding encode_value
likes-Holds e who h = record { in_range = h; encoded = refl; typed = refl }

friends-AllHold : AllHold (likes 1 2 ∷ likes 2 1 ∷ [])
friends-AllHold = (
  (int64 2, likes-Holds 1 2 (omega arith), refl),
  ((int64 1, likes-Holds 2 1 (omega arith), refl), tt),
)

pull_view-pull_example :
    pull_view ready 3 friends_db now 1 (inner_pattern (text ":friend"))
    ≡ pull ready 3 friends_db 1 (inner_pattern (text ":friend"))
pull_view-pull_example =
    pull_view-pull ready 3 friends_db 1 (inner_pattern (text ":friend")) friends-AllHold
      inner-IsSimple (omega arith)

-- The two of them.
abbrev IsOneOfTwo : ℕ → Type 0
IsOneOfTwo e = (e ≡ 1) ⊎ (e ≡ 2)

abbrev other_one : ℕ → ℕ
other_one e = if e == 1 then 2 else 1

abbrev their_row : ℕ → PullRow
their_row e = of_current (likes e (other_one e))

abbrev friends_of : ℕ → ℕ → List PullRow
friends_of e a = of_attribute a (current_entity e two_friends.current_datoms)

decoded : (n : ℕ) → n < 2 ^ 64 → decode_value (encode_int64 n) type_ref ≡ ok (int64 n)
unfolding encode_value
decoded n h = decode_value-encode_value (int64 n) type_ref (encode_int64 n) h refl

they_circle : Circles friends_of 5 IsOneOfTwo other_one their_row
unfolding of_attribute current_entity
they_circle = record {
  one_row = λ e h. elim h [ inl one ↦ rw one refl | inr two ↦ rw two refl ];
  reads = λ e h. elim h [
    | inl one ↦ rw one (decoded 2 (omega arith))
    | inr two ↦ rw two (decoded 1 (omega arith))
  ];
  stays_in = λ e h. elim h [ inl one ↦ rw one (inr refl) | inr two ↦ rw two (inl refl) ];
}

friend_known : get_by_ident friends (text ":friend") ≡ some friend
unfolding get_by_ident lookup bytes_eq
friend_known = refl

pull_entity-endless_example :
    (pull_entity friends
      (read_current_entity two_friends)
      friends_of
      (λ _. cleared)
      1000
      17
      (outer_pattern (text ":friend"))
      1
      cleared).0
    ≡ err out_of_fuel
pull_entity-endless_example =
    pull_entity-endless friends (read_current_entity two_friends) friends_of (λ _. cleared) 1000
      (text ":friend") friend IsOneOfTwo other_one their_row friend_known refl refl they_circle 15 1
      cleared (inl refl)
