-- ===== src/Temporal/Tests.antt =====
-- Views of a history in which a fact is asserted, retracted and asserted again.
use litelog.Prelude.{
  ℕ, ◌≡◌, refl, text, [], ◌∷◌, Bool, true, false, not, ◌&&◌, none, some, arith, bytes_eq, any,
}
use litelog.Types.{type_string}
use litelog.Store.{Tables, LogRow, replay, live}
use litelog.Temporal.{as_of, pull_has, query_has, pull_visible, query_visible}
use litelog.Temporal.AsOf.{upto, retracted, pull_has-as_of, query_has-as_of}

abbrev row : ℕ → Bool → LogRow
row tx added = record {
  e = 5;
  a = 1;
  v = text "red";
  v_type = type_string;
  typed = record { v_int = none; v_text = some (text "red"); v_float = none };
  tx = tx;
  added = added;
  valid_from = 100;
  valid_to = none;
}

abbrev again : Tables
again = record {
  datoms = row 1 true ∷ row 2 false ∷ row 3 true ∷ [];
  current_datoms = [];
  transactions = [];
  attributes = [];
}

-- The fact is asserted again in transaction 3: a pull sees it there, and a query does not.
pull_sees : pull_has (as_of 3) again 5 1 (text "red") ≡ true
unfolding pull_has pull_visible any bytes_eq
pull_sees = refl

query_misses : query_has (as_of 3) again 5 1 (text "red") ≡ false
unfolding query_has query_visible any bytes_eq
query_misses = refl

-- An assertion that its own transaction retracts stays visible to a pull.
abbrev undone : Tables
undone = record again { datoms = row 1 true ∷ row 1 false ∷ [] }

pull_sees_undone :
    (pull_has (as_of 1) undone 5 1 (text "red") ≡ true)
    × (live (upto 1 undone.datoms) 5 1 (text "red") ≡ false)
unfolding pull_has pull_visible any bytes_eq upto replay
pull_sees_undone = (refl, refl)

pull_has-as_of_example :
    pull_has (as_of 3) again 5 1 (text "red") ≡ live (upto 3 again.datoms) 5 1 (text "red")
pull_has-as_of_example =
    pull_has-as_of 3 5 1 (text "red") again (omega arith) (omega arith)
      (unfold any bytes_eq in (λ _ _. refl, (λ _ _. refl, (λ _ _. refl, tt))))

query_has-as_of_example : query_has (as_of 3) again 5 1 (text "red") ≡ (
    live (upto 3 again.datoms) 5 1 (text "red") && not (retracted 3 5 1 (text "red") again.datoms))
query_has-as_of_example = query_has-as_of 3 5 1 (text "red") again (omega arith)
