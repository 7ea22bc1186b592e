-- ===== src/Result.antt =====
-- The errors of the program, and its `(value, error)` results. An error keeps its kind and the
-- data that the code branches on; the text of its message is left out.
use litelog.Prelude.{◌≡◌, refl, subst, ◌⊎◌, inl, inr, Bool, true, false}

pub data Error : Type 0 where
  -- values.go
  short_buffer type_mismatch unknown_value_type bad_go_type : Error
  -- transact.go and attributes.go
  unknown_attribute not_identity no_such_entity unsupported_entity identity_conflict : Error
  tempid_conflict unique_constraint different_definition : Error
  -- edn/lexer.go and edn/parser.go
  unterminated_string unterminated_escape unexpected_character unexpected_end : Error
  unexpected_closing expected_brace odd_map : Error
  -- query/algebrize.go
  bad_attribute_constant unsupported_clause unresolved_variable : Error
  -- query/translate.go, and the panic of an index beyond the end of a slice
  no_tables empty_subquery index_out_of_range : Error
  -- not an error of the program: the fuel of a loop of this development has run out
  out_of_fuel : Error
  -- query/parser.go
  not_a_vector before_first_keyword missing_find bad_find bad_aggregate bad_clause : Error
  empty_clause bad_pattern empty_expression bad_order_by empty_rule bad_rule_head : Error
  -- query/recursive.go
  no_rules inconsistent_arity unknown_rule wrong_arity unbound_head_variable blank_head : Error
  -- query_api.go and pull.go
  too_few_args input_not_found unsupported_param pull_too_deep not_a_list : Error
  -- udf.go
  unsupported_result : Error

-- The value that a function returns with a nil error, or else its error.
pub data Result {ℓ} (Value : Type ℓ) : Type ℓ where
  err : Error → Result Value
  ok : Value → Result Value

module _ {ℓ κ} {Value : Type ℓ} {Next : Type κ} where
  infixl 5 ◌>>=◌
  -- `if err != nil { return err }`
  abbrev pub ◌>>=◌ : Result Value → (Value → Result Next) → Result Next
  err e >>= next = err e
  ok value >>= next = next value

module _ {ℓ} {Next : Type ℓ} where
  infixl 5 ◌>>◌
  -- The same for a function that returns an error alone.
  abbrev pub ◌>>◌ : Result (Unit {0}) → Result Next → Result Next
  first >> next = first >>= λ _. next

abbrev pub is_ok {ℓ} : {A : Type ℓ} → Result A → Bool
is_ok (ok a) = true
is_ok (err e) = false

-- To split on a computed result and keep the equation.
pub Result-cases {ℓ} :
    {A : Type ℓ} (r : Result A) → ((e : Error) × (r ≡ err e)) ⊎ ((a : A) × (r ≡ ok a))
Result-cases (ok a) = inr (a, refl)
Result-cases (err e) = inl (e, refl)

-- What holds of the value of a result, or else of its error.
pub data Returns {ℓ κ} {A : Type ℓ} (Q : Error → Type κ) (P : A → Type κ)
    : Result A → Type (ℓ ⊔ κ) where
  returns : {a : A} → P a → Returns Q P (ok a)
  fails : {e : Error} → Q e → Returns Q P (err e)

pub Returns->>= {ℓ κ} :
    {A : Type ℓ} {B : Type ℓ} {Q : Error → Type κ} {P : A → Type κ} {R : B → Type κ} (m : Result A)
    (f : A → Result B)
    → Returns Q P m
    → ((a : A) → m ≡ ok a → P a → Returns Q R (f a))
    → Returns Q R (m >>= f)
Returns->>= (ok a) f (returns p) k = k a refl p
Returns->>= (err e) f (fails q) k = fails q

-- From the predicate back to a result that is known.
pub Returns-ok {ℓ κ} :
    {A : Type ℓ} {Q : Error → Type κ} {P : A → Type κ} {m : Result A} {a : A}
    → Returns Q P m
    → m ≡ ok a
    → P a
Returns-ok {P} (returns p) e = subst P (cc) p
Returns-ok (fails q) e = cc

pub Returns-err {ℓ κ} :
    {A : Type ℓ} {Q : Error → Type κ} {P : A → Type κ} {m : Result A} {e : Error}
    → Returns Q P m
    → m ≡ err e
    → Q e
Returns-err (returns p) e = cc
Returns-err {Q} (fails q) e = subst Q (cc) q

pub Returns-mono {ℓ κ} :
    {A : Type ℓ} {Q : Error → Type κ} {P : A → Type κ} {R : A → Type κ} (m : Result A)
    → ((a : A) → P a → R a)
    → Returns Q P m
    → Returns Q R m
Returns-mono (ok a) h (returns p) = returns (h a p)
Returns-mono (err e) h (fails q) = fails q

pub Returns-errors {ℓ κ} :
    {A : Type ℓ} {Q : Error → Type κ} {S : Error → Type κ} {P : A → Type κ} (m : Result A)
    → ((e : Error) → Q e → S e)
    → Returns Q P m
    → Returns S P m
Returns-errors (ok a) h (returns p) = returns p
Returns-errors (err e) h (fails q) = fails (h e q)
