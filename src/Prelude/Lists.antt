-- ===== src/Prelude/Lists.antt =====
-- Lists measured by native numbers, and tests on their members.
use Prim.Native.Nat.{ℕ, zero, suc, ◌+◌, ◌-◌}
use mathlib.Core.Path.{◌≡◌, refl}
use mathlib.Core.Bool.{Bool, true, false, not, ◌&&◌, ◌||◌}
use mathlib.Core.List.{List, [], ◌∷◌, ◌++◌, map}
use mathlib.Core.Option.{Option, none, some}
use native.Mathlib.Omega.{arith}
use litelog.Prelude.Tests.{if◌then◌else◌}

module _ {ℓ} {A : Type ℓ} where
  abbrev pub length : List A → ℕ
  length [] = 0
  length (x ∷ xs) = suc (length xs)

  abbrev pub drop : ℕ → List A → List A
  drop zero xs = xs
  drop (suc n) [] = []
  drop (suc n) (x ∷ xs) = drop n xs

  abbrev pub take : ℕ → List A → List A
  take zero xs = []
  take (suc n) [] = []
  take (suc n) (x ∷ xs) = x ∷ take n xs

  pub length-append : (xs ys : List A) → length (xs ++ ys) ≡ length xs + length ys
  length-append [] ys = omega arith
  length-append (x ∷ xs) ys = omega (arith, length-append xs ys)

  pub length-drop : (n : ℕ) (xs : List A) → length (drop n xs) ≡ length xs - n
  length-drop zero xs = omega arith
  length-drop (suc n) [] = omega arith
  length-drop (suc n) (x ∷ xs) = omega (arith, length-drop n xs)

  pub take-append-drop : (n : ℕ) (xs : List A) → take n xs ++ drop n xs ≡ xs
  take-append-drop zero xs = refl
  take-append-drop (suc n) [] = refl
  take-append-drop (suc n) (x ∷ xs) = rw (take-append-drop n xs)

  -- Does some member pass the test?
  unfoldable pub any : (A → Bool) → List A → Bool
  any p [] = false
  any p (x ∷ xs) = p x || any p xs

  -- The first member that passes the test.
  unfoldable pub find : (A → Bool) → List A → Option A
  find p [] = none
  find p (x ∷ xs) = if p x then some x else find p xs

  -- The members that fail the test.
  unfoldable pub remove_if : (A → Bool) → List A → List A
  remove_if p [] = []
  remove_if p (x ∷ xs) = if p x then remove_if p xs else x ∷ remove_if p xs

  pub any-append : (p : A → Bool) (xs ys : List A) → any p (xs ++ ys) ≡ (any p xs || any p ys)
  unfolding any
  any-append p [] ys = refl
  any-append p (x ∷ xs) ys = ground (arith, any-append p xs ys)

  -- Removing members changes a test only as far as it takes away members that pass it.
  pub any-remove_if :
      (p q : A → Bool) (b : Bool) (xs : List A)
      → ((x : A) → q x ≡ true → p x ≡ b)
      → any q (remove_if p xs) ≡ (any q xs && not b)
  unfolding any remove_if
  any-remove_if p q b [] h = refl
  any-remove_if p q b (x ∷ xs) h = ground (arith, h x, any-remove_if p q b xs h)

  pub find-none : (p : A → Bool) (xs : List A) → find p xs ≡ none → any p xs ≡ false
  unfolding find any
  find-none p [] h = refl
  find-none p (x ∷ xs) h = ground (arith, find-none p xs)

  -- What `find` returns passes the test.
  pub find-some : (p : A → Bool) (xs : List A) (x : A) → find p xs ≡ some x → p x ≡ true
  unfolding find
  find-some p [] x h = cc
  find-some p (y ∷ xs) x h = ground (arith, find-some p xs x)

  -- A member that `find` returns is a witness for every weaker test.
  pub any-find :
      (p q : A → Bool) (xs : List A) (x : A) → find p xs ≡ some x → q x ≡ true → any q xs ≡ true
  unfolding find any
  any-find p q [] x h k = cc
  any-find p q (y ∷ xs) x h k = ground (arith, any-find p q xs x)

  -- A test that is stronger fails with the weaker one.
  pub any-mono_false :
      (p q : A → Bool) (xs : List A)
      → ((x : A) → q x ≡ true → p x ≡ true)
      → any p xs ≡ false
      → any q xs ≡ false
  unfolding any
  any-mono_false p q [] h k = refl
  any-mono_false p q (x ∷ xs) h k = ground (arith, h x, any-mono_false p q xs h)

  pub any-ext : (p q : A → Bool) (xs : List A) → ((x : A) → p x ≡ q x) → any p xs ≡ any q xs
  unfolding any
  any-ext p q [] h = refl
  any-ext p q (x ∷ xs) h = ground (arith, h x, any-ext p q xs h)

-- What is in front of an append, and what is behind it.
pub take-length {ℓ} : {A : Type ℓ} → (xs ys : List A) → take (length xs) (xs ++ ys) ≡ xs
take-length [] ys = refl
take-length (x ∷ xs) ys = rw (take-length xs ys)

pub drop-length {ℓ} : {A : Type ℓ} → (xs ys : List A) → drop (length xs) (xs ++ ys) ≡ ys
drop-length [] ys = refl
drop-length (x ∷ xs) ys = drop-length xs ys

pub map-append {ℓ κ} :
    {A : Type ℓ} {B : Type κ} (f : A → B) (xs ys : List A) → map f (xs ++ ys) ≡ map f xs ++ map f ys
map-append f [] ys = refl
map-append f (x ∷ xs) ys = rw (map-append f xs ys)

-- Every member is so.
abbrev pub All {ℓ} : {A : Type ℓ} → (A → Type 0) → List A → Type 0
All P [] = Unit {0}
All P (x ∷ xs) = P x × All P xs

pub All-append {ℓ} :
    {A : Type ℓ} (P : A → Type 0) (xs ys : List A) → All P xs → All P ys → All P (xs ++ ys)
All-append P [] ys h k = k
All-append P (x ∷ xs) ys (h, hs) k = (h, All-append P xs ys hs k)

pub All-mono {ℓ} :
    {A : Type ℓ} (P Q : A → Type 0) (xs : List A) → ((x : A) → P x → Q x) → All P xs → All Q xs
All-mono P Q [] f h = tt
All-mono P Q (x ∷ xs) f (h, hs) = (f x h, All-mono P Q xs f hs)
