-- ===== src/Action.antt =====
-- Code that writes to a shared state and may fail. What was written before an error stays written,
-- so the state comes back beside the error too.

use litelog.Result.{Error, Result, ok, err}

abbrev pub Action {ℓ} : Type ℓ → Type ℓ → Type ℓ
Action S A = S → Result A × S

module _ {ℓ} {S A : Type ℓ} where
  abbrev pub pure : A → Action S A
  pure a s = (ok a, s)

  abbrev pub fail : Error → Action S A
  fail e s = (err e, s)

  abbrev pub lift : Result A → Action S A
  lift r s = (r, s)

abbrev pub modify {ℓ} : {S : Type ℓ} → (S → S) → Action S (Unit {ℓ})
modify f s = (ok tt, f s)

module _ {ℓ} {S A B : Type ℓ} where
  abbrev pub continue : Result A → (A → Action S B) → Action S B
  continue (ok a) f s = f a s
  continue (err e) f s = (err e, s)

  infixl 5 ◌>>=◌ ◌>>◌
  abbrev pub ◌>>=◌ : Action S A → (A → Action S B) → Action S B
  ◌>>=◌ m f s = continue (m s).0 f (m s).1

  abbrev pub ◌>>◌ : Action S A → Action S B → Action S B
  m >> n = m >>= λ _. n

-- If the outcome is a success with value `a` and state `s`, then `P a s`.
abbrev pub OnSuccess {ℓ κ} : {S A : Type ℓ} → (A → S → Type κ) → Result A × S → Type κ
OnSuccess P (ok a, s) = P a s
OnSuccess P (err e, s) = Unit

module _ {ℓ κ} {S A B : Type ℓ} where
  -- The rule for a chain of two actions.
  pub OnSuccess->>= :
      (P : A → S → Type κ) (Q : B → S → Type κ) (m : Action S A) (f : A → Action S B) (s : S)
      → OnSuccess P (m s)
      → ((a : A) (s' : S) → P a s' → OnSuccess Q (f a s'))
      → OnSuccess Q ((m >>= f) s)
  OnSuccess->>= P Q m f s hm hf = go (m s) hm
    where
      go : (out : Result A × S) → OnSuccess P out → OnSuccess Q (continue out.0 f out.1)
      go (ok a, s') h = hf a s' h
      go (err e, s') h = tt

module _ {ℓ κ} {S A : Type ℓ} where
  pub OnSuccess-mono :
      (P Q : A → S → Type κ) (out : Result A × S)
      → ((a : A) (s : S) → P a s → Q a s)
      → OnSuccess P out
      → OnSuccess Q out
  OnSuccess-mono P Q (ok a, s) sub h = sub a s h
  OnSuccess-mono P Q (err e, s) sub h = tt
