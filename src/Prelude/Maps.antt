-- ===== src/Prelude/Maps.antt =====
-- Keys with a decidable equality, and Go's maps as association lists: writing a key replaces its
-- entry in place or adds one at the end.
use Prim.Native.Nat.{ℕ}
use mathlib.Core.Path.{◌≡◌, refl}
use mathlib.Core.Logic.{◌↔◌, ◌⊎◌, inl, inr}
use mathlib.Core.Bool.{Bool, true}
use mathlib.Core.List.{List, [], ◌∷◌}
use mathlib.Core.Option.{Option, none, some}
use native.Mathlib.Omega.{arith}
use litelog.Prelude.Tests.{◌==◌ as nat_beq, if◌then◌else◌, ==_iff}
use litelog.Prelude.GoStrings.{Bytes, bytes_eq, bytes_eq_iff}

pub record Key {ℓ} (K : Type ℓ) : Type ℓ where
  pub beq : K → K → Bool
  pub beq_iff : (a b : K) → (beq a b ≡ true) ↔ (a ≡ b)

instance abbrev pub nat_key : Key ℕ
nat_key = record { beq = nat_beq; beq_iff = ==_iff }

instance abbrev pub bytes_key : Key Bytes
bytes_key = record { beq = bytes_eq; beq_iff = bytes_eq_iff }

module _ {ℓ κ} {K : Type ℓ} {V : Type κ} ⦃eq : Key K⦄ where
  unfoldable pub lookup : K → List (K × V) → Option V
  lookup asked ((key, value) ∷ entries) =
      if eq.beq key asked then some value else lookup asked entries
  lookup asked [] = none

  unfoldable pub insert : K → V → List (K × V) → List (K × V)
  insert new value ((key, old) ∷ entries) =
      let behind = insert new value entries in
      if eq.beq key new then (new, value) ∷ entries else (key, old) ∷ behind
  insert new value [] = (new, value) ∷ []

  -- What each key reads as after a write.
  pub lookup-insert :
      (new asked : K) (value : V) (entries : List (K × V))
      → lookup asked (insert new value entries)
        ≡ (if eq.beq new asked then some value else lookup asked entries)
  unfolding insert lookup
  lookup-insert new asked value ((key, old) ∷ entries) = ground (
    arith,
    lookup-insert new asked value entries,
    eq.beq_iff key new,
    eq.beq_iff key asked,
    eq.beq_iff new asked,
  )
  lookup-insert new asked value [] = refl

  pub lookup-insert_self :
      (new : K) (value : V) (entries : List (K × V))
      → lookup new (insert new value entries) ≡ some value
  lookup-insert_self new value entries =
      ground (arith, eq.beq_iff new new, lookup-insert new new value entries)

-- To split on a computed option and keep the equation.
pub Option-cases {ℓ} : {A : Type ℓ} (o : Option A) → (o ≡ none) ⊎ ((a : A) × (o ≡ some a))
Option-cases none = inl refl
Option-cases (some a) = inr (a, refl)
