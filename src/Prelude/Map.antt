-- ===== src/Prelude/Map.antt =====
-- Go's maps as association lists over keys with a Boolean equality. The order of the list is an
-- order in which a `range` loop may meet the keys.
use git_gym.Prelude.Tests.{◌==◌ as nat_beq, if◌then◌else◌}
use git_gym.Prelude.Lists.{In}
use Prim.Native.Nat.{ℕ}
use mathlib.Core.Path.{◌≡◌, refl}
use mathlib.Core.Logic.{inl, inr}
use mathlib.Core.Bool.{Bool, true, false}
use mathlib.Core.Option.{Option, none, some}
use mathlib.Core.List.{List, [], ◌∷◌}
use native.Mathlib.Omega.{arith}

-- `m[k]`, with `none` for a missing key.
unfoldable pub lookup {ℓ} : {V : Type ℓ} → ℕ → List (ℕ × V) → Option V
lookup k [] = none
lookup k ((j, v) ∷ m) = if nat_beq j k then some v else lookup k m

-- `m[k] = v`.
unfoldable pub insert {ℓ} : {V : Type ℓ} → ℕ → V → List (ℕ × V) → List (ℕ × V)
insert k v [] = (k, v) ∷ []
insert k v ((j, w) ∷ m) = if nat_beq j k then (j, v) ∷ m else (j, w) ∷ insert k v m

-- `delete(m, k)`.
unfoldable pub erase {ℓ} : {V : Type ℓ} → ℕ → List (ℕ × V) → List (ℕ × V)
erase k [] = []
erase k ((j, v) ∷ m) = if nat_beq j k then erase k m else (j, v) ∷ erase k m

-- `_, ok := m[k]`.
abbrev pub has {ℓ} : {V : Type ℓ} → ℕ → List (ℕ × V) → Bool
has k m = elim (lookup k m) [ none ↦ false | some _ ↦ true ]

abbrev pub values {ℓ} : {V : Type ℓ} → List (ℕ × V) → List V
values [] = []
values ((k, v) ∷ m) = v ∷ values m

module _ {ℓ} {V : Type ℓ} where
  pub lookup-insert :
      (k j : ℕ) (v : V) (m : List (ℕ × V))
      → lookup j (insert k v m) ≡ (if nat_beq k j then some v else lookup j m)
  unfolding lookup insert
  lookup-insert k j v [] = refl
  lookup-insert k j v ((i, w) ∷ m) = ground (arith, lookup-insert k j v m)

  pub lookup-erase :
      (k j : ℕ) (m : List (ℕ × V))
      → lookup j (erase k m) ≡ (if nat_beq k j then none else lookup j m)
  unfolding lookup erase
  lookup-erase k j [] = ground arith
  lookup-erase k j ((i, w) ∷ m) = ground (arith, lookup-erase k j m)

module _ {V : Type 0} where
  pub lookup-In : (k : ℕ) (v : V) (m : List (ℕ × V)) → lookup k m ≡ some v → In v (values m)
  unfolding lookup
  lookup-In k v [] h = cc
  lookup-In k v ((j, w) ∷ m) h = ground (arith, lookup-In k v m)

-- No key stands twice, as in every Go map.
abbrev pub UniqueKeys {ℓ} : {V : Type ℓ} → List (ℕ × V) → Type ℓ
UniqueKeys [] = Unit
UniqueKeys ((k, v) ∷ m) = (lookup k m ≡ none) × UniqueKeys m

module _ {ℓ} {V : Type ℓ} where
  pub insert-UniqueKeys :
      (k : ℕ) (v : V) (m : List (ℕ × V)) → UniqueKeys m → UniqueKeys (insert k v m)
  unfolding insert lookup
  insert-UniqueKeys k v [] u = (refl, tt)
  insert-UniqueKeys k v ((j, w) ∷ m) u =
      ground (arith, insert-UniqueKeys k v m u.1, lookup-insert k j v m)

  pub erase-UniqueKeys : (k : ℕ) (m : List (ℕ × V)) → UniqueKeys m → UniqueKeys (erase k m)
  unfolding erase
  erase-UniqueKeys k [] u = tt
  erase-UniqueKeys k ((j, w) ∷ m) u = ground (arith, erase-UniqueKeys k m u.1, lookup-erase k j m)

module _ {V : Type 0} where
  -- A value of a map stands under a key.
  pub values-lookup :
      (v : V) (m : List (ℕ × V)) → UniqueKeys m → In v (values m) → (k : ℕ) × (lookup k m ≡ some v)
  unfolding lookup
  values-lookup v [] u h = absurd h
  values-lookup v ((j, w) ∷ m) u (inl q) = (j, ground arith)
  values-lookup v ((j, w) ∷ m) u (inr q) = let (k, e) = values-lookup v m u.1 q in (k, ground arith)
