-- ===== src/Prelude/Sort.antt =====
-- `sort.Slice` by insertion. What it returns is unique where the order is strict and total.
use git_gym.Prelude.Tests.{if◌then◌else◌, Bool-cases}
use git_gym.Prelude.Lists.{In, All, All-imp, All-take, In-All, take, length}
use mathlib.Core.Path.{◌≡◌, refl, ap, ◌∙◌}
use Prim.Native.Nat.{ℕ, zero, suc}
use mathlib.Core.Logic.{◌⊎◌, inl, inr}
use mathlib.Core.Bool.{Bool, true, false}
use mathlib.Core.List.{List, [], ◌∷◌}
use native.Mathlib.Omega.{arith}

module _ {A : Type 0} (less : A → A → Bool) where
  unfoldable pub place : A → List A → List A
  place a [] = a ∷ []
  place a (x ∷ xs) = if less x a then x ∷ place a xs else a ∷ x ∷ xs

  unfoldable pub sort : List A → List A
  unfolding place
  sort [] = []
  sort (x ∷ xs) = place x (sort xs)

  -- No item is less than one that stands before it.
  abbrev pub IsSorted : List A → Type 0
  IsSorted [] = Unit
  IsSorted (x ∷ xs) = All (λ y. less y x ≡ false) xs × IsSorted xs

  In-place : (a b : A) (xs : List A) → In b (place a xs) → (b ≡ a) ⊎ In b xs
  unfolding place
  In-place a b [] h = h
  In-place a b (x ∷ xs) h = ground (arith, In-place a b xs)

  pub In-sort : (b : A) (xs : List A) → In b (sort xs) → In b xs
  unfolding sort
  In-sort b [] h = h
  In-sort b (x ∷ xs) h = ground (arith, In-place x b (sort xs) h, In-sort b xs)

  place-In : (a b : A) (xs : List A) → (b ≡ a) ⊎ In b xs → In b (place a xs)
  unfolding place
  place-In a b [] h = h
  place-In a b (x ∷ xs) (inl q) = ground (arith, place-In a b xs (inl q))
  place-In a b (x ∷ xs) (inr (inl q)) = ground arith
  place-In a b (x ∷ xs) (inr (inr q)) = ground (arith, place-In a b xs (inr q))

  pub sort-In : (b : A) (xs : List A) → In b xs → In b (sort xs)
  unfolding sort
  sort-In b [] h = h
  sort-In b (x ∷ xs) (inl q) = place-In x b (sort xs) (inl q)
  sort-In b (x ∷ xs) (inr q) = place-In x b (sort xs) (inr (sort-In b xs q))

  length-place : (a : A) (xs : List A) → length (place a xs) ≡ suc (length xs)
  unfolding place
  length-place a [] = refl
  length-place a (x ∷ xs) = ground (arith, length-place a xs)

  pub length-sort : (xs : List A) → length (sort xs) ≡ length xs
  unfolding sort
  length-sort [] = refl
  length-sort (x ∷ xs) = length-place x (sort xs) ∙ ap suc (length-sort xs)

  module _ (asym : (a b : A) → less a b ≡ true → less b a ≡ false)
      (step : (a b c : A) → less a b ≡ false → less b c ≡ false → less a c ≡ false) where
    All-place :
        (a b : A) (xs : List A)
        → less a b ≡ false
        → All (λ y. less y b ≡ false) xs
        → All (λ y. less y b ≡ false) (place a xs)
    unfolding place
    All-place a b [] h all = (h, tt)
    All-place a b (x ∷ xs) h all = ground (arith, All-place a b xs h all.1)

    place-IsSorted : (a : A) (xs : List A) → IsSorted xs → IsSorted (place a xs)
    unfolding place
    place-IsSorted a [] s = (tt, tt)
    place-IsSorted a (x ∷ xs) s = elim (Bool-cases (less x a)) [
      | inl e ↦ rw e (All-place a x xs (asym x a e) s.0, place-IsSorted a xs s.1)
      | inr e ↦ rw e ((e, All-imp _ _ xs (λ y h. step y x a h e) s.0), s)
    ]

    pub sort-IsSorted : (xs : List A) → IsSorted (sort xs)
    unfolding sort
    sort-IsSorted [] = tt
    sort-IsSorted (x ∷ xs) = place-IsSorted x (sort xs) (sort-IsSorted xs)

  pub take-IsSorted : (n : ℕ) (xs : List A) → IsSorted xs → IsSorted (take n xs)
  take-IsSorted zero xs s = tt
  take-IsSorted (suc n) [] s = tt
  take-IsSorted (suc n) (x ∷ xs) s = (All-take _ n xs s.0, take-IsSorted n xs s.1)

  -- What a cut at `n` leaves out of a sorted list is before none of the items that it takes, and
  -- the cut took `n` items.
  pub take_leaves_out :
      (n : ℕ) (a : A) (xs : List A)
      → IsSorted xs
      → In a xs
      → In a (take n xs) ⊎ ((length (take n xs) ≡ n) × All (λ b. less a b ≡ false) (take n xs))
  take_leaves_out zero a xs s h = inr (refl, tt)
  take_leaves_out (suc n) a [] s h = absurd h
  take_leaves_out (suc n) a (x ∷ xs) s (inl q) = inl (inl q)
  take_leaves_out (suc n) a (x ∷ xs) s (inr q) = elim (take_leaves_out n a xs s.1 q) [
    | inl there ↦ inl (inr there)
    | inr (full, all) ↦ inr (ap suc full, (In-All _ xs a s.0 q, all))
  ]
