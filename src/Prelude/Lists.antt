-- ===== src/Prelude/Lists.antt =====
-- Lists measured by native numbers, under the library's names, and predicates by recursion.
use Prim.Native.Nat.{ℕ, zero, suc, ◌+◌, ◌≤◌}
use mathlib.Core.Path.{◌≡◌, refl, ap}
use mathlib.Core.Bool.{Bool, true}
use mathlib.Core.Logic.{◌⊎◌, inl, inr}
use mathlib.Core.List.{List, [], ◌∷◌, ◌++◌, map}
use native.Mathlib.Omega.{arith}
use git_gym.Prelude.Tests.{if◌then◌else◌}

module _ {ℓ} {A : Type ℓ} where
  abbrev pub length : List A → ℕ
  length [] = 0
  length (x ∷ xs) = suc (length xs)

  abbrev pub take : ℕ → List A → List A
  take zero xs = []
  take (suc n) [] = []
  take (suc n) (x ∷ xs) = x ∷ take n xs

  -- The items that pass a test, in order: a loop whose body appends under an `if`.
  abbrev pub keep : (A → Bool) → List A → List A
  keep p [] = []
  keep p (x ∷ xs) = if p x then x ∷ keep p xs else keep p xs

  pub length-append : (xs ys : List A) → length (xs ++ ys) ≡ length xs + length ys
  length-append [] ys = omega arith
  length-append (x ∷ xs) ys = omega (arith, length-append xs ys)

  pub length-take_le : (n : ℕ) (xs : List A) → length (take n xs) ≤ n
  length-take_le zero xs = omega arith
  length-take_le (suc n) [] = omega arith
  length-take_le (suc n) (x ∷ xs) = omega (arith, length-take_le n xs)

-- Every item satisfies `P`; some item does.
abbrev pub All {ℓ κ} : {A : Type ℓ} → (A → Type κ) → List A → Type κ
All P [] = Unit
All P (x ∷ xs) = P x × All P xs

-- `a` stands in the list, with its place.
abbrev pub In : {A : Type 0} → A → List A → Type 0
In a [] = ⊥
In a (x ∷ xs) = (a ≡ x) ⊎ In a xs

module _ {A : Type 0} where
  -- What `keep` keeps passes the test and stood in the list, and the other way round.
  pub In-keep : (p : A → Bool) (a : A) (xs : List A) → In a (keep p xs) → In a xs × (p a ≡ true)
  In-keep p a [] h = absurd h
  In-keep p a (x ∷ xs) h = ground (arith, In-keep p a xs)

  pub keep-In : (p : A → Bool) (a : A) (xs : List A) → In a xs → p a ≡ true → In a (keep p xs)
  keep-In p a [] h e = absurd h
  keep-In p a (x ∷ xs) (inl q) e = ground arith
  keep-In p a (x ∷ xs) (inr q) e = ground (arith, keep-In p a xs q e)

  pub In-take : (n : ℕ) (a : A) (xs : List A) → In a (take n xs) → In a xs
  In-take zero a xs h = absurd h
  In-take (suc n) a [] h = absurd h
  In-take (suc n) a (x ∷ xs) (inl q) = inl q
  In-take (suc n) a (x ∷ xs) (inr q) = inr (In-take n a xs q)

  pub All-In {κ} : {P : A → Type κ} (xs : List A) → ((a : A) → In a xs → P a) → All P xs
  All-In [] f = tt
  All-In (x ∷ xs) f = (f x (inl refl), All-In xs (λ a h. f a (inr h)))

  pub In-All {κ} : (P : A → Type κ) (xs : List A) (a : A) → All P xs → In a xs → P a
  In-All P [] a h i = absurd i
  In-All P (x ∷ xs) a h (inl q) = rw q h.0
  In-All P (x ∷ xs) a h (inr q) = In-All P xs a h.1 q

pub In-map :
    {A B : Type 0} (f : A → B) (b : B) (xs : List A)
    → In b (map f xs)
    → (a : A) × In a xs × (b ≡ f a)
In-map f b [] h = absurd h
In-map f b (x ∷ xs) (inl q) = (x, inl refl, q)
In-map f b (x ∷ xs) (inr q) = let (a, i, e) = In-map f b xs q in (a, inr i, e)

pub map-In : {A B : Type 0} (f : A → B) (a : A) (xs : List A) → In a xs → In (f a) (map f xs)
map-In f a [] h = absurd h
map-In f a (x ∷ xs) (inl q) = inl (ap f q)
map-In f a (x ∷ xs) (inr q) = inr (map-In f a xs q)

pub length-map : {A B : Type 0} (f : A → B) (xs : List A) → length (map f xs) ≡ length xs
length-map f [] = refl
length-map f (x ∷ xs) = ap suc (length-map f xs)

pub All-imp {ℓ κ μ} :
    {A : Type ℓ} (P : A → Type κ) (Q : A → Type μ) (xs : List A)
    → ((a : A) → P a → Q a)
    → All P xs
    → All Q xs
All-imp P Q [] f h = tt
All-imp P Q (x ∷ xs) f h = (f x h.0, All-imp P Q xs f h.1)

pub All-take {ℓ κ} :
    {A : Type ℓ} (P : A → Type κ) (n : ℕ) (xs : List A) → All P xs → All P (take n xs)
All-take P zero xs h = tt
All-take P (suc n) [] h = tt
All-take P (suc n) (x ∷ xs) h = (h.0, All-take P n xs h.1)
