-- ===== src/Api/Monad.antt =====
-- Chains of calls that read and change a world and may fail: an error ends the chain, and what was
-- done before it stays done.
use git_gym.Prelude.{Bool, true, false, Option, none, some}
use git_gym.Api.Errors.{Error, Out, ok, err}

abbrev pub M : Type 0 → Type 0 → Type 0
M W A = W → Out W A

module _ {W : Type 0} where
  abbrev pub pure : {A : Type 0} → A → M W A
  pure a w = ok a w

  abbrev pub fail : {A : Type 0} → Error → M W A
  fail e w = err e w

  -- `return` of the values of `m`, with `f` for the error path and `g` for the rest.
  abbrev pub on_outcome : {A B : Type 0} → M W A → (Error → M W B) → (A → M W B) → M W B
  on_outcome m f g w = elim (m w) [ ok a w' ↦ g a w' | err e w' ↦ f e w' ]

  infixl 5 ◌>>=◌ ◌>>◌
  abbrev pub ◌>>=◌ : {A B : Type 0} → M W A → (A → M W B) → M W B
  ◌>>=◌ m g w = elim (m w) [ ok a w' ↦ g a w' | err e w' ↦ err e w' ]

  abbrev pub ◌>>◌ : {B : Type 0} → M W (Unit {0}) → M W B → M W B
  m >> k = m >>= λ _. k

  -- `if refused { return err }`.
  abbrev pub refuse_if : Bool → Error → M W (Unit {0})
  refuse_if true e w = err e w
  refuse_if false e w = ok tt w

  -- `if x == nil { return err }`, after which `x` is used.
  abbrev pub require : {A : Type 0} → Option A → Error → M W A
  require none e w = err e w
  require (some a) e w = ok a w
