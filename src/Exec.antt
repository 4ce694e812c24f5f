-- ===== src/Exec.antt =====
-- Go functions that change state and return `(T, error)`. What was written before an error stays
-- written, so the state comes back beside the error too. A panic is an outcome of its own, and so is a
-- call that never comes back.
pub mod Laws
use mathlib.Core.Path.{◌≡◌, refl}
use mathlib.Core.Logic.{◌⊎◌, inl, inr}
use mathlib.Core.Bool.{Bool, true, false}
use mathlib.Core.Option.{Option, none, some}
use Prim.Native.String.{String}

-- What a call of a library returns: a value or an error, which is its text.
pub data Result {ℓ} (A : Type ℓ) : Type ℓ where
  value : A → Result A
  error : String → Result A

-- Why a call never comes back: `log.Fatal` has ended the process, or it waits for ever.
pub data Cut : Type 0 where
  exited : Cut
  blocked : Cut

pub data Outcome {ℓ} (A : Type ℓ) : Type ℓ where
  ok : A → Outcome A
  err : String → Outcome A
  panic : Outcome A
  cut : Cut → Outcome A

abbrev pub Exec {ℓ} : Type ℓ → Type ℓ → Type ℓ
Exec S A = S → Outcome A × S

-- `if err := f(); err != nil { return fmt.Errorf("... %w", err) }`
abbrev pub reworded {ℓ} : {A : Type ℓ} → (String → String) → Outcome A → Outcome A
reworded f (ok a) = ok a
reworded f (err e) = err (f e)
reworded f panic = panic
reworded f (cut c) = cut c

abbrev pub of_result {ℓ} : {A : Type ℓ} → Result A → Outcome A
of_result (value a) = ok a
of_result (error e) = err e

module _ {ℓ} {S A : Type ℓ} where
  abbrev pub pure : A → Exec S A
  pure a s = (ok a, s)

  abbrev pub fail : String → Exec S A
  fail e s = (err e, s)

  abbrev pub lift : Result A → Exec S A
  lift r s = (of_result r, s)

  -- a call of a library that keeps its own state
  abbrev pub call : (S → Result A × S) → Exec S A
  call f s = let (r, s') = f s in (of_result r, s')

  abbrev pub gets : (S → A) → Exec S A
  gets f s = (ok (f s), s)

  abbrev pub modify : (S → S) → A → Exec S A
  modify f a s = (ok a, f s)

  -- nothing runs behind this
  abbrev pub halt : Cut → Exec S A
  halt c s = (cut c, s)

  -- a value that is missing where the code dereferences or assigns is a panic
  abbrev pub must : Option A → Exec S A
  must none s = (panic, s)
  must (some a) s = (ok a, s)

  -- `x, err := f()` where the code goes on after an error
  abbrev pub caught : Outcome A → S → Outcome (Result A) × S
  caught (ok a) s = (ok (value a), s)
  caught (err e) s = (ok (error e), s)
  caught panic s = (panic, s)
  caught (cut c) s = (cut c, s)

module _ {ℓ} {S A : Type ℓ} where
  abbrev pub attempt : Exec S A → Exec S (Result A)
  attempt m s = let (r, s') = m s in caught r s'

  abbrev pub wrap : (String → String) → Exec S A → Exec S A
  wrap f m s = let (r, s') = m s in (reworded f r, s')

module _ {ℓ} {S A B : Type ℓ} where
  abbrev pub continue : Outcome A → (A → Exec S B) → Exec S B
  continue (ok a) f s = f a s
  continue (err e) f s = (err e, s)
  continue panic f s = (panic, s)
  continue (cut c) f s = (cut c, s)

  infixl 10 ◌>>=◌ ◌>>◌
  abbrev pub ◌>>=◌ : Exec S A → (A → Exec S B) → Exec S B
  ◌>>=◌ first f s = let (out, after) = first s in continue out f after

  abbrev pub ◌>>◌ : Exec S A → Exec S B → Exec S B
  first >> second = first >>= λ _. second

-- An action on a part of the state.
abbrev pub zoom {ℓ} : {S T A : Type ℓ} → (S → T) → (T → S → S) → Exec T A → Exec S A
zoom get put m s = let (r, t) = m (get s) in (r, put t s)
