-- ===== src/Exec/Laws.antt =====
-- How a sequence of actions ran, read off its outcome.
use challenge_service.Prelude.{String, ◌≡◌, ◌≢◌, refl, ap, ◌⊎◌, inl, inr}
use challenge_service.Exec.{
  Exec, Cut, Outcome, ok, err, panic, cut, Result, value, error, continue, of_result, attempt, call,
  caught, ◌>>=◌,
}

module _ {ℓ} {S A B : Type ℓ} (f : A → Exec S B) (s : S) where
  -- Where the whole succeeded, its first part did.
  pub continue-ok :
      (r : Outcome A) {b : B}
      → (continue r f s).0 ≡ ok b
      → (a : A) × (r ≡ ok a) × (continue r f s ≡ f a s)
  continue-ok (ok a) h = (a, refl, refl)
  continue-ok (err e) h = cc
  continue-ok panic h = cc
  continue-ok (cut c) h = cc

  -- Either the second part ran, or the state is what the first part left.
  pub continue_cases :
      (r : Outcome A) → ((a : A) × (r ≡ ok a) × (continue r f s ≡ f a s)) ⊎ ((continue r f s).1 ≡ s)
  continue_cases (ok a) = inl (a, refl, refl)
  continue_cases (err e) = inr refl
  continue_cases panic = inr refl
  continue_cases (cut c) = inr refl

pub Outcome-cases {ℓ} :
    {A : Type ℓ} (r : Outcome A)
    → ((a : A) × (r ≡ ok a))
      ⊎ ((e : String) × (r ≡ err e))
      ⊎ (r ≡ panic)
      ⊎ ((c : Cut) × (r ≡ cut c))
Outcome-cases (ok a) = inl (a, refl)
Outcome-cases (err e) = inr (inl (e, refl))
Outcome-cases panic = inr (inr (inl refl))
Outcome-cases (cut c) = inr (inr (inr (c, refl)))

pub Result-cases {ℓ} :
    {A : Type ℓ} (r : Result A) → ((a : A) × (r ≡ value a)) ⊎ ((e : String) × (r ≡ error e))
Result-cases (value a) = inl (a, refl)
Result-cases (error e) = inr (e, refl)

-- What follows an action that succeeded runs from the state that it left.
pub bind_ran {ℓ} :
    {S A B : Type ℓ} (m : Exec S A) (f : A → Exec S B) (s : S) {a : A} {s' : S}
    → m s ≡ (ok a, s')
    → (m >>= f) s ≡ f a s'
bind_ran m f s e = ap (λ r. continue r.0 f r.1) e

-- A call that came back, with a value or an error.
abbrev pub Returns {ℓ} : {A : Type ℓ} → Outcome A → Type ℓ
Returns r = (r ≢ panic) × ((w : Cut) → r ≢ cut w)

-- What a library returns is no panic.
pub of_result-ne-panic {ℓ} : {A : Type ℓ} (r : Result A) → of_result r ≢ panic
of_result-ne-panic (value a) h = cc
of_result-ne-panic (error e) h = cc

pub of_result-ne-cut {ℓ} : {A : Type ℓ} (c : Cut) (r : Result A) → of_result r ≢ cut c
of_result-ne-cut c (value a) h = cc
of_result-ne-cut c (error e) h = cc

-- A call whose error is kept goes on with what the library returned.
pub attempt-call {ℓ} :
    {S A : Type ℓ} (f : S → Result A × S) (s : S) → attempt (call f) s ≡ (ok (f s).0, (f s).1)
attempt-call {S} {A} f s = kept (f s).0 (f s).1
  where
    kept : (r : Result A) (t : S) → caught (of_result r) t ≡ (ok r, t)
    kept (value a) t = refl
    kept (error e) t = refl
