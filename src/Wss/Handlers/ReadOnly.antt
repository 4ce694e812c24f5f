-- ===== src/Wss/Handlers/ReadOnly.antt =====
-- Actions of the handlers that only read: which documents, history and connections they leave.
use challenge_service.Prelude.{
  ℕ, String, ◌≡◌, refl, ◌∙◌, Bool, true, false, if◌then◌else◌, inl, inr,
}
use challenge_service.Exec.{
  cut, Exec, Outcome, ok, err, panic, Result, pure, gets, attempt, caught, ◌>>=◌,
}
use challenge_service.Exec.Laws.{continue_cases}
use challenge_service.RedisClient
use challenge_service.Redis
use challenge_service.Redis.View.{stored, stored-get_challenge_by_id}
use challenge_service.Leaderboard.{Manager}
use challenge_service.World.{Libraries, World, on_redis, on_boards}
use challenge_service.Wss.Json.{Json, Fields}
use challenge_service.Wss.Handlers.{send_error, send_object}

caught_state {ℓ} : {S A : Type ℓ} (r : Outcome A) (s : S) → (caught r s).1 ≡ s
caught_state (ok a) s = refl
caught_state (err e) s = refl
caught_state panic s = refl
caught_state (cut w) s = refl

module _ (lib : Libraries) (rlaw : RedisClient.Laws lib.redis) where
  -- `after` has the documents, the history and the connections of `s`.
  pub record Same (s after : World lib) : Type 0 where
    pub active :
        (j : String) → stored lib.redis rlaw after.redis j ≡ stored lib.redis rlaw s.redis j
    pub history : after.mongo ≡ s.mongo
    pub states : after.local.states ≡ s.local.states

  abbrev pub IsReadOnly : {A : Type 0} → Exec (World lib) A → Type 0
  IsReadOnly m = (s : World lib) → Same s (m s).1

  Same-refl : (s : World lib) → Same s s
  Same-refl s = record { active = λ j. refl; history = refl; states = refl }

  Same-trans : {s t u : World lib} → Same s t → Same t u → Same s u
  Same-trans a b = record {
    active = λ j. b.active j ∙ a.active j;
    history = b.history ∙ a.history;
    states = b.states ∙ a.states;
  }

  module _ {A : Type 0} where
    pub IsReadOnly-boards : (m : Exec (Manager lib.board) A) → IsReadOnly (on_boards lib m)
    IsReadOnly-boards m s = record { active = λ j. refl; history = refl; states = refl }

    pub IsReadOnly-if :
        (b : Bool) (m n : Exec (World lib) A)
        → IsReadOnly m
        → IsReadOnly n
        → IsReadOnly (if b then m else n)
    IsReadOnly-if true m n hm hn = hm
    IsReadOnly-if false m n hm hn = hn

    pub IsReadOnly-pure : (a : A) → IsReadOnly (pure a)
    IsReadOnly-pure a s = Same-refl s

    pub IsReadOnly-gets : (f : World lib → A) → IsReadOnly (gets f)
    IsReadOnly-gets f s = Same-refl s

    pub IsReadOnly-attempt : (m : Exec (World lib) A) → IsReadOnly m → IsReadOnly (attempt m)
    IsReadOnly-attempt m h s = rw (caught_state (m s).0 (m s).1) (h s)

  pub IsReadOnly-send_error :
      (conn : ℕ) (kind msg : String) (extra : Json)
      → IsReadOnly (send_error lib conn kind msg extra)
  IsReadOnly-send_error conn kind msg extra s = record {
    active = λ j. refl;
    history = refl;
    states = refl;
  }

  pub IsReadOnly-send_object :
      (conn : ℕ) (fields : Fields) → IsReadOnly (send_object lib conn fields)
  IsReadOnly-send_object conn fields s = record {
    active = λ j. refl;
    history = refl;
    states = refl;
  }

  pub IsReadOnly-fetch :
      (id : String) → IsReadOnly (on_redis lib (Redis.get_challenge_by_id lib.redis id))
  IsReadOnly-fetch id s = record {
    active = stored-get_challenge_by_id lib.redis rlaw id s.redis;
    history = refl;
    states = refl;
  }

  module _ {A B : Type 0} where
    pub IsReadOnly-bind :
        (m : Exec (World lib) A) (f : A → Exec (World lib) B)
        → IsReadOnly m
        → ((a : A) → IsReadOnly (f a))
        → IsReadOnly (m >>= f)
    IsReadOnly-bind m f hm hf s =
        let (r, s') = m s in
        elim (continue_cases f s' r) [
          | inl (a, _, ran) ↦ rw ran (Same-trans (hm s) (hf a s'))
          | inr stopped ↦ rw stopped (hm s)
        ]

  -- an attempt, and what is done with its result
  pub IsReadOnly-attempt_bind :
      {A B : Type 0} (m : Exec (World lib) A) (f : Result A → Exec (World lib) B)
      → IsReadOnly m
      → ((r : Result A) → IsReadOnly (f r))
      → IsReadOnly (attempt m >>= f)
  IsReadOnly-attempt_bind m f h hf = IsReadOnly-bind (attempt m) f (IsReadOnly-attempt m h) hf
