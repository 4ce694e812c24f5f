-- ===== src/System/Loop.antt =====
-- The requests that open and close nothing, and the loop of a connection: that they come to their end.
use challenge_service.Prelude.{true, All, ◌⊎◌, ℕ, String, ◌≡◌, ◌≢◌, refl, List, [], ◌∷◌}
use challenge_service.Prelude.Int.{ℤ}
use challenge_service.Exec.{Cut, exited, blocked, cut, Outcome, ok, err, Exec, panic}
use challenge_service.Jwt.{JwtLibrary}
use challenge_service.RedisClient
use challenge_service.World.{Libraries, World}
use challenge_service.Wss.Handlers.{Codec}
use challenge_service.Wss.Server.{Arrival}
use challenge_service.Wss.Handlers.Join.Environment.{IsUnloaded}
use challenge_service.System.Safety.{Ends, Ends-calm, Ends-reason, Ends-state}
use challenge_service.System.Documents.{View}
use challenge_service.System.Invariant.{Holds}
use challenge_service.System.Requests.{goes_on, is_up, Request, answer}
use challenge_service.System.Refinement.{IsOrdinary, Reason, ordinary-Ends}

-- At some of the messages the environment cannot be loaded.
abbrev pub AnyUnloaded : List Arrival → Type 0
AnyUnloaded [] = ⊥
AnyUnloaded (a ∷ rest) = IsUnloaded a.gateway ⊎ AnyUnloaded rest

-- why a loop may not come to its end
abbrev pub Stopped : List Arrival → Cut → Type 0
Stopped arrivals exited = AnyUnloaded arrivals
Stopped arrivals blocked = ⊥

module _ (lib : Libraries) (rlaw : RedisClient.Laws lib.redis) (jwt : JwtLibrary) (secret : String)
    (codec : Codec) where
  pub answer_ordinary :
      (v : View) (r : Request) (s : World lib)
      → IsOrdinary r
      → Holds lib rlaw v s
      → ((answer lib jwt secret codec r s).0 ≢ panic)
        × ((c : Cut) → (answer lib jwt secret codec r s).0 ≡ cut c → Reason r c)
        × Holds lib rlaw v (answer lib jwt secret codec r s).1
  answer_ordinary v r s o h =
      let I = Holds lib rlaw v in
      let m = answer lib jwt secret codec r in
      let ends = ordinary-Ends lib rlaw jwt secret codec v r o in
      (
        Ends-calm I (Reason r) m ends s h,
        Ends-reason I (Reason r) m ends s h,
        Ends-state I (Reason r) m ends s h,
      )

  goes_on_lem :
      (r : Request) (out : Outcome (Unit {0}))
      → out ≢ panic
      → out ≢ cut exited
      → goes_on lib jwt secret codec r out ≡ true
  unfolding goes_on
  goes_on_lem r (ok u) calm back = refl
  goes_on_lem r (err e) calm back = refl
  goes_on_lem r panic calm back = absurd (calm refl)
  goes_on_lem r (cut exited) calm back = absurd (back refl)
  goes_on_lem r (cut blocked) calm back = refl

  -- The process survives requests that open and close nothing, if the environment can be loaded.
  pub is_up_ordinary :
      (v : View) (rs : List Request) (s : World lib)
      → All IsOrdinary rs
      → All (λ r. ¬ Reason r exited) rs
      → Holds lib rlaw v s
      → is_up lib jwt secret codec rs s ≡ true
  unfolding is_up
  is_up_ordinary v [] s o l h = refl
  is_up_ordinary v (r ∷ rs) s o l h =
      let (calm, reason, kept) = answer_ordinary v r s o.0 h in
      rw (goes_on_lem r (answer lib jwt secret codec r s).0 calm (λ e. l.0 (reason exited e)))
        (is_up_ordinary v rs (answer lib jwt secret codec r s).1 o.1 l.1 kept)

  module _ (v : View) (conn : ℕ) (ip : String) (now : ℤ) where
    abbrev Ending : {A : Type 0} → List Arrival → Exec (World lib) A → Type 0
    Ending arrivals m = Ends (Holds lib rlaw v) (Stopped arrivals) m
