-- ===== src/System/Queries.antt =====
-- `LeaveChallenge` and the queries of internal/service/challenge.go never panic, and keep what every
-- challenge is.
use challenge_service.Prelude.{
  ◌≡◌, ◌≢◌, refl, inl, inr, true, false, length, nat_eq, if◌then◌else◌, arith, String, Bool, false,
  List, [], ◌∷◌, ◌==◌, arith,
}
use challenge_service.Prelude.Int.{ℤ}
use challenge_service.Exec.{Cut, exited, blocked, halt, pure, Result, value, error}
use challenge_service.Model.{ChallengeDocument, challenge_open}
use challenge_service.RedisClient
use challenge_service.MongoClient
use challenge_service.Mongo
use challenge_service.World.{Libraries, World}
use challenge_service.Service.Lifecycle.{leave_fetched, leave_challenge}
use challenge_service.Service.Queries.{
  full_fetched, get_full_challenge_data, get_challenge_history, fetch_each,
  fetch_challenges_concurrently, get_active_open_challenges, get_owners_active_challenges,
  keep_public, keep_owned,
}
use challenge_service.System.Safety.{
  Ends, Ends-Safe, Ends-bind, Ends-then, Anything, Got, Safe, Safe-pure, Safe-if, Safe-bind,
}
use challenge_service.System.Documents.{
  View, Known, get_active_challenges-Safe, get_challenges_by_status-Safe,
}
use challenge_service.System.Invariant.{Holds, Safe-redis, Safe-mongo}
use challenge_service.System.Steps.{fetch-Safe, remove-Safe}

-- The only reason not to come back: the pool did not run every task.
abbrev pub Refusing : (List String → List String) → Cut → Type 0
Refusing arrival exited = ⊥
Refusing arrival blocked = (ids : List String) × (length (arrival ids) ≢ length ids)

module _ (m : MongoClient.MongoClient) where
  abbrev Any : m.Coll → Type 0
  Any coll = Unit {0}

  mongo_get-Safe : (id : String) → Safe Any Anything (Mongo.get_challenge_by_id m id)
  unfolding Mongo.get_challenge_by_id
  mongo_get-Safe id coll i = record {
    state = tt;
    calm = λ e. ground (arith, e);
    back = λ w e. ground (arith, e);
    gives = λ a e. tt;
  }

  mongo_history-Safe :
      (user : String) (page size : ℤ) (is_private : Bool)
      → Safe Any Anything (Mongo.get_challenge_history m user page size is_private)
  unfolding Mongo.get_challenge_history
  mongo_history-Safe user page size is_private coll i = record {
    state = tt;
    calm = λ e. ground (arith, e);
    back = λ w e. ground (arith, e);
    gives = λ a e. tt;
  }

module _ (lib : Libraries) (rlaw : RedisClient.Laws lib.redis) (v : View) where
  abbrev I : World lib → Type 0
  I = Holds lib rlaw v

  leave_fetched-Safe :
      (id user : String) (r : Result ChallengeDocument)
      → Safe I Anything (leave_fetched lib id user r)
  unfolding leave_fetched
  leave_fetched-Safe id user (error e) = Safe-pure I Anything _ tt
  leave_fetched-Safe id user (value d) =
      Safe-if I Anything (d.creator_id == user) _ _
        (λ _.
          Safe-bind I Anything Anything _ _ (remove-Safe lib rlaw v id user)
            λ r _. Safe-pure I Anything _ tt)
        (λ _. Safe-pure I Anything _ tt)

  pub leave_challenge-Safe : (id user : String) → Safe I Anything (leave_challenge lib id user)
  unfolding leave_challenge
  leave_challenge-Safe id user =
      Safe-bind I (Got (Known v id)) Anything _ _ (fetch-Safe lib rlaw v id)
        λ r _. leave_fetched-Safe id user r

  full_fetched-Safe :
      (id : String) (r : Result ChallengeDocument) → Safe I Anything (full_fetched lib id r)
  unfolding full_fetched
  full_fetched-Safe id (value d) = Safe-pure I Anything _ tt
  full_fetched-Safe id (error e) =
      Safe-bind I Anything Anything _ _ (Safe-mongo lib rlaw v _ (mongo_get-Safe lib.mongo id))
        λ d _. Safe-pure I Anything _ tt

  pub get_full_challenge_data-Safe :
      (id : String) → Safe I Anything (get_full_challenge_data lib id)
  unfolding get_full_challenge_data
  get_full_challenge_data-Safe id =
      Safe-bind I (Got (Known v id)) Anything _ _ (fetch-Safe lib rlaw v id)
        λ r _. full_fetched-Safe id r

  pub get_challenge_history-Safe :
      (user : String) (page size : ℤ) (is_private : Bool)
      → Safe I Anything (get_challenge_history lib user page size is_private)
  unfolding get_challenge_history
  get_challenge_history-Safe user page size is_private =
      Safe-bind I Anything Anything _ _
        (Safe-mongo lib rlaw v _ (mongo_history-Safe lib.mongo user page size is_private))
        λ ds _. Safe-pure I Anything _ tt

  fetch_each-Safe :
      (keep : Result ChallengeDocument → List ChallengeDocument → List ChallengeDocument)
      (ids : List String)
      → Safe I Anything (fetch_each lib keep ids)
  unfolding fetch_each
  fetch_each-Safe keep [] = Safe-pure I Anything _ tt
  fetch_each-Safe keep (id ∷ ids) =
      Safe-bind I (Got (Known v id)) Anything _ _ (fetch-Safe lib rlaw v id) λ r _.
        Safe-bind I Anything Anything _ _ (fetch_each-Safe keep ids)
          λ rest _. Safe-pure I Anything _ tt

  all_run-Ends :
      {A : Type 0} (arrival : List String → List String) (ids : List String) (a : A) (b : Bool)
      → (b ≡ false → length (arrival ids) ≢ length ids)
      → Ends I (Refusing arrival) (if b then pure a else halt blocked)
  all_run-Ends arrival ids a true h s i = inl (Safe-pure I Anything a tt s i)
  all_run-Ends arrival ids a false h s i =
      inr (record { why = blocked; gone = refl; kept = i; reason = (ids, h refl) })

  fetch_challenges_concurrently-Ends :
      (arrival : List String → List String) (ids : List String)
      → Ends I (Refusing arrival) (fetch_challenges_concurrently lib arrival ids false)
  unfolding fetch_challenges_concurrently
  fetch_challenges_concurrently-Ends arrival ids =
      Ends-bind I (Refusing arrival) Anything _ _
        (fetch_each-Safe (keep_public false) (arrival ids))
        λ ds _.
          all_run-Ends arrival ids ds (nat_eq (length (arrival ids)) (length ids))
            (λ e same. ground (arith, e, same))

  pub get_active_open_challenges-Ends :
      (arrival : List String → List String)
      → Ends I (Refusing arrival) (get_active_open_challenges lib arrival)
  unfolding get_active_open_challenges
  get_active_open_challenges-Ends arrival =
      Ends-bind I (Refusing arrival) Anything _ _
        (Safe-redis lib rlaw v Anything _
          (get_challenges_by_status-Safe lib.redis rlaw v challenge_open))
        λ ids _.
          Ends-then I (Refusing arrival) _ _ (fetch_challenges_concurrently-Ends arrival ids)
            λ ds. Ends-Safe I (Refusing arrival) _ (Safe-pure I Anything _ tt)

  pub get_owners_active_challenges-Safe :
      (user : String) → Safe I Anything (get_owners_active_challenges lib user)
  unfolding get_owners_active_challenges
  get_owners_active_challenges-Safe user =
      Safe-bind I Anything Anything _ _
        (Safe-redis lib rlaw v Anything _ (get_active_challenges-Safe lib.redis rlaw v))
        λ ids _.
          Safe-bind I Anything Anything _ _ (fetch_each-Safe (keep_owned user) ids)
            λ ds _. Safe-pure I Anything _ tt
