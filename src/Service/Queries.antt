-- ===== src/Service/Queries.antt =====
-- The queries of internal/service/challenge.go. The workers of `fetchChallengesConcurrently` finish in
-- an order that the scheduler chooses. The pool of the workers is a parameter, `arrival`: the tasks that
-- it ran, in that order. The error of a task that it does not accept is dropped, and `wg.Wait` then
-- waits for ever.
pub mod Lookup
pub mod Ended
pub mod Fetching
pub mod Listing
use challenge_service.Prelude.{
  ℕ, String, Bool, true, false, List, [], ◌∷◌, length, ◌==◌, if◌then◌else◌, nat_eq,
}
use challenge_service.Prelude.Int.{ℤ, pos}
use challenge_service.Exec.{Exec, Result, value, error, blocked, halt, pure, attempt, ◌>>=◌}
use challenge_service.Model.{ChallengeDocument, challenge_open}
use challenge_service.Redis
use challenge_service.Mongo
use challenge_service.World.{Libraries, World, on_redis, on_mongo}
use challenge_service.Service.Proto.{ChallengeRecord, challenge_to_proto, challenges_to_proto}

pub record ChallengeListResponse : Type 0 where
  pub challenges : List ChallengeRecord
  pub total_count : ℤ

abbrev pub listing : Bool → List ChallengeDocument → ChallengeListResponse
listing hide_problems ds = record {
  challenges = challenges_to_proto hide_problems ds;
  total_count = pos (length ds);
}

-- an iteration that fetched a challenge, or failed to
abbrev pub keep_public :
    Bool → Result ChallengeDocument → List ChallengeDocument → List ChallengeDocument
keep_public true (value d) rest = if d.is_private then d ∷ rest else rest
keep_public false (value d) rest = if d.is_private then rest else d ∷ rest
keep_public is_private (error _) rest = rest

abbrev pub keep_owned :
    String → Result ChallengeDocument → List ChallengeDocument → List ChallengeDocument
keep_owned user (value d) rest = if d.creator_id == user then d ∷ rest else rest
keep_owned user (error _) rest = rest

module _ (lib : Libraries) where
  unfoldable pub full_fetched : String → Result ChallengeDocument → Exec (World lib) ChallengeRecord
  full_fetched id (value d) = pure (challenge_to_proto false d)
  full_fetched id (error _) = do
    d ← on_mongo lib (Mongo.get_challenge_by_id lib.mongo id)
    pure (challenge_to_proto false d)

  unfoldable pub get_full_challenge_data : String → Exec (World lib) ChallengeRecord
  unfolding full_fetched
  get_full_challenge_data id = do
    fetched ← attempt (on_redis lib (Redis.get_challenge_by_id lib.redis id))
    full_fetched id fetched

  unfoldable pub get_challenge_history :
      String → ℤ → ℤ → Bool → Exec (World lib) ChallengeListResponse
  get_challenge_history user page size is_private = do
    ds ← on_mongo lib (Mongo.get_challenge_history lib.mongo user page size is_private)
    pure (listing false ds)

  -- fetching a list of challenges one after another, and keeping some
  unfoldable pub fetch_each :
      (Result ChallengeDocument → List ChallengeDocument → List ChallengeDocument)
      → List String
      → Exec (World lib) (List ChallengeDocument)
  fetch_each keep [] = pure []
  fetch_each keep (id ∷ ids) = do
    fetched ← attempt (on_redis lib (Redis.get_challenge_by_id lib.redis id))
    rest ← fetch_each keep ids
    pure (keep fetched rest)

  unfoldable pub fetch_challenges_concurrently :
      (List String → List String) → List String → Bool → Exec (World lib) (List ChallengeDocument)
  unfolding fetch_each
  fetch_challenges_concurrently arrival ids is_private = do
    ds ← fetch_each (keep_public is_private) (arrival ids)
    if nat_eq (length (arrival ids)) (length ids) then pure ds else halt blocked

  unfoldable pub get_active_open_challenges :
      (List String → List String) → Exec (World lib) ChallengeListResponse
  unfolding fetch_challenges_concurrently
  get_active_open_challenges arrival = do
    ids ← on_redis lib (Redis.get_challenges_by_status lib.redis challenge_open)
    ds ← fetch_challenges_concurrently arrival ids false
    pure (listing true ds)

  -- the response has no total count
  unfoldable pub get_owners_active_challenges : String → Exec (World lib) (List ChallengeRecord)
  unfolding fetch_each
  get_owners_active_challenges user = do
    ids ← on_redis lib (Redis.get_active_challenges lib.redis)
    ds ← fetch_each (keep_owned user) ids
    pure (challenges_to_proto false ds)
