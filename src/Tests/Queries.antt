-- ===== src/Tests/Queries.antt =====
-- The theorems about the queries at concrete inputs.
use mathlib.Core.List.Perm
use challenge_service.Prelude.{All, String, true, false, List, ◌≡◌}
use challenge_service.Exec.{ok}
use challenge_service.Model.{ChallengeDocument}
use challenge_service.Redis.Listing.{Kept}
use challenge_service.Service.Proto.{challenge_to_proto, challenges_to_proto}
use challenge_service.Service.Queries.{
  listing, get_full_challenge_data, get_active_open_challenges, get_owners_active_challenges,
}
use challenge_service.Service.Queries.Lookup.{get_full_challenge_data_lem}
use challenge_service.Service.Queries.Listing.{
  HidesProblems, Lists, IsPublic, get_active_open_challenges-Lists,
  get_owners_active_challenges-Lists,
}
use challenge_service.Tests.Memory.{libraries, redis_laws, mongo_laws}
use challenge_service.Tests.Data.{world, duel}
use challenge_service.GoMap.{find}

get_full_challenge_data_lem_example :
    (get_full_challenge_data libraries "c1" world).0 ≡ ok (challenge_to_proto false duel)
unfolding find
get_full_challenge_data_lem_example =
    get_full_challenge_data_lem libraries redis_laws mongo_laws "c1" world (tt, tt)

abbrev in_order : List String → List String
in_order ids = ids

get_active_open_challenges-Lists_example :
    (ds : List ChallengeDocument) × Lists libraries redis_laws
      (IsPublic libraries redis_laws)
      world
      ds
    × ((get_active_open_challenges libraries in_order world).0 ≡ ok (listing true ds))
    × All HidesProblems (listing true ds).challenges
    × Kept libraries.redis redis_laws world.redis
        (get_active_open_challenges libraries in_order world).1.redis
get_active_open_challenges-Lists_example =
    get_active_open_challenges-Lists libraries redis_laws in_order world (λ ids. Perm.rfl) tt

get_owners_active_challenges-Lists_example :
    (ds : List ChallengeDocument) × Lists libraries redis_laws (λ d. d.creator_id ≡ "ann") world ds
    × ((get_owners_active_challenges libraries "ann" world).0 ≡ ok (challenges_to_proto false ds))
    × Kept libraries.redis redis_laws world.redis
        (get_owners_active_challenges libraries "ann" world).1.redis
get_owners_active_challenges-Lists_example =
    get_owners_active_challenges-Lists libraries redis_laws "ann" world tt
