-- ===== src/Service/Queries/Lookup.antt =====
-- `GetFullChallengeData`: where a challenge is found.
use challenge_service.Prelude.{
  String, false, ◌≡◌, Option, none, some, arith, inl, inr, Option-cases,
}
use challenge_service.Exec.{Outcome, ok, err}
use challenge_service.Model.{ChallengeDocument}
use challenge_service.RedisClient
use challenge_service.MongoClient
use challenge_service.Redis
use challenge_service.Redis.View.{
  get_challenge_by_id_ok, get_challenge_by_id_up, get_challenge_by_id-ne-panic,
  get_challenge_by_id-ne-cut,
}
use challenge_service.Exec.Laws.{Outcome-cases}
use challenge_service.Mongo
use challenge_service.World.{Libraries, World}
use challenge_service.Service.Proto.{ChallengeRecord, challenge_to_proto}
use challenge_service.Service.Queries.{full_fetched, get_full_challenge_data}
use challenge_service.Service.Lifecycle.History.{active, history, AllUp}

-- the answer for what Redis holds and what the history holds
abbrev pub answer : Option ChallengeDocument → Option ChallengeDocument → Outcome ChallengeRecord
answer (some d) _ = ok (challenge_to_proto false d)
answer none (some d) = ok (challenge_to_proto false d)
answer none none = err "mongo: no documents in result"

module _ (lib : Libraries) (rlaw : RedisClient.Laws lib.redis)
    (mlaw : MongoClient.Laws lib.mongo) where
  -- With both servers reachable, the full data of a challenge are those in Redis, where it is
  -- stored, else those in the history, and an error if it is in neither.
  pub get_full_challenge_data_lem :
      (id : String) (s : World lib)
      → AllUp lib rlaw mlaw s
      → (get_full_challenge_data lib id s).0
        ≡ answer (active lib rlaw mlaw s id) (history lib rlaw mlaw s id)
  unfolding get_full_challenge_data full_fetched Mongo.get_challenge_by_id
  get_full_challenge_data_lem id s (up, mup) =
      let searched = (mlaw.find_one_up id s.mongo mup).0 in
      elim (Outcome-cases (Redis.get_challenge_by_id lib.redis id s.redis).0) [
        | inl (d, got) ↦ ground (arith, got, get_challenge_by_id_ok lib.redis rlaw id s.redis d got)
        | inr (inl (msg, failed)) ↦ elim (Option-cases (active lib rlaw mlaw s id)) [
          | inr (d, there) ↦
              absurd (
                ground (arith, failed, get_challenge_by_id_up lib.redis rlaw id s.redis d up there))
          | inl absent ↦ elim (Option-cases (mlaw.held s.mongo id)) [
            | inl e ↦ ground (arith, failed, absent, e, searched)
            | inr (d, e) ↦ ground (arith, failed, absent, e, searched)
          ]
        ]
        | inr (inr (inl bad)) ↦ absurd (get_challenge_by_id-ne-panic lib.redis id s.redis bad)
        | inr (inr (inr (w, bad))) ↦ absurd (get_challenge_by_id-ne-cut lib.redis id s.redis w bad)
      ]
