-- ===== src/Service/Lifecycle/History.antt =====
-- How the service takes a challenge out of Redis and hands it to the history in MongoDB.
use challenge_service.Prelude.{
  String, ◌≡◌, ap, true, Option, none, some, arith, ◌==◌, if◌then◌else◌, eq_refl, ◌||◌,
}
use challenge_service.Exec.{ok}
use challenge_service.Model.{ChallengeDocument, challenge_abandon, challenge_ended}
use challenge_service.RedisClient
use challenge_service.MongoClient
use challenge_service.Redis
use challenge_service.Redis.View.{
  stored, get_challenge_by_id_up, delete_challenge_up, stored-get_challenge_by_id,
  create_challenge_up, stored-create_challenge_if,
}
use challenge_service.Mongo.Persist.{taken_over, persist_lem}
use challenge_service.World.{Libraries, World}
use challenge_service.Service.Lifecycle.{persist_challenge_to_mongodb, update_challenge_status}

module _ (lib : Libraries) (rlaw : RedisClient.Laws lib.redis)
    (mlaw : MongoClient.Laws lib.mongo) where
  -- the documents that a state holds, in Redis and in the history
  abbrev pub active : World lib → String → Option ChallengeDocument
  active s = stored lib.redis rlaw s.redis

  abbrev pub history : World lib → String → Option ChallengeDocument
  history s = mlaw.held s.mongo

  -- both servers are reachable
  abbrev pub AllUp : World lib → Type 0
  AllUp s = rlaw.Up s.redis × mlaw.Up s.mongo

  -- the challenge `id` has gone from Redis and the history holds `d`; no other challenge changed
  pub record Moved (id : String) (d : ChallengeDocument) (s s' : World lib) : Type 0 where
    pub gone : (j : String) → active s' j ≡ (if id == j then none else active s j)
    pub kept :
        (j : String)
        → history s' j ≡ (if id == j then some (taken_over d (history s id)) else history s j)

  -- With both servers reachable, a stored challenge under its own identifier is moved to the
  -- history: it is gone from Redis, the history holds it, and no other challenge changes in either.
  pub persist_challenge_to_mongodb-Moved :
      (id : String) (d : ChallengeDocument) (s : World lib)
      → AllUp s
      → active s id ≡ some d
      → d.challenge_id ≡ id
      → ((persist_challenge_to_mongodb lib id s).0 ≡ ok tt)
        × Moved id d s (persist_challenge_to_mongodb lib id s).1
  unfolding persist_challenge_to_mongodb
  persist_challenge_to_mongodb-Moved id d s (up, mup) there own =
      let (got, up1) = get_challenge_by_id_up lib.redis rlaw id s.redis d up there in
      let db1 = (Redis.get_challenge_by_id lib.redis id s.redis).1 in
      let (took, mup2, map') = persist_lem lib.mongo mlaw d s.mongo mup in
      let (cut, up3, gone) = delete_challenge_up lib.redis rlaw id db1 up1 in
      (
        ground (arith, got, took, cut),
        record {
          gone = λ j. ground (
            arith,
            got,
            took,
            cut,
            gone j,
            stored-get_challenge_by_id lib.redis rlaw id s.redis j,
          );
          kept = λ j. ground (arith, got, took, cut, map' j, own);
        },
      )

  -- The status of a stored challenge is set to abandoned or ended, and the challenge, with that
  -- status, is moved.
  pub update_challenge_status-Moved :
      (id status : String) (d : ChallengeDocument) (s : World lib)
      → AllUp s
      → active s id ≡ some d
      → d.challenge_id ≡ id
      → (status == challenge_abandon || status == challenge_ended) ≡ true
      → ((update_challenge_status lib id status s).0 ≡ ok tt)
        × Moved id (record d { status = status }) s (update_challenge_status lib id status s).1
  unfolding update_challenge_status Redis.get_challenge Redis.update_challenge
  update_challenge_status-Moved id status d s (up, mup) there own over =
      let (got, up1) = get_challenge_by_id_up lib.redis rlaw id s.redis d up there in
      let db1 = (Redis.get_challenge_by_id lib.redis id s.redis).1 in
      let d' : ChallengeDocument = record d { status = status } in
      let (wrote, up2) = create_challenge_up lib.redis rlaw d' db1 up1 in
      let s2 : World lib = record s { redis = (Redis.create_challenge lib.redis d' db1).1 } in
      let now = stored-create_challenge_if lib.redis rlaw d' db1 wrote in
      let (done, moved) =
        persist_challenge_to_mongodb-Moved id d' s2 (up2, mup)
          (ground (arith, now id, own, eq_refl id)) own in
      let run : update_challenge_status lib id status s
          ≡ (ok tt, (persist_challenge_to_mongodb lib id s2).1) =
        ground (arith, got, wrote, over, done) in
      (
        ap (λ p. p.0) run,
        rw run (record {
          gone = λ j. ground (
            arith,
            moved.gone j,
            now j,
            own,
            stored-get_challenge_by_id lib.redis rlaw id s.redis j,
          );
          kept = moved.kept;
        }),
      )
