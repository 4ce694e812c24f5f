-- ===== src/Service/Lifecycle/Abandoning.antt =====
-- `AbandonChallenge`: what becomes of the challenge, and the answers.
use challenge_service.Prelude.{
  String, ◌≡◌, ◌≢◌, ap, ◌∙◌, none, some, arith, eq_iff, inl, inr, eq_refl,
}
use challenge_service.Prelude.Int.{ℤ}
use challenge_service.Exec.{ok}
use challenge_service.Model.{ChallengeDocument, challenge_abandon}
use challenge_service.RedisClient
use challenge_service.MongoClient
use challenge_service.Redis
use challenge_service.Redis.View.{
  get_challenge_by_id_up, stored-get_challenge_by_id, create_challenge_up,
  stored-create_challenge_if,
}
use challenge_service.Wss.Broadcast.{broadcast_challenge_abandon}
use challenge_service.Wss.Broadcast.Total.{broadcast_challenge_abandon_ok}
use challenge_service.Leaderboard.{cleanup_leaderboard}
use challenge_service.Local.{get_all_ws_clients}
use challenge_service.World.{Libraries, World}
use challenge_service.Service.Lifecycle.{
  abandon_challenge, announce_abandoned, accepted, refusal, persist_challenge_to_mongodb,
}
use challenge_service.Service.Lifecycle.History.{
  AllUp, active, Moved, persist_challenge_to_mongodb-Moved,
}
use challenge_service.Service.Lifecycle.Ending.{cleanup_leaderboard_cases}

module _ (lib : Libraries) (rlaw : RedisClient.Laws lib.redis)
    (mlaw : MongoClient.Laws lib.mongo) where
  -- With both servers reachable, the creator of a challenge that is stored under its own identifier
  -- abandons it: the answer is success, the challenge, with status abandoned, is gone from Redis
  -- and taken over into the history, and no other challenge changes in either, whatever becomes of
  -- its board and of the messages.
  pub abandon_challenge-Moved :
      (id creator : String) (now : ℤ) (d : ChallengeDocument) (s : World lib)
      → AllUp lib rlaw mlaw s
      → active lib rlaw mlaw s id ≡ some d
      → d.challenge_id ≡ id
      → d.creator_id ≡ creator
      → ((abandon_challenge lib id creator now s).0 ≡ ok accepted)
        × Moved lib rlaw mlaw id
            (record d { status = challenge_abandon })
            s
            (abandon_challenge lib id creator now s).1
  unfolding abandon_challenge announce_abandoned Redis.abandon_challenge Redis.update_challenge
      Redis.get_challenge
  abandon_challenge-Moved id creator now d s (up, mup) there own mine =
      let (got, up1) = get_challenge_by_id_up lib.redis rlaw id s.redis d up there in
      let db1 = (Redis.get_challenge_by_id lib.redis id s.redis).1 in
      let here = stored-get_challenge_by_id lib.redis rlaw id s.redis in
      let (got', up2) = get_challenge_by_id_up lib.redis rlaw id db1 d up1 (here id ∙ there) in
      let db2 = (Redis.get_challenge_by_id lib.redis id db1).1 in
      let here' = stored-get_challenge_by_id lib.redis rlaw id db1 in
      let d' : ChallengeDocument = record d { status = challenge_abandon } in
      let (wrote, up3) = create_challenge_up lib.redis rlaw d' db2 up2 in
      let after = stored-create_challenge_if lib.redis rlaw d' db2 wrote in
      let s3 : World lib = record s {
        redis = (Redis.create_challenge lib.redis d' db2).1;
        boards = (cleanup_leaderboard lib.board id s.boards).1;
      } in
      let (done, moved) =
        persist_challenge_to_mongodb-Moved lib rlaw mlaw id d' s3 (up3, mup)
          (ground (arith, after id, own, eq_refl id)) own in
      let s4 = (persist_challenge_to_mongodb lib id s3).1 in
      let told =
        broadcast_challenge_abandon_ok lib.sockets
          (get_all_ws_clients d.challenge_id s4.local.states) d.challenge_id d.creator_id now
          s4.local.net in
      let net =
        (broadcast_challenge_abandon lib.sockets (get_all_ws_clients d.challenge_id s4.local.states)
          d.challenge_id d.creator_id now s4.local.net).1 in
      let run : abandon_challenge lib id creator now s
          ≡ (ok accepted, record s4 { local = record s4.local { net = net } }) =
        elim (cleanup_leaderboard_cases lib id s.boards) [
          | inl fine ↦ ground (arith, got, got', wrote, mine, eq_refl creator, fine, done, told)
          | inr (e, failed) ↦
              ground (arith, got, got', wrote, mine, eq_refl creator, failed, done, told)
        ] in
      (
        ap (λ p. p.0) run,
        rw run (record {
          gone = λ j. ground (arith, moved.gone j, here j, here' j, after j, own);
          kept = moved.kept;
        }),
      )

  -- With both servers reachable, somebody else than the creator of a stored challenge is answered
  -- NOTCREATOR by `AbandonChallenge`, without an error, and no document in Redis and nothing of the
  -- history changes.
  pub abandon_challenge_not_creator :
      (id user : String) (now : ℤ) (d : ChallengeDocument) (s : World lib)
      → AllUp lib rlaw mlaw s
      → active lib rlaw mlaw s id ≡ some d
      → d.creator_id ≢ user
      → ((abandon_challenge lib id user now s).0
          ≡ ok (refusal "Only the creator can abandon the challenge" "NOTCREATOR" none))
        × ((abandon_challenge lib id user now s).1.mongo ≡ s.mongo)
        × ((j : String)
            → active lib rlaw mlaw (abandon_challenge lib id user now s).1 j
              ≡ active lib rlaw mlaw s j)
  unfolding abandon_challenge
  abandon_challenge_not_creator id user now d s (up, mup) there other =
      let (got, up1) = get_challenge_by_id_up lib.redis rlaw id s.redis d up there in
      let here = stored-get_challenge_by_id lib.redis rlaw id s.redis in
      let run : abandon_challenge lib id user now s ≡ (
        ok (refusal "Only the creator can abandon the challenge" "NOTCREATOR" none),
        record s { redis = (Redis.get_challenge_by_id lib.redis id s.redis).1 },
      ) =
        ground (arith, got, other, eq_iff d.creator_id user) in
      (ap (λ p. p.0) run, ap (λ p. p.1.mongo) run, λ j. rw run (here j))
