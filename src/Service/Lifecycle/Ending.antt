-- ===== src/Service/Lifecycle/Ending.antt =====
-- Who may end or abandon a challenge, and what becomes of it.
use challenge_service.Prelude.{
  String, ◌≡◌, ◌≢◌, refl, ap, ◌∙◌, some, arith, eq_iff, inl, inr, eq_refl, Option-cases, ◌⊎◌,
}
use challenge_service.GoMap.{lookup}
use challenge_service.Exec.{ok, err}
use challenge_service.Exec.Laws.{Result-cases}
use challenge_service.Model.{ChallengeDocument, challenge_ended}
use challenge_service.RedisClient
use challenge_service.MongoClient
use challenge_service.Redis
use challenge_service.Redis.View.{get_challenge_by_id_up, stored-get_challenge_by_id}
use challenge_service.Leaderboard.{Manager, cleanup_leaderboard, about}
use challenge_service.World.{Libraries, World}
use challenge_service.Service.Lifecycle.{end_challenge, update_challenge_status}
use challenge_service.Service.Lifecycle.History.{
  AllUp, active, Moved, update_challenge_status-Moved,
}

module _ (lib : Libraries) where
  -- The removal of a board may fail, but does not panic.
  pub cleanup_leaderboard_cases :
      (id : String) (m : Manager lib.board)
      → ((cleanup_leaderboard lib.board id m).0 ≡ ok tt)
        ⊎ ((e : String) × ((cleanup_leaderboard lib.board id m).0 ≡ err e))
  unfolding cleanup_leaderboard
  cleanup_leaderboard_cases id m = elim (Option-cases (lookup id m.boards)) [
    | inl absent ↦ inl (ground (arith, absent))
    | inr (board, there) ↦ elim (Result-cases (lib.board.close board m.ext).0) [
      | inl (done, e) ↦ inl (ground (arith, there, e))
      | inr (msg, e) ↦
          inr (about "failed to close leaderboard for challenge " id msg, ground (arith, there, e))
    ]
  ]

module _ (lib : Libraries) (rlaw : RedisClient.Laws lib.redis)
    (mlaw : MongoClient.Laws lib.mongo) where
  -- With both servers reachable, the creator of a challenge that is stored under its own identifier
  -- ends it: the challenge, with status ended, is gone from Redis and taken over into the history,
  -- and no other challenge changes in either, whatever becomes of its board.
  pub end_challenge-Moved :
      (id creator : String) (d : ChallengeDocument) (s : World lib)
      → AllUp lib rlaw mlaw s
      → active lib rlaw mlaw s id ≡ some d
      → d.challenge_id ≡ id
      → d.creator_id ≡ creator
      → ((end_challenge lib id creator s).0 ≡ ok tt)
        × Moved lib rlaw mlaw id
            (record d { status = challenge_ended })
            s
            (end_challenge lib id creator s).1
  unfolding end_challenge
  end_challenge-Moved id creator d s (up, mup) there own mine =
      let (got, up1) = get_challenge_by_id_up lib.redis rlaw id s.redis d up there in
      let db1 = (Redis.get_challenge_by_id lib.redis id s.redis).1 in
      let s2 : World lib = record s {
        redis = db1;
        boards = (cleanup_leaderboard lib.board id s.boards).1;
      } in
      let here = stored-get_challenge_by_id lib.redis rlaw id s.redis in
      let (done, moved) =
        update_challenge_status-Moved lib rlaw mlaw id challenge_ended d s2 (up1, mup)
          (here id ∙ there) own refl in
      let run : end_challenge lib id creator s
          ≡ (ok tt, (update_challenge_status lib id challenge_ended s2).1) =
        elim (cleanup_leaderboard_cases lib id s.boards) [
          | inl fine ↦ ground (arith, got, mine, eq_refl creator, fine, done)
          | inr (e, failed) ↦ ground (arith, got, mine, eq_refl creator, failed, done)
        ] in
      (
        ap (λ p. p.0) run,
        rw run (record { gone = λ j. ground (arith, moved.gone j, here j); kept = moved.kept }),
      )

  -- With both servers reachable, somebody else than the creator of a stored challenge is refused by
  -- `EndChallenge` with an error, and no document in Redis and nothing of the history changes.
  pub end_challenge_refused :
      (id user : String) (d : ChallengeDocument) (s : World lib)
      → AllUp lib rlaw mlaw s
      → active lib rlaw mlaw s id ≡ some d
      → d.creator_id ≢ user
      → ((end_challenge lib id user s).0 ≡ err "only the creator can end the challenge")
        × ((end_challenge lib id user s).1.mongo ≡ s.mongo)
        × ((j : String)
            → active lib rlaw mlaw (end_challenge lib id user s).1 j ≡ active lib rlaw mlaw s j)
  unfolding end_challenge
  end_challenge_refused id user d s (up, mup) there other =
      let (got, up1) = get_challenge_by_id_up lib.redis rlaw id s.redis d up there in
      let here = stored-get_challenge_by_id lib.redis rlaw id s.redis in
      let run : end_challenge lib id user s ≡ (
        err "only the creator can end the challenge",
        record s { redis = (Redis.get_challenge_by_id lib.redis id s.redis).1 },
      ) =
        ground (arith, got, other, eq_iff d.creator_id user) in
      (ap (λ p. p.0) run, ap (λ p. p.1.mongo) run, λ j. rw run (here j))
