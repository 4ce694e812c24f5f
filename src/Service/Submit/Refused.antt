-- ===== src/Service/Submit/Refused.antt =====
-- The submissions of `PushSubmissionStatus` that change nothing.
use challenge_service.Prelude.{String, ◌≡◌, ap, true, false, none, some, arith}
use challenge_service.Prelude.Int.{ℤ}
use challenge_service.GoMap.{lookup}
use challenge_service.Exec.{ok}
use challenge_service.Model.{ChallengeDocument}
use challenge_service.RedisClient
use challenge_service.Redis
use challenge_service.Redis.View.{stored, get_challenge_by_id_up, stored-get_challenge_by_id}
use challenge_service.World.{Libraries, World}
use challenge_service.Service.Submit.{SubmissionRequest, push_submission_status, reply}

module _ (lib : Libraries) (rlaw : RedisClient.Laws lib.redis) where
  -- With Redis reachable, a successful submission of a user who is not a participant of the stored
  -- challenge is answered so, without an error, and changes no document, no board and nobody's
  -- connection.
  pub push_submission_status_stranger :
      (req : SubmissionRequest) (now : ℤ) (d : ChallengeDocument) (s : World lib)
      → rlaw.Up s.redis
      → req.is_successful ≡ true
      → stored lib.redis rlaw s.redis req.challenge_id ≡ some d
      → lookup req.user_id d.participants ≡ none
      → let out = push_submission_status lib req now s in
        (out.0 ≡ ok (reply "user not a participant" false none))
        × (out.1.mongo ≡ s.mongo)
        × (out.1.boards ≡ s.boards)
        × (out.1.local ≡ s.local)
        × ((j : String) → stored lib.redis rlaw out.1.redis j ≡ stored lib.redis rlaw s.redis j)
  unfolding push_submission_status
  push_submission_status_stranger req now d s up good there absent =
      let (got, up1) = get_challenge_by_id_up lib.redis rlaw req.challenge_id s.redis d up there in
      let db1 = (Redis.get_challenge_by_id lib.redis req.challenge_id s.redis).1 in
      let run : push_submission_status lib req now s
          ≡ (ok (reply "user not a participant" false none), record s { redis = db1 }) =
        ground (arith, got, good, absent) in
      (
        ap (λ p. p.0) run,
        ap (λ p. p.1.mongo) run,
        ap (λ p. p.1.boards) run,
        ap (λ p. p.1.local) run,
        λ j. rw run (stored-get_challenge_by_id lib.redis rlaw req.challenge_id s.redis j),
      )
