-- ===== src/System/Submissions.antt =====
-- `PushSubmissionStatus` of internal/service/challenge.go never panics, and keeps what every
-- challenge is.
use challenge_service.Prelude.{ℕ, Option, none, some, List}
use challenge_service.Prelude.Int.{ℤ}
use challenge_service.GoMap.{GoMap, lookup, insert-ne-nil}
use challenge_service.Exec.{Result, value, error, gets}
use challenge_service.Model.{ChallengeDocument, ParticipantMetadata, LeaderboardEntry}
use challenge_service.RedisClient
use challenge_service.Redis
use challenge_service.Leaderboard.{ParticipantLeaderboardData}
use challenge_service.World.{Libraries, World}
use challenge_service.Local.{get_all_ws_clients}
use challenge_service.Wss.Broadcast.{broadcast_new_submission}
use challenge_service.Wss.Broadcast.Total.{
  broadcast_new_submission_ok, broadcast_leaderboard_update_ok,
}
use challenge_service.Service.Submit.{
  SubmissionRequest, scored, submitted, rank_or_none, announce_leaderboard, tell, announce, publish,
  push_stored, push_updated, push_for, push_fetched, push_submission_status,
}
use challenge_service.System.Safety.{Anything, Got, Safe, Safe-pure, Safe-gets, Safe-if, Safe-bind}
use challenge_service.System.Documents.{View, Known}
use challenge_service.System.Invariant.{Holds, Safe-told}
use challenge_service.System.Steps.{
  fetch-Safe, store-Safe, enlist-Safe, get_rank-Safe, refresh_board-Safe,
}

module _ (lib : Libraries) (rlaw : RedisClient.Laws lib.redis) (v : View) where
  abbrev I : World lib → Type 0
  I = Holds lib rlaw v

  announce_leaderboard-Safe :
      (clients : GoMap ℕ) (req : SubmissionRequest) (now : ℤ) (r : Result (List LeaderboardEntry))
      → Safe I Anything (announce_leaderboard lib clients req now r)
  announce_leaderboard-Safe clients req now (error e) = Safe-pure I Anything tt tt
  announce_leaderboard-Safe clients req now (value l) = Safe-told lib rlaw v _ (λ net.
      broadcast_leaderboard_update_ok lib.sockets clients req.challenge_id req.user_id now net l)

  module _ (req : SubmissionRequest) (now : ℤ) where
    tell-Safe :
        (board : Result (List LeaderboardEntry)) (rank : Result ParticipantLeaderboardData)
        (clients : GoMap ℕ)
        → Safe I Anything (tell lib req now board rank clients)
    unfolding tell
    tell-Safe board rank clients =
        let sent =
          broadcast_new_submission lib.sockets clients req.challenge_id req.user_id req.problem_id
            req.score (rank_or_none lib rank) now in
        Safe-bind I Anything Anything _ _
          (Safe-told lib rlaw v sent (λ net.
            broadcast_new_submission_ok lib.sockets clients req.challenge_id req.user_id now net
              req.problem_id req.score (rank_or_none lib rank)))
          λ u _.
            Safe-bind I Anything Anything _ _ (announce_leaderboard-Safe clients req now board)
              λ w _. Safe-pure I Anything _ tt

    announce-Safe :
        (board : Result (List LeaderboardEntry)) → Safe I Anything (announce lib req now board)
    unfolding announce
    announce-Safe board =
        let clients_of : World lib → GoMap ℕ =
          λ s. get_all_ws_clients req.challenge_id s.local.states in
        Safe-bind I Anything Anything _ _ (get_rank-Safe lib rlaw v req.challenge_id req.user_id)
          λ rank _.
            Safe-bind I Anything Anything (gets clients_of) (tell lib req now board rank)
              (Safe-gets I clients_of) λ clients _. tell-Safe board rank clients

    push_stored-Safe :
        (p : ParticipantMetadata) (d : ChallengeDocument) (r : Result (Unit {0}))
        → Known v req.challenge_id d
        → Safe I Anything (push_stored lib req now p d r)
    unfolding push_stored publish
    push_stored-Safe p d (error e) k = Safe-pure I Anything _ tt
    push_stored-Safe p d (value u) k =
        Safe-bind I Anything Anything _ _
          (refresh_board-Safe lib rlaw v req.challenge_id req.user_id p.total_score d k)
          λ board _. announce-Safe board

    push_updated-Safe :
        (p : ParticipantMetadata) (d : ChallengeDocument) (r : Result (Unit {0}))
        → Known v req.challenge_id d
        → Safe I Anything (push_updated lib req now p d r)
    unfolding push_updated
    push_updated-Safe p d (error e) k = Safe-pure I Anything _ tt
    push_updated-Safe p d (value u) k =
        Safe-bind I Anything Anything _ _ (store-Safe lib rlaw v req.challenge_id d k)
          λ r _. push_stored-Safe p d r k

    push_for-Safe :
        (d : ChallengeDocument) (o : Option ParticipantMetadata)
        → Known v req.challenge_id d
        → Safe I Anything (push_for lib req now d o)
    unfolding push_for submitted Redis.update_participant
    push_for-Safe d none k = Safe-pure I Anything _ tt
    push_for-Safe d (some p) k =
        Safe-bind I Anything Anything _ _
          (enlist-Safe lib rlaw v req.challenge_id req.user_id (scored req p))
          λ r _. push_updated-Safe (scored req p) (submitted req p d) r (record {
            own = k.own;
            mapped = insert-ne-nil req.user_id (scored req p) d.participants;
            seen = k.seen;
          })

    push_fetched-Safe :
        (r : Result ChallengeDocument)
        → Got (Known v req.challenge_id) r
        → Safe I Anything (push_fetched lib req now r)
    unfolding push_fetched
    push_fetched-Safe (error e) k = Safe-pure I Anything _ tt
    push_fetched-Safe (value d) k = push_for-Safe d (lookup req.user_id d.participants) k

    pub push_submission_status-Safe : Safe I Anything (push_submission_status lib req now)
    unfolding push_submission_status
    push_submission_status-Safe =
        Safe-if I Anything req.is_successful _ _
          (λ _.
            Safe-bind I (Got (Known v req.challenge_id)) Anything _ _
              (fetch-Safe lib rlaw v req.challenge_id) push_fetched-Safe)
          (λ _. Safe-pure I Anything _ tt)
