-- ===== src/System/Steps.antt =====
-- The calls on the parts of the shared state that the methods have in common keep what every
-- challenge is, and do not panic.
use challenge_service.Prelude.{String, Option, some, List}
use challenge_service.Prelude.Int.{ℤ, pos}
use challenge_service.Exec.{Result, value, error, attempt}
use challenge_service.Model.{ChallengeDocument, ParticipantMetadata, LeaderboardEntry}
use challenge_service.RedisClient
use challenge_service.Redis
use challenge_service.Leaderboard.{
  initialize_leaderboard, update_participant_score, get_leaderboard, get_participant_rank,
}
use challenge_service.World.{Libraries, World, on_redis, on_boards}
use challenge_service.World.Snapshot.{store_snapshot, refresh_board}
use challenge_service.System.Safety.{Anything, Got, Safe, Safe-pure, Safe-bind, Safe-attempt}
use challenge_service.System.Documents.{
  View, Known, update_challenge-Safe, get_challenge_by_id-Safe, add_participant-Safe,
  remove_participant-Safe,
}
use challenge_service.System.Boards.{
  initialize_leaderboard-Safe, update_participant_score-Safe, get_leaderboard-Safe,
  get_participant_rank-Safe,
}
use challenge_service.System.Invariant.{Holds, Safe-redis, Safe-boards, Safe-tried}

module _ (lib : Libraries) (rlaw : RedisClient.Laws lib.redis) (v : View) where
  abbrev I : World lib → Type 0
  I = Holds lib rlaw v

  -- an attempt to fetch a challenge
  pub fetch-Safe :
      (id : String)
      → Safe I (Got (Known v id)) (attempt (on_redis lib (Redis.get_challenge_by_id lib.redis id)))
  fetch-Safe id =
      Safe-attempt I (Known v id) _
        (Safe-redis lib rlaw v (Known v id) _ (get_challenge_by_id-Safe lib.redis rlaw v id))

  -- an attempt to write a challenge back
  pub store-Safe :
      (id : String) (d : ChallengeDocument)
      → Known v id d
      → Safe I Anything (attempt (on_redis lib (Redis.update_challenge lib.redis d)))
  store-Safe id d k =
      Safe-tried lib rlaw v _
        (Safe-redis lib rlaw v Anything _ (update_challenge-Safe lib.redis rlaw v id d k))

  -- an attempt to store a participant
  pub enlist-Safe :
      (id user : String) (m : ParticipantMetadata)
      → Safe I Anything (attempt (on_redis lib (Redis.add_participant lib.redis id user m)))
  enlist-Safe id user m =
      Safe-tried lib rlaw v _
        (Safe-redis lib rlaw v Anything _ (add_participant-Safe lib.redis rlaw v id user m))

  -- an attempt to take a participant out
  pub remove-Safe :
      (id user : String)
      → Safe I Anything
          (attempt (on_redis lib (Redis.remove_participant_in_join_phase lib.redis id user)))
  unfolding Redis.remove_participant_in_join_phase
  remove-Safe id user =
      Safe-tried lib rlaw v _
        (Safe-redis lib rlaw v Anything _ (remove_participant-Safe lib.redis rlaw v id user))

  -- attempts on the boards
  pub initialize-Safe :
      (id : String)
      → Safe I Anything (attempt (on_boards lib (initialize_leaderboard lib.board id)))
  initialize-Safe id =
      Safe-tried lib rlaw v _ (Safe-boards lib rlaw v _ (initialize_leaderboard-Safe lib.board id))

  pub update_score-Safe :
      (id user : String) (points : ℤ)
      → Safe I Anything
          (attempt (on_boards lib (update_participant_score lib.board id user points)))
  update_score-Safe id user points =
      Safe-tried lib rlaw v _
        (Safe-boards lib rlaw v _ (update_participant_score-Safe lib.board id user points))

  pub get_board-Safe :
      (id : String) (limit : ℤ) (doc : Option ChallengeDocument)
      → Safe I Anything (attempt (on_boards lib (get_leaderboard lib.board id limit doc)))
  get_board-Safe id limit doc =
      Safe-tried lib rlaw v _
        (Safe-boards lib rlaw v _ (get_leaderboard-Safe lib.board id limit doc))

  pub get_rank-Safe :
      (id user : String)
      → Safe I Anything (attempt (on_boards lib (get_participant_rank lib.board id user)))
  get_rank-Safe id user =
      Safe-tried lib rlaw v _
        (Safe-boards lib rlaw v _ (get_participant_rank-Safe lib.board id user))

  store_snapshot-Safe :
      (id : String) (d : ChallengeDocument) (board : Result (List LeaderboardEntry))
      → Known v id d
      → Safe I Anything (store_snapshot lib d board)
  store_snapshot-Safe id d (error e) k = Safe-pure I Anything tt tt
  store_snapshot-Safe id d (value l) k =
      Safe-bind I Anything Anything _ _
        (store-Safe id _ (record { own = k.own; mapped = k.mapped; seen = k.seen }))
        λ r _. Safe-pure I Anything tt tt

  pub refresh_board-Safe :
      (id user : String) (score : ℤ) (d : ChallengeDocument)
      → Known v id d
      → Safe I Anything (refresh_board lib id user score d)
  unfolding refresh_board
  refresh_board-Safe id user score d k =
      Safe-bind I Anything Anything _ _ (initialize-Safe id) λ a _.
        Safe-bind I Anything Anything _ _ (update_score-Safe id user score) λ b _.
          Safe-bind I Anything Anything _ _ (get_board-Safe id (pos 50) (some d)) λ board _.
            Safe-bind I Anything Anything _ _ (store_snapshot-Safe id d board k)
              λ u _. Safe-pure I Anything board tt
