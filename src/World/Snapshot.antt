-- ===== src/World/Snapshot.antt =====
-- The refresh of the leaderboard snapshot in a stored challenge, which `PushSubmissionStatus` and
-- `JoinChallengeHandler` write out alike: the board is made ready, the user's score is set, and the
-- ranking is stored in the document. The error of each step is logged.
pub mod Laws
use challenge_service.Prelude.{String, List, some}
use challenge_service.Prelude.Int.{ℤ, pos}
use challenge_service.Exec.{Exec, Result, value, error, pure, attempt, ◌>>=◌, ◌>>◌}
use challenge_service.Model.{ChallengeDocument, LeaderboardEntry}
use challenge_service.Redis
use challenge_service.Leaderboard.{
  initialize_leaderboard, update_participant_score, get_leaderboard,
}
use challenge_service.World.{Libraries, World, on_redis, on_boards}

-- `challenge.Leaderboard = leaderboard`, unless it could not be read
abbrev pub with_leaderboard : ChallengeDocument → Result (List LeaderboardEntry) → ChallengeDocument
with_leaderboard d (error _) = d
with_leaderboard d (value l) = record d { leaderboard = l }

module _ (lib : Libraries) where
  -- the document with its new leaderboard is stored again
  abbrev pub store_snapshot :
      ChallengeDocument → Result (List LeaderboardEntry) → Exec (World lib) Unit
  store_snapshot d (error _) = pure tt
  store_snapshot d (value l) = do
    _ ← attempt (on_redis lib (Redis.update_challenge lib.redis (record d { leaderboard = l })))
    pure tt

  unfoldable pub refresh_board :
      (id user : String) → ℤ → ChallengeDocument → Exec (World lib) (Result (List LeaderboardEntry))
  refresh_board id user score d = do
    _ ← attempt (on_boards lib (initialize_leaderboard lib.board id))
    _ ← attempt (on_boards lib (update_participant_score lib.board id user score))
    board ← attempt (on_boards lib (get_leaderboard lib.board id (pos 50) (some d)))
    store_snapshot d board
    pure board
