-- ===== src/Wss/Handlers/Standings.antt =====
-- `GetLeaderboardHandler` of internal/wss/handlers/get-leaderboard.go.
use challenge_service.Prelude.{some, String, Bool, List, ◌==◌, ◌||◌, if◌then◌else◌}
use challenge_service.Prelude.Int.{ℤ, pos, int_lt}
use challenge_service.Exec.{Exec, Result, value, error, attempt, ◌>>=◌}
use challenge_service.Model.{ChallengeDocument, LeaderboardEntry}
use challenge_service.Redis
use challenge_service.Leaderboard.{get_leaderboard}
use challenge_service.World.{Libraries, World, on_redis, on_boards}
use challenge_service.Wss.Json.{Fields, null, text, leaderboard, field, end}
use challenge_service.Wss.Broadcast.{current_leaderboard}
use challenge_service.Wss.Dispatcher.{WsContext}
use challenge_service.Wss.Handlers.{Codec, GetLeaderboardPayload, send_error, send_object}

-- a limit that is missing or not positive is 100
abbrev pub limit_of : GetLeaderboardPayload → ℤ
limit_of p = if int_lt (pos 0) p.limit then p.limit else pos 100

-- a user who is named must be a participant
abbrev pub may_read : GetLeaderboardPayload → ChallengeDocument → Bool
may_read p d = p.user_id == "" || Redis.is_member p.user_id d

abbrev pub standings : String → List LeaderboardEntry → Fields
standings id l =
    field "type" (text current_leaderboard)
      (field "challengeId" (text id) (field "leaderboard" (leaderboard l) end))

module _ (lib : Libraries) where
  abbrev pub refuse : WsContext → String → Exec (World lib) Unit
  refuse ctx msg = send_error lib ctx.conn current_leaderboard msg null

  unfoldable pub leaderboard_read :
      WsContext → GetLeaderboardPayload → Result (List LeaderboardEntry) → Exec (World lib) Unit
  leaderboard_read ctx p (error _) = refuse ctx "Failed to retrieve leaderboard"
  leaderboard_read ctx p (value l) = send_object lib ctx.conn (standings p.challenge_id l)

  unfoldable pub leaderboard_fetched :
      WsContext → GetLeaderboardPayload → Result ChallengeDocument → Exec (World lib) Unit
  unfolding leaderboard_read
  leaderboard_fetched ctx p (error _) = refuse ctx "Challenge not found"
  leaderboard_fetched ctx p (value d) =
      if may_read p d
      then (do
        board ←
            attempt (on_boards lib (get_leaderboard lib.board p.challenge_id (limit_of p) (some d)))
        leaderboard_read ctx p board)
      else refuse ctx "User is not a participant in this challenge"

  unfoldable pub leaderboard_decoded :
      WsContext → Result GetLeaderboardPayload → Exec (World lib) Unit
  unfolding leaderboard_fetched
  leaderboard_decoded ctx (error _) = refuse ctx "Invalid payload format"
  leaderboard_decoded ctx (value p) =
      if p.challenge_id == "" then refuse ctx "Challenge ID is required" else do
        fetched ← attempt (on_redis lib (Redis.get_challenge_by_id lib.redis p.challenge_id))
        leaderboard_fetched ctx p fetched

  abbrev pub leaderboard_encoded : Codec → WsContext → Result String → Exec (World lib) Unit
  leaderboard_encoded codec ctx (error _) = refuse ctx "Internal error"
  leaderboard_encoded codec ctx (value raw) =
      leaderboard_decoded ctx (codec.unmarshal_leaderboard raw)

  unfoldable pub get_leaderboard_handler : Codec → WsContext → Exec (World lib) Unit
  get_leaderboard_handler codec ctx = leaderboard_encoded codec ctx (codec.marshal ctx.payload)
