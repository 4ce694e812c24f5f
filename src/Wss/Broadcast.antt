-- ===== src/Wss/Broadcast.antt =====
-- internal/wss/broadcasts/broadcast.go. A broadcast writes to the clients one after another, and
-- goes on after a write that fails; a client that is a nil pointer never occurs in the maps.
pub mod Delivery
pub mod Total
use challenge_service.Prelude.{
  ℕ, String, Bool, true, false, Option, none, some, List, [], ◌∷◌, if◌then◌else◌,
}
use challenge_service.Prelude.Int.{ℤ}
use challenge_service.GoMap.{GoMap, entries}
use challenge_service.Exec.{Exec, Result, pure, call, attempt, ◌>>=◌, ◌>>◌}
use challenge_service.Model.{LeaderboardEntry}
use challenge_service.Wss.Json.{
  Json, Fields, Message, StandardBroadcastMessage, null, text, int, time, leaderboard, object, end,
  field, standard, plain,
}
use challenge_service.Wss.Socket.{Sockets}

-- constants.go: WebSocket events
abbrev pub ping_server : String
ping_server = "PING_SERVER"

abbrev pub user_joined : String
user_joined = "USER_JOINED"

abbrev pub user_left : String
user_left = "USER_LEFT"

abbrev pub creator_abandon : String
creator_abandon = "CREATOR_ABANDON"

abbrev pub owner_left : String
owner_left = "OWNER_LEFT"

abbrev pub owner_joined : String
owner_joined = "OWNER_JOINED"

abbrev pub join_challenge : String
join_challenge = "JOIN_CHALLENGE"

abbrev pub retrieve_challenge : String
retrieve_challenge = "RETRIEVE_CHALLENGE"

abbrev pub leaderboard_update : String
leaderboard_update = "LEADERBOARD_UPDATE"

abbrev pub new_submission : String
new_submission = "NEW_SUBMISSION"

abbrev pub current_leaderboard : String
current_leaderboard = "CURRENT_LEADERBOARD"

-- the message that `SendStandardMessage` and `BroadcastStandardMessage` build
abbrev pub standard_message : String → Json → Bool → Option String → Message
standard_message kind payload success message =
    standard
      (record { message_type = kind; payload = payload; success = success; message = message })

module _ (w : Sockets) where
  unfoldable pub send_json : ℕ → Message → Exec w.Net Unit
  send_json conn m = call (w.write_json conn m)

  unfoldable pub send_standard_message : ℕ → String → Json → Bool → Option String → Exec w.Net Unit
  send_standard_message conn kind payload success message =
      send_json conn (standard_message kind payload success message)

  unfoldable pub send_error_with_type : ℕ → String → String → Json → Exec w.Net Unit
  send_error_with_type conn kind msg extra = send_standard_message conn kind extra false (some msg)

  -- the loop over the clients; the error of a write is dropped
  unfoldable pub broadcast_to : Message → List (String × ℕ) → Exec w.Net Unit
  broadcast_to m [] = pure tt
  broadcast_to m ((_, conn) ∷ clients) = do _ ← attempt (send_json conn m); broadcast_to m clients

  unfoldable pub broadcast_standard_message :
      GoMap ℕ → String → Json → Bool → Option String → Exec w.Net Unit
  broadcast_standard_message clients kind payload success message =
      broadcast_to (standard_message kind payload success message) (entries clients)

  unfoldable pub send_standard_error : ℕ → String → String → Exec w.Net Unit
  send_standard_error conn kind msg = send_standard_message conn kind null false (some msg)

  unfoldable pub broadcast_standard_error : GoMap ℕ → String → String → Exec w.Net Unit
  broadcast_standard_error clients kind msg =
      broadcast_standard_message clients kind null false (some msg)

  unfoldable pub send_standard_success : ℕ → String → Json → Exec w.Net Unit
  send_standard_success conn kind payload = send_standard_message conn kind payload true none

  unfoldable pub broadcast_standard_success : GoMap ℕ → String → Json → Exec w.Net Unit
  broadcast_standard_success clients kind payload =
      broadcast_standard_message clients kind payload true none

  unfoldable pub broadcast_entity_joined : GoMap ℕ → String → String → Bool → ℤ → Exec w.Net Unit
  broadcast_entity_joined clients user challenge is_owner now =
      broadcast_standard_message clients (if is_owner then owner_joined else user_joined)
        (object (
          field "userId" (text user)
            (field "challengeId" (text challenge) (field "time" (time now) end))))
        true none

  unfoldable pub broadcast_entity_left : GoMap ℕ → String → String → Bool → ℤ → Exec w.Net Unit
  broadcast_entity_left clients user challenge is_owner now =
      broadcast_standard_message clients (if is_owner then owner_left else user_left)
        (object (
          field "userId" (text user)
            (field "challengeId" (text challenge) (field "time" (time now) end))))
        true none

  unfoldable pub broadcast_challenge_abandon : GoMap ℕ → String → String → ℤ → Exec w.Net Unit
  broadcast_challenge_abandon clients challenge creator now =
      broadcast_standard_message clients creator_abandon
        (object (
          field "challengeId" (text challenge)
            (field "userId" (text creator) (field "time" (time now) end))))
        true none

  unfoldable pub broadcast_new_submission :
      GoMap ℕ → String → String → String → ℤ → ℤ → ℤ → Exec w.Net Unit
  broadcast_new_submission clients challenge user problem score new_rank now =
      broadcast_standard_message clients new_submission
        (object (
          field "challengeId" (text challenge) (
            field "userId" (text user) (
              field "problemId" (text problem) (
                field "score" (int score)
                  (field "newRank" (int new_rank) (field "time" (time now) end)))))))
        true none

  unfoldable pub broadcast_leaderboard_update :
      GoMap ℕ → String → List LeaderboardEntry → String → ℤ → Exec w.Net Unit
  broadcast_leaderboard_update clients challenge entries' updated now =
      broadcast_standard_message clients leaderboard_update
        (object (
          field "challengeId" (text challenge) (
            field "leaderboard" (leaderboard entries')
              (field "updatedUser" (text updated) (field "time" (time now) end)))))
        true none
