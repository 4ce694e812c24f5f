-- ===== src/Wss/Handlers.antt =====
-- The WebSocket handlers of internal/wss/handlers: what the three share. The packages encoding/json
-- and net/http are parameters.
pub mod Join
pub mod Retrieve
pub mod Standings
pub mod ReadOnly
pub mod Reading
pub mod Answers
use challenge_service.Prelude.{ℕ, String, Bool, Option, none, some}
use challenge_service.Prelude.Int.{ℤ}
use challenge_service.GoMap.{GoMap}
use challenge_service.Exec.{Exec, Result, value, error}
use challenge_service.World.{Libraries, World, on_net}
use challenge_service.Wss.Json.{Json, Fields, null, text, int, object, field, end, plain}
use challenge_service.Wss.Broadcast.{send_json, send_error_with_type}

-- types.go and get-leaderboard.go: the payloads of the requests, without the fields that are not read
pub record WsMessageRequest : Type 0 where
  pub message_type : String
  pub payload : GoMap Json

pub record JoinChallengePayload : Type 0 where
  pub user_id : String
  pub challenge_id : String
  pub password : String
  pub token : String

pub record RetreiveChallengePayload : Type 0 where
  pub user_id : String
  pub challenge_id : String

pub record GetLeaderboardPayload : Type 0 where
  pub user_id : String
  pub challenge_id : String
  pub limit : ℤ

pub record AuthPayload : Type 0 where
  pub user_id : String

-- event.go: what the gateway answers
pub record ErrorInfo : Type 0 where
  pub error_type : String
  pub code : ℤ
  pub message : String
  pub details : String

pub record GenericResponse : Type 0 where
  pub success : Bool
  pub status : ℤ
  pub payload : GoMap Json
  pub failure : Option ErrorInfo

-- `json.Marshal` of a payload, and `json.Unmarshal` into each type
pub record Codec : Type 0 where
  pub marshal : GoMap Json → Result String
  pub unmarshal_message : String → Result WsMessageRequest
  pub unmarshal_join : String → Result JoinChallengePayload
  pub unmarshal_retrieve : String → Result RetreiveChallengePayload
  pub unmarshal_leaderboard : String → Result GetLeaderboardPayload
  pub unmarshal_auth : String → Result AuthPayload

-- The gateway that checks a token, as it answers during one run of a handler: whether
-- `config.LoadConfig()` can load the environment that holds its address, the request to it, the
-- response to that request with an authorization header, and the decoded body.
pub record Gateway : Type 1 where
  pub Request : Type 0
  pub Response : Type 0
  pub load_dotenv : Result (Unit {0})
  pub new_request : Result Request
  pub send : String → Request → Result Response
  pub decode : Response → Result GenericResponse

-- the readings of the clock in one run of a handler
pub record Clock : Type 0 where
  pub join_time : ℤ
  pub last_connected : ℤ
  pub announced : ℤ
  pub token₁ : ℤ
  pub token₂ : ℤ
  pub token₃ : ℤ

-- the bytes that an ignored error of `json.Marshal` leaves
abbrev pub bytes_or_nil : Result String → String
bytes_or_nil (value raw) = raw
bytes_or_nil (error _) = ""

abbrev pub error_json : Option ErrorInfo → Json
error_json none = null
error_json (some e) = object (
    field "type" (text e.error_type) (
      field "code" (int e.code)
        (field "message" (text e.message) (field "details" (text e.details) end))))

module _ (lib : Libraries) where
  -- `return broadcasts.SendErrorWithType(...)` and `return broadcasts.SendJSON(...)`
  abbrev pub send_error : ℕ → String → String → Json → Exec (World lib) Unit
  send_error conn kind msg extra = on_net lib (send_error_with_type lib.sockets conn kind msg extra)

  abbrev pub send_object : ℕ → Fields → Exec (World lib) Unit
  send_object conn fields = on_net lib (send_json lib.sockets conn (plain fields))
