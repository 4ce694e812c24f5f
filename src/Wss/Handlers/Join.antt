-- ===== src/Wss/Handlers/Join.antt =====
-- `JoinChallengeHandler` of internal/wss/handlers/join-challenge.go.
pub mod Enlisting
pub mod Entering
pub mod Environment
pub mod Checks
use challenge_service.Prelude.{
  ℕ, String, Bool, Option, none, some, [], not, ◌&&◌, ◌==◌, if◌then◌else◌,
}
use challenge_service.Prelude.Int.{ℤ, pos, add64, mul64}
use challenge_service.GoMap.{made, lookup, assign}
use challenge_service.Exec.{
  Exec, Result, value, error, exited, halt, pure, gets, modify, must, attempt, ◌>>=◌, ◌>>◌,
}
use challenge_service.Model.{ChallengeDocument, ParticipantMetadata, challenge_abandon}
use challenge_service.Jwt.{JwtLibrary, generate_token}
use challenge_service.Redis
use challenge_service.Local.{add_ws_client, get_all_ws_clients}
use challenge_service.World.{Libraries, World, on_redis, on_net}
use challenge_service.World.Snapshot.{with_leaderboard, refresh_board}
use challenge_service.Service.Proto.{millisecond}
use challenge_service.Wss.Json.{Json, Fields, null, text, document, object, field, end}
use challenge_service.Wss.Broadcast.{join_challenge, broadcast_entity_joined}
use challenge_service.Wss.Dispatcher.{WsContext}
use challenge_service.Wss.Handlers.{
  Codec, Gateway, Clock, JoinChallengePayload, AuthPayload, GenericResponse, bytes_or_nil,
  error_json, send_error, send_object,
}

-- `constants.BufferTime`: ten minutes
abbrev pub buffer_time : ℤ
buffer_time = pos 600000000000

-- what the authentication comes to: a refusal with a message, a user, or the `log.Fatal` of
-- `config.LoadConfig()`
pub data Verdict : Type 0 where
  denied : String → Json → Verdict
  admitted : String → Verdict
  fatal : Verdict

abbrev pub fresh_participant : ℤ → String → ParticipantMetadata
fresh_participant now ip = record {
  problems_done = made [];
  problems_attempted = pos 0;
  total_score = pos 0;
  join_time = now;
  last_connected = pos 0;
  initial_join_ip = ip;
  status = "";
}

abbrev pub token_or_empty : Result String → String
token_or_empty (value token) = token
token_or_empty (error _) = ""

-- the object that the client is sent
abbrev pub welcome : String → String → ChallengeDocument → String → Fields
welcome user id d token = field "type" (text join_challenge) (
    field "status" (text "success") (
      field "message" (text "Joined challenge successfully") (
        field "payload"
          (object (
            field "userId" (text user) (
              field "challengeId" (text id)
                (field "challenge" (document d) (field "challengeToken" (text token) end)))))
          end)))

module _ (codec : Codec) (gateway : Gateway) where
  abbrev pub checked_user : Result AuthPayload → Verdict
  checked_user (error _) = denied "Invalid auth data" null
  checked_user (value u) = admitted u.user_id

  abbrev pub checked_answer : Result GenericResponse → Verdict
  checked_answer (error _) = denied "Failed to decode authentication" null
  checked_answer (value r) =
      if r.success
      then checked_user (codec.unmarshal_auth (bytes_or_nil (codec.marshal r.payload)))
      else denied "Authentication failed" (object (field "error" (error_json r.failure) end))

  abbrev pub checked_response : Result gateway.Response → Verdict
  checked_response (error _) = denied "Authentication service unreachable" null
  checked_response (value resp) = checked_answer (gateway.decode resp)

  abbrev pub checked_request : String → Result gateway.Request → Verdict
  checked_request token (error _) = denied "Internal auth setup error" null
  checked_request token (value req) = checked_response (gateway.send token req)

  abbrev pub checked_environment : String → Result (Unit {0}) → Verdict
  checked_environment token (error _) = fatal
  checked_environment token (value _) = checked_request token gateway.new_request

  -- the part of the handler that asks the gateway
  unfoldable pub authenticate : String → Verdict
  authenticate token = checked_environment token gateway.load_dotenv

module _ (jwt : JwtLibrary) (secret : String) (lib : Libraries) (now : Clock) where
  abbrev pub refuse : WsContext → String → Json → Exec (World lib) Unit
  refuse ctx msg extra = send_error lib ctx.conn join_challenge msg extra

  unfoldable pub challenge_token : String → String → ChallengeDocument → String
  challenge_token user id d = token_or_empty (
      generate_token jwt secret user id (add64 (mul64 d.time_limit millisecond) buffer_time)
        now.token₁ now.token₂ now.token₃)

  -- the connection is kept, the others are told, and the client is sent the challenge
  unfoldable pub connect : WsContext → String → String → ChallengeDocument → Exec (World lib) Unit
  unfolding challenge_token
  connect ctx id user d = do
    modify
        (λ s. record s {
          local = record s.local { states = add_ws_client id user ctx.conn s.local.states };
        })
        tt
    clients ← gets (λ s. get_all_ws_clients id s.local.states)
    on_net lib
        (broadcast_entity_joined lib.sockets clients user id (user == d.creator_id) now.announced)
    send_object lib ctx.conn (welcome user id d (challenge_token user id d))

  -- a participant who is new is stored
  unfoldable pub enlist :
      String → String → String → Option ParticipantMetadata → Exec (World lib) ParticipantMetadata
  enlist ip id user (some m) = pure m
  enlist ip id user none = do
    let m = fresh_participant now.join_time ip
    _ ← attempt (on_redis lib (Redis.add_participant lib.redis id user m))
    pure m

  -- from the participant's entry on; the assignment panics if the challenge has no map
  unfoldable pub enter :
      WsContext → String → String → ChallengeDocument → ParticipantMetadata → Exec (World lib) Unit
  unfolding connect
  enter ctx id user d m = do
    participants ← must (assign user m d.participants)
    _ ← attempt (on_redis lib (Redis.update_participant lib.redis id user m))
    let d' = record d { participants = participants }
    board ← refresh_board lib id user m.total_score d'
    connect ctx id user (with_leaderboard d' board)

  unfoldable pub join_granted :
      String → WsContext → String → String → ChallengeDocument → Exec (World lib) Unit
  unfolding enlist enter
  join_granted ip ctx id user d = do
    m ← enlist ip id user (lookup user d.participants)
    enter ctx id user d (record m { last_connected = now.last_connected })

  -- the checks of the challenge
  unfoldable pub join_fetched :
      String
      → WsContext
      → JoinChallengePayload
      → String
      → Result ChallengeDocument
      → Exec (World lib) Unit
  unfolding join_granted
  join_fetched ip ctx p user (error _) = refuse ctx "Challenge not found" null
  join_fetched ip ctx p user (value d) =
      if d.status == challenge_abandon
      then refuse ctx "Challenge is abandoned" null
      else if d.is_private && not (d.password == p.password)
      then refuse ctx "Invalid challenge ID or password" null
      else join_granted ip ctx p.challenge_id user d

  unfoldable pub join_verified :
      String → WsContext → JoinChallengePayload → Verdict → Exec (World lib) Unit
  unfolding join_fetched
  join_verified ip ctx p (denied msg extra) = refuse ctx msg extra
  join_verified ip ctx p fatal = halt exited
  join_verified ip ctx p (admitted user) = do
    fetched ← attempt (on_redis lib (Redis.get_challenge_by_id lib.redis p.challenge_id))
    join_fetched ip ctx p user fetched

  module _ (codec : Codec) (gateway : Gateway) where
    unfoldable pub join_decoded :
        String → WsContext → Result JoinChallengePayload → Exec (World lib) Unit
    unfolding join_verified authenticate
    join_decoded ip ctx (error _) = refuse ctx "Invalid payload format" null
    join_decoded ip ctx (value p) = join_verified ip ctx p (authenticate codec gateway p.token)

    abbrev pub join_encoded : String → WsContext → Result String → Exec (World lib) Unit
    join_encoded ip ctx (error _) = refuse ctx "Internal error" null
    join_encoded ip ctx (value raw) = join_decoded ip ctx (codec.unmarshal_join raw)

    -- `ip` is `ctx.Conn.RemoteAddr().String()`
    unfoldable pub join_challenge_handler : String → WsContext → Exec (World lib) Unit
    join_challenge_handler ip ctx = join_encoded ip ctx (codec.marshal ctx.payload)
