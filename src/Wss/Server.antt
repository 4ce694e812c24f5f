-- ===== src/Wss/Server.antt =====
-- internal/wss/server.go, the loop of one connection, and the events that cmd/main.go registers. The
-- upgrade of the HTTP request is not modelled. A connection is the messages that `ReadMessage`
-- returns before its error, each with the answers that the code outside this repository gives while
-- the message is handled.
pub mod Cleanup
pub mod Session
use challenge_service.Prelude.{
  ℕ, String, Bool, Option, none, some, List, [], ◌∷◌, ◌||◌, ◌==◌, if◌then◌else◌,
}
use challenge_service.Prelude.Int.{ℤ}
use challenge_service.GoMap.{GoMap, lookup}
use challenge_service.Exec.{
  Outcome, ok, err, panic, cut, Exec, Result, value, error, pure, gets, modify, attempt, ◌>>=◌,
  ◌>>◌,
}
use challenge_service.Model.{ChallengeDocument}
use challenge_service.Jwt.{JwtLibrary}
use challenge_service.Redis
use challenge_service.Local.{remove_ws_client, remove_session, get_all_ws_clients, close_conn}
use challenge_service.World.{Libraries, World, on_redis, on_local, on_net}
use challenge_service.Wss.Json.{Json, text, field, end}
use challenge_service.Wss.Broadcast.{
  ping_server, join_challenge, retrieve_challenge, current_leaderboard, broadcast_entity_left,
}
use challenge_service.Wss.Dispatcher.{
  WsContext, Handler, Dispatcher, new_dispatcher, register, register_with_middleware, dispatch,
}
use challenge_service.Wss.Auth.{jwt_middleware}
use challenge_service.Wss.Handlers.{Codec, Gateway, Clock, WsMessageRequest, send_object}
use challenge_service.Wss.Handlers.Join.{join_challenge_handler}
use challenge_service.Wss.Handlers.Retrieve.{retreive_challenge}
use challenge_service.Wss.Handlers.Standings.{get_leaderboard_handler}

-- the variables of the loop
pub record Tracked : Type 0 where
  pub user_id : String
  pub challenge_id : String

-- `if uid, ok := payload[key].(string); ok`
abbrev pub text_or : String → Option Json → String
text_or old (some (text s)) = s
text_or old _ = old

unfoldable pub track : GoMap Json → Tracked → Tracked
track payload t = record {
  user_id = text_or t.user_id (lookup "userId" payload);
  challenge_id = text_or t.challenge_id (lookup "challengeId" payload);
}

-- one message, the gateway that its handler asks, and the clock that it reads
pub record Arrival : Type 1 where
  pub raw : String
  pub gateway : Gateway
  pub clock : Clock

module _ (lib : Libraries) where
  -- the clients that are left are told
  abbrev pub tell_left : String → String → ℤ → Result ChallengeDocument → Exec (World lib) Unit
  tell_left user challenge now (error _) = pure tt
  tell_left user challenge now (value d) = do
    clients ← gets (λ s. get_all_ws_clients challenge s.local.states)
    on_net lib (broadcast_entity_left lib.sockets clients user challenge (user == d.creator_id) now)

  -- the two removals from the local state
  unfoldable pub disconnect : String → String → Exec (World lib) Unit
  disconnect user challenge = do
    on_local lib (remove_ws_client lib.sockets challenge user)
    modify
        (λ s. record s {
          local = record s.local { states = remove_session challenge user s.local.states };
        })
        tt

  unfoldable pub cleanup_connection : String → String → ℤ → Exec (World lib) Unit
  unfolding disconnect
  cleanup_connection user challenge now = if user == "" || challenge == "" then pure tt else do
    _ ← attempt (on_redis lib (Redis.remove_participant_in_join_phase lib.redis challenge user))
    fetched ← attempt (on_redis lib (Redis.get_challenge_by_id lib.redis challenge))
    disconnect user challenge
    tell_left user challenge now fetched

  -- the handler of PING_SERVER
  unfoldable pub pong : Handler (World lib)
  pong ctx = send_object lib ctx.conn (
      field "type" (text ping_server)
        (field "status" (text "ok") (field "message" (text "pong") end)))

  module _ (jwt : JwtLibrary) (secret : String) (codec : Codec) (conn : ℕ) (ip : String) where
    -- the registrations of main.go
    unfoldable pub main_dispatcher : Gateway → Clock → Dispatcher (World lib)
    unfolding pong
    main_dispatcher gateway now =
        register_with_middleware (World lib) current_leaderboard (get_leaderboard_handler lib codec)
          (jwt_middleware jwt secret lib ∷ [])
          (register_with_middleware (World lib) retrieve_challenge (retreive_challenge lib codec)
            (jwt_middleware jwt secret lib ∷ [])
            (register (World lib) join_challenge
              (join_challenge_handler jwt secret lib now codec gateway ip)
              (register (World lib) ping_server pong (new_dispatcher (World lib)))))

    -- a new context for each message
    abbrev pub context_of : WsMessageRequest → WsContext
    context_of m = record {
      conn = conn;
      payload = m.payload;
      user_id = "";
      event_type = "";
      claims = none;
    }

    -- the loop; `now` is the clock at the end
    unfoldable pub serve : ℤ → List Arrival → Tracked → Exec (World lib) Unit
    unfolding main_dispatcher cleanup_connection
    serve now [] t = cleanup_connection t.user_id t.challenge_id now
    serve now (a ∷ rest) t = elim (codec.unmarshal_message a.raw) [
      | error _ ↦ serve now rest t
      | value m ↦ do
        _ ←
            attempt (
              dispatch (World lib) (main_dispatcher a.gateway a.clock) m.message_type
                (context_of m))
        serve now rest (track m.payload t)
    ]

    -- the deferred `conn.Close()`, which runs in a panic too, but not when the process ends
    unfoldable pub hang_up : Outcome (Unit {0}) → World lib → Outcome (Unit {0}) × World lib
    hang_up (cut c) s = (cut c, s)
    hang_up (ok u) s = (ok u, (on_local lib (close_conn lib.sockets conn) s).1)
    hang_up (err e) s = (err e, (on_local lib (close_conn lib.sockets conn) s).1)
    hang_up panic s = (panic, (on_local lib (close_conn lib.sockets conn) s).1)

    unfoldable pub ws_handler : ℤ → List Arrival → Exec (World lib) Unit
    unfolding serve hang_up
    ws_handler now arrivals s =
        let (r, s') = serve now arrivals (record { user_id = ""; challenge_id = "" }) s in
        hang_up r s'
