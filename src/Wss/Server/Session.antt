-- ===== src/Wss/Server/Session.antt =====
-- What a client does to a challenge by a connection alone.
use mathlib.Core.Path.{subst}
use challenge_service.Prelude.{
  ℕ, String, ◌≡◌, ◌≢◌, refl, sym, ap, ◌∙◌, some, [], ◌∷◌, arith, inl, inr,
}
use challenge_service.Prelude.Int.{ℤ}
use challenge_service.GoMap.{lookup, find, insert, replace}
use challenge_service.Exec.{ok, Result, value, error, attempt}
use challenge_service.Exec.Laws.{Result-cases}
use challenge_service.Model.{ChallengeDocument}
use challenge_service.Jwt.{JwtLibrary}
use challenge_service.RedisClient
use challenge_service.Redis.View.{stored, IsKeyed}
use challenge_service.World.{Libraries, World, on_local}
use challenge_service.Local.{close_conn}
use challenge_service.Wss.Json.{Fields, text, plain, field, end}
use challenge_service.Wss.Broadcast.{ping_server, send_json}
use challenge_service.Wss.Dispatcher.{
  WsContext, register, register_with_middleware, run_registration, execute_middleware_chain,
  dispatch,
}
use challenge_service.Wss.Handlers.{Codec, Gateway, Clock, WsMessageRequest}
use challenge_service.Wss.Server.{
  hang_up, Arrival, track, pong, main_dispatcher, context_of, cleanup_connection, serve, ws_handler,
}
use challenge_service.Wss.Server.Cleanup.{Removed, cleanup_connection-Removed}

module _ (lib : Libraries) (jwt : JwtLibrary) (secret : String) (codec : Codec) (conn : ℕ)
    (ip : String) where
  -- A ping runs `pong`, which needs no token.
  dispatch_ping :
      (gateway : Gateway) (now : Clock) (ctx : WsContext) (s : World lib)
      → dispatch
          (World lib)
          (main_dispatcher lib jwt secret codec conn ip gateway now)
          ping_server
          ctx
          s
        ≡ pong lib ctx s
  unfolding dispatch main_dispatcher register register_with_middleware run_registration
      execute_middleware_chain lookup find insert replace
  dispatch_ping gateway now ctx s = refl

  -- the world with another net
  abbrev with_net : lib.sockets.Net → World lib → World lib
  with_net net s = record s { local = record s.local { net = net } }

  abbrev pong_fields : Fields
  pong_fields =
      field "type" (text ping_server)
        (field "status" (text "ok") (field "message" (text "pong") end))

  attempt-pong :
      (ctx : WsContext) (s : World lib)
      → (r : Result (Unit {0})) × (net : lib.sockets.Net) × (attempt (pong lib ctx) s
          ≡ (ok r, with_net net s))
  unfolding pong send_json
  attempt-pong ctx s =
      let net = (lib.sockets.write_json ctx.conn (plain pong_fields) s.local.net).1 in
      elim (Result-cases (lib.sockets.write_json ctx.conn (plain pong_fields) s.local.net).0) [
        | inl (u, e) ↦ (value u, net, rw e refl)
        | inr (msg, e) ↦ (error msg, net, rw e refl)
      ]

  close_lem :
      (s : World lib)
      → (net : lib.sockets.Net) × ((on_local lib (close_conn lib.sockets conn) s).1
          ≡ with_net net s)
  close_lem s =
      let net = (lib.sockets.close conn s.local.net).1 in
      elim (Result-cases (lib.sockets.close conn s.local.net).0) [
        | inl (u, e) ↦ (net, rw e refl)
        | inr (msg, e) ↦ (net, rw e refl)
      ]

  -- A client that sends one ping, without any token, and then goes away takes the user that the
  -- ping names out of the stored challenge that it names: with neither name empty, Redis reachable
  -- and every document under its own identifier, the participation and the submissions of that user
  -- are deleted, whoever sent the ping, the connection of that user is forgotten, and no other
  -- document or connection changes.
  pub ws_handler-Removed :
      (rlaw : RedisClient.Laws lib.redis) (now : ℤ) (a : Arrival) (m : WsMessageRequest)
      (user challenge : String) (d : ChallengeDocument) (s : World lib)
      → codec.unmarshal_message a.raw ≡ value m
      → m.message_type ≡ ping_server
      → lookup "userId" m.payload ≡ some (text user)
      → lookup "challengeId" m.payload ≡ some (text challenge)
      → user ≢ ""
      → challenge ≢ ""
      → rlaw.Up s.redis
      → IsKeyed lib.redis rlaw s.redis
      → stored lib.redis rlaw s.redis challenge ≡ some d
      → Removed lib rlaw user challenge d s (ws_handler lib jwt secret codec conn ip now (a ∷ []) s)
  unfolding ws_handler hang_up serve track
  ws_handler-Removed rlaw now a m user challenge d s read ping who where' named in' up keyed there =
      let ctx = context_of lib jwt secret codec conn ip m in
      let (r, net, ponged) = attempt-pong ctx s in
      let s1 = with_net net s in
      let c =
        cleanup_connection-Removed lib rlaw user challenge now d s1 named in' up keyed there in
      let s2 = (cleanup_connection lib user challenge now s1).1 in
      let (net', closed) = close_lem s2 in
      let pinged : attempt
            (dispatch (World lib) (main_dispatcher lib jwt secret codec conn ip a.gateway a.clock)
              m.message_type ctx)
            s
          ≡ (ok r, s1) =
        rw (ping, dispatch_ping a.gateway a.clock ctx s) ponged in
      let served : serve lib jwt secret codec conn ip now (a ∷ [])
            (record { user_id = ""; challenge_id = "" }) s
          ≡ cleanup_connection lib user challenge now s1 =
        ground (arith, read, pinged, who, where') in
      let run : ws_handler lib jwt secret codec conn ip now (a ∷ []) s ≡ (ok tt, with_net net' s2) =
        ap (λ out. hang_up lib jwt secret codec conn ip out.0 out.1)
          (served ∙ ap (λ r. (r, s2)) c.done)
        ∙ ap (λ w. (ok tt, w)) closed in
      subst (Removed lib rlaw user challenge d s) (sym run) (record {
        done = refl;
        active = c.active;
        history = c.history;
        boards = c.boards;
        clients = c.clients;
      })
