-- ===== src/System/Joining.antt =====
-- `JoinChallengeHandler` of internal/wss/handlers/join-challenge.go never panics where the invariant
-- holds, and keeps what every challenge is.
use challenge_service.Prelude.{
  ◌≡◌, ◌≢◌, refl, inl, inr, ℕ, String, Option, none, some, ◌==◌, ◌&&◌, not,
}
use challenge_service.GoMap.{GoMap, lookup, insert, insert-ne-nil, assign-insert}
use challenge_service.Exec.{exited, Result, value, error, gets, modify}
use challenge_service.Model.{ChallengeDocument, ParticipantMetadata, challenge_abandon}
use challenge_service.Jwt.{JwtLibrary}
use challenge_service.RedisClient
use challenge_service.Redis
use challenge_service.Local.{add_ws_client, get_all_ws_clients}
use challenge_service.Local.Events.{adds_client, step, step-IsBounded}
use challenge_service.World.{Libraries, World}
use challenge_service.Wss.Json.{Json, null}
use challenge_service.Wss.Broadcast.{join_challenge, broadcast_entity_joined}
use challenge_service.Wss.Broadcast.Total.{broadcast_entity_joined_ok}
use challenge_service.Wss.Dispatcher.{WsContext}
use challenge_service.Wss.Handlers.{Codec, Gateway, Clock, JoinChallengePayload}
use challenge_service.Wss.Handlers.Join.{
  Verdict, denied, admitted, fatal, refuse, welcome, challenge_token, connect, enlist, enter,
  join_granted, join_fetched, join_verified, authenticate, join_decoded, join_encoded,
  join_challenge_handler, fresh_participant,
}
use challenge_service.Wss.Handlers.Join.Environment.{Unloaded, authenticate_fatal}
use challenge_service.System.Safety.{
  Ends, Ends-Safe, Anything, Got, Safe, Safe-pure, Safe-gets, Safe-modify, Safe-if, Safe-bind,
}
use challenge_service.System.Documents.{View, Known}
use challenge_service.System.Invariant.{Holds, Safe-told, send_object-Safe, send_error-Safe}
use challenge_service.System.Steps.{fetch-Safe, enlist-Safe, refresh_board-Safe}

module _ (lib : Libraries) (rlaw : RedisClient.Laws lib.redis) (v : View) where
  abbrev I : World lib → Type 0
  I = Holds lib rlaw v

  module _ (jwt : JwtLibrary) (secret : String) (now : Clock) (ip : String) (ctx : WsContext) where
    refuse-Safe :
        (msg : String) (extra : Json) → Safe I Anything (refuse jwt secret lib now ctx msg extra)
    refuse-Safe msg extra = send_error-Safe lib rlaw v ctx.conn join_challenge msg extra

    connect-Safe :
        (id user : String) (d : ChallengeDocument)
        → Safe I Anything (connect jwt secret lib now ctx id user d)
    unfolding connect step
    connect-Safe id user d =
        let clients_of : World lib → GoMap ℕ = λ s. get_all_ws_clients id s.local.states in
        let add : World lib → World lib = λ s. record s {
          local = record s.local { states = add_ws_client id user ctx.conn s.local.states };
        } in
        Safe-bind I Anything Anything (modify add tt) _
          (Safe-modify I add tt (λ s h. record {
            redis = h.redis;
            boards = h.boards;
            events = step-IsBounded (adds_client id user ctx.conn) s.local.states h.events;
          }))
          λ u _.
            Safe-bind I Anything Anything (gets clients_of) _ (Safe-gets I clients_of) λ clients _.
              Safe-bind I Anything Anything _ _
                (Safe-told lib rlaw v
                  (broadcast_entity_joined lib.sockets clients user id (user == d.creator_id)
                    now.announced)
                  (λ net.
                    broadcast_entity_joined_ok lib.sockets clients id user now.announced net
                      (user == d.creator_id)))
                λ w _.
                  send_object-Safe lib rlaw v ctx.conn
                    (welcome user id d (challenge_token jwt secret lib now user id d))

    enlist_if_new-Safe :
        (id user : String) (o : Option ParticipantMetadata)
        → Safe I Anything (enlist jwt secret lib now ip id user o)
    unfolding enlist
    enlist_if_new-Safe id user none =
        Safe-bind I Anything Anything _ _
          (enlist-Safe lib rlaw v id user (fresh_participant now.join_time ip))
          λ r _. Safe-pure I Anything _ tt
    enlist_if_new-Safe id user (some m) = Safe-pure I Anything m tt

    enter-Safe :
        (id user : String) (d : ChallengeDocument) (m : ParticipantMetadata)
        → Known v id d
        → Safe I Anything (enter jwt secret lib now ctx id user d m)
    unfolding enter Redis.update_participant
    enter-Safe id user d m k = rw (assign-insert user m d.participants k.mapped) (
        Safe-bind I Anything Anything _ _ (enlist-Safe lib rlaw v id user m) λ r _.
          Safe-bind I Anything Anything _ _
            (refresh_board-Safe lib rlaw v id user m.total_score
              (record d { participants = insert user m d.participants })
              (record { own = k.own; mapped = insert-ne-nil user m d.participants; seen = k.seen }))
            λ board _. connect-Safe id user _)

    join_granted-Safe :
        (id user : String) (d : ChallengeDocument)
        → Known v id d
        → Safe I Anything (join_granted jwt secret lib now ip ctx id user d)
    unfolding join_granted
    join_granted-Safe id user d k =
        Safe-bind I Anything Anything _ _ (enlist_if_new-Safe id user (lookup user d.participants))
          λ m _. enter-Safe id user d _ k

    join_fetched-Safe :
        (p : JoinChallengePayload) (user : String) (r : Result ChallengeDocument)
        → Got (Known v p.challenge_id) r
        → Safe I Anything (join_fetched jwt secret lib now ip ctx p user r)
    unfolding join_fetched
    join_fetched-Safe p user (error e) k = refuse-Safe "Challenge not found" null
    join_fetched-Safe p user (value d) k =
        Safe-if I Anything (d.status == challenge_abandon) _ _
          (λ _. refuse-Safe "Challenge is abandoned" null)
          λ _.
            Safe-if I Anything (d.is_private && not (d.password == p.password)) _ _
              (λ _. refuse-Safe "Invalid challenge ID or password" null)
              (λ _. join_granted-Safe p.challenge_id user d k)

    join_verified-Safe :
        (p : JoinChallengePayload) (w : Verdict)
        → w ≢ fatal
        → Safe I Anything (join_verified jwt secret lib now ip ctx p w)
    unfolding join_verified
    join_verified-Safe p fatal h = absurd (h refl)
    join_verified-Safe p (denied msg extra) h = refuse-Safe msg extra
    join_verified-Safe p (admitted user) h =
        Safe-bind I (Got (Known v p.challenge_id)) Anything _ _
          (fetch-Safe lib rlaw v p.challenge_id) (join_fetched-Safe p user)

    module _ (codec : Codec) (gateway : Gateway) where
      join_verified-Ends :
          (p : JoinChallengePayload) (w : Verdict)
          → authenticate codec gateway p.token ≡ w
          → Ends I (Unloaded gateway) (join_verified jwt secret lib now ip ctx p w)
      unfolding join_verified
      join_verified-Ends p fatal e s i = inr (record {
        why = exited;
        gone = refl;
        kept = i;
        reason = authenticate_fatal codec gateway p.token e;
      })
      join_verified-Ends p (denied msg extra) e s i =
          inl (join_verified-Safe p (denied msg extra) (λ h. cc) s i)
      join_verified-Ends p (admitted user) e s i =
          inl (join_verified-Safe p (admitted user) (λ h. cc) s i)

      join_decoded-Ends :
          (r : Result JoinChallengePayload)
          → Ends I (Unloaded gateway) (join_decoded jwt secret lib now codec gateway ip ctx r)
      unfolding join_decoded
      join_decoded-Ends (error e) =
          Ends-Safe I (Unloaded gateway) _ (refuse-Safe "Invalid payload format" null)
      join_decoded-Ends (value p) = join_verified-Ends p (authenticate codec gateway p.token) refl

      join_encoded-Ends :
          (r : Result String)
          → Ends I (Unloaded gateway) (join_encoded jwt secret lib now codec gateway ip ctx r)
      join_encoded-Ends (error e) =
          Ends-Safe I (Unloaded gateway) _ (refuse-Safe "Internal error" null)
      join_encoded-Ends (value raw) = join_decoded-Ends (codec.unmarshal_join raw)

      pub join_challenge_handler-Ends :
          Ends I (Unloaded gateway) (join_challenge_handler jwt secret lib now codec gateway ip ctx)
      unfolding join_challenge_handler
      join_challenge_handler-Ends = join_encoded-Ends (codec.marshal ctx.payload)
