-- ===== src/Wss/Handlers/Join/Entering.antt =====
-- What a join that the checks let through stores.
use mathlib.Core.Path.{subst}
use challenge_service.Prelude.{
  ℕ, String, ◌≡◌, ◌≢◌, refl, sym, ap, ◌∙◌, some, List, arith, ◌==◌, eq_refl, if◌then◌else◌,
}
use challenge_service.GoMap.{nil, lookup, assign-insert}
use challenge_service.Exec.{Outcome, ok, panic, Result, value, attempt}
use challenge_service.Exec.Laws.{bind_ran, of_result-ne-panic}
use challenge_service.Model.{ChallengeDocument, ParticipantMetadata, LeaderboardEntry}
use challenge_service.Jwt.{JwtLibrary}
use challenge_service.RedisClient
use challenge_service.Redis
use challenge_service.Redis.View.{stored, IsKeyed}
use challenge_service.Redis.Updates.{with_participant}
use challenge_service.Leaderboard.Boards.{IsAllocated}
use challenge_service.Local.{add_ws_client, get_all_ws_clients}
use challenge_service.World.{Libraries, World, on_redis}
use challenge_service.World.Snapshot.{with_leaderboard}
use challenge_service.World.Snapshot.Laws.{IsRanking, refresh_board-Refreshed}
use challenge_service.Wss.Json.{plain}
use challenge_service.Wss.Broadcast.{send_json, broadcast_entity_joined}
use challenge_service.Wss.Broadcast.Total.{broadcast_entity_joined_ok}
use challenge_service.Wss.Dispatcher.{WsContext}
use challenge_service.Wss.Handlers.{Clock}
use challenge_service.Wss.Handlers.Join.{
  welcome, challenge_token, connect, enlist, enter, join_granted,
}
use challenge_service.Wss.Handlers.Join.Enlisting.{joining, Holding, enlisted}

-- the document with that entry
abbrev pub with_joined : Clock → String → String → ChallengeDocument → ChallengeDocument
with_joined now ip user d = with_participant user (joining now ip (lookup user d.participants)) d

module _ (jwt : JwtLibrary) (secret : String) (lib : Libraries) (now : Clock) where
  -- The connection is registered whatever becomes of the messages, and nothing else changes but
  -- what the peers are sent.
  connect_lem :
      (ctx : WsContext) (id user : String) (d : ChallengeDocument) (s : World lib)
      → let out = connect jwt secret lib now ctx id user d s in
        (out.0 ≢ panic)
        × (out.1.redis ≡ s.redis)
        × (out.1.mongo ≡ s.mongo)
        × (out.1.boards ≡ s.boards)
        × (out.1.local.states ≡ add_ws_client id user ctx.conn s.local.states)
  unfolding connect send_json
  connect_lem ctx id user d s =
      let states = add_ws_client id user ctx.conn s.local.states in
      let clients = get_all_ws_clients id states in
      let told =
        broadcast_entity_joined lib.sockets clients user id (user == d.creator_id) now.announced in
      let fine =
        broadcast_entity_joined_ok lib.sockets clients id user now.announced s.local.net
          (user == d.creator_id) in
      let m = plain (welcome user id d (challenge_token jwt secret lib now user id d)) in
      rw fine (
        of_result-ne-panic (lib.sockets.write_json ctx.conn m (told s.local.net).1).0,
        refl,
        refl,
        refl,
        refl,
      )

  module _ (rlaw : RedisClient.Laws lib.redis) where
    -- The run `out` from `s` stored `d` with a leaderboard, and registered the connection.
    pub record Joined (id user : String) (conn : ℕ) (d : ChallengeDocument) (s : World lib)
        (out : Outcome (Unit {0}) × World lib) : Type 0 where
      pub calm : out.0 ≢ panic
      pub board : Result (List LeaderboardEntry)
      pub ranking : IsRanking lib rlaw d board
      pub history : out.1.mongo ≡ s.mongo
      pub states : out.1.local.states ≡ add_ws_client id user conn s.local.states
      pub active :
          (j : String)
          → stored lib.redis rlaw out.1.redis j
            ≡ (if id == j then some (with_leaderboard d board) else stored lib.redis rlaw s.redis j)

    -- from the participant's entry on
    entered :
        (ctx : WsContext) (id user : String) (d : ChallengeDocument) (m : ParticipantMetadata)
        (s s1 s2 : World lib)
        → IsAllocated lib.board s.boards
        → d.participants ≢ nil
        → d.challenge_id ≡ id
        → attempt (on_redis lib (Redis.update_participant lib.redis id user m)) s1
          ≡ (ok (value tt), s2)
        → Holding jwt secret lib now rlaw id (with_participant user m d) s s2
        → Joined id user ctx.conn
            (with_participant user m d)
            s
            (enter jwt secret lib now ctx id user d m s1)
    unfolding enter
    entered ctx id user d m s s1 s2 al full own put h =
        let d' = with_participant user m d in
        let f =
          refresh_board-Refreshed lib rlaw id user m.total_score d' s2 h.up
            (subst (IsAllocated lib.board) (sym h.boards) al) own
            (ground (arith, h.active id, eq_refl id)) in
        let d'' = with_leaderboard d' f.board in
        let (calm, redis, mongo, boards, states) = connect_lem ctx id user d'' f.after in
        let run : enter jwt secret lib now ctx id user d m s1
            ≡ connect jwt secret lib now ctx id user d'' f.after =
          ground (arith, assign-insert user m d.participants full, put, f.ran) in
        subst (Joined id user ctx.conn d' s) (sym run) (record {
          calm = calm;
          board = f.board;
          ranking = f.ranking;
          history = mongo ∙ f.mongo ∙ h.mongo;
          states = states ∙ ap (λ l. add_ws_client id user ctx.conn l.states) (f.local ∙ h.local);
          active = λ j.
              ap (λ db. stored lib.redis rlaw db j) redis
              ∙ ground (arith, f.active j, h.active j, own);
        })

    pub join_granted-Joined :
        (ip : String) (ctx : WsContext) (id user : String) (d : ChallengeDocument) (s : World lib)
        → rlaw.Up s.redis
        → IsKeyed lib.redis rlaw s.redis
        → IsAllocated lib.board s.boards
        → stored lib.redis rlaw s.redis id ≡ some d
        → d.participants ≢ nil
        → Joined id user ctx.conn
            (with_joined now ip user d)
            s
            (join_granted jwt secret lib now ip ctx id user d s)
    unfolding join_granted
    join_granted-Joined ip ctx id user d s up keyed al there full =
        let (m, s1, s2, ran, (same, put, h)) =
          enlisted jwt secret lib now rlaw ip id user d s up keyed there in
        let m' : ParticipantMetadata = record m { last_connected = now.last_connected } in
        let own = keyed.at id d there in
        let run : join_granted jwt secret lib now ip ctx id user d s
            ≡ enter jwt secret lib now ctx id user d m' s1 =
          bind_ran (enlist jwt secret lib now ip id user (lookup user d.participants))
            (λ m.
              enter jwt secret lib now ctx id user d
                (record m { last_connected = now.last_connected }))
            s ran in
        subst
          (λ x.
            Joined id user ctx.conn (with_participant user x d) s
              (join_granted jwt secret lib now ip ctx id user d s))
          same
          (subst (Joined id user ctx.conn (with_participant user m' d) s) (sym run)
            (entered ctx id user d m' s s1 s2 al full own put h))
