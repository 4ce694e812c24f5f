-- ===== src/Wss/Server/Cleanup.antt =====
-- What the end of a connection removes.
use mathlib.Core.Path.{subst}
use challenge_service.Prelude.{
  String, ◌≡◌, ◌≢◌, refl, sym, ap, ◌∙◌, none, some, arith, ◌==◌, ◌&&◌, eq_iff, eq_refl,
  if◌then◌else◌, Option-cases, inl, inr,
}
use challenge_service.Prelude.Int.{ℤ}
use challenge_service.GoMap.{lookup, delete}
use challenge_service.Exec.{Outcome, ok, value}
use challenge_service.Model.{ChallengeDocument}
use challenge_service.RedisClient
use challenge_service.Redis
use challenge_service.Redis.View.{
  stored, IsKeyed, get_challenge_by_id_up, stored-get_challenge_by_id,
}
use challenge_service.Redis.Updates.{
  remove_participant_up, remove_participant-Changed, without_participant,
}
use challenge_service.Local.{
  ChallengeLocalState, States, get_ws_client, remove_session, get_all_ws_clients,
}
use challenge_service.Local.Clients.{lookup-update_existing, get_ws_client-remove}
use challenge_service.World.{Libraries, World}
use challenge_service.Wss.Broadcast.Total.{broadcast_entity_left_ok}
use challenge_service.Wss.Server.{tell_left, disconnect, cleanup_connection}

-- Removing a session leaves every connection as it is.
get_ws_client-remove_session :
    (id user : String) (lsm : States) (j v : String)
    → get_ws_client j v (remove_session id user lsm) ≡ get_ws_client j v lsm
unfolding get_ws_client remove_session
get_ws_client-remove_session id user lsm j v =
    let f = λ (s : ChallengeLocalState). record s { sessions = delete user s.sessions } in
    elim (Option-cases (lookup id lsm)) [
      | inl e ↦ ground (arith, e, lookup-update_existing id f lsm j, eq_iff id j)
      | inr (s, e) ↦ ground (arith, e, lookup-update_existing id f lsm j, eq_iff id j)
    ]

module _ (lib : Libraries) where
  -- The run `out` from `s` only took the connection of one user away.
  record Disconnected (user challenge : String) (s : World lib)
      (out : Outcome (Unit {0}) × World lib) : Type 0 where
    pub done : out.0 ≡ ok tt
    pub redis : out.1.redis ≡ s.redis
    pub mongo : out.1.mongo ≡ s.mongo
    pub boards : out.1.boards ≡ s.boards
    pub clients :
        (j v : String)
        → get_ws_client j v out.1.local.states
          ≡ (if challenge == j && user == v then none else get_ws_client j v s.local.states)

  disconnect-Disconnected :
      (user challenge : String) (s : World lib)
      → Disconnected user challenge s (disconnect lib user challenge s)
  unfolding disconnect
  disconnect-Disconnected user challenge s =
      let gone = get_ws_client-remove lib.sockets challenge user s.local in
      rw (gone challenge user).1 (record {
        done = refl;
        redis = refl;
        mongo = refl;
        boards = refl;
        clients = λ j v. get_ws_client-remove_session challenge user _ j v ∙ (gone j v).0;
      })

  tell_left_value :
      (user challenge : String) (now : ℤ) (d : ChallengeDocument) (s : World lib)
      → let out = tell_left lib user challenge now (value d) s in
        (out.0 ≡ ok tt)
        × (out.1.redis ≡ s.redis)
        × (out.1.mongo ≡ s.mongo)
        × (out.1.boards ≡ s.boards)
        × (out.1.local.states ≡ s.local.states)
  tell_left_value user challenge now d s =
      let clients = get_all_ws_clients challenge s.local.states in
      rw
        (broadcast_entity_left_ok lib.sockets clients challenge user now s.local.net
          (user == d.creator_id))
        (refl, refl, refl, refl, refl)

  module _ (rlaw : RedisClient.Laws lib.redis) where
    -- The run `out` from `s` took `user` out of the challenge, which held `d`.
    pub record Removed (user challenge : String) (d : ChallengeDocument) (s : World lib)
        (out : Outcome (Unit {0}) × World lib) : Type 0 where
      pub done : out.0 ≡ ok tt
      pub active :
          (j : String)
          → stored lib.redis rlaw out.1.redis j ≡ (
              if challenge == j
              then some (without_participant user d)
              else stored lib.redis rlaw s.redis j)
      pub history : out.1.mongo ≡ s.mongo
      pub boards : out.1.boards ≡ s.boards
      pub clients :
          (j v : String)
          → get_ws_client j v out.1.local.states
            ≡ (if challenge == j && user == v then none else get_ws_client j v s.local.states)

    -- With Redis reachable and every document under its own identifier, the end of a connection
    -- that named a user and a stored challenge deletes the user's participation and submissions
    -- from the challenge, whatever its status, and the user's connection; no other document or
    -- connection, no board and nothing of the history changes.
    pub cleanup_connection-Removed :
        (user challenge : String) (now : ℤ) (d : ChallengeDocument) (s : World lib)
        → user ≢ ""
        → challenge ≢ ""
        → rlaw.Up s.redis
        → IsKeyed lib.redis rlaw s.redis
        → stored lib.redis rlaw s.redis challenge ≡ some d
        → Removed user challenge d s (cleanup_connection lib user challenge now s)
    unfolding cleanup_connection Redis.remove_participant_in_join_phase
    cleanup_connection-Removed user challenge now d s named in' up keyed there =
        let db = s.redis in
        let (removed, up1) = remove_participant_up lib.redis rlaw challenge user db d up there in
        let db1 = (Redis.remove_participant lib.redis challenge user db).1 in
        let ch = remove_participant-Changed lib.redis rlaw challenge user db keyed removed in
        let same : ch.before ≡ d = ground (arith, ch.was, there) in
        let d' = without_participant user d in
        let after : (j : String)
            → stored lib.redis rlaw db1 j
              ≡ (if challenge == j then some d' else stored lib.redis rlaw db j) =
          λ j.
            ch.now j
            ∙ ap
                (λ x.
                  if challenge == j
                  then some (without_participant user x)
                  else stored lib.redis rlaw db j)
                same in
        let (got, _) =
          get_challenge_by_id_up lib.redis rlaw challenge db1 d' up1
            (ground (arith, after challenge, eq_refl challenge)) in
        let s2 : World lib = record s {
          redis = (Redis.get_challenge_by_id lib.redis challenge db1).1;
        } in
        let c = disconnect-Disconnected user challenge s2 in
        let s3 = (disconnect lib user challenge s2).1 in
        let t = tell_left_value user challenge now d' s3 in
        let run : cleanup_connection lib user challenge now s
            ≡ tell_left lib user challenge now (value d') s3 =
          ground (arith, removed, got, c.done, eq_iff user "", named, eq_iff challenge "", in') in
        subst (Removed user challenge d s) (sym run) (record {
          done = t.0;
          active = λ j.
              ap (λ x. stored lib.redis rlaw x j) (t.1 ∙ c.redis)
              ∙ stored-get_challenge_by_id lib.redis rlaw challenge db1 j
              ∙ after j;
          history = t.2 ∙ c.mongo;
          boards = t.3 ∙ c.boards;
          clients = λ j v. ap (get_ws_client j v) t.4 ∙ c.clients j v;
        })
