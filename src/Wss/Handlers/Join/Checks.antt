-- ===== src/Wss/Handlers/Join/Checks.antt =====
-- Whom `JoinChallengeHandler` lets in, and what becomes of the others.
use mathlib.Core.Path.{subst}
use challenge_service.Prelude.{
  String, ◌≡◌, ◌≢◌, ◌⊎◌, refl, sym, ◌∙◌, true, Bool-cases, not, ◌&&◌, arith, ◌==◌, eq_iff, inl, inr,
  some,
}
use challenge_service.GoMap.{nil}
use challenge_service.Exec.{Outcome, cut, exited, value}
use challenge_service.Exec.Laws.{
  Outcome-cases, Result-cases, Returns, of_result-ne-panic, of_result-ne-cut,
}
use challenge_service.Model.{ChallengeDocument, challenge_abandon}
use challenge_service.Jwt.{JwtLibrary}
use challenge_service.RedisClient
use challenge_service.Redis
use challenge_service.Redis.View.{
  stored, IsKeyed, get_challenge_by_id_up, get_challenge_by_id_ok, stored-get_challenge_by_id,
  get_challenge_by_id-IsKeyed, get_challenge_by_id-ne-panic, get_challenge_by_id-ne-cut,
}
use challenge_service.Leaderboard.Boards.{IsAllocated}
use challenge_service.World.{Libraries, World}
use challenge_service.Wss.Json.{Json, null}
use challenge_service.Wss.Broadcast.{send_json, send_standard_message, send_error_with_type}
use challenge_service.Wss.Dispatcher.{WsContext}
use challenge_service.Wss.Handlers.{Codec, Gateway, Clock, JoinChallengePayload}
use challenge_service.Wss.Handlers.Join.Environment.{IsUnloaded, authenticate_fatal}
use challenge_service.Wss.Handlers.Join.{
  Verdict, denied, admitted, fatal, authenticate, refuse, join_granted, join_fetched, join_verified,
  join_decoded, join_challenge_handler,
}
use challenge_service.Wss.Handlers.Join.Entering.{with_joined, Joined, join_granted-Joined}

-- The request reads as `p`, and the gateway knows its token as that of `user`.
pub record Asks (codec : Codec) (gateway : Gateway) (ctx : WsContext) (p : JoinChallengePayload)
    (user : String) : Type 0 where
  pub raw : String
  pub marshalled : codec.marshal ctx.payload ≡ value raw
  pub decoded : codec.unmarshal_join raw ≡ value p
  pub known : authenticate codec gateway p.token ≡ admitted user

-- The challenge `d` lets the request in.
pub record LetsIn (p : JoinChallengePayload) (d : ChallengeDocument) : Type 0 where
  pub going_on : d.status ≢ challenge_abandon
  pub shown : d.is_private ≡ true → d.password ≡ p.password

module _ (jwt : JwtLibrary) (secret : String) (lib : Libraries) (now : Clock)
    (rlaw : RedisClient.Laws lib.redis) where
  -- The run `out` from `s` changed nothing but what the peers were sent.
  pub record Refused (s : World lib) (out : Outcome (Unit {0}) × World lib) : Type 0 where
    pub calm : Returns out.0
    pub active :
        (j : String) → stored lib.redis rlaw out.1.redis j ≡ stored lib.redis rlaw s.redis j
    pub history : out.1.mongo ≡ s.mongo
    pub boards : out.1.boards ≡ s.boards
    pub states : out.1.local.states ≡ s.local.states

  refuse-Refused :
      (ctx : WsContext) (msg : String) (extra : Json) (s : World lib)
      → Refused s (refuse jwt secret lib now ctx msg extra s)
  unfolding send_error_with_type send_standard_message send_json
  refuse-Refused ctx msg extra s = record {
    calm = (of_result-ne-panic _, λ w. of_result-ne-cut w _);
    active = λ j. refl;
    history = refl;
    boards = refl;
    states = refl;
  }

  -- a refusal after Redis was read
  Refused-after :
      (id : String) (s : World lib) (out : Outcome (Unit {0}) × World lib)
      → Refused (record s { redis = (Redis.get_challenge_by_id lib.redis id s.redis).1 }) out
      → Refused s out
  Refused-after id s out r = record {
    calm = r.calm;
    active = λ j. r.active j ∙ stored-get_challenge_by_id lib.redis rlaw id s.redis j;
    history = r.history;
    boards = r.boards;
    states = r.states;
  }

  -- the challenge that the handler works on was stored, and let the request in
  LetIn : JoinChallengePayload → World lib → Type 0
  LetIn p s =
      (d : ChallengeDocument) × (stored lib.redis rlaw s.redis p.challenge_id ≡ some d) × LetsIn p d

  join_fetched_cases :
      (ip : String) (ctx : WsContext) (p : JoinChallengePayload) (user : String)
      (d : ChallengeDocument) (s : World lib)
      → Refused s (join_fetched jwt secret lib now ip ctx p user (value d) s) ⊎ LetsIn p d
  unfolding join_fetched
  join_fetched_cases ip ctx p user d s = elim (Bool-cases (d.status == challenge_abandon)) [
    | inl e ↦ inl (rw e (refuse-Refused ctx "Challenge is abandoned" null s))
    | inr e ↦ elim (Bool-cases (d.is_private && not (d.password == p.password))) [
      | inl wrong ↦
          inl (rw (e, wrong) (refuse-Refused ctx "Invalid challenge ID or password" null s))
      | inr right ↦ inr (record {
        going_on = λ same. ground (arith, same, e, eq_iff d.status challenge_abandon);
        shown = λ private. ground (arith, private, right, eq_iff d.password p.password);
      })
    ]
  ]

  join_verified_cases :
      (ip : String) (ctx : WsContext) (p : JoinChallengePayload) (v : Verdict) (s : World lib)
      → Refused s (join_verified jwt secret lib now ip ctx p v s)
        ⊎ ((v ≡ fatal) × (join_verified jwt secret lib now ip ctx p v s ≡ (cut exited, s)))
        ⊎ ((user : String) × (v ≡ admitted user) × LetIn p s)
  unfolding join_verified join_fetched LetIn
  join_verified_cases ip ctx p (denied msg extra) s = inl (refuse-Refused ctx msg extra s)
  join_verified_cases ip ctx p fatal s = inr (inl (refl, refl))
  join_verified_cases ip ctx p (admitted user) s =
      let (r, db) = Redis.get_challenge_by_id lib.redis p.challenge_id s.redis in
      let s' : World lib = record s { redis = db } in
      elim (Outcome-cases r) [
        | inl (d, got) ↦ elim (join_fetched_cases ip ctx p user d s') [
          | inl refused ↦ inl (rw got (Refused-after p.challenge_id s _ refused))
          | inr open' ↦ inr (
              inr (
                user,
                refl,
                (d, get_challenge_by_id_ok lib.redis rlaw p.challenge_id s.redis d got, open'),
              ))
        ]
        | inr (inl (msg, got)) ↦ inl (
            rw got
              (Refused-after p.challenge_id s _ (refuse-Refused ctx "Challenge not found" null s')))
        | inr (inr (inl got)) ↦
            absurd (get_challenge_by_id-ne-panic lib.redis p.challenge_id s.redis got)
        | inr (inr (inr (w, got))) ↦
            absurd (get_challenge_by_id-ne-cut lib.redis p.challenge_id s.redis w got)
      ]

  module _ (codec : Codec) (gateway : Gateway) where
    -- A request to join is refused, which changes nothing but what the peers are sent; or it ends
    -- the process, before any call of a server, which happens only where the environment cannot be
    -- loaded; or it was decoded, the gateway knows its token, and the challenge that it names is
    -- stored, is not abandoned and, if it is private, has the password of the request.
    pub join_challenge_handler_cases :
        (ip : String) (ctx : WsContext) (s : World lib)
        → Refused s (join_challenge_handler jwt secret lib now codec gateway ip ctx s)
          ⊎ (IsUnloaded gateway
              × (join_challenge_handler jwt secret lib now codec gateway ip ctx s
                  ≡ (cut exited, s)))
          ⊎ ((p : JoinChallengePayload) × (user : String) × Asks codec gateway ctx p user
              × (d : ChallengeDocument) × (stored lib.redis rlaw s.redis p.challenge_id ≡ some d)
              × LetsIn p d)
    unfolding join_challenge_handler join_decoded LetIn
    join_challenge_handler_cases ip ctx s = elim (Result-cases (codec.marshal ctx.payload)) [
      | inr (msg, e) ↦ inl (rw e (refuse-Refused ctx "Internal error" null s))
      | inl (raw, e) ↦ elim (Result-cases (codec.unmarshal_join raw)) [
        | inr (msg, e') ↦ inl (rw (e, e') (refuse-Refused ctx "Invalid payload format" null s))
        | inl (p, e') ↦ elim (join_verified_cases ip ctx p (authenticate codec gateway p.token) s) [
          | inl refused ↦ inl (rw (e, e') refused)
          | inr (inl (dead, out)) ↦
              inr (inl (authenticate_fatal codec gateway p.token dead, rw (e, e') out))
          | inr (inr (user, known, (d, there, open'))) ↦ inr (
              inr (
                p,
                user,
                record { raw = raw; marshalled = e; decoded = e'; known = known },
                d,
                there,
                open',
              ))
        ]
      ]
    ]

    -- With Redis reachable, the map of boards allocated and every document under its own
    -- identifier, a request whose token the gateway knows and that the stored challenge lets in,
    -- where the challenge has a map of participants, joins: the challenge is stored with the
    -- participant, who keeps what was there of an earlier join, and with a leaderboard that
    -- `GetLeaderboard` returned for it, or the one that it had; the connection is registered; no
    -- other document, no other connection and nothing of the history changes; and the handler does
    -- not panic, whatever becomes of the board and of the messages.
    pub join_challenge_handler-Joined :
        (ip : String) (ctx : WsContext) (p : JoinChallengePayload) (user : String)
        (d : ChallengeDocument) (s : World lib)
        → rlaw.Up s.redis
        → IsKeyed lib.redis rlaw s.redis
        → IsAllocated lib.board s.boards
        → Asks codec gateway ctx p user
        → stored lib.redis rlaw s.redis p.challenge_id ≡ some d
        → LetsIn p d
        → d.participants ≢ nil
        → Joined jwt secret lib now rlaw p.challenge_id user ctx.conn
            (with_joined now ip user d)
            s
            (join_challenge_handler jwt secret lib now codec gateway ip ctx s)
    unfolding join_challenge_handler join_decoded join_verified join_fetched
    join_challenge_handler-Joined ip ctx p user d s up keyed al asks there open' full =
        let id = p.challenge_id in
        let (got, up') = get_challenge_by_id_up lib.redis rlaw id s.redis d up there in
        let s' : World lib = record s {
          redis = (Redis.get_challenge_by_id lib.redis id s.redis).1;
        } in
        let here = stored-get_challenge_by_id lib.redis rlaw id s.redis in
        let j =
          join_granted-Joined jwt secret lib now rlaw ip ctx id user d s' up'
            (get_challenge_by_id-IsKeyed lib.redis rlaw id keyed) al (here id ∙ there) full in
        let run : join_challenge_handler jwt secret lib now codec gateway ip ctx s
            ≡ join_granted jwt secret lib now ip ctx id user d s' =
          ground (
            arith,
            asks.marshalled,
            asks.decoded,
            asks.known,
            got,
            eq_iff d.status challenge_abandon,
            open'.going_on,
            open'.shown,
            eq_iff d.password p.password,
          ) in
        subst (Joined jwt secret lib now rlaw id user ctx.conn (with_joined now ip user d) s)
          (sym run)
          (record {
            calm = j.calm;
            board = j.board;
            ranking = j.ranking;
            history = j.history;
            states = j.states;
            active = λ k. j.active k ∙ ground (arith, here k);
          })
