-- ===== src/Wss/Handlers/Reading.antt =====
-- The handlers that only read, `RetreiveChallenge` and `GetLeaderboardHandler`: what they leave as it
-- is, and what a client is answered.
use challenge_service.Prelude.{ℕ, Option, none, some, List, ◌==◌, inl, inr}
use challenge_service.Prelude.Int.{pos}
use challenge_service.Exec.{Result, value, error, gets}
use challenge_service.Exec.Laws.{Result-cases}
use challenge_service.Model.{ChallengeDocument, LeaderboardEntry}
use challenge_service.RedisClient
use challenge_service.Redis
use challenge_service.Leaderboard.{get_leaderboard, initialize_leaderboard}
use challenge_service.Local.{get_ws_client}
use challenge_service.World.{Libraries, World, on_redis, on_boards}
use challenge_service.Wss.Json.{null}
use challenge_service.World.Snapshot.{with_leaderboard}
use challenge_service.Wss.Broadcast.{current_leaderboard}
use challenge_service.Wss.Dispatcher.{WsContext}
use challenge_service.Wss.Handlers.{Codec, RetreiveChallengePayload, GetLeaderboardPayload}
use challenge_service.Wss.Handlers.Retrieve.{
  ranked_document, retrieve_joined, retrieve_fetched, retrieve_decoded, retreive_challenge,
  current_state, retrieve_error,
}
use challenge_service.Wss.Handlers.Standings.{
  limit_of, may_read, standings, leaderboard_read, leaderboard_fetched, leaderboard_decoded,
  get_leaderboard_handler,
}
use challenge_service.Wss.Handlers.ReadOnly.{
  Same, IsReadOnly, IsReadOnly-boards, IsReadOnly-if, IsReadOnly-pure, IsReadOnly-gets,
  IsReadOnly-send_error, IsReadOnly-send_object, IsReadOnly-fetch, IsReadOnly-bind,
  IsReadOnly-attempt_bind,
}

module _ (lib : Libraries) (rlaw : RedisClient.Laws lib.redis) where
  module _ (ctx : WsContext) (p : GetLeaderboardPayload) where
    leaderboard_read-IsReadOnly :
        (board : Result (List LeaderboardEntry))
        → IsReadOnly lib rlaw (leaderboard_read lib ctx p board)
    unfolding leaderboard_read
    leaderboard_read-IsReadOnly (error e) =
        IsReadOnly-send_error lib rlaw ctx.conn current_leaderboard "Failed to retrieve leaderboard"
          null
    leaderboard_read-IsReadOnly (value l) =
        IsReadOnly-send_object lib rlaw ctx.conn (standings p.challenge_id l)

    leaderboard_fetched-IsReadOnly :
        (r : Result ChallengeDocument) → IsReadOnly lib rlaw (leaderboard_fetched lib ctx p r)
    unfolding leaderboard_fetched
    leaderboard_fetched-IsReadOnly (error e) =
        IsReadOnly-send_error lib rlaw ctx.conn current_leaderboard "Challenge not found" null
    leaderboard_fetched-IsReadOnly (value d) =
        let fetch = get_leaderboard lib.board p.challenge_id (limit_of p) (some d) in
        IsReadOnly-if lib rlaw (may_read p d) _ _
          (IsReadOnly-attempt_bind lib rlaw (on_boards lib fetch) (leaderboard_read lib ctx p)
            (IsReadOnly-boards lib rlaw fetch) leaderboard_read-IsReadOnly)
          (IsReadOnly-send_error lib rlaw ctx.conn current_leaderboard
            "User is not a participant in this challenge" null)

  leaderboard_decoded-IsReadOnly :
      (ctx : WsContext) (r : Result GetLeaderboardPayload)
      → IsReadOnly lib rlaw (leaderboard_decoded lib ctx r)
  unfolding leaderboard_decoded
  leaderboard_decoded-IsReadOnly ctx (error e) =
      IsReadOnly-send_error lib rlaw ctx.conn current_leaderboard "Invalid payload format" null
  leaderboard_decoded-IsReadOnly ctx (value p) =
      IsReadOnly-if lib rlaw (p.challenge_id == "") _ _
        (IsReadOnly-send_error lib rlaw ctx.conn current_leaderboard "Challenge ID is required"
          null)
        (IsReadOnly-attempt_bind lib rlaw
          (on_redis lib (Redis.get_challenge_by_id lib.redis p.challenge_id))
          (leaderboard_fetched lib ctx p) (IsReadOnly-fetch lib rlaw p.challenge_id)
          (leaderboard_fetched-IsReadOnly ctx p))

  -- Whatever a client asks of the leaderboard, no stored challenge, nothing of the history and
  -- nobody's connection changes, however the request ends.
  pub get_leaderboard_handler-Same :
      (codec : Codec) (ctx : WsContext) (s : World lib)
      → Same lib rlaw s (get_leaderboard_handler lib codec ctx s).1
  unfolding get_leaderboard_handler
  get_leaderboard_handler-Same codec ctx s = elim (Result-cases (codec.marshal ctx.payload)) [
    | inl (raw, e) ↦ rw e (leaderboard_decoded-IsReadOnly ctx (codec.unmarshal_leaderboard raw) s)
    | inr (msg, e) ↦
        rw e (IsReadOnly-send_error lib rlaw ctx.conn current_leaderboard "Internal error" null s)
  ]

  module _ (ctx : WsContext) (p : RetreiveChallengePayload) where
    ranked_document-IsReadOnly :
        (d : ChallengeDocument) (r : Result (Unit {0}))
        → IsReadOnly lib rlaw (ranked_document lib p.challenge_id d r)
    unfolding ranked_document
    ranked_document-IsReadOnly d (error e) = IsReadOnly-pure lib rlaw d
    ranked_document-IsReadOnly d (value u) =
        let fetch = get_leaderboard lib.board p.challenge_id (pos 50) (some d) in
        IsReadOnly-attempt_bind lib rlaw (on_boards lib fetch) _ (IsReadOnly-boards lib rlaw fetch)
          λ board. IsReadOnly-pure lib rlaw (with_leaderboard d board)

    retrieve_joined-IsReadOnly :
        (d : ChallengeDocument) (client : Option ℕ)
        → IsReadOnly lib rlaw (retrieve_joined lib ctx p d client)
    unfolding retrieve_joined
    retrieve_joined-IsReadOnly d none =
        IsReadOnly-send_object lib rlaw ctx.conn
          (retrieve_error "NOT_JOINED" "User not joined to this challenge")
    retrieve_joined-IsReadOnly d (some c) =
        let start = initialize_leaderboard lib.board p.challenge_id in
        IsReadOnly-attempt_bind lib rlaw (on_boards lib start) _ (IsReadOnly-boards lib rlaw start)
          λ ready.
            IsReadOnly-bind lib rlaw (ranked_document lib p.challenge_id d ready) _
              (ranked_document-IsReadOnly d ready)
              λ d'. IsReadOnly-send_object lib rlaw ctx.conn (current_state p d')

    retrieve_fetched-IsReadOnly :
        (r : Result ChallengeDocument) → IsReadOnly lib rlaw (retrieve_fetched lib ctx p r)
    unfolding retrieve_fetched
    retrieve_fetched-IsReadOnly (error e) =
        IsReadOnly-send_object lib rlaw ctx.conn
          (retrieve_error "CHALLENGE_NOT_FOUND" "Challenge not found or not joined")
    retrieve_fetched-IsReadOnly (value d) =
        let find_client : World lib → Option ℕ =
          λ s. get_ws_client p.challenge_id p.user_id s.local.states in
        IsReadOnly-bind lib rlaw (gets find_client) (retrieve_joined lib ctx p d)
          (IsReadOnly-gets lib rlaw find_client) (retrieve_joined-IsReadOnly d)

  retrieve_decoded-IsReadOnly :
      (ctx : WsContext) (r : Result RetreiveChallengePayload)
      → IsReadOnly lib rlaw (retrieve_decoded lib ctx r)
  unfolding retrieve_decoded
  retrieve_decoded-IsReadOnly ctx (error e) =
      IsReadOnly-send_object lib rlaw ctx.conn
        (retrieve_error "INVALID_PAYLOAD" "Payload format invalid")
  retrieve_decoded-IsReadOnly ctx (value p) =
      IsReadOnly-attempt_bind lib rlaw
        (on_redis lib (Redis.get_challenge_by_id lib.redis p.challenge_id))
        (retrieve_fetched lib ctx p) (IsReadOnly-fetch lib rlaw p.challenge_id)
        (retrieve_fetched-IsReadOnly ctx p)

  -- Whatever a client asks to retrieve, no stored challenge, nothing of the history and nobody's
  -- connection changes, however the request ends: the leaderboard that is sent is not stored.
  pub retreive_challenge-Same :
      (codec : Codec) (ctx : WsContext) (s : World lib)
      → Same lib rlaw s (retreive_challenge lib codec ctx s).1
  unfolding retreive_challenge
  retreive_challenge-Same codec ctx s = elim (Result-cases (codec.marshal ctx.payload)) [
    | inl (raw, e) ↦ rw e (retrieve_decoded-IsReadOnly ctx (codec.unmarshal_retrieve raw) s)
    | inr (msg, e) ↦ rw e (
        IsReadOnly-send_object lib rlaw ctx.conn
          (retrieve_error "MARSHAL_ERROR" "Internal server error") s)
  ]
