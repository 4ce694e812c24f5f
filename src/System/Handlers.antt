-- ===== src/System/Handlers.antt =====
-- The handlers of RETRIEVE_CHALLENGE and CURRENT_LEADERBOARD, and the JWT middleware of cmd/main.go,
-- never panic where the invariant holds, and keep what every challenge is.
use challenge_service.Prelude.{ℕ, String, Option, none, some, ◌==◌}
use challenge_service.Prelude.Int.{pos}
use challenge_service.Exec.{Result, value, error, gets}
use challenge_service.Model.{ChallengeDocument, LeaderboardEntry}
use challenge_service.Prelude.{List}
use challenge_service.Jwt.{JwtLibrary, CustomClaims, validate_token}
use challenge_service.RedisClient
use challenge_service.Local.{get_ws_client}
use challenge_service.World.{Libraries, World}
use challenge_service.Wss.Json.{null}
use challenge_service.Wss.Broadcast.{current_leaderboard}
use challenge_service.Wss.Dispatcher.{WsContext}
use challenge_service.Wss.Auth.{auth_error, admit, jwt_middleware_at, jwt_middleware, token_of}
use challenge_service.Wss.Handlers.{Codec, RetreiveChallengePayload, GetLeaderboardPayload}
use challenge_service.Wss.Handlers.Retrieve.{
  current_state, ranked_document, retrieve_joined, retrieve_fetched, retrieve_decoded,
  retrieve_encoded, retreive_challenge,
}
use challenge_service.Wss.Handlers.Standings
use challenge_service.Wss.Handlers.Standings.{
  may_read, limit_of, standings, leaderboard_read, leaderboard_fetched, leaderboard_decoded,
  leaderboard_encoded, get_leaderboard_handler,
}
use challenge_service.System.Safety.{Anything, Got, Safe, Safe-pure, Safe-gets, Safe-if, Safe-bind}
use challenge_service.System.Documents.{View, Known}
use challenge_service.System.Invariant.{Holds, send_object-Safe, send_error-Safe}
use challenge_service.System.Steps.{fetch-Safe, initialize-Safe, get_board-Safe}

module _ (lib : Libraries) (rlaw : RedisClient.Laws lib.redis) (v : View) where
  abbrev I : World lib → Type 0
  I = Holds lib rlaw v

  ranked_document-Safe :
      (id : String) (d : ChallengeDocument) (r : Result (Unit {0}))
      → Safe I Anything (ranked_document lib id d r)
  unfolding ranked_document
  ranked_document-Safe id d (error e) = Safe-pure I Anything d tt
  ranked_document-Safe id d (value u) =
      Safe-bind I Anything Anything _ _ (get_board-Safe lib rlaw v id (pos 50) (some d))
        λ board _. Safe-pure I Anything _ tt

  module _ (ctx : WsContext) where
    retrieve_joined-Safe :
        (p : RetreiveChallengePayload) (d : ChallengeDocument) (client : Option ℕ)
        → Safe I Anything (retrieve_joined lib ctx p d client)
    unfolding retrieve_joined
    retrieve_joined-Safe p d none = send_object-Safe lib rlaw v ctx.conn _
    retrieve_joined-Safe p d (some c) =
        Safe-bind I Anything Anything _ _ (initialize-Safe lib rlaw v p.challenge_id) λ ready _.
          Safe-bind I Anything Anything _ _ (ranked_document-Safe p.challenge_id d ready)
            λ d' _. send_object-Safe lib rlaw v ctx.conn (current_state p d')

    retrieve_fetched-Safe :
        (p : RetreiveChallengePayload) (r : Result ChallengeDocument)
        → Safe I Anything (retrieve_fetched lib ctx p r)
    unfolding retrieve_fetched
    retrieve_fetched-Safe p (error e) = send_object-Safe lib rlaw v ctx.conn _
    retrieve_fetched-Safe p (value d) =
        let client_of : World lib → Option ℕ =
          λ s. get_ws_client p.challenge_id p.user_id s.local.states in
        Safe-bind I Anything Anything (gets client_of) (retrieve_joined lib ctx p d)
          (Safe-gets I client_of) λ c _. retrieve_joined-Safe p d c

    retrieve_decoded-Safe :
        (r : Result RetreiveChallengePayload) → Safe I Anything (retrieve_decoded lib ctx r)
    unfolding retrieve_decoded
    retrieve_decoded-Safe (error e) = send_object-Safe lib rlaw v ctx.conn _
    retrieve_decoded-Safe (value p) =
        Safe-bind I (Got (Known v p.challenge_id)) Anything _ _
          (fetch-Safe lib rlaw v p.challenge_id) λ r _. retrieve_fetched-Safe p r

    retrieve_encoded-Safe :
        (codec : Codec) (r : Result String) → Safe I Anything (retrieve_encoded lib codec ctx r)
    retrieve_encoded-Safe codec (error e) = send_object-Safe lib rlaw v ctx.conn _
    retrieve_encoded-Safe codec (value raw) = retrieve_decoded-Safe (codec.unmarshal_retrieve raw)

    pub retreive_challenge-Safe :
        (codec : Codec) → Safe I Anything (retreive_challenge lib codec ctx)
    unfolding retreive_challenge
    retreive_challenge-Safe codec = retrieve_encoded-Safe codec (codec.marshal ctx.payload)

    refused-Safe : (msg : String) → Safe I Anything (Standings.refuse lib ctx msg)
    refused-Safe msg = send_error-Safe lib rlaw v ctx.conn current_leaderboard msg null

    leaderboard_read-Safe :
        (p : GetLeaderboardPayload) (r : Result (List LeaderboardEntry))
        → Safe I Anything (leaderboard_read lib ctx p r)
    unfolding leaderboard_read
    leaderboard_read-Safe p (error e) = refused-Safe "Failed to retrieve leaderboard"
    leaderboard_read-Safe p (value l) =
        send_object-Safe lib rlaw v ctx.conn (standings p.challenge_id l)

    leaderboard_fetched-Safe :
        (p : GetLeaderboardPayload) (r : Result ChallengeDocument)
        → Safe I Anything (leaderboard_fetched lib ctx p r)
    unfolding leaderboard_fetched
    leaderboard_fetched-Safe p (error e) = refused-Safe "Challenge not found"
    leaderboard_fetched-Safe p (value d) =
        Safe-if I Anything (may_read p d) _ _
          (λ _.
            Safe-bind I Anything Anything _ _
              (get_board-Safe lib rlaw v p.challenge_id (limit_of p) (some d))
              λ r _. leaderboard_read-Safe p r)
          (λ _. refused-Safe "User is not a participant in this challenge")

    leaderboard_decoded-Safe :
        (r : Result GetLeaderboardPayload) → Safe I Anything (leaderboard_decoded lib ctx r)
    unfolding leaderboard_decoded
    leaderboard_decoded-Safe (error e) = refused-Safe "Invalid payload format"
    leaderboard_decoded-Safe (value p) =
        Safe-if I Anything (p.challenge_id == "") _ _ (λ _. refused-Safe "Challenge ID is required")
          λ _.
            Safe-bind I (Got (Known v p.challenge_id)) Anything _ _
              (fetch-Safe lib rlaw v p.challenge_id) λ r _. leaderboard_fetched-Safe p r

    leaderboard_encoded-Safe :
        (codec : Codec) (r : Result String) → Safe I Anything (leaderboard_encoded lib codec ctx r)
    leaderboard_encoded-Safe codec (error e) = refused-Safe "Internal error"
    leaderboard_encoded-Safe codec (value raw) =
        leaderboard_decoded-Safe (codec.unmarshal_leaderboard raw)

    pub get_leaderboard_handler-Safe :
        (codec : Codec) → Safe I Anything (get_leaderboard_handler lib codec ctx)
    unfolding get_leaderboard_handler
    get_leaderboard_handler-Safe codec = leaderboard_encoded-Safe codec (codec.marshal ctx.payload)

    module _ (jwt : JwtLibrary) (secret : String) where
      auth_error-Safe : (msg : String) → Safe I Anything (auth_error jwt secret lib msg ctx)
      auth_error-Safe msg =
          Safe-bind I Anything Anything _ _
            (send_error-Safe lib rlaw v ctx.conn "AUTH_ERROR" msg null)
            λ u _. Safe-pure I Anything ctx tt

      admit-Safe : (r : Result CustomClaims) → Safe I Anything (admit jwt secret lib r ctx)
      unfolding admit
      admit-Safe (error e) = auth_error-Safe "Invalid or expired token"
      admit-Safe (value c) = Safe-pure I Anything _ tt

      pub jwt_middleware-Safe : Safe I Anything (jwt_middleware jwt secret lib ctx)
      unfolding jwt_middleware jwt_middleware_at
      jwt_middleware-Safe =
          Safe-if I Anything (token_of "challengeToken" ctx.payload == "") _ _
            (λ _. auth_error-Safe "Authentication token required")
            (λ _. admit-Safe (validate_token jwt secret (token_of "challengeToken" ctx.payload)))
