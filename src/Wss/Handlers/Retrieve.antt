-- ===== src/Wss/Handlers/Retrieve.antt =====
-- `RetreiveChallenge` of internal/wss/handlers/retrieve-challenge.go.
use challenge_service.Prelude.{String, Option, none, some, ℕ}
use challenge_service.Prelude.Int.{pos}
use challenge_service.Exec.{Exec, Result, value, error, pure, gets, attempt, ◌>>=◌}
use challenge_service.Model.{ChallengeDocument}
use challenge_service.Redis
use challenge_service.Leaderboard.{initialize_leaderboard, get_leaderboard}
use challenge_service.Local.{get_ws_client}
use challenge_service.World.{Libraries, World, on_redis, on_boards}
use challenge_service.World.Snapshot.{with_leaderboard}
use challenge_service.Wss.Json.{Fields, text, document, object, field, end}
use challenge_service.Wss.Broadcast.{retrieve_challenge}
use challenge_service.Wss.Dispatcher.{WsContext}
use challenge_service.Wss.Handlers.{Codec, RetreiveChallengePayload, send_object}

abbrev pub retrieve_error : String → String → Fields
retrieve_error code msg = field "type" (text retrieve_challenge) (
    field "status" (text "error")
      (field "error" (object (field "code" (text code) (field "message" (text msg) end))) end))

abbrev pub current_state : RetreiveChallengePayload → ChallengeDocument → Fields
current_state p d = field "type" (text retrieve_challenge) (
    field "status" (text "ok") (
      field "message" (text "Challenge state fetched successfully") (
        field "payload"
          (object (
            field "userId" (text p.user_id)
              (field "challengeId" (text p.challenge_id) (field "challenge" (document d) end))))
          end)))

module _ (lib : Libraries) where
  -- the document with the current ranking, if the board is ready and can be read; it is not stored
  unfoldable pub ranked_document :
      String → ChallengeDocument → Result (Unit {0}) → Exec (World lib) ChallengeDocument
  ranked_document id d (error _) = pure d
  ranked_document id d (value _) = do
    board ← attempt (on_boards lib (get_leaderboard lib.board id (pos 50) (some d)))
    pure (with_leaderboard d board)

  unfoldable pub retrieve_joined :
      WsContext → RetreiveChallengePayload → ChallengeDocument → Option ℕ → Exec (World lib) Unit
  unfolding ranked_document
  retrieve_joined ctx p d none =
      send_object lib ctx.conn (retrieve_error "NOT_JOINED" "User not joined to this challenge")
  retrieve_joined ctx p d (some _) = do
    ready ← attempt (on_boards lib (initialize_leaderboard lib.board p.challenge_id))
    d' ← ranked_document p.challenge_id d ready
    send_object lib ctx.conn (current_state p d')

  unfoldable pub retrieve_fetched :
      WsContext → RetreiveChallengePayload → Result ChallengeDocument → Exec (World lib) Unit
  unfolding retrieve_joined
  retrieve_fetched ctx p (error _) =
      send_object lib ctx.conn
        (retrieve_error "CHALLENGE_NOT_FOUND" "Challenge not found or not joined")
  retrieve_fetched ctx p (value d) = do
    client ← gets (λ s. get_ws_client p.challenge_id p.user_id s.local.states)
    retrieve_joined ctx p d client

  unfoldable pub retrieve_decoded :
      WsContext → Result RetreiveChallengePayload → Exec (World lib) Unit
  unfolding retrieve_fetched
  retrieve_decoded ctx (error _) =
      send_object lib ctx.conn (retrieve_error "INVALID_PAYLOAD" "Payload format invalid")
  retrieve_decoded ctx (value p) = do
    fetched ← attempt (on_redis lib (Redis.get_challenge_by_id lib.redis p.challenge_id))
    retrieve_fetched ctx p fetched

  abbrev pub retrieve_encoded : Codec → WsContext → Result String → Exec (World lib) Unit
  retrieve_encoded codec ctx (error _) =
      send_object lib ctx.conn (retrieve_error "MARSHAL_ERROR" "Internal server error")
  retrieve_encoded codec ctx (value raw) = retrieve_decoded ctx (codec.unmarshal_retrieve raw)

  unfoldable pub retreive_challenge : Codec → WsContext → Exec (World lib) Unit
  retreive_challenge codec ctx = retrieve_encoded codec ctx (codec.marshal ctx.payload)
