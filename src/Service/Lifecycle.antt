-- ===== src/Service/Lifecycle.antt =====
-- The life of a challenge in internal/service/challenge.go: creation, leaving, abandonment, the end,
-- and the move to the history.
pub mod History
pub mod Ending
pub mod Creation
pub mod Abandoning
pub mod Once
use Prim.Native.String.{◌++◌ as append}
use challenge_service.Prelude.{
  ℕ, String, Bool, true, false, ◌||◌, Option, none, some, List, [], ◌∷◌, ◌==◌, if◌then◌else◌,
}
use challenge_service.Prelude.Int.{ℤ, pos}
use challenge_service.GoMap.{GoMap, nil, made, entries, insert}
use challenge_service.Exec.{
  Exec, Result, value, error, pure, fail, gets, must, attempt, wrap, ◌>>=◌, ◌>>◌,
}
use challenge_service.Model.{
  ChallengeDocument, ChallengeConfig, ParticipantMetadata, LeaderboardEntry, challenge_open,
  challenge_abandon, challenge_ended,
}
use challenge_service.Redis
use challenge_service.Mongo
use challenge_service.Leaderboard.{
  initialize_leaderboard, cleanup_leaderboard, update_participant_score,
}
use challenge_service.Local.{get_all_ws_clients}
use challenge_service.Wss.Broadcast.{broadcast_challenge_abandon}
use challenge_service.World.{Libraries, World, on_redis, on_mongo, on_boards, on_net}
use challenge_service.Password.{generate_big_cap_password}
use challenge_service.Service.Proto.{
  ChallengeRecord, ConfigRecord, challenge_document_from_proto, challenge_to_proto,
  config_from_proto,
}

-- a gRPC response and the error beside it
pub record Reply {ℓ} (A : Type ℓ) : Type ℓ where
  pub response : A
  pub failure : Option String

pub record AbandonResponse : Type 0 where
  pub success : Bool
  pub message : String
  pub error_type : String

abbrev pub because : String → String → String
because what e = append what (append ": " e)

-- the participant and the leaderboard entry that `CreateChallenge` writes for the creator
abbrev pub creator_participant : ℤ → ParticipantMetadata
creator_participant now = record {
  problems_done = nil;
  problems_attempted = pos 0;
  total_score = pos 0;
  join_time = now;
  last_connected = pos 0;
  initial_join_ip = "";
  status = "";
}

abbrev pub creator_entry : String → LeaderboardEntry
creator_entry user = record {
  user_id = user;
  problems_completed = pos 0;
  total_score = pos 0;
  rank = pos 0;
}

-- the document of a new challenge: `d` is the converted request, `config` that of the request
unfoldable pub new_challenge :
    ChallengeRecord
    → ChallengeDocument
    → ConfigRecord
    → (now : ℤ) (random : Result (List ℕ)) → ChallengeDocument
new_challenge req d config now random = record d {
  status = challenge_open;
  participants = insert d.creator_id (creator_participant now) (made []);
  submissions = made [];
  password = if req.is_private then generate_big_cap_password random else d.password;
  leaderboard = creator_entry req.creator_id ∷ [];
  config = some (config_from_proto config);
}

abbrev pub refusal : String → String → Option String → Reply AbandonResponse
refusal message error_type e = record {
  response = record { success = false; message = message; error_type = error_type };
  failure = e;
}

abbrev pub accepted : Reply AbandonResponse
accepted = record {
  response = record { success = true; message = ""; error_type = "" };
  failure = none;
}

abbrev pub succeeded : Result (Unit {0}) → Bool
succeeded (value _) = true
succeeded (error _) = false

module _ (lib : Libraries) where
  -- what follows the attempt to initialise the leaderboard: its error is logged
  abbrev pub add_creator : ChallengeDocument → Result (Unit {0}) → Exec (World lib) Unit
  add_creator d (error _) = pure tt
  add_creator d (value _) = do
    _ ←
        attempt
          (on_boards lib (update_participant_score lib.board d.challenge_id d.creator_id (pos 0)))
    pure tt

  -- the rest of `CreateChallenge`, from the write of the document on
  unfoldable pub store_new : ChallengeDocument → Exec (World lib) ChallengeRecord
  store_new d = do
    on_redis lib (Redis.create_challenge lib.redis d)
    ready ← attempt (on_boards lib (initialize_leaderboard lib.board d.challenge_id))
    add_creator d ready
    pure (challenge_to_proto false d)

  -- the part of `CreateChallenge` behind the check for active challenges; `req.GetConfig().MaxUsers`
  -- reads a field through a pointer that is nil if the request has no configuration
  unfoldable pub create_new :
      ChallengeRecord → ℤ → Result (List ℕ) → Exec (World lib) ChallengeRecord
  create_new req now random = do
    d ← must (challenge_document_from_proto req false)
    config ← must req.config
    store_new (new_challenge req d config now random)

  unfoldable pub create_challenge :
      (List String → List String)
      → ChallengeRecord
      → ℤ
      → Result (List ℕ)
      → Exec (World lib) ChallengeRecord
  unfolding create_new
  create_challenge arrival req now random = do
    can ← on_redis lib (Redis.can_create lib.redis arrival req.creator_id)
    if can
        then create_new req now random
        else fail "active challenge already found, can't create new challenge"

  unfoldable pub leave_fetched : String → String → Result ChallengeDocument → Exec (World lib) Bool
  leave_fetched id user (error _) = pure false
  leave_fetched id user (value d) =
      if d.creator_id == user
      then (do
        removed ← attempt (on_redis lib (Redis.remove_participant_in_join_phase lib.redis id user))
        pure (succeeded removed))
      else pure false

  unfoldable pub leave_challenge : String → String → Exec (World lib) Bool
  unfolding leave_fetched
  leave_challenge id user = do
    fetched ← attempt (on_redis lib (Redis.get_challenge_by_id lib.redis id))
    leave_fetched id user fetched

  unfoldable pub persist_challenge_to_mongodb : String → Exec (World lib) Unit
  persist_challenge_to_mongodb id = do
    d ←
        wrap (because "failed to get challenge from Redis")
          (on_redis lib (Redis.get_challenge_by_id lib.redis id))
    wrap (because "failed to persist challenge to MongoDB")
        (on_mongo lib (Mongo.persist_challenge_from_redis lib.mongo (some d)))
    _ ← attempt (on_redis lib (Redis.delete_challenge lib.redis id))
    pure tt

  unfoldable pub update_challenge_status : String → String → Exec (World lib) Unit
  update_challenge_status id status = do
    d ← wrap (because "failed to get challenge") (on_redis lib (Redis.get_challenge lib.redis id))
    wrap (because "failed to update challenge status")
        (on_redis lib (Redis.update_challenge lib.redis (record d { status = status })))
    if status == challenge_abandon || status == challenge_ended
        then (do _ ← attempt (persist_challenge_to_mongodb id); pure tt)
        else pure tt

  unfoldable pub end_challenge : String → String → Exec (World lib) Unit
  end_challenge id creator = do
    d ← wrap (because "challenge not found") (on_redis lib (Redis.get_challenge_by_id lib.redis id))
    if d.creator_id == creator
        then (do
          _ ← attempt (on_boards lib (cleanup_leaderboard lib.board id))
          wrap (because "failed to end challenge") (update_challenge_status id challenge_ended))
        else fail "only the creator can end the challenge"

  -- the end of `AbandonChallenge`: with no clients there is nobody to tell
  unfoldable pub announce_abandoned : ChallengeDocument → ℤ → Exec (World lib) Unit
  announce_abandoned d now = do
    clients ← gets (λ s. get_all_ws_clients d.challenge_id s.local.states)
    on_net lib (broadcast_challenge_abandon lib.sockets clients d.challenge_id d.creator_id now)

  unfoldable pub abandon_done :
      String → ChallengeDocument → ℤ → Result (Unit {0}) → Exec (World lib) (Reply AbandonResponse)
  unfolding announce_abandoned
  abandon_done id d now (error e) = pure (refusal e "CHALLENGEABANDONFAILED" (some e))
  abandon_done id d now (value _) = do
    _ ← attempt (on_boards lib (cleanup_leaderboard lib.board id))
    _ ← attempt (persist_challenge_to_mongodb id)
    announce_abandoned d now
    pure accepted

  unfoldable pub abandon_fetched :
      String → String → ℤ → Result ChallengeDocument → Exec (World lib) (Reply AbandonResponse)
  unfolding abandon_done
  abandon_fetched id creator now (error e) =
      pure (refusal "Challenge not found" "CHALLENGENOTFOUND" (some e))
  abandon_fetched id creator now (value d) =
      if d.creator_id == creator
      then (do
        done ← attempt (on_redis lib (Redis.abandon_challenge lib.redis creator id))
        abandon_done id d now done)
      else pure (refusal "Only the creator can abandon the challenge" "NOTCREATOR" none)

  unfoldable pub abandon_challenge : String → String → ℤ → Exec (World lib) (Reply AbandonResponse)
  unfolding abandon_fetched
  abandon_challenge id creator now = do
    fetched ← attempt (on_redis lib (Redis.get_challenge_by_id lib.redis id))
    abandon_fetched id creator now fetched
