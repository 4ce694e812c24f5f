-- ===== src/Service/Submit.antt =====
-- `PushSubmissionStatus` of internal/service/challenge.go.
pub mod Scores
pub mod Refused
pub mod Accepted
use challenge_service.Prelude.{
  ℕ, String, Bool, true, false, Option, none, some, List, [], ◌∷◌, length, if◌then◌else◌,
}
use challenge_service.Prelude.Int.{ℤ, pos, negsuc, add64, mul64}
use challenge_service.GoMap.{GoMap, nil, made, entries, lookup, insert}
use challenge_service.Exec.{Exec, Result, value, error, pure, gets, attempt, ◌>>=◌, ◌>>◌}
use challenge_service.Model.{
  ChallengeDocument, ChallengeProblemMetadata, ParticipantMetadata, Submission, LeaderboardEntry,
}
use challenge_service.Redis
use challenge_service.Leaderboard.{
  ParticipantLeaderboardData, initialize_leaderboard, update_participant_score, get_leaderboard,
  get_participant_rank,
}
use challenge_service.Local.{get_all_ws_clients}
use challenge_service.Wss.Broadcast.{broadcast_new_submission, broadcast_leaderboard_update}
use challenge_service.World.{Libraries, World, on_redis, on_boards, on_net}
use challenge_service.World.Snapshot.{refresh_board}
use challenge_service.Service.Proto.{millisecond}
use challenge_service.Service.Lifecycle.{Reply}

pub record SubmissionRequest : Type 0 where
  pub challenge_id : String
  pub user_id : String
  pub problem_id : String
  pub submission_id : String
  pub score : ℤ
  pub is_successful : Bool
  pub time_taken_millis : ℤ

pub record SubmissionResponse : Type 0 where
  pub message : String
  pub success : Bool

abbrev pub reply : String → Bool → Option String → Reply SubmissionResponse
reply message success e = record {
  response = record { message = message; success = success };
  failure = e;
}

abbrev pub time_taken_of : SubmissionRequest → ℤ
time_taken_of req = mul64 req.time_taken_millis millisecond

abbrev pub submission_of : SubmissionRequest → Submission
submission_of req = record {
  submission_id = req.submission_id;
  time_taken = time_taken_of req;
  points = req.score;
  user_code = "";
}

abbrev pub problem_of : SubmissionRequest → ChallengeProblemMetadata
problem_of req = record {
  problem_id = "";
  score = req.score;
  time_taken = time_taken_of req;
  completed_at = pos 0;
}

-- `totalScore += problemMeta.Score` over the problems done
unfoldable pub add_scores : ℤ → List (String × ChallengeProblemMetadata) → ℤ
add_scores total [] = total
add_scores total ((_, meta) ∷ l) = add_scores (add64 total meta.score) l

-- the participant after the submission
unfoldable pub scored : SubmissionRequest → ParticipantMetadata → ParticipantMetadata
unfolding add_scores
scored req p =
    let done = insert req.problem_id (problem_of req) p.problems_done in
    record p {
      problems_done = done;
      total_score = add_scores (pos 0) (entries done);
      problems_attempted = pos (length (entries done));
    }

-- `challenge.Submissions[userID]`, which is a nil map for a missing key
abbrev pub submissions_of : String → ChallengeDocument → GoMap Submission
submissions_of user d = elim (lookup user d.submissions) [ none ↦ nil | some m ↦ m ]

-- The document after the submission. The participant is a pointer into the document, so its change
-- shows there too.
unfoldable pub submitted :
    SubmissionRequest → ParticipantMetadata → ChallengeDocument → ChallengeDocument
unfolding scored
submitted req p d = record d {
  submissions =
      insert req.user_id (insert req.problem_id (submission_of req) (submissions_of req.user_id d))
        d.submissions;
  participants = insert req.user_id (scored req p) d.participants;
}

module _ (lib : Libraries) where
  abbrev pub rank_or_none : Result ParticipantLeaderboardData → ℤ
  rank_or_none (error _) = negsuc 0
  rank_or_none (value r) = r.rank

  abbrev pub announce_leaderboard :
      GoMap ℕ → SubmissionRequest → ℤ → Result (List LeaderboardEntry) → Exec (World lib) Unit
  announce_leaderboard clients req now (error _) = pure tt
  announce_leaderboard clients req now (value l) =
      on_net lib
        (broadcast_leaderboard_update lib.sockets clients req.challenge_id l req.user_id now)

  -- the two events, and the response
  unfoldable pub tell :
      SubmissionRequest
      → ℤ
      → Result (List LeaderboardEntry)
      → Result ParticipantLeaderboardData
      → GoMap ℕ
      → Exec (World lib) (Reply SubmissionResponse)
  tell req now board rank clients = do
    on_net lib (
        broadcast_new_submission lib.sockets clients req.challenge_id req.user_id req.problem_id
          req.score (rank_or_none rank) now)
    announce_leaderboard clients req now board
    pure (reply "submission processed successfully" true none)

  -- from the user's new rank to the response
  unfoldable pub announce :
      SubmissionRequest
      → ℤ
      → Result (List LeaderboardEntry)
      → Exec (World lib) (Reply SubmissionResponse)
  unfolding tell
  announce req now board = do
    rank ← attempt (on_boards lib (get_participant_rank lib.board req.challenge_id req.user_id))
    clients ← gets (λ s. get_all_ws_clients req.challenge_id s.local.states)
    tell req now board rank clients

  -- from the boards to the response
  unfoldable pub publish :
      SubmissionRequest
      → ℤ
      → ParticipantMetadata
      → ChallengeDocument
      → Exec (World lib) (Reply SubmissionResponse)
  unfolding announce
  publish req now p d = do
    board ← refresh_board lib req.challenge_id req.user_id p.total_score d
    announce req now board

  unfoldable pub push_stored :
      SubmissionRequest
      → ℤ
      → ParticipantMetadata
      → ChallengeDocument
      → Result (Unit {0})
      → Exec (World lib) (Reply SubmissionResponse)
  unfolding publish
  push_stored req now p d (error e) = pure (reply "failed to update challenge" false (some e))
  push_stored req now p d (value _) = publish req now p d

  unfoldable pub push_updated :
      SubmissionRequest
      → ℤ
      → ParticipantMetadata
      → ChallengeDocument
      → Result (Unit {0})
      → Exec (World lib) (Reply SubmissionResponse)
  unfolding push_stored
  push_updated req now p d (error e) = pure (reply "failed to update participant" false (some e))
  push_updated req now p d (value _) = do
    stored ← attempt (on_redis lib (Redis.update_challenge lib.redis d))
    push_stored req now p d stored

  unfoldable pub push_for :
      SubmissionRequest
      → ℤ
      → ChallengeDocument
      → Option ParticipantMetadata
      → Exec (World lib) (Reply SubmissionResponse)
  unfolding push_updated
  push_for req now d none = pure (reply "user not a participant" false none)
  push_for req now d (some p) = do
    updated ← attempt (
        on_redis lib
          (Redis.update_participant lib.redis req.challenge_id req.user_id (scored req p)))
    push_updated req now (scored req p) (submitted req p d) updated

  unfoldable pub push_fetched :
      SubmissionRequest → ℤ → Result ChallengeDocument → Exec (World lib) (Reply SubmissionResponse)
  unfolding push_for
  push_fetched req now (error e) = pure (reply "challenge not found" false (some e))
  push_fetched req now (value d) = push_for req now d (lookup req.user_id d.participants)

  unfoldable pub push_submission_status :
      SubmissionRequest → ℤ → Exec (World lib) (Reply SubmissionResponse)
  unfolding push_fetched
  push_submission_status req now =
      if req.is_successful
      then (do
        fetched ← attempt (on_redis lib (Redis.get_challenge_by_id lib.redis req.challenge_id))
        push_fetched req now fetched)
      else pure (reply "received unsuccessful submission" true none)
