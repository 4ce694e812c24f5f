-- ===== src/Model.antt =====
-- internal/model/challenge.go and internal/constants/constants.go: the challenge document and the
-- types that it holds. A Go `int`, `int64` or `time.Duration` is an integer ℤ whose operations
-- wrap at 64 bits. A map of pointers is a map of the values that they point to; the code stores no
-- nil pointer in one.
use challenge_service.Prelude.{String, Bool, Option, List}
use challenge_service.Prelude.Int.{ℤ}
use challenge_service.GoMap.{GoMap}

-- Challenge states
abbrev pub challenge_open : String
challenge_open = "CHALLENGEOPEN"

abbrev pub challenge_started : String
challenge_started = "CHALLENGESTARTED"

abbrev pub challenge_forfeited : String
challenge_forfeited = "CHALLENGEFORFIETED"

abbrev pub challenge_ended : String
challenge_ended = "CHALLENGEENDED"

abbrev pub challenge_abandon : String
challenge_abandon = "CHALLENGEABANDON"

pub record Session : Type 0 where
  pub user_id : String
  pub challenge_id : String
  pub last_active : ℤ
  pub session_hash : String

pub record ChallengeConfig : Type 0 where
  pub max_users : ℤ
  pub max_easy_questions : ℤ
  pub max_medium_questions : ℤ
  pub max_hard_questions : ℤ

pub record Submission : Type 0 where
  pub submission_id : String
  pub time_taken : ℤ
  pub points : ℤ
  pub user_code : String

pub record ChallengeProblemMetadata : Type 0 where
  pub problem_id : String
  pub score : ℤ
  pub time_taken : ℤ
  pub completed_at : ℤ

pub record ParticipantMetadata : Type 0 where
  pub problems_done : GoMap ChallengeProblemMetadata
  pub problems_attempted : ℤ
  pub total_score : ℤ
  pub join_time : ℤ
  pub last_connected : ℤ
  pub initial_join_ip : String
  pub status : String

pub record LeaderboardEntry : Type 0 where
  pub user_id : String
  pub problems_completed : ℤ
  pub total_score : ℤ
  pub rank : ℤ

pub record ChallengeDocument : Type 0 where
  pub challenge_id : String
  pub creator_id : String
  pub created_at : ℤ
  pub title : String
  pub is_private : Bool
  pub password : String
  pub status : String
  pub time_limit : ℤ
  pub start_time : ℤ
  pub participants : GoMap ParticipantMetadata
  pub submissions : GoMap (GoMap Submission)
  pub leaderboard : List LeaderboardEntry
  pub config : Option ChallengeConfig
  pub processed_problem_ids : List String
  pub problem_count : ℤ
