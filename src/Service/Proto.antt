-- ===== src/Service/Proto.antt =====
-- The conversions of internal/service/challenge.go between the challenge document and the message
-- `ChallengeRecord` of the generated protocol, of which the fields that the code reads or writes are
-- modelled. An `int32` or `int64` field is an integer; a repeated field is a list. A message that is
-- a field, such as the submission of an entry, may be nil; one in a list or a map is not.
pub mod Filling
pub mod RoundTrip
pub mod Missing
use challenge_service.Prelude.{
  String, Bool, Option, none, some, List, [], ◌∷◌, map, length, if◌then◌else◌,
}
use challenge_service.Prelude.Int.{ℤ, pos, mul64, div64, to_int32}
use challenge_service.GoMap.{GoMap, nil, made, entries, insert}
use challenge_service.Model.{ChallengeDocument, ChallengeConfig, ParticipantMetadata, Submission}

pub record ConfigRecord : Type 0 where
  pub max_users : ℤ
  pub max_easy_questions : ℤ
  pub max_medium_questions : ℤ
  pub max_hard_questions : ℤ

-- `problems_done` holds the keys of its map; the messages behind them are neither read nor written
pub record ParticipantRecord : Type 0 where
  pub problems_done : GoMap (Unit {0})
  pub last_connected_unix : ℤ
  pub problems_attempted : ℤ
  pub total_score : ℤ
  pub join_time_unix : ℤ

pub record SubmissionRecord : Type 0 where
  pub submission_id : String
  pub time_taken_millis : ℤ
  pub points : ℤ

-- `UserSubmissions`: the user, and for each problem a submission
pub record UserSubmissions : Type 0 where
  pub user_id : String
  pub entries : List (String × Option SubmissionRecord)

pub record ChallengeRecord : Type 0 where
  pub challenge_id : String
  pub creator_id : String
  pub created_at : ℤ
  pub title : String
  pub is_private : Bool
  pub password : String
  pub status : String
  pub problem_count : ℤ
  pub time_limit_millis : ℤ
  pub start_time_unix : ℤ
  pub processed_problem_ids : List String
  pub participants : List (String × ParticipantRecord)
  pub submissions : List UserSubmissions
  pub config : Option ConfigRecord

-- `time.Millisecond` as a number of nanoseconds
abbrev pub millisecond : ℤ
millisecond = pos 1000000

abbrev pub participant_from_proto : ParticipantRecord → ParticipantMetadata
participant_from_proto v = record {
  problems_done = nil;
  problems_attempted = v.problems_attempted;
  total_score = v.total_score;
  join_time = v.join_time_unix;
  last_connected = v.last_connected_unix;
  initial_join_ip = "";
  status = "";
}

-- a loop of assignments to a map
unfoldable pub insert_all {ℓ κ} :
    {A : Type ℓ} {V : Type κ} → (A → V) → List (String × A) → GoMap V → GoMap V
insert_all f [] m = m
insert_all f ((k, v) ∷ l) m = insert_all f l (insert k (f v) m)

abbrev pub submission_from_proto : SubmissionRecord → Submission
submission_from_proto s = record {
  submission_id = s.submission_id;
  time_taken = mul64 s.time_taken_millis millisecond;
  points = s.points;
  user_code = "";
}

abbrev pub config_from_proto : ConfigRecord → ChallengeConfig
config_from_proto c = record {
  max_users = c.max_users;
  max_easy_questions = c.max_easy_questions;
  max_medium_questions = c.max_medium_questions;
  max_hard_questions = c.max_hard_questions;
}

abbrev pub mapped {ℓ κ} : {A : Type ℓ} {B : Type κ} → (A → B) → Option A → Option B
mapped f none = none
mapped f (some a) = some (f a)

-- the inner loop over `userSub.Entries`; `entry.Submission.SubmissionId` panics at a nil submission
unfoldable pub entries_from_proto :
    List (String × Option SubmissionRecord) → GoMap Submission → Option (GoMap Submission)
entries_from_proto [] m = some m
entries_from_proto ((k, none) ∷ l) m = none
entries_from_proto ((k, some sub) ∷ l) m =
    entries_from_proto l (insert k (submission_from_proto sub) m)

-- the loop over `pb.Submissions`
unfoldable pub submissions_from_proto :
    List UserSubmissions → GoMap (GoMap Submission) → Option (GoMap (GoMap Submission))
unfolding entries_from_proto
submissions_from_proto [] m = some m
submissions_from_proto (u ∷ us) m = elim (entries_from_proto u.entries (made [])) [
  | none ↦ none
  | some subs ↦ submissions_from_proto us (insert u.user_id subs m)
]

-- the document that `ChallengeDocumentFromProto` builds, from the submissions that it converted
abbrev pub document_with : ChallengeRecord → Bool → GoMap (GoMap Submission) → ChallengeDocument
document_with pb hide_problems submissions = record {
  challenge_id = pb.challenge_id;
  creator_id = pb.creator_id;
  created_at = pb.created_at;
  title = pb.title;
  is_private = pb.is_private;
  password = pb.password;
  status = pb.status;
  time_limit = pb.time_limit_millis;
  start_time = pb.start_time_unix;
  participants = insert_all participant_from_proto pb.participants (made []);
  submissions = submissions;
  leaderboard = [];
  config = mapped config_from_proto pb.config;
  processed_problem_ids = if hide_problems then [] else pb.processed_problem_ids;
  problem_count = pos (length pb.processed_problem_ids);
}

-- `none` is a panic
unfoldable pub challenge_document_from_proto : ChallengeRecord → Bool → Option ChallengeDocument
unfolding submissions_from_proto insert_all
challenge_document_from_proto pb hide_problems =
    mapped (document_with pb hide_problems) (submissions_from_proto pb.submissions (made []))

abbrev pub participant_to_proto : ParticipantMetadata → ParticipantRecord
participant_to_proto v = record {
  problems_done = nil;
  last_connected_unix = v.last_connected;
  problems_attempted = to_int32 v.problems_attempted;
  total_score = to_int32 v.total_score;
  join_time_unix = v.join_time;
}

abbrev pub submission_to_proto : Submission → SubmissionRecord
submission_to_proto s = record {
  submission_id = s.submission_id;
  time_taken_millis = div64 s.time_taken millisecond;
  points = to_int32 s.points;
}

abbrev pub config_to_proto : ChallengeConfig → ConfigRecord
config_to_proto c = record {
  max_users = to_int32 c.max_users;
  max_easy_questions = to_int32 c.max_easy_questions;
  max_medium_questions = to_int32 c.max_medium_questions;
  max_hard_questions = to_int32 c.max_hard_questions;
}

abbrev pub user_submissions : String × GoMap Submission → UserSubmissions
user_submissions (user, subs) = record {
  user_id = user;
  entries = map (λ e. (e.0, some (submission_to_proto e.1))) (entries subs);
}

-- one round of the loop of `ChallengesToProto`
unfoldable pub challenge_to_proto : Bool → ChallengeDocument → ChallengeRecord
challenge_to_proto hide_problems ch = record {
  challenge_id = ch.challenge_id;
  creator_id = ch.creator_id;
  created_at = ch.created_at;
  title = ch.title;
  is_private = ch.is_private;
  password = ch.password;
  status = ch.status;
  problem_count = ch.problem_count;
  time_limit_millis = ch.time_limit;
  start_time_unix = ch.start_time;
  processed_problem_ids = if hide_problems then [] else ch.processed_problem_ids;
  participants = map (λ e. (e.0, participant_to_proto e.1)) (entries ch.participants);
  submissions = map user_submissions (entries ch.submissions);
  config = mapped config_to_proto ch.config;
}

unfoldable pub challenges_to_proto : Bool → List ChallengeDocument → List ChallengeRecord
unfolding challenge_to_proto
challenges_to_proto hide_problems chs = map (challenge_to_proto hide_problems) chs
