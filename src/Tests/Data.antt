-- ===== src/Tests/Data.antt =====
-- The documents, requests and states that the tests use.
use mathlib.Core.Bool.{false≢true}
use challenge_service.Prelude.{
  ◌≡◌, ◌≢◌, ◌==◌, ◌∙◌, sym, eq_iff, String, true, false, none, some, [], ◌∷◌,
}
use challenge_service.Prelude.Int.{ℤ, pos}
use challenge_service.GoMap.{nil, made, find, replace}
use challenge_service.Redis
use challenge_service.Redis.View.{IsKeyed, create_challenge-IsKeyed}
use challenge_service.Model.{
  ChallengeDocument, ChallengeProblemMetadata, ParticipantMetadata, challenge_open, challenge_ended,
}
use challenge_service.World.{World}
use challenge_service.Service.Proto.{ChallengeRecord, ConfigRecord}
use challenge_service.Service.Submit.{SubmissionRequest}
use challenge_service.Tests.Memory.{Table, redis, redis_laws, libraries}

abbrev pub problem : ℤ → ChallengeProblemMetadata
problem score = record { problem_id = ""; score = score; time_taken = pos 5; completed_at = pos 0 }

abbrev pub bob_entry : ParticipantMetadata
bob_entry = record {
  problems_done = made (("p1", problem (pos 10)) ∷ ("p2", problem (pos 0)) ∷ []);
  problems_attempted = pos 2;
  total_score = pos 10;
  join_time = pos 100;
  last_connected = pos 100;
  initial_join_ip = "10.0.0.2";
  status = "";
}

abbrev pub duel : ChallengeDocument
duel = record {
  challenge_id = "c1";
  creator_id = "ann";
  created_at = pos 1;
  title = "duel";
  is_private = false;
  password = "";
  status = challenge_open;
  time_limit = pos 60000;
  start_time = pos 2;
  participants = made (("bob", bob_entry) ∷ []);
  submissions = nil;
  leaderboard = [];
  config = none;
  processed_problem_ids = "p1" ∷ "p2" ∷ [];
  problem_count = pos 2;
}

-- a second challenge, which is over
abbrev pub finished : ChallengeDocument
finished = record duel { challenge_id = "c2"; creator_id = "cid"; status = challenge_ended }

abbrev pub table : Table
table = ("challenge:c1", duel) ∷ ("challenge:c2", finished) ∷ []

-- nothing is in the history, no board is open, nobody is connected
abbrev pub world : World libraries
world = record {
  redis = table;
  mongo = [];
  boards = record {
    boards = made [];
    config = record {
      namespace = "";
      k = pos 50;
      max_users = pos 10000;
      max_entities = pos 1;
      float_scores = false;
      redis_addr = "";
      redis_pass = "";
    };
    ext = [];
  };
  local = record { states = made []; net = [] };
}

abbrev pub limits : ConfigRecord
limits = record {
  max_users = pos 5;
  max_easy_questions = pos 1;
  max_medium_questions = pos 1;
  max_hard_questions = pos 0;
}

abbrev pub request : ChallengeRecord
request = record {
  challenge_id = "c3";
  creator_id = "dan";
  created_at = pos 3;
  title = "marathon";
  is_private = true;
  password = "";
  status = "";
  problem_count = pos 1;
  time_limit_millis = pos 1000;
  start_time_unix = pos 4;
  processed_problem_ids = "p1" ∷ [];
  participants = [];
  submissions = [];
  config = some limits;
}

abbrev pub submission : SubmissionRequest
submission = record {
  challenge_id = "c1";
  user_id = "bob";
  problem_id = "p2";
  submission_id = "s1";
  score = pos 7;
  is_successful = true;
  time_taken_millis = pos 9;
}

-- two texts that differ
pub differ : (s t : String) → (s == t) ≡ false → s ≢ t
differ s t e same = false≢true (sym e ∙ (eq_iff s t).1 same)

none-IsKeyed : IsKeyed redis redis_laws []
unfolding find
none-IsKeyed = record { at = λ id d h. cc }

pub table-IsKeyed : IsKeyed redis redis_laws table
unfolding Redis.create_challenge replace
table-IsKeyed =
    create_challenge-IsKeyed redis redis_laws finished
      (create_challenge-IsKeyed redis redis_laws duel none-IsKeyed)
