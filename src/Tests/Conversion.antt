-- ===== src/Tests/Conversion.antt =====
-- The theorem about the conversion of messages at a concrete input.
use challenge_service.Prelude.{◌≡◌, refl, false, some, [], ◌∷◌, arith}
use challenge_service.Prelude.Int.{pos}
use challenge_service.GoMap.{made}
use challenge_service.Service.Proto.{
  ChallengeRecord, challenge_to_proto, challenge_document_from_proto, mapped,
}
use challenge_service.Service.Proto.RoundTrip.{
  IsWellFormed, forgetful, challenge_to_proto-challenge_document_from_proto,
}
use challenge_service.Tests.Data.{request}

-- a message with a participant and a submission
abbrev full : ChallengeRecord
full = record request {
  participants =
      (
        "eve",
        record {
          problems_done = made (("p1", tt) ∷ []);
          last_connected_unix = pos 8;
          problems_attempted = pos 1;
          total_score = pos 7;
          join_time_unix = pos 5;
        },
      )
      ∷ [];
  submissions =
      record {
        user_id = "eve";
        entries =
            (
              "p1",
              some (record { submission_id = "s1"; time_taken_millis = pos 90; points = pos 7 }),
            )
            ∷ [];
      }
      ∷ [];
}

full-IsWellFormed : IsWellFormed full
full-IsWellFormed = record {
  participants = (tt, tt);
  scores = ((omega arith, omega arith), tt);
  users = (tt, tt);
  submissions =
      (record { once = (tt, tt); all = ((omega arith, omega arith, omega arith), tt) }, tt);
  config = (omega arith, omega arith, omega arith, omega arith);
  count = refl;
}

challenge_to_proto-challenge_document_from_proto_example :
    mapped (challenge_to_proto false) (challenge_document_from_proto full false)
    ≡ some (forgetful full)
challenge_to_proto-challenge_document_from_proto_example =
    challenge_to_proto-challenge_document_from_proto full full-IsWellFormed
