-- ===== src/Service/Proto/RoundTrip.antt =====
-- A message that is converted to a document and back.
use challenge_service.Prelude.{
  ◌^◌, ◌<◌, String, ◌≡◌, refl, ap, ◌∙◌, false, Option, none, some, List, [], ◌∷◌, map, length, All,
}
use challenge_service.Prelude.Int.{pos, pos_part, neg_part, IsInt32, to_int32_exact, div64-mul64}
use challenge_service.GoMap.{nil, GoMap, made, Absent, Distinct}
use challenge_service.Model.{Submission, ChallengeDocument}
use challenge_service.Service.Proto.{
  ChallengeRecord, ConfigRecord, ParticipantRecord, SubmissionRecord, UserSubmissions, insert_all,
  mapped, participant_from_proto, submission_from_proto, config_from_proto, entries_from_proto,
  submissions_from_proto, document_with, challenge_document_from_proto, participant_to_proto,
  submission_to_proto, config_to_proto, user_submissions, challenge_to_proto,
}
use challenge_service.Service.Proto.Filling.{converted, insert_all-Distinct}

-- The entry holds a submission whose numbers fit in the types of the document and of the message.
abbrev pub IsSubmission : String × Option SubmissionRecord → Type 0
IsSubmission (k, none) = ⊥
IsSubmission (k, some s) =
    (pos_part s.time_taken_millis < 2 ^ 40)
    × (neg_part s.time_taken_millis < 2 ^ 40)
    × IsInt32 s.points

abbrev pub IsParticipant : String × ParticipantRecord → Type 0
IsParticipant (k, p) = IsInt32 p.problems_attempted × IsInt32 p.total_score

abbrev pub IsConfig : Option ConfigRecord → Type 0
IsConfig none = Unit
IsConfig (some c) =
    IsInt32 c.max_users
    × IsInt32 c.max_easy_questions
    × IsInt32 c.max_medium_questions
    × IsInt32 c.max_hard_questions

abbrev pub by_user : UserSubmissions → String × UserSubmissions
by_user u = (u.user_id, u)

-- Each problem of the user stands there once, with a submission.
pub record IsWhole (u : UserSubmissions) : Type 0 where
  pub once : Distinct u.entries
  pub all : All IsSubmission u.entries

-- A message that a client may send: no key of a map twice, every submission there, every number one
-- that fits, and the count of problems the number of their identifiers.
pub record IsWellFormed (pb : ChallengeRecord) : Type 0 where
  pub participants : Distinct pb.participants
  pub scores : All IsParticipant pb.participants
  pub users : Distinct (map by_user pb.submissions)
  pub submissions : All IsWhole pb.submissions
  pub config : IsConfig pb.config
  pub count : pb.problem_count ≡ pos (length pb.processed_problem_ids)

submissions_of : List (String × Option SubmissionRecord) → List (String × SubmissionRecord)
submissions_of [] = []
submissions_of ((k, none) ∷ l) = submissions_of l
submissions_of ((k, some s) ∷ l) = (k, s) ∷ submissions_of l

Absent-submissions_of :
    (k : String) (l : List (String × Option SubmissionRecord))
    → Absent k l
    → Absent k (submissions_of l)
unfolding submissions_of
Absent-submissions_of k [] h = tt
Absent-submissions_of k ((j, none) ∷ l) h = Absent-submissions_of k l h.1
Absent-submissions_of k ((j, some s) ∷ l) h = (h.0, Absent-submissions_of k l h.1)

Distinct-submissions_of :
    (l : List (String × Option SubmissionRecord)) → Distinct l → Distinct (submissions_of l)
unfolding submissions_of
Distinct-submissions_of [] d = tt
Distinct-submissions_of ((j, none) ∷ l) d = Distinct-submissions_of l d.1
Distinct-submissions_of ((j, some s) ∷ l) d =
    (Absent-submissions_of j l d.0, Distinct-submissions_of l d.1)

entries_from_proto-insert_all :
    (l : List (String × Option SubmissionRecord)) (m : GoMap Submission)
    → All IsSubmission l
    → entries_from_proto l m ≡ some (insert_all submission_from_proto (submissions_of l) m)
unfolding entries_from_proto insert_all submissions_of
entries_from_proto-insert_all [] m h = refl
entries_from_proto-insert_all ((k, none) ∷ l) m h = absurd h.0
entries_from_proto-insert_all ((k, some s) ∷ l) m h = entries_from_proto-insert_all l _ h.1

-- the submissions of a user in the document
grouped : UserSubmissions → GoMap Submission
grouped u = made (map (converted submission_from_proto) (submissions_of u.entries))

entries_from_proto-IsWhole :
    (u : UserSubmissions) → IsWhole u → entries_from_proto u.entries (made []) ≡ some (grouped u)
unfolding grouped
entries_from_proto-IsWhole u w =
    entries_from_proto-insert_all u.entries (made []) w.all
    ∙ ap some (
        insert_all-Distinct submission_from_proto (submissions_of u.entries)
          (Distinct-submissions_of u.entries w.once))

submissions_from_proto-insert_all :
    (us : List UserSubmissions) (m : GoMap (GoMap Submission))
    → All IsWhole us
    → submissions_from_proto us m ≡ some (insert_all grouped (map by_user us) m)
unfolding submissions_from_proto insert_all
submissions_from_proto-insert_all [] m h = refl
submissions_from_proto-insert_all (u ∷ us) m h =
    rw (submissions_from_proto, entries_from_proto-IsWhole u h.0)
      (submissions_from_proto-insert_all us _ h.1)

submission_back :
    (s : SubmissionRecord)
    → IsSubmission ("", some s)
    → submission_to_proto (submission_from_proto s) ≡ s
submission_back s h = rw (div64-mul64 s.time_taken_millis h.0 h.1, to_int32_exact s.points h.2) refl

entries_back :
    (l : List (String × Option SubmissionRecord))
    → All IsSubmission l
    → map
        (λ e. (e.0, some (submission_to_proto e.1)))
        (map (converted submission_from_proto) (submissions_of l))
      ≡ l
unfolding submissions_of
entries_back [] h = refl
entries_back ((k, none) ∷ l) h = absurd h.0
entries_back ((k, some s) ∷ l) h = rw (submission_back s h.0, entries_back l h.1) refl

user_back : (u : UserSubmissions) → IsWhole u → user_submissions (converted grouped (by_user u)) ≡ u
unfolding grouped
user_back u w = ap (λ es. record u { entries = es }) (entries_back u.entries w.all)

users_back :
    (us : List UserSubmissions)
    → All IsWhole us
    → map user_submissions (map (converted grouped) (map by_user us)) ≡ us
users_back [] h = refl
users_back (u ∷ us) h = rw (user_back u h.0, users_back us h.1) refl

-- what a conversion drops: the problems that the participants have done
abbrev pub without_problems : String × ParticipantRecord → String × ParticipantRecord
without_problems (k, p) = (k, record p { problems_done = nil })

participants_back :
    (l : List (String × ParticipantRecord))
    → All IsParticipant l
    → map (λ e. (e.0, participant_to_proto e.1)) (map (converted participant_from_proto) l)
      ≡ map without_problems l
participants_back [] h = refl
participants_back ((k, p) ∷ l) h =
    rw
      (
        to_int32_exact p.problems_attempted h.0.0,
        to_int32_exact p.total_score h.0.1,
        participants_back l h.1,
      )
      refl

config_back :
    (c : Option ConfigRecord) → IsConfig c → mapped config_to_proto (mapped config_from_proto c) ≡ c
config_back none h = refl
config_back (some c) h =
    rw
      (
        to_int32_exact c.max_users h.0,
        to_int32_exact c.max_easy_questions h.1,
        to_int32_exact c.max_medium_questions h.2,
        to_int32_exact c.max_hard_questions h.3,
      )
      refl

-- the message without the problems done
abbrev pub forgetful : ChallengeRecord → ChallengeRecord
forgetful pb = record pb { participants = map without_problems pb.participants }

-- the document that a message stands for
abbrev document_of : ChallengeRecord → ChallengeDocument
document_of pb =
    record (document_with pb false (made (map (converted grouped) (map by_user pb.submissions)))) {
      participants = made (map (converted participant_from_proto) pb.participants);
    }

from_proto-IsWellFormed :
    (pb : ChallengeRecord)
    → IsWellFormed pb
    → challenge_document_from_proto pb false ≡ some (document_of pb)
unfolding challenge_document_from_proto
from_proto-IsWellFormed pb w =
    rw
      (
        submissions_from_proto-insert_all pb.submissions (made []) w.submissions,
        insert_all-Distinct grouped (map by_user pb.submissions) w.users,
        insert_all-Distinct participant_from_proto pb.participants w.participants,
      )
      refl

to_proto-document_of :
    (pb : ChallengeRecord)
    → IsWellFormed pb
    → challenge_to_proto false (document_of pb) ≡ forgetful pb
unfolding challenge_to_proto
to_proto-document_of pb w =
    rw
      (
        users_back pb.submissions w.submissions,
        participants_back pb.participants w.scores,
        config_back pb.config w.config,
        w.count,
      )
      refl

-- A message in which no key of a map stands twice, no submission is nil, every `int32` that is
-- converted fits in 32 bits, every time is less than 2^40 milliseconds, and the count of problems is
-- the number of their identifiers, is converted to a document without a panic. The document is
-- converted back to that message, except that the problems which the participants have done are
-- lost, if the maps of the document are gone through in the order in which they were filled.
pub challenge_to_proto-challenge_document_from_proto :
    (pb : ChallengeRecord)
    → IsWellFormed pb
    → mapped (challenge_to_proto false) (challenge_document_from_proto pb false)
      ≡ some (forgetful pb)
challenge_to_proto-challenge_document_from_proto pb w =
    ap (mapped (challenge_to_proto false)) (from_proto-IsWellFormed pb w)
    ∙ ap some (to_proto-document_of pb w)
