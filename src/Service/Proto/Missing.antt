-- ===== src/Service/Proto/Missing.antt =====
-- Messages in which a submission is nil.
use challenge_service.Prelude.{
  String, ◌≡◌, ◌⊎◌, refl, Bool, Option, none, some, List, [], ◌∷◌, inl, inr, Option-cases,
}
use challenge_service.GoMap.{GoMap, made}
use challenge_service.Model.{Submission}
use challenge_service.Service.Proto.{
  ChallengeRecord, SubmissionRecord, UserSubmissions, entries_from_proto, submissions_from_proto,
  challenge_document_from_proto,
}

-- An entry of the user has no submission.
abbrev pub LacksOne : List (String × Option SubmissionRecord) → Type 0
LacksOne [] = ⊥
LacksOne ((_, none) ∷ l) = Unit
LacksOne ((_, some s) ∷ l) = LacksOne l

-- An entry of some user has none.
abbrev pub Lacks : List UserSubmissions → Type 0
Lacks [] = ⊥
Lacks (u ∷ us) = LacksOne u.entries ⊎ Lacks us

entries_from_proto-LacksOne :
    (l : List (String × Option SubmissionRecord)) (m : GoMap Submission)
    → LacksOne l
    → entries_from_proto l m ≡ none
unfolding entries_from_proto
entries_from_proto-LacksOne [] m h = absurd h
entries_from_proto-LacksOne ((k, none) ∷ l) m h = refl
entries_from_proto-LacksOne ((k, some s) ∷ l) m h = entries_from_proto-LacksOne l _ h

submissions_from_proto-Lacks :
    (us : List UserSubmissions) (m : GoMap (GoMap Submission))
    → Lacks us
    → submissions_from_proto us m ≡ none
unfolding submissions_from_proto
submissions_from_proto-Lacks [] m h = absurd h
submissions_from_proto-Lacks (u ∷ us) m (inl h) =
    rw (submissions_from_proto, entries_from_proto-LacksOne u.entries (made []) h) refl
submissions_from_proto-Lacks (u ∷ us) m (inr h) =
    elim (Option-cases (entries_from_proto u.entries (made []))) [
      | inl e ↦ rw (submissions_from_proto, e) refl
      | inr (subs, e) ↦ rw (submissions_from_proto, e) (submissions_from_proto-Lacks us _ h)
    ]

pub challenge_document-Lacks :
    (pb : ChallengeRecord) (hide_problems : Bool)
    → Lacks pb.submissions
    → challenge_document_from_proto pb hide_problems ≡ none
unfolding challenge_document_from_proto
challenge_document-Lacks pb hide_problems h =
    rw (submissions_from_proto-Lacks pb.submissions (made []) h) refl
