-- ===== src/Leaderboard/Ranking/Solved.antt =====
-- `CalculateProblemsCompleted` counts the problems with a positive score.
use challenge_service.Prelude.{
  ℕ, ◌+◌, ◌≤◌, ◌<◌, ◌^◌, String, ◌≡◌, ◌≢◌, ap, ◌∙◌, Bool-cases, some, inl, inr, List, [], ◌∷◌,
  arith, if◌then◌else◌, eq_iff, length,
}
use challenge_service.Prelude.Int.{pos, add64, int_lt}
use challenge_service.GoMap.{entries, lookup}
use challenge_service.Model.{ChallengeDocument, ChallengeProblemMetadata, ParticipantMetadata}
use challenge_service.Leaderboard.Ranking.{count_solved, calculate_problems_completed}

-- how many of the problems have a positive score
abbrev pub solved : List (String × ChallengeProblemMetadata) → ℕ
solved [] = 0
solved ((_, meta) ∷ l) = (if int_lt (pos 0) meta.score then 1 else 0) + solved l

pub solved-le-length : (l : List (String × ChallengeProblemMetadata)) → solved l ≤ length l
solved-le-length [] = omega arith
solved-le-length ((_, meta) ∷ l) = ground (arith, solved-le-length l)

add64-pos : (n : ℕ) → n + 1 < 2 ^ 63 → add64 (pos n) (pos 1) ≡ pos (n + 1)
unfolding add64
add64-pos n h = ground arith

count_solved-solved :
    (n : ℕ) (l : List (String × ChallengeProblemMetadata))
    → n + length l < 2 ^ 63
    → count_solved (pos n) l ≡ pos (n + solved l)
unfolding count_solved
count_solved-solved n [] h = ap pos (omega arith)
count_solved-solved n ((k, meta) ∷ l) h = elim (Bool-cases (int_lt (pos 0) meta.score)) [
  | inl s ↦
      rw (s, add64-pos n (omega arith))
        (count_solved-solved (n + 1) l (omega arith) ∙ ap pos (omega arith))
  | inr s ↦ rw s (count_solved-solved n l (omega arith) ∙ ap pos (omega arith))
]

-- For a named participant of a challenge, who has fewer than 2^63 problems,
-- `CalculateProblemsCompleted` returns the number of the participant's problems with a positive
-- score.
pub calculate_problems_completed_lem :
    (d : ChallengeDocument) (user : String) (p : ParticipantMetadata)
    → user ≢ ""
    → lookup user d.participants ≡ some p
    → length (entries p.problems_done) < 2 ^ 63
    → calculate_problems_completed (some d) user ≡ pos (solved (entries p.problems_done))
unfolding calculate_problems_completed
calculate_problems_completed_lem d user p named found short =
    ground
      (arith, eq_iff user "", found, count_solved-solved 0 (entries p.problems_done) (omega arith))
