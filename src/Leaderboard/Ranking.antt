-- ===== src/Leaderboard/Ranking.antt =====
-- The part of `GetLeaderboard` of internal/leaderboard/manager.go that is computed in the process:
-- the exchange sort, the ranks and the limit; and `CalculateProblemsCompleted`.
pub mod Order
pub mod Sorting
pub mod Ranks
pub mod Solved
use challenge_service.Prelude.{
  ℕ, zero, suc, ◌+◌, String, Bool, true, false, Option, none, some, List, [], ◌∷◌, map, ◌==◌, ltb,
  ◌&&◌, if◌then◌else◌, length, take,
}
use challenge_service.Prelude.Int.{ℤ, pos, pos_part, add64, int_lt, int_eq}
use challenge_service.Prelude.Text.{str_lt}
use challenge_service.GoMap.{GoMap, entries, lookup}
use challenge_service.Model.{
  ChallengeDocument, ChallengeProblemMetadata, ParticipantMetadata, LeaderboardEntry,
}

-- the loop of `CalculateProblemsCompleted` over the problems done
unfoldable pub count_solved : ℤ → List (String × ChallengeProblemMetadata) → ℤ
count_solved n [] = n
count_solved n ((_, meta) ∷ l) =
    count_solved (if int_lt (pos 0) meta.score then add64 n (pos 1) else n) l

abbrev pub problems_of : Option ParticipantMetadata → ℤ
problems_of none = pos 0
problems_of (some p) = count_solved (pos 0) (entries p.problems_done)

-- the document is a pointer, which may be nil
unfoldable pub calculate_problems_completed : Option ChallengeDocument → String → ℤ
unfolding lookup
calculate_problems_completed none user = pos 0
calculate_problems_completed (some d) user =
    if user == "" then pos 0 else problems_of (lookup user d.participants)

-- the tests of the inner loop: does `a`, which stands first, change places with `b`?
unfoldable pub should_swap : LeaderboardEntry → LeaderboardEntry → Bool
unfolding str_lt
should_swap a b =
    if int_lt a.total_score b.total_score
    then true
    else if int_eq a.total_score b.total_score
    then (if int_lt a.problems_completed b.problems_completed
        then true
        else if int_eq a.problems_completed b.problems_completed
        then str_lt b.user_id a.user_id
        else false)
    else false

-- The inner loop: `x` is `leaderboard[i]`, and the list is what stands behind it. It returns what
-- stands at `i` in the end, and what stands behind.
unfoldable pub sweep :
    LeaderboardEntry → List LeaderboardEntry → LeaderboardEntry × List LeaderboardEntry
sweep x [] = (x, [])
sweep x (y ∷ ys) =
    let swap = should_swap x y in
    let (first, rest) = sweep (if swap then y else x) ys in (first, (if swap then x else y) ∷ rest)

-- The outer loop: the number is `len(leaderboard) - i`, and the list is `leaderboard[i:]`.
unfoldable pub sort_from : ℕ → List LeaderboardEntry → List LeaderboardEntry
unfolding sweep
sort_from zero l = l
sort_from (suc n) [] = []
sort_from (suc n) (x ∷ xs) = let (first, rest) = sweep x xs in first ∷ sort_from n rest

unfoldable pub sort_entries : List LeaderboardEntry → List LeaderboardEntry
sort_entries l = sort_from (length l) l

-- `leaderboard[i].Rank = i + 1`
unfoldable pub assign_ranks : ℕ → List LeaderboardEntry → List LeaderboardEntry
assign_ranks i [] = []
assign_ranks i (e ∷ l) = record e { rank = pos (i + 1) } ∷ assign_ranks (i + 1) l

-- `if limit > 0 && len(leaderboard) > limit { leaderboard = leaderboard[:limit] }`
unfoldable pub apply_limit : ℤ → List LeaderboardEntry → List LeaderboardEntry
apply_limit limit l =
    if int_lt (pos 0) limit && ltb (pos_part limit) (length l) then take (pos_part limit) l else l

-- the entry of a user, before the sort
abbrev pub entry_of : Option ChallengeDocument → String × ℤ → LeaderboardEntry
entry_of doc (user, score) = record {
  user_id = user;
  problems_completed = calculate_problems_completed doc user;
  total_score = score;
  rank = pos 0;
}

-- all that `GetLeaderboard` does to the users and the scores that RedisBoard returned
unfoldable pub rank_users : ℤ → Option ChallengeDocument → List (String × ℤ) → List LeaderboardEntry
rank_users limit doc users =
    apply_limit limit (assign_ranks 0 (sort_entries (map (entry_of doc) users)))
