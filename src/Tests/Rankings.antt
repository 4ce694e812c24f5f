-- ===== src/Tests/Rankings.antt =====
-- The theorems about the leaderboard at concrete inputs.
use mathlib.Core.List.Perm
use challenge_service.Prelude.{String, ◌≡◌, refl, some, List, [], ◌∷◌, arith}
use challenge_service.Prelude.Int.{ℤ, pos}
use challenge_service.GoMap.{lookup, find, entries}
use challenge_service.Leaderboard.Boards.{IsAllocated}
use challenge_service.Leaderboard.Ranking.{rank_users, calculate_problems_completed}
use challenge_service.Leaderboard.Ranking.Order.{InOrder}
use challenge_service.Leaderboard.Ranking.Ranks.{CountsFrom, rank_users-InOrder, rank_users_perm}
use challenge_service.Leaderboard.Ranking.Solved.{solved, calculate_problems_completed_lem}
use challenge_service.Tests.Memory.{board}
use challenge_service.Tests.Data.{differ, duel, bob_entry, world}

abbrev users : List (String × ℤ)
users = ("ann", pos 3) ∷ ("bob", pos 10) ∷ ("cid", pos 3) ∷ []

abbrev shuffled : List (String × ℤ)
shuffled = ("bob", pos 10) ∷ ("ann", pos 3) ∷ ("cid", pos 3) ∷ []

rank_users-InOrder_example :
    InOrder (rank_users (pos 2) (some duel) users)
    × CountsFrom 0 (rank_users (pos 2) (some duel) users)
rank_users-InOrder_example = rank_users-InOrder (pos 2) (some duel) users

rank_users_perm_example :
    rank_users (pos 2) (some duel) users ≡ rank_users (pos 2) (some duel) shuffled
rank_users_perm_example = rank_users_perm (pos 2) (some duel) users shuffled (Perm.swap _ _ _)

bob_there : lookup "bob" duel.participants ≡ some bob_entry
unfolding lookup find
bob_there = refl

calculate_problems_completed_lem_example :
    calculate_problems_completed (some duel) "bob" ≡ pos (solved (entries bob_entry.problems_done))
calculate_problems_completed_lem_example =
    calculate_problems_completed_lem duel "bob" bob_entry (differ "bob" "" refl) bob_there
      (omega arith)

allocated : IsAllocated board world.boards
allocated e = cc
