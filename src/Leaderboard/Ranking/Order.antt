-- ===== src/Leaderboard/Ranking/Order.antt =====
-- The order of the leaderboard: the test of the sort is a strict weak order, and decides between
-- any two entries that differ.
use challenge_service.Prelude.{◌≡◌, true, false, Bool-cases, inl, inr, List, [], ◌∷◌, All, arith}
use challenge_service.Prelude.Int.{ℤ, int_lt, int_eq, int_eq→eq}
use challenge_service.Prelude.Text.{str_lt, str_lt_asymm, str_lt_connex, str_lt_neg_trans}
use challenge_service.Model.{LeaderboardEntry}
use challenge_service.Leaderboard.Ranking.{should_swap}

-- `a` may stand before `b`.
abbrev pub Before : LeaderboardEntry → LeaderboardEntry → Type 0
Before a b = should_swap a b ≡ false

pub Before-swapped : (a b : LeaderboardEntry) → should_swap a b ≡ true → Before b a
unfolding should_swap
Before-swapped a b h = ground (arith, str_lt_asymm b.user_id a.user_id)

pub Before-refl : (a : LeaderboardEntry) → Before a a
unfolding should_swap
Before-refl a = ground (arith, str_lt_asymm a.user_id a.user_id)

pub Before-trans : (a b c : LeaderboardEntry) → Before a b → Before b c → Before a c
unfolding should_swap
Before-trans a b c h k = ground (arith, str_lt_neg_trans c.user_id b.user_id a.user_id)

-- Two entries of which each may stand before the other have the same user, score and problems.
pub Before-antisymm :
    (a b : LeaderboardEntry)
    → Before a b
    → Before b a
    → (a.user_id ≡ b.user_id)
      × (a.total_score ≡ b.total_score)
      × (a.problems_completed ≡ b.problems_completed)
unfolding should_swap
Before-antisymm a b h k = (
  str_lt_connex a.user_id b.user_id (ground arith) (ground arith),
  int_eq→eq a.total_score b.total_score (ground arith),
  int_eq→eq a.problems_completed b.problems_completed (ground arith),
)

-- The order that a leaderboard is to have: a higher score comes first, for equal scores more
-- problems, and for equal problems the user whose identifier is not greater.
pub data Precedes (a b : LeaderboardEntry) : Type 0 where
  by_score : int_lt b.total_score a.total_score ≡ true → Precedes a b
  by_problems :
      a.total_score ≡ b.total_score
      → int_lt b.problems_completed a.problems_completed ≡ true
      → Precedes a b
  by_user :
      a.total_score ≡ b.total_score
      → a.problems_completed ≡ b.problems_completed
      → str_lt b.user_id a.user_id ≡ false
      → Precedes a b

int_lt_connex : (m n : ℤ) → int_lt m n ≡ false → int_eq m n ≡ false → int_lt n m ≡ true
int_lt_connex m n h k = ground arith

-- The test of the sort decides this order.
pub Precedes-Before : (a b : LeaderboardEntry) → Before a b → Precedes a b
unfolding should_swap
Precedes-Before a b h = elim (Bool-cases (int_eq a.total_score b.total_score)) [
  | inr e ↦ by_score (int_lt_connex a.total_score b.total_score (ground (arith, h, e)) e)
  | inl e ↦ elim (Bool-cases (int_eq a.problems_completed b.problems_completed)) [
    | inr e' ↦
        by_problems (int_eq→eq a.total_score b.total_score e)
          (int_lt_connex a.problems_completed b.problems_completed (ground (arith, h, e, e')) e')
    | inl e' ↦
        by_user (int_eq→eq a.total_score b.total_score e)
          (int_eq→eq a.problems_completed b.problems_completed e') (ground (arith, h, e, e'))
  ]
]

-- Each entry precedes those behind it.
abbrev pub InOrder : List LeaderboardEntry → Type 0
InOrder [] = Unit
InOrder (x ∷ xs) = All (Precedes x) xs × InOrder xs
