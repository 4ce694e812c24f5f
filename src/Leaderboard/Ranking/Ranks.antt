-- ===== src/Leaderboard/Ranking/Ranks.antt =====
-- What `GetLeaderboard` returns: the best of the users, in order, with the ranks 1, 2, 3, ...
use mathlib.Core.List.{Perm}
use mathlib.Core.List.Perm
use challenge_service.Prelude.{
  ℕ, zero, suc, ◌+◌, ◌≤◌, String, ◌≡◌, refl, sym, ap, false, Bool-cases, Option, inl, inr, List, [],
  ◌∷◌, map, arith, ◌&&◌, ltb, length, take, take_of_length-le, All, All-map,
}
use challenge_service.Prelude.Int.{ℤ, pos, pos_part, int_lt}
use challenge_service.Model.{LeaderboardEntry, ChallengeDocument}
use challenge_service.Leaderboard.Ranking.{
  should_swap, sort_entries, assign_ranks, apply_limit, entry_of, rank_users,
}
use challenge_service.Leaderboard.Ranking.Order.{Before, Precedes, Precedes-Before, InOrder}
use challenge_service.Leaderboard.Ranking.Sorting.{
  IsRanked, Unranked, perm-sort_entries, sort_entries-IsRanked, sort_entries_perm,
}

-- The ranks count up from `i + 1`.
abbrev pub CountsFrom : ℕ → List LeaderboardEntry → Type 0
CountsFrom i [] = Unit
CountsFrom i (e ∷ l) = (e.rank ≡ pos (i + 1)) × CountsFrom (i + 1) l

CountsFrom-assign_ranks : (i : ℕ) (l : List LeaderboardEntry) → CountsFrom i (assign_ranks i l)
unfolding assign_ranks
CountsFrom-assign_ranks i [] = tt
CountsFrom-assign_ranks i (e ∷ l) = (refl, CountsFrom-assign_ranks (i + 1) l)

CountsFrom-take : (n i : ℕ) (l : List LeaderboardEntry) → CountsFrom i l → CountsFrom i (take n l)
CountsFrom-take zero i l h = tt
CountsFrom-take (suc n) i [] h = tt
CountsFrom-take (suc n) i (e ∷ l) h = (h.0, CountsFrom-take n (i + 1) l h.1)

All-Before-assign_ranks :
    (x : LeaderboardEntry) (i j : ℕ) (l : List LeaderboardEntry)
    → All (Before x) l
    → All (Before (record x { rank = pos j })) (assign_ranks i l)
unfolding assign_ranks should_swap
All-Before-assign_ranks x i j [] h = tt
All-Before-assign_ranks x i j (e ∷ l) h = (h.0, All-Before-assign_ranks x (i + 1) j l h.1)

IsRanked-assign_ranks :
    (i : ℕ) (l : List LeaderboardEntry) → IsRanked l → IsRanked (assign_ranks i l)
unfolding assign_ranks
IsRanked-assign_ranks i [] h = tt
IsRanked-assign_ranks i (e ∷ l) h =
    (All-Before-assign_ranks e (i + 1) (i + 1) l h.0, IsRanked-assign_ranks (i + 1) l h.1)

InOrder-IsRanked : (l : List LeaderboardEntry) → IsRanked l → InOrder l
InOrder-IsRanked [] h = tt
InOrder-IsRanked (e ∷ l) h =
    (All-map (Before e) (Precedes e) (Precedes-Before e) l h.0, InOrder-IsRanked l h.1)

All-take :
    (P : LeaderboardEntry → Type 0) (n : ℕ) (l : List LeaderboardEntry) → All P l → All P (take n l)
All-take P zero l h = tt
All-take P (suc n) [] h = tt
All-take P (suc n) (e ∷ l) h = (h.0, All-take P n l h.1)

IsRanked-take : (n : ℕ) (l : List LeaderboardEntry) → IsRanked l → IsRanked (take n l)
IsRanked-take zero l h = tt
IsRanked-take (suc n) [] h = tt
IsRanked-take (suc n) (e ∷ l) h = (All-take (Before e) n l h.0, IsRanked-take n l h.1)

module _ (P : List LeaderboardEntry → Type 0) where
  -- The limit either cuts the list or leaves it.
  apply_limit_cases :
      (limit : ℤ) (l : List LeaderboardEntry)
      → P l
      → P (take (pos_part limit) l)
      → P (apply_limit limit l)
  unfolding apply_limit
  apply_limit_cases limit l whole cut =
      elim (Bool-cases (int_lt (pos 0) limit && ltb (pos_part limit) (length l))) [
        | inl e ↦ rw e cut
        | inr e ↦ rw e whole
      ]

length-assign_ranks : (i : ℕ) (l : List LeaderboardEntry) → length (assign_ranks i l) ≡ length l
unfolding assign_ranks
length-assign_ranks i [] = refl
length-assign_ranks i (e ∷ l) = ap suc (length-assign_ranks (i + 1) l)

module _ (limit : ℤ) (doc : Option ChallengeDocument) where
  -- The leaderboard stands in order: a higher score before a lower one, for equal scores more
  -- problems before fewer, and then by the identifiers; and its ranks are 1, 2, 3, ...
  pub rank_users-InOrder :
      (users : List (String × ℤ))
      → InOrder (rank_users limit doc users) × CountsFrom 0 (rank_users limit doc users)
  unfolding rank_users
  rank_users-InOrder users =
      let sorted = sort_entries (map (entry_of doc) users) in
      let ranked =
        IsRanked-assign_ranks 0 sorted (sort_entries-IsRanked (map (entry_of doc) users)) in
      let counted = CountsFrom-assign_ranks 0 sorted in
      let l = assign_ranks 0 sorted in
      (
        InOrder-IsRanked _
            (apply_limit_cases IsRanked limit l ranked (IsRanked-take (pos_part limit) l ranked)),
        apply_limit_cases (CountsFrom 0) limit l counted
            (CountsFrom-take (pos_part limit) 0 l counted),
      )

  Unranked-entries : (users : List (String × ℤ)) → All Unranked (map (entry_of doc) users)
  Unranked-entries [] = tt
  Unranked-entries (u ∷ us) = (refl, Unranked-entries us)

  -- The leaderboard does not depend on the order in which RedisBoard returns the users.
  pub rank_users_perm :
      (us vs : List (String × ℤ)) → Perm us vs → rank_users limit doc us ≡ rank_users limit doc vs
  unfolding rank_users
  rank_users_perm us vs p =
      ap (λ l. apply_limit limit (assign_ranks 0 l))
        (sort_entries_perm (map (entry_of doc) us) (map (entry_of doc) vs) (Unranked-entries us)
          (Unranked-entries vs) (Perm.map (entry_of doc) p))

limit_too_high :
    (n : ℕ) (l : List LeaderboardEntry)
    → (int_lt (pos 0) (pos (suc n)) && ltb (suc n) (length l)) ≡ false
    → length l ≤ suc n
limit_too_high n l e = ground arith

take_or_all :
    (n : ℕ) (l : List LeaderboardEntry)
    → apply_limit (pos (suc n)) l ≡ take (suc n) (apply_limit (pos 0) l)
unfolding apply_limit
take_or_all n l = elim (Bool-cases (int_lt (pos 0) (pos (suc n)) && ltb (suc n) (length l))) [
  | inl e ↦ rw e
  | inr e ↦ rw e (sym (take_of_length-le (suc n) l (limit_too_high n l e)))
]

users-assign_ranks :
    (i : ℕ) (l : List LeaderboardEntry)
    → map (λ e. e.user_id) (assign_ranks i l) ≡ map (λ e. e.user_id) l
unfolding assign_ranks
users-assign_ranks i [] = refl
users-assign_ranks i (e ∷ l) = ap (◌∷◌ e.user_id) (users-assign_ranks (i + 1) l)

module _ (doc : Option ChallengeDocument) (us : List (String × ℤ)) where
  users-entries :
      (vs : List (String × ℤ)) → map (λ e. e.user_id) (map (entry_of doc) vs) ≡ map (λ u. u.0) vs
  users-entries [] = refl
  users-entries (v ∷ vs) = ap (◌∷◌ v.0) (users-entries vs)

  -- Without a limit every user that RedisBoard returned is on the leaderboard, as often as there.
  pub rank_users-users : Perm (map (λ e. e.user_id) (rank_users (pos 0) doc us)) (map (λ u. u.0) us)
  unfolding rank_users apply_limit
  rank_users-users =
      rw (users-assign_ranks 0 (sort_entries (map (entry_of doc) us)), ← users-entries us)
        (Perm.map (λ e. e.user_id) (perm-sort_entries (map (entry_of doc) us)))

  -- A limit keeps the first entries of the whole leaderboard.
  pub rank_users-take :
      (n : ℕ) → rank_users (pos (suc n)) doc us ≡ take (suc n) (rank_users (pos 0) doc us)
  unfolding rank_users
  rank_users-take n = take_or_all n (assign_ranks 0 (sort_entries (map (entry_of doc) us)))
