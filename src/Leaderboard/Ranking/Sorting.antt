-- ===== src/Leaderboard/Ranking/Sorting.antt =====
-- The exchange sort of `GetLeaderboard`: it returns its input in the order of the leaderboard, and
-- that order leaves one result.
use mathlib.Core.Bool.{Bool-set}
use mathlib.Core.List.{Perm, Mem, mem-cons_self}
use mathlib.Core.List.Perm
use mathlib.Core.Path.{ap₂, subst}
use challenge_service.Prelude.{
  ℕ, zero, suc, ◌≤◌, ◌≡◌, refl, sym, ap, true, false, Bool-cases, inl, inr, List, [], ◌∷◌, arith,
  if◌then◌else◌, length, All, All-Mem,
}
use challenge_service.Prelude.Int.{pos}
use challenge_service.Model.{LeaderboardEntry}
use challenge_service.Leaderboard.Ranking.{should_swap, sweep, sort_from, sort_entries}
use challenge_service.Leaderboard.Ranking.Order.{
  Before, Before-swapped, Before-refl, Before-trans, Before-antisymm,
}

-- Every entry may stand before every later one.
abbrev pub IsRanked : List LeaderboardEntry → Type 0
IsRanked [] = Unit
IsRanked (x ∷ xs) = All (Before x) xs × IsRanked xs

module _ (P : LeaderboardEntry → Type 0) where
  All-sweep :
      (x : LeaderboardEntry) (xs : List LeaderboardEntry)
      → P x
      → All P xs
      → P (sweep x xs).0 × All P (sweep x xs).1
  unfolding sweep
  All-sweep x [] p ps = (p, tt)
  All-sweep x (y ∷ ys) p ps = elim (Bool-cases (should_swap x y)) [
    | inl s ↦ rw s (let (q, qs) = All-sweep y ys ps.0 ps.1 in (q, (p, qs)))
    | inr s ↦ rw s (let (q, qs) = All-sweep x ys p ps.1 in (q, (ps.0, qs)))
  ]

  All-sort_from : (n : ℕ) (l : List LeaderboardEntry) → All P l → All P (sort_from n l)
  unfolding sort_from
  All-sort_from zero l h = h
  All-sort_from (suc n) [] h = tt
  All-sort_from (suc n) (x ∷ xs) h =
      let (p, ps) = All-sweep x xs h.0 h.1 in (p, All-sort_from n (sweep x xs).1 ps)

length-sweep :
    (x : LeaderboardEntry) (xs : List LeaderboardEntry) → length (sweep x xs).1 ≡ length xs
unfolding sweep
length-sweep x [] = refl
length-sweep x (y ∷ ys) = ap suc (length-sweep (if should_swap x y then y else x) ys)

perm-sweep :
    (x : LeaderboardEntry) (xs : List LeaderboardEntry)
    → Perm ((sweep x xs).0 ∷ (sweep x xs).1) (x ∷ xs)
unfolding sweep
perm-sweep x [] = Perm.rfl
perm-sweep x (y ∷ ys) = elim (Bool-cases (should_swap x y)) [
  | inl s ↦
      rw s (Perm.trans (Perm.swap x (sweep y ys).0 (sweep y ys).1) (Perm.cons x (perm-sweep y ys)))
  | inr s ↦ rw s (
      Perm.trans (Perm.swap y (sweep x ys).0 (sweep x ys).1)
        (Perm.trans (Perm.cons y (perm-sweep x ys)) (Perm.swap x y ys)))
]

sweep_swap :
    (x y : LeaderboardEntry) (ys : List LeaderboardEntry)
    → should_swap x y ≡ true
    → sweep x (y ∷ ys) ≡ ((sweep y ys).0, x ∷ (sweep y ys).1)
unfolding sweep
sweep_swap x y ys s = rw s

sweep_keep :
    (x y : LeaderboardEntry) (ys : List LeaderboardEntry)
    → should_swap x y ≡ false
    → sweep x (y ∷ ys) ≡ ((sweep x ys).0, y ∷ (sweep x ys).1)
unfolding sweep
sweep_keep x y ys s = rw s

abbrev Leads : LeaderboardEntry → LeaderboardEntry × List LeaderboardEntry → Type 0
Leads x p = Before p.0 x × All (Before p.0) p.1

-- What the inner loop leaves in front may stand before all that it leaves behind.
sweep-Leads : (x : LeaderboardEntry) (xs : List LeaderboardEntry) → Leads x (sweep x xs)
unfolding sweep
sweep-Leads x [] = (Before-refl x, tt)
sweep-Leads x (y ∷ ys) = elim (Bool-cases (should_swap x y)) [
  | inl s ↦
      let (b, bs) = sweep-Leads y ys in
      let low = Before-trans _ y x b (Before-swapped x y s) in
      subst (Leads x) (sym (sweep_swap x y ys s)) (low, (low, bs))
  | inr s ↦
      let (b, bs) = sweep-Leads x ys in
      subst (Leads x) (sym (sweep_keep x y ys s)) (b, (Before-trans _ x y b s, bs))
]

perm-sort_from : (n : ℕ) (l : List LeaderboardEntry) → Perm (sort_from n l) l
unfolding sort_from
perm-sort_from zero l = Perm.rfl
perm-sort_from (suc n) [] = Perm.rfl
perm-sort_from (suc n) (x ∷ xs) =
    Perm.trans (Perm.cons (sweep x xs).0 (perm-sort_from n (sweep x xs).1)) (perm-sweep x xs)

sort_from-IsRanked : (n : ℕ) (l : List LeaderboardEntry) → length l ≤ n → IsRanked (sort_from n l)
unfolding sort_from
sort_from-IsRanked zero [] h = tt
sort_from-IsRanked zero (x ∷ xs) h = absurd (omega arith)
sort_from-IsRanked (suc n) [] h = tt
sort_from-IsRanked (suc n) (x ∷ xs) h =
    let (first, rest) = sweep x xs in
    (
      All-sort_from (Before first) n rest (sweep-Leads x xs).1,
      sort_from-IsRanked n rest (omega (arith, length-sweep x xs)),
    )

-- The sort loses and invents no entry.
pub perm-sort_entries : (l : List LeaderboardEntry) → Perm (sort_entries l) l
unfolding sort_entries
perm-sort_entries l = perm-sort_from (length l) l

-- Its result stands in the order of the leaderboard.
pub sort_entries-IsRanked : (l : List LeaderboardEntry) → IsRanked (sort_entries l)
unfolding sort_entries
sort_entries-IsRanked l = sort_from-IsRanked (length l) l (omega arith)

head_first :
    {x y : LeaderboardEntry} (xs : List LeaderboardEntry)
    → All (Before x) xs
    → Mem y (x ∷ xs)
    → Before x y
head_first {x} xs h = All-Mem (Before x) (λ y. Bool-set _ _) (x ∷ xs) (Before-refl x, h)

-- before the ranks are assigned
abbrev pub Unranked : LeaderboardEntry → Type 0
Unranked e = e.rank ≡ pos 0

Unranked-eq : (a b : LeaderboardEntry) → Unranked a → Unranked b → Before a b → Before b a → a ≡ b
Unranked-eq a b ra rb h k = let (u, s, p) = Before-antisymm a b h k in ground arith

-- Two ranked rearrangements of the same entries are one list.
IsRanked-unique :
    (xs ys : List LeaderboardEntry)
    → IsRanked xs
    → IsRanked ys
    → All Unranked xs
    → All Unranked ys
    → Perm xs ys
    → xs ≡ ys
IsRanked-unique [] ys rx ry ux uy p = Perm.nil-eq p
IsRanked-unique (x ∷ xs) [] rx ry ux uy p = Perm.eq-nil p
IsRanked-unique (x ∷ xs) (y ∷ ys) rx ry ux uy p =
    let heads =
      Unranked-eq x y ux.0 uy.0 (head_first xs rx.0 ((Perm.mem_iff p).1 mem-cons_self))
        (head_first ys ry.0 ((Perm.mem_iff p).0 mem-cons_self)) in
    let tails = Perm.cons_inv (Perm.trans p (Perm.cons' (sym heads) Perm.rfl)) in
    ap₂ ◌∷◌ heads (IsRanked-unique xs ys rx.1 ry.1 ux.1 uy.1 tails)

All-sort_entries :
    (P : LeaderboardEntry → Type 0) (l : List LeaderboardEntry) → All P l → All P (sort_entries l)
unfolding sort_entries
All-sort_entries P l = All-sort_from P (length l) l

-- The order in which the entries are given does not matter.
pub sort_entries_perm :
    (xs ys : List LeaderboardEntry)
    → All Unranked xs
    → All Unranked ys
    → Perm xs ys
    → sort_entries xs ≡ sort_entries ys
sort_entries_perm xs ys ux uy p =
    IsRanked-unique (sort_entries xs) (sort_entries ys) (sort_entries-IsRanked xs)
      (sort_entries-IsRanked ys) (All-sort_entries Unranked xs ux) (All-sort_entries Unranked ys uy)
      (Perm.trans (perm-sort_entries xs) (Perm.trans p (Perm.symm (perm-sort_entries ys))))
