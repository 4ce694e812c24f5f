-- ===== src/World/Snapshot/Laws.antt =====
-- What the refresh of a leaderboard snapshot stores.
use challenge_service.Prelude.{
  String, ◌≡◌, refl, ap, ◌∙◌, some, List, arith, inl, inr, ◌==◌, eq_iff, if◌then◌else◌,
}
use challenge_service.Prelude.Int.{ℤ, pos}
use challenge_service.Exec.{Exec, ok, Result, value, error, attempt}
use challenge_service.Exec.Laws.{Returns, Outcome-cases}
use challenge_service.Model.{ChallengeDocument, LeaderboardEntry}
use challenge_service.RedisClient
use challenge_service.Redis
use challenge_service.Redis.View.{stored, create_challenge_up, stored-create_challenge_if}
use challenge_service.Leaderboard.{
  Manager, initialize_leaderboard, update_participant_score, get_leaderboard,
}
use challenge_service.Leaderboard.Boards.{IsAllocated, initialize_leaderboard-Managed}
use challenge_service.Leaderboard.Calm.{update_participant_score-Returns, get_leaderboard-Returns}
use challenge_service.World.{Libraries, World, on_boards}
use challenge_service.World.Snapshot.{with_leaderboard, store_snapshot, refresh_board}

module _ (lib : Libraries) (rlaw : RedisClient.Laws lib.redis) where
  -- `board` is what `GetLeaderboard` answered for the document, if it answered.
  abbrev pub IsRanking : ChallengeDocument → Result (List LeaderboardEntry) → Type 0
  IsRanking d board =
      (l : List LeaderboardEntry)
      → board ≡ value l
      → (m : Manager lib.board) × ((get_leaderboard lib.board d.challenge_id (pos 50) (some d) m).0
          ≡ ok l)

  -- A refresh of the document `d` from `s`: it ends without a panic, whatever becomes of the board.
  pub record Refreshed (id user : String) (score : ℤ) (d : ChallengeDocument) (s : World lib)
      : Type 0 where
    pub board : Result (List LeaderboardEntry)
    pub after : World lib
    pub ran : refresh_board lib id user score d s ≡ (ok board, after)
    pub ranking : IsRanking d board
    pub up : rlaw.Up after.redis
    pub mongo : after.mongo ≡ s.mongo
    pub local : after.local ≡ s.local
    pub active :
        (j : String)
        → stored lib.redis rlaw after.redis j ≡ (
            if d.challenge_id == j
            then some (with_leaderboard d board)
            else stored lib.redis rlaw s.redis j)

  record Shown (d : ChallengeDocument) (board : Result (List LeaderboardEntry)) (s : World lib)
      : Type 0 where
    pub after : World lib
    pub ran : store_snapshot lib d board s ≡ (ok tt, after)
    pub up : rlaw.Up after.redis
    pub mongo : after.mongo ≡ s.mongo
    pub local : after.local ≡ s.local
    pub active :
        (j : String)
        → stored lib.redis rlaw after.redis j ≡ (
            if d.challenge_id == j
            then some (with_leaderboard d board)
            else stored lib.redis rlaw s.redis j)

  store_snapshot-Shown :
      (d : ChallengeDocument) (board : Result (List LeaderboardEntry)) (s : World lib)
      → rlaw.Up s.redis
      → stored lib.redis rlaw s.redis d.challenge_id ≡ some d
      → Shown d board s
  unfolding Redis.update_challenge
  store_snapshot-Shown d (error e) s up there = record {
    after = s;
    ran = refl;
    up = up;
    mongo = refl;
    local = refl;
    active = λ j. ground (arith, there, eq_iff d.challenge_id j);
  }
  store_snapshot-Shown d (value l) s up there =
      let d' : ChallengeDocument = record d { leaderboard = l } in
      let (wrote, still) = create_challenge_up lib.redis rlaw d' s.redis up in
      let s' : World lib = record s { redis = (Redis.create_challenge lib.redis d' s.redis).1 } in
      record {
        after = s';
        ran = ground (arith, wrote);
        up = still;
        mongo = refl;
        local = refl;
        active = stored-create_challenge_if lib.redis rlaw d' s.redis wrote;
      }

  -- An attempt on the boards: it leaves everything else alone, and reports what the action returned.
  record Attempted {A : Type 0} (m : Exec (Manager lib.board) A) (s : World lib) : Type 0 where
    pub result : Result A
    pub ran : attempt (on_boards lib m) s ≡ (ok result, record s { boards = (m s.boards).1 })
    pub reported : (a : A) → result ≡ value a → (m s.boards).0 ≡ ok a

  attempt_boards :
      {A : Type 0} (m : Exec (Manager lib.board) A) (s : World lib)
      → Returns (m s.boards).0
      → Attempted m s
  attempt_boards m s calm = elim (Outcome-cases (m s.boards).0) [
    | inl (a, e) ↦ record {
      result = value a;
      ran = rw e;
      reported = λ a' same. ground (arith, same, e);
    }
    | inr (inl (msg, e)) ↦ record { result = error msg; ran = rw e; reported = λ a' same. cc }
    | inr (inr (inl e)) ↦ absurd (calm.0 e)
    | inr (inr (inr (w, e))) ↦ absurd (calm.1 w e)
  ]

  pub refresh_board-Refreshed :
      (id user : String) (score : ℤ) (d : ChallengeDocument) (s : World lib)
      → rlaw.Up s.redis
      → IsAllocated lib.board s.boards
      → d.challenge_id ≡ id
      → stored lib.redis rlaw s.redis id ≡ some d
      → Refreshed id user score d s
  unfolding refresh_board
  refresh_board-Refreshed id user score d s up al own there =
      let start = initialize_leaderboard lib.board id in
      let set = update_participant_score lib.board id user score in
      let fetch = get_leaderboard lib.board id (pos 50) (some d) in
      let s1 : World lib = record s { boards = (start s.boards).1 } in
      let s2 : World lib = record s { boards = (set s1.boards).1 } in
      let s3 : World lib = record s { boards = (fetch s2.boards).1 } in
      let a1 = attempt_boards start s (initialize_leaderboard-Managed lib.board id s.boards al).1 in
      let a2 =
        attempt_boards set s1
          (update_participant_score-Returns lib.board id s1.boards user score) in
      let a3 =
        attempt_boards fetch s2
          (get_leaderboard-Returns lib.board id s2.boards (pos 50) (some d)) in
      let n =
        store_snapshot-Shown d a3.result s3 up (ap (stored lib.redis rlaw s.redis) own ∙ there) in
      record {
        board = a3.result;
        after = n.after;
        ran = ground (arith, a1.ran, a2.ran, a3.ran, n.ran);
        ranking = λ l e. (
          s2.boards,
          ap (λ i. (get_leaderboard lib.board i (pos 50) (some d) s2.boards).0) own
              ∙ a3.reported l e,
        );
        up = n.up;
        mongo = n.mongo;
        local = n.local;
        active = n.active;
      }
