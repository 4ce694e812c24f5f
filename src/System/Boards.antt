-- ===== src/System/Boards.antt =====
-- The methods of internal/leaderboard/manager.go keep the map of boards allocated and never panic.
use challenge_service.Prelude.{String, Option, Option-cases, inl, inr, List, [], ◌==◌}
use challenge_service.Prelude.Int.{ℤ}
use challenge_service.GoMap.{lookup}
use challenge_service.Exec.{Result, value, error, call, pure, fail}
use challenge_service.Exec.Laws.{of_result-ne-panic, of_result-ne-cut}
use challenge_service.Model.{ChallengeDocument}
use challenge_service.RedisBoard.{RedisBoard}
use challenge_service.Leaderboard.{
  Manager, initialize_leaderboard, cleanup_leaderboard, get_board, update_participant_score,
  leaderboard_of, get_leaderboard, get_participant_rank, on_ext, about,
}
use challenge_service.Leaderboard.Boards.{
  IsAllocated, initialize_leaderboard-Managed, cleanup_leaderboard-Managed,
}
use challenge_service.System.Safety.{
  Anything, Got, Safe, Safe-pure, Safe-fail, Safe-if, Safe-bind, Safe-attempt, Safe-wrap, Safe-zoom,
}

-- A call of a library returns, whatever it does to its own state.
pub call-Safe :
    {S A : Type 0} (I : S → Type 0) (f : S → Result A × S)
    → ((s : S) → I s → I (f s).1)
    → Safe I Anything (call f)
call-Safe I f keep s i = record {
  state = keep s i;
  calm = of_result-ne-panic (f s).0;
  back = λ w. of_result-ne-cut w (f s).0;
  gives = λ a e. tt;
}

module _ (b : RedisBoard) where
  abbrev Sound : Manager b → Type 0
  Sound = IsAllocated b

  ext-Safe : {A : Type 0} (f : b.Ext → Result A × b.Ext) → Safe Sound Anything (on_ext b (call f))
  ext-Safe f =
      Safe-zoom Sound (λ x. Unit {0}) (λ m. m.ext) (λ x m. record m { ext = x }) (λ m i. tt)
        (λ x m i j. i) Anything (call f) (call-Safe (λ x. Unit {0}) f (λ x i. tt))

  module _ (id : String) where
    pub initialize_leaderboard-Safe : Safe Sound Anything (initialize_leaderboard b id)
    initialize_leaderboard-Safe m al =
        let (managed, calm, _) = initialize_leaderboard-Managed b id m al in
        record { state = managed.allocated; calm = calm.0; back = calm.1; gives = λ a e. tt }

    pub cleanup_leaderboard-Safe : Safe Sound Anything (cleanup_leaderboard b id)
    cleanup_leaderboard-Safe m al =
        let (managed, calm, _) = cleanup_leaderboard-Managed b id m al in
        record { state = managed.allocated; calm = calm.0; back = calm.1; gives = λ a e. tt }

    get_board-Safe : Safe Sound Anything (get_board b id)
    unfolding get_board
    get_board-Safe m al = elim (Option-cases (lookup id m.boards)) [
      | inl e ↦ rw (e, get_board) (Safe-fail Sound Anything _ m al)
      | inr (board, e) ↦ rw (e, get_board) (Safe-pure Sound Anything board tt m al)
    ]

    pub update_participant_score-Safe :
        (user : String) (points : ℤ)
        → Safe Sound Anything (update_participant_score b id user points)
    unfolding update_participant_score
    update_participant_score-Safe user points =
        Safe-bind Sound Anything Anything _ _ get_board-Safe λ board _.
          Safe-wrap Sound Anything _ _ (ext-Safe (b.add_user board user "" (b.of_int points)))

    leaderboard_of-Safe :
        (limit : ℤ) (doc : Option ChallengeDocument) (r : Result (List (String × b.Float)))
        → Safe Sound Anything (leaderboard_of b id limit doc r)
    unfolding leaderboard_of
    leaderboard_of-Safe limit doc (error e) =
        Safe-if Sound Anything (e == "no users in global leaderboard") (pure [])
          (fail (about "failed to get leaderboard for challenge " id e))
          (λ _. Safe-pure Sound Anything [] tt) (λ _. Safe-fail Sound Anything _)
    leaderboard_of-Safe limit doc (value users) = Safe-pure Sound Anything _ tt

    pub get_leaderboard-Safe :
        (limit : ℤ) (doc : Option ChallengeDocument)
        → Safe Sound Anything (get_leaderboard b id limit doc)
    unfolding get_leaderboard
    get_leaderboard-Safe limit doc = Safe-bind Sound Anything Anything _ _ get_board-Safe λ board _.
        Safe-bind Sound (Got Anything) Anything _ _
          (Safe-attempt Sound Anything _ (ext-Safe (b.get_top_k_global board)))
          λ answer _. leaderboard_of-Safe limit doc answer

    pub get_participant_rank-Safe :
        (user : String) → Safe Sound Anything (get_participant_rank b id user)
    unfolding get_participant_rank
    get_participant_rank-Safe user = Safe-bind Sound Anything Anything _ _ get_board-Safe λ board _.
        Safe-bind Sound Anything Anything _ _
          (Safe-wrap Sound Anything _ _ (ext-Safe (b.get_user_leaderboard_data board user)))
          λ r _. Safe-pure Sound Anything _ tt
