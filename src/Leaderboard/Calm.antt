-- ===== src/Leaderboard/Calm.antt =====
-- The methods of the manager that always come back without a panic: an absent board is an error.
use challenge_service.Prelude.{String, Option, Option-cases, inl, inr, arith}
use challenge_service.Prelude.Int.{ℤ}
use challenge_service.GoMap.{lookup}
use challenge_service.Exec.Laws.{Returns, Result-cases}
use challenge_service.Model.{ChallengeDocument}
use challenge_service.RedisBoard.{RedisBoard}
use challenge_service.Leaderboard.{
  Manager, get_board, update_participant_score, get_leaderboard, get_participant_rank,
}

module _ (b : RedisBoard) (id : String) (m : Manager b) where
  pub update_participant_score-Returns :
      (user : String) (points : ℤ) → Returns (update_participant_score b id user points m).0
  unfolding update_participant_score get_board
  update_participant_score-Returns user points = elim (Option-cases (lookup id m.boards)) [
    | inl e ↦ (λ h. ground (arith, e, h), λ w h. ground (arith, e, h))
    | inr (board, e) ↦
        let r = Result-cases (b.add_user board user "" (b.of_int points) m.ext).0 in
        (λ h. ground (arith, e, h, r), λ w h. ground (arith, e, h, r))
  ]

  pub get_leaderboard-Returns :
      (limit : ℤ) (doc : Option ChallengeDocument) → Returns (get_leaderboard b id limit doc m).0
  unfolding get_leaderboard get_board
  get_leaderboard-Returns limit doc = elim (Option-cases (lookup id m.boards)) [
    | inl e ↦ (λ h. ground (arith, e, h), λ w h. ground (arith, e, h))
    | inr (board, e) ↦ elim (Result-cases (b.get_top_k_global board m.ext).0) [
      | inl (users, r) ↦ (λ h. ground (arith, e, h, r), λ w h. ground (arith, e, h, r))
      | inr (msg, r) ↦ (λ h. ground (arith, e, h, r), λ w h. ground (arith, e, h, r))
    ]
  ]

  pub get_participant_rank-Returns : (user : String) → Returns (get_participant_rank b id user m).0
  unfolding get_participant_rank get_board
  get_participant_rank-Returns user = elim (Option-cases (lookup id m.boards)) [
    | inl e ↦ (λ h. ground (arith, e, h), λ w h. ground (arith, e, h))
    | inr (board, e) ↦
        let r = Result-cases (b.get_user_leaderboard_data board user m.ext).0 in
        (λ h. ground (arith, e, h, r), λ w h. ground (arith, e, h, r))
  ]
