-- ===== src/Leaderboard.antt =====
-- internal/leaderboard/manager.go: the boards of all challenges. The mutex makes each access to the
-- map of boards one step; the calls of RedisBoard act on the state behind the boards.
pub mod Ranking
pub mod Boards
pub mod Calm
use Prim.Native.String.{◌++◌ as append}
use challenge_service.Prelude.{
  ℕ, String, Bool, true, false, Option, none, some, List, [], ◌∷◌, map, ◌==◌, if◌then◌else◌,
}
use challenge_service.Prelude.Int.{ℤ, pos, negsuc, add64, int_eq}
use challenge_service.GoMap.{GoMap, made, lookup, assign, delete}
use challenge_service.Exec.{
  Exec, Outcome, ok, err, panic, Result, value, error, pure, fail, call, gets, must, modify,
  attempt, wrap, zoom, ◌>>=◌, ◌>>◌,
}
use challenge_service.Model.{ChallengeDocument, LeaderboardEntry}
use challenge_service.RedisBoard.{RedisBoard, BoardConfig}
use Ranking.{rank_users}

pub record ParticipantLeaderboardData : Type 0 where
  pub user_id : String
  pub total_score : ℤ
  pub global_rank : ℤ
  pub rank : ℤ

-- the text of an error about one challenge, with its cause
abbrev pub about : String → String → String → String
about what challenge e = append what (append challenge (append ": " e))

module _ (b : RedisBoard) where
  pub record Manager : Type 0 where
    pub boards : GoMap b.Board
    pub config : BoardConfig
    pub ext : b.Ext

  unfoldable pub new_leaderboard_manager : String → String → b.Ext → Manager
  new_leaderboard_manager addr pass ext = record {
    boards = made [];
    config = record {
      namespace = "";
      k = pos 50;
      max_users = pos 10000;
      max_entities = pos 1;
      float_scores = false;
      redis_addr = addr;
      redis_pass = pass;
    };
    ext = ext;
  }

  abbrev pub on_ext : {A : Type 0} → Exec b.Ext A → Exec Manager A
  on_ext = zoom (λ m. m.ext) (λ x m. record m { ext = x })

  unfoldable pub initialize_leaderboard : String → Exec Manager Unit
  initialize_leaderboard id m = elim (lookup id m.boards) [
    | some _ ↦ pure tt m
    | none ↦
        (do
          let config = record m.config { namespace = append "challenge_" id }
          board ←
              wrap (about "failed to create leaderboard for challenge " id)
                (on_ext (call (b.new config)))
          boards ← gets (λ n. n.boards)
          boards' ← must (assign id board boards)
          modify (λ n. record n { boards = boards' }) tt)
          m
  ]

  unfoldable pub cleanup_leaderboard : String → Exec Manager Unit
  cleanup_leaderboard id m = elim (lookup id m.boards) [
    | none ↦ pure tt m
    | some board ↦
        (do
          wrap (about "failed to close leaderboard for challenge " id)
              (on_ext (call (b.close board)))
          modify (λ n. record n { boards = delete id n.boards }) tt)
          m
  ]

  unfoldable pub get_board : String → Exec Manager b.Board
  get_board id m = elim (lookup id m.boards) [
    | none ↦ fail (append "leaderboard not initialized for challenge " id) m
    | some board ↦ pure board m
  ]

  unfoldable pub update_participant_score : String → String → ℤ → Exec Manager Unit
  update_participant_score id user points = do
    board ← get_board id
    wrap (about (append "failed to update score for user " (append user " in challenge ")) id)
        (on_ext (call (b.add_user board user "" (b.of_int points))))

  abbrev pub scores : List (String × b.Float) → List (String × ℤ)
  scores = map (λ u. (u.0, b.to_int u.1))

  -- what `GetLeaderboard` makes of RedisBoard's answer
  unfoldable pub leaderboard_of :
      String
      → ℤ
      → Option ChallengeDocument
      → Result (List (String × b.Float))
      → Exec Manager (List LeaderboardEntry)
  leaderboard_of id limit doc (error e) =
      if e == "no users in global leaderboard"
      then pure []
      else fail (about "failed to get leaderboard for challenge " id e)
  leaderboard_of id limit doc (value users) = pure (rank_users limit doc (scores users))

  unfoldable pub get_leaderboard :
      String → ℤ → Option ChallengeDocument → Exec Manager (List LeaderboardEntry)
  unfolding leaderboard_of
  get_leaderboard id limit doc = do
    board ← get_board id
    answer ← attempt (on_ext (call (b.get_top_k_global board)))
    leaderboard_of id limit doc answer

  -- the conversion to 1-based ranks, with -1 for a user who is not found
  unfoldable pub participant_data : String → b.Float × ℤ → ParticipantLeaderboardData
  participant_data user (score, global_rank) =
      if int_eq global_rank (negsuc 0)
      then record {
        user_id = user;
        total_score = b.to_int score;
        global_rank = negsuc 0;
        rank = negsuc 0;
      }
      else record {
        user_id = user;
        total_score = b.to_int score;
        global_rank = add64 global_rank (pos 1);
        rank = add64 global_rank (pos 1);
      }

  unfoldable pub get_participant_rank : String → String → Exec Manager ParticipantLeaderboardData
  get_participant_rank id user = do
    board ← get_board id
    data' ←
        wrap (about (append "failed to get rank for user " (append user " in challenge ")) id)
          (on_ext (call (b.get_user_leaderboard_data board user)))
    pure (participant_data user data')
