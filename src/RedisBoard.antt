-- ===== src/RedisBoard.antt =====
-- What the service uses of github.com/lijuuu/RedisBoard, and of Go's float64 in which that library
-- keeps its scores. Both are outside the repository: a parameter, with the behaviour relied on.
use challenge_service.Prelude.{String, ◌≡◌, Bool, List, ◌≤◌, ◌^◌}
use challenge_service.Prelude.Int.{ℤ, pos_part, neg_part}
use challenge_service.Exec.{Result}

-- `redisboard.Config`
pub record BoardConfig : Type 0 where
  pub namespace : String
  pub k : ℤ
  pub max_users : ℤ
  pub max_entities : ℤ
  pub float_scores : Bool
  pub redis_addr : String
  pub redis_pass : String

pub record RedisBoard : Type 1 where
  pub Float : Type 0
  -- `float64(n)` and `int(x)`
  pub of_int : ℤ → Float
  pub to_int : Float → ℤ
  -- `*redisboard.Leaderboard`, and the state behind all of them
  pub Board : Type 0
  pub Ext : Type 0
  pub new : BoardConfig → Ext → Result Board × Ext
  pub close : Board → Ext → Result (Unit {0}) × Ext
  -- `board.AddUser(User{ID, Entity, Score})`
  pub add_user : Board → String → String → Float → Ext → Result (Unit {0}) × Ext
  -- `board.GetTopKGlobal()`: the identifier and the score of each user
  pub get_top_k_global : Board → Ext → Result (List (String × Float)) × Ext
  -- `board.GetUserLeaderboardData(userID)`: the score and the global rank
  pub get_user_leaderboard_data : Board → String → Ext → Result (Float × ℤ) × Ext

-- A float64 holds every integer up to 2^53 exactly.
pub record FloatLaws (b : RedisBoard) : Type 1 where
  pub to_int-of_int :
      (n : ℤ) → pos_part n ≤ 2 ^ 53 → neg_part n ≤ 2 ^ 53 → b.to_int (b.of_int n) ≡ n
