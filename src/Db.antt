-- ===== src/Db.antt =====
-- internal/db: the connections to MongoDB and Redis, and what main.go asks of Redis at the start and
-- at the end. The drivers are parameters; what is logged is dropped.
pub mod Saving
use Prim.Native.String.{◌++◌ as append}
use challenge_service.Prelude.{String}
use challenge_service.Prelude.Int.{ℤ}
use challenge_service.Exec.{Exec, Result, value, error, pure, call, attempt, wrap, ◌>>=◌, ◌>>◌}
use challenge_service.Config.{Config}

-- `redis.Options`
pub record RedisOptions : Type 0 where
  pub addr : String
  pub password : String
  pub db : ℤ

abbrev pub options_of : Config → RedisOptions
options_of cfg = record { addr = cfg.redis_url; password = cfg.redis_password; db = cfg.redis_db }

-- The commands of Redis that do not concern a key. `connect` is the state of a new client: what the
-- server at the address holds, and what it will answer.
pub record RedisAdmin (Db : Type 0) : Type 1 where
  pub connect : RedisOptions → Db
  pub ping : Db → Result (Unit {0}) × Db
  pub config_set : String → String → Db → Result (Unit {0}) × Db
  pub bg_save : Db → Result (Unit {0}) × Db
  pub save : Db → Result (Unit {0}) × Db
  pub info : String → Db → Result String × Db
  pub db_size : Db → Result ℤ × Db

-- `mongo.Connect` and `client.Ping`
pub record MongoServer (Coll : Type 0) : Type 1 where
  pub connect : String → Result Coll
  pub ping : Coll → Result (Unit {0}) × Coll

module _ {Db : Type 0} (r : RedisAdmin Db) where
  -- the rest of `NewRedisClient`, on the new client; the errors of `ConfigSet` are logged
  unfoldable pub check_redis : Exec Db Unit
  check_redis = do
    wrap (append "Failed to connect to Redis: ") (call r.ping)
    _ ← attempt (call (r.config_set "save" "900 1 300 10 60 10000"))
    _ ← attempt (call (r.config_set "dbfilename" "challenge-service.rdb"))
    pure tt

  unfoldable pub save_redis_data : Exec Db Unit
  save_redis_data = do
    started ← attempt (call r.bg_save)
    elim started [
      | value _ ↦ pure tt
      | error _ ↦ wrap (append "failed to save Redis data: ") (call r.save)
    ]

  -- the keys are counted for the log alone
  unfoldable pub load_redis_data : Exec Db Unit
  load_redis_data = do
    persistence ← attempt (call (r.info "persistence"))
    elim persistence [ error _ ↦ pure tt | value _ ↦ do _ ← attempt (call r.db_size); pure tt ]

module _ {Coll : Type 0} (m : MongoServer Coll) where
  abbrev pinged : Result (Unit {0}) × Coll → Result Coll
  pinged (value _, coll) = value coll
  pinged (error e, coll) = error (append "failed to ping mongo: " e)

  abbrev connected : Result Coll → Result Coll
  connected (error e) = error (append "failed to connect to mongo: " e)
  connected (value coll) = pinged (m.ping coll)

  unfoldable pub init_db : Config → Result Coll
  init_db cfg = connected (m.connect cfg.mongo_url)
