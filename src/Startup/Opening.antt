-- ===== src/Startup/Opening.antt =====
-- What main opens: the configuration, and the connection to Redis.
use Prim.Native.String.{◌++◌ as append}
use challenge_service.Prelude.{String, ◌≡◌, ◌∙◌, inl, inr, arith}
use challenge_service.Exec.{ok, err, value, error}
use challenge_service.Exec.Laws.{Result-cases, attempt-call}
use challenge_service.RedisClient
use challenge_service.World.{Libraries}
use challenge_service.Config.{Config, load_config, config_of}
use challenge_service.Db.{init_db, options_of, init_db, check_redis, load_redis_data}
use challenge_service.Db.Saving.{AdminLaws}
use challenge_service.Startup.{Machine, open_redis}

module _ (lib : Libraries) (machine : Machine lib) where
  abbrev pub env_after : machine.os.Env → machine.os.Env
  env_after env = (machine.os.load_dotenv env).1

  -- the configuration that is loaded, and the client of Redis that it leads to
  abbrev pub first_config : machine.os.Env → Config
  first_config env = config_of machine.os (env_after env)

  abbrev pub first_client : machine.os.Env → lib.redis.Db
  first_client env = machine.redis.connect (options_of (first_config env))

  -- The environment can be loaded, twice, and both servers answer.
  pub record IsAvailable (env : machine.os.Env) : Type 0 where
    pub server : lib.mongo.Coll
    pub loaded : (machine.os.load_dotenv env).0 ≡ value tt
    pub connected : machine.mongo.connect (first_config env).mongo_url ≡ value server
    pub answered : (machine.mongo.ping server).0 ≡ value tt
    pub pinged : (machine.redis.ping (first_client env)).0 ≡ value tt
    pub reloaded : (machine.os.load_dotenv (env_after env)).0 ≡ value tt

  -- where MongoDB is reached
  pub init_db_available :
      (env : machine.os.Env) (a : IsAvailable env)
      → init_db machine.mongo (first_config env) ≡ value (machine.mongo.ping a.server).1
  unfolding init_db
  init_db_available env a = ground (arith, a.connected, a.answered)

  pub init_db_sound :
      (env : machine.os.Env) (coll : lib.mongo.Coll)
      → init_db machine.mongo (first_config env) ≡ value coll
      → (server : lib.mongo.Coll) × (machine.mongo.connect (first_config env).mongo_url
          ≡ value server)
        × ((machine.mongo.ping server).0 ≡ value tt)
  unfolding init_db
  init_db_sound env coll h =
      elim (Result-cases (machine.mongo.connect (first_config env).mongo_url)) [
        | inr (e, no') ↦ absurd (ground (arith, no', h))
        | inl (server, yes') ↦ elim (Result-cases (machine.mongo.ping server).0) [
          | inr (e, no') ↦ absurd (ground (arith, yes', no', h))
          | inl (u, answered) ↦ (server, yes', ground (arith, answered))
        ]
      ]

  pub load_config_ok :
      (env : machine.os.Env)
      → (machine.os.load_dotenv env).0 ≡ value tt
      → load_config machine.os env ≡ (ok (first_config env), env_after env)
  unfolding load_config
  load_config_ok env e = ground (arith, e)

  pub load_config_failed :
      (env : machine.os.Env) (e : String)
      → (machine.os.load_dotenv env).0 ≡ error e
      → load_config machine.os env ≡ (err (append "Error loading .env file" e), env_after env)
  unfolding load_config
  load_config_failed env e h = ground (arith, h)

  module _ (db : lib.redis.Db) where
    load_redis_data_ok : (load_redis_data machine.redis db).0 ≡ ok tt
    unfolding load_redis_data
    load_redis_data_ok = elim (Result-cases (machine.redis.info "persistence" db).0) [
      | inr (msg, e) ↦ ground (arith, attempt-call (machine.redis.info "persistence") db, e)
      | inl (text, e) ↦
          let db' = (machine.redis.info "persistence" db).1 in
          ground (
            arith,
            attempt-call (machine.redis.info "persistence") db,
            e,
            attempt-call machine.redis.db_size db',
          )
    ]

  module _ (db : lib.redis.Db) where
    abbrev checked_db : lib.redis.Db
    checked_db =
        let db1 =
          (machine.redis.config_set "save" "900 1 300 10 60 10000" (machine.redis.ping db).1).1 in
        (machine.redis.config_set "dbfilename" "challenge-service.rdb" db1).1

    abbrev pub opened_db : lib.redis.Db
    opened_db = (load_redis_data machine.redis checked_db).1

    check_redis_ok :
        (machine.redis.ping db).0 ≡ value tt → check_redis machine.redis db ≡ (ok tt, checked_db)
    unfolding check_redis
    check_redis_ok e =
        let db0 = (machine.redis.ping db).1 in
        let db1 = (machine.redis.config_set "save" "900 1 300 10 60 10000" db0).1 in
        ground (
          arith,
          e,
          attempt-call (machine.redis.config_set "save" "900 1 300 10 60 10000") db0,
          attempt-call (machine.redis.config_set "dbfilename" "challenge-service.rdb") db1,
        )

    pub open_redis_ok :
        (machine.redis.ping db).0 ≡ value tt → open_redis lib machine db ≡ (ok tt, opened_db)
    unfolding open_redis
    open_redis_ok e = ground (arith, check_redis_ok e, load_redis_data_ok checked_db)

    pub open_redis_failed :
        (e : String)
        → (machine.redis.ping db).0 ≡ error e
        → open_redis lib machine db
          ≡ (err (append "Failed to connect to Redis: " e), (machine.redis.ping db).1)
    unfolding open_redis check_redis
    open_redis_failed e h = ground (arith, h)

    -- Opening Redis changes nothing that it holds.
    pub peek-opened :
        (rlaw : RedisClient.Laws lib.redis)
        → AdminLaws lib.redis rlaw machine.redis
        → (k : String) → rlaw.peek opened_db k ≡ rlaw.peek db k
    unfolding load_redis_data
    peek-opened rlaw admin k =
        let db0 = (machine.redis.ping db).1 in
        let db1 = (machine.redis.config_set "save" "900 1 300 10 60 10000" db0).1 in
        let counted : rlaw.peek (load_redis_data machine.redis checked_db).1 k
            ≡ rlaw.peek checked_db k =
          elim (Result-cases (machine.redis.info "persistence" checked_db).0) [
            | inr (msg, e) ↦ ground (
              arith,
              attempt-call (machine.redis.info "persistence") checked_db,
              e,
              admin.peek-info "persistence" checked_db k,
            )
            | inl (text, e) ↦
                let db' = (machine.redis.info "persistence" checked_db).1 in
                ground (
                  arith,
                  attempt-call (machine.redis.info "persistence") checked_db,
                  e,
                  attempt-call machine.redis.db_size db',
                  admin.peek-info "persistence" checked_db k,
                  admin.peek-db_size db' k,
                )
          ] in
        counted
        ∙ admin.peek-config_set "dbfilename" "challenge-service.rdb" db1 k
        ∙ admin.peek-config_set "save" "900 1 300 10 60 10000" db0 k
        ∙ admin.peek-ping db k
