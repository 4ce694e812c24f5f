-- ===== src/Startup/Fresh.antt =====
-- The state that main builds, and when it comes to build one.
use Prim.Native.String.{◌++◌ as append}
use challenge_service.Prelude.{String, ◌≡◌, ◌≢◌, ◌⊎◌, refl, [], sym, ap, ◌∙◌, none, inl, inr, arith}
use challenge_service.GoMap.{made, find, lookup}
use challenge_service.Exec.{cut, Outcome, ok, err, panic}
use challenge_service.Exec.Laws.{Result-cases}
use challenge_service.RedisClient
use challenge_service.Redis.View.{decoded}
use challenge_service.Redis.{key_of}
use challenge_service.Leaderboard.{new_leaderboard_manager}
use challenge_service.Local.Events.{empty-IsBounded}
use challenge_service.World.{Libraries}
use challenge_service.Config.{config_of, get_env}
use challenge_service.Db.{options_of, init_db}
use challenge_service.Db.Saving.{AdminLaws}
use challenge_service.Startup.{Machine, Service, fresh_state, initialize}
use challenge_service.System.Documents.{View, Shows, Shows-same}
use challenge_service.System.Invariant.{Holds}
use challenge_service.Startup.Opening.{
  init_db_available, init_db_sound, env_after, first_config, first_client, IsAvailable,
  load_config_ok, load_config_failed, opened_db, open_redis_ok, open_redis_failed, peek-opened,
}

service_of : {A : Type 0} → A → Outcome A → A
service_of d (ok a) = a
service_of d (err e) = d
service_of d panic = d
service_of d (cut w) = d

service_inj : {A : Type 0} {a b : A} → ok a ≡ ok b → a ≡ b
unfolding service_of
service_inj {a} e = ap (service_of a) e

module _ (lib : Libraries) (machine : Machine lib) (ext : lib.board.Ext) (net : lib.sockets.Net)
    (env : machine.os.Env) where
  -- what is built from an environment in which all is available
  abbrev pub built : IsAvailable lib machine env → Service lib
  built a = record {
    config = first_config lib machine env;
    jwt_secret =
        (config_of machine.os (env_after lib machine (env_after lib machine env))).jwt_secret;
    state =
        fresh_state lib machine (first_config lib machine env)
          (opened_db lib machine (first_client lib machine env)) (machine.mongo.ping a.server).1 ext
          net;
  }

  initialize_available :
      (a : IsAvailable lib machine env)
      → initialize lib machine ext net env
        ≡ (ok (built a), env_after lib machine (env_after lib machine env))
  unfolding initialize
  initialize_available a = ground (
    arith,
    load_config_ok lib machine env a.loaded,
    init_db_available lib machine env a,
    open_redis_ok lib machine (first_client lib machine env) a.pinged,
    load_config_ok lib machine (env_after lib machine env) a.reloaded,
  )

  -- Either all is available, or the process ends with an error.
  initialize_cases :
      IsAvailable lib machine env
      ⊎ ((e : String) × ((initialize lib machine ext net env).0 ≡ err e))
  unfolding initialize
  initialize_cases = elim (Result-cases (machine.os.load_dotenv env).0) [
    | inr (e, h) ↦
        inr (
          append "Error loading .env file" e,
          ground (arith, load_config_failed lib machine env e h),
        )
    | inl (u, loaded) ↦ elim (Result-cases (init_db machine.mongo (first_config lib machine env))) [
      | inr (e, h) ↦ inr (
        append "Failed to initialize MongoDB: " e,
        ground (arith, load_config_ok lib machine env loaded, h),
      )
      | inl (coll, connected) ↦
          elim (Result-cases (machine.redis.ping (first_client lib machine env)).0) [
            | inr (e, h) ↦ inr (
              append "Failed to connect to Redis: " e,
              ground (
                arith,
                load_config_ok lib machine env loaded,
                connected,
                open_redis_failed lib machine (first_client lib machine env) e h,
              ),
            )
            | inl (w, pinged) ↦
                elim (Result-cases (machine.os.load_dotenv (env_after lib machine env)).0) [
                  | inr (e, h) ↦ inr (
                    append "Error loading .env file" e,
                    ground (
                      arith,
                      load_config_ok lib machine env loaded,
                      connected,
                      open_redis_ok lib machine (first_client lib machine env) pinged,
                      load_config_failed lib machine (env_after lib machine env) e h,
                    ),
                  )
                  | inl (x, reloaded) ↦ inl (record {
                    server = (init_db_sound lib machine env coll connected).0;
                    loaded = loaded;
                    connected = (init_db_sound lib machine env coll connected).1;
                    answered = (init_db_sound lib machine env coll connected).2;
                    pinged = pinged;
                    reloaded = reloaded;
                  })
                ]
          ]
    ]
  ]

  pub initialize_iff :
      ((svc : Service lib)
        → (initialize lib machine ext net env).0 ≡ ok svc
        → IsAvailable lib machine env)
      × ((a : IsAvailable lib machine env) → (initialize lib machine ext net env).0 ≡ ok (built a))
      × ((initialize lib machine ext net env).0 ≢ panic)
  initialize_iff = (
    λ svc h. elim initialize_cases [
      | inl a ↦ a
      | inr (e, failed) ↦ absurd (ground (arith, h, failed))
    ],
    λ a. ap (λ out. out.0) (initialize_available a),
    λ h. elim initialize_cases [
      | inl a ↦ ground (arith, initialize_available a, h)
      | inr (e, failed) ↦ ground (arith, h, failed)
    ],
  )

  -- What main builds: if the documents that Redis holds stand under their own identifiers with their
  -- maps of participants, and look like `v`, the invariant holds with that view; no board is opened
  -- and no local state is built, also for the challenges that are going on; and the secret of the
  -- tokens is the one of the environment or its default.
  pub initialize-Holds :
      (rlaw : RedisClient.Laws lib.redis) (v : View) (svc : Service lib)
      → AdminLaws lib.redis rlaw machine.redis
      → Shows lib.redis rlaw v (machine.redis.connect (options_of (first_config lib machine env)))
      → (initialize lib machine ext net env).0 ≡ ok svc
      → Holds lib rlaw v svc.state
        × ((id : String) → lookup id svc.state.boards.boards ≡ none)
        × (svc.state.local.states ≡ made [])
        × (svc.jwt_secret
            ≡ get_env machine.os "JWTSECRET" "secrettt"
                (env_after lib machine (env_after lib machine env)))
  unfolding fresh_state new_leaderboard_manager lookup find config_of
  initialize-Holds rlaw v svc admin shows h =
      let a = initialize_iff.0 svc h in
      let same : svc ≡ built a = service_inj (sym h ∙ initialize_iff.1 a) in
      rw same (
        record {
          redis =
              Shows-same lib.redis rlaw v (first_client lib machine env) _
                (λ id.
                  ap (decoded lib.redis rlaw)
                    (peek-opened lib machine (first_client lib machine env) rlaw admin (key_of id)))
                shows;
          boards = λ e. cc;
          events = empty-IsBounded;
        },
        (λ id. refl),
        refl,
        refl,
      )
