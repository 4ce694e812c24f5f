-- ===== src/Startup.antt =====
-- cmd/main.go: what main builds before it serves, the address of the gRPC server, and the end of the
-- process. The servers of net/http and grpc are parameters; the goroutines are not interleaved, and
-- the worker pool, which fetches for the listings, is a parameter of Service/Queries.
pub mod Opening
pub mod Fresh
pub mod Restart
pub mod Address
use Prim.Native.String.{slice, ◌++◌ as append}
use challenge_service.Prelude.{String, Bool, true, [], ◌==◌, if◌then◌else◌}
use challenge_service.GoMap.{made}
use challenge_service.Exec.{
  Exec, Outcome, ok, err, panic, cut, Result, value, error, pure, fail, lift, call, attempt, wrap,
  zoom, ◌>>=◌, ◌>>◌,
}
use challenge_service.Leaderboard.{new_leaderboard_manager}
use challenge_service.World.{Libraries, World}
use challenge_service.Config.{Config, Os, load_config}
use challenge_service.Db.{
  RedisAdmin, MongoServer, options_of, check_redis, load_redis_data, save_redis_data, init_db,
}

-- what the process finds: its environment and the two servers
pub record Machine (lib : Libraries) : Type 1 where
  pub os : Os
  pub redis : RedisAdmin lib.redis.Db
  pub mongo : MongoServer lib.mongo.Coll

-- what main has built when it starts to serve
pub record Service (lib : Libraries) : Type 0 where
  pub config : Config
  pub jwt_secret : String
  pub state : World lib

module _ (lib : Libraries) (machine : Machine lib) where
  -- the state of a client that was opened, or the end of the process
  abbrev opened : Outcome (Unit {0}) × lib.redis.Db → Exec machine.os.Env lib.redis.Db
  opened (ok _, db) = pure db
  opened (err e, db) = fail e
  opened (panic, db) = λ env. (panic, env)
  opened (cut c, db) = λ env. (cut c, env)

  -- `NewRedisClient` and `LoadRedisData`
  unfoldable pub open_redis : Exec lib.redis.Db Unit
  open_redis = do check_redis machine.redis; _ ← attempt (load_redis_data machine.redis); pure tt

  -- `websocketState`, over what RedisBoard and the sockets start from
  unfoldable pub fresh_state :
      Config → lib.redis.Db → lib.mongo.Coll → lib.board.Ext → lib.sockets.Net → World lib
  fresh_state cfg db coll ext net = record {
    redis = db;
    mongo = coll;
    boards = new_leaderboard_manager lib.board cfg.redis_url cfg.redis_password ext;
    local = record { states = made []; net = net };
  }

  -- `main` up to the servers; the configuration is loaded a second time for the secret
  unfoldable pub initialize : lib.board.Ext → lib.sockets.Net → Exec machine.os.Env (Service lib)
  unfolding open_redis fresh_state
  initialize ext net = do
    cfg ← load_config machine.os
    coll ← wrap (append "Failed to initialize MongoDB: ") (lift (init_db machine.mongo cfg))
    db ← opened (open_redis (machine.redis.connect (options_of cfg)))
    again ← load_config machine.os
    pure (record {
      config = cfg;
      jwt_secret = again.jwt_secret;
      state = fresh_state cfg db coll ext net;
    })

-- `if addr == "" ... else if addr[0] != ':'`
unfoldable pub grpc_address : String → String
grpc_address port =
    if port == "" then ":50051" else if slice port 0 1 == ":" then port else append ":" port

-- `net.Listen` and `grpcServer.Serve`, with the service registered
pub record Grpc : Type 1 where
  pub Net : Type 0
  pub listen : String → Net → Result (Unit {0}) × Net
  pub serve : Net → Result (Unit {0}) × Net

unfoldable pub run_grpc_server : (g : Grpc) → Config → Exec g.Net Unit
unfolding grpc_address
run_grpc_server g cfg = do
  let addr = grpc_address cfg.challenge_grpc_port
  wrap (λ e. append "gRPC server failed to listen on " (append addr (append ": " e)))
      (call (g.listen addr))
  wrap (append "gRPC server failed to serve: ") (call g.serve)

-- `server.ListenAndServe` and `server.Shutdown`
pub record Http : Type 1 where
  pub Net : Type 0
  pub listen_and_serve : Net → Result (Unit {0}) × Net
  pub shutdown : Net → Result (Unit {0}) × Net

-- the end of `main`: the server was closed, or failed
abbrev ended : Result (Unit {0}) → Bool
ended (value _) = true
ended (error e) = e == "http: Server closed"

unfoldable pub run_http_server : (h : Http) → Exec h.Net Unit
run_http_server h = do
  served ← attempt (call h.listen_and_serve)
  if ended served then pure tt else wrap (append "WebSocket server failed: ") (lift served)

module _ {Db : Type 0} (r : RedisAdmin Db) (h : Http) where
  pub record Running : Type 0 where
    pub redis : Db
    pub http : h.Net

  -- the goroutine that waits for a signal; its errors are logged, and `os.Exit(0)` follows
  unfoldable pub shut_down : Exec Running Unit
  shut_down = do
    _ ← attempt (zoom (λ s. s.redis) (λ t s. record s { redis = t }) (save_redis_data r))
    _ ← attempt (zoom (λ s. s.http) (λ t s. record s { http = t }) (call h.shutdown))
    pure tt
