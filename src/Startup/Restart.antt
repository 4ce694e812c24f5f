-- ===== src/Startup/Restart.antt =====
-- A process that takes over from one that has ended.
use challenge_service.Prelude.{String, ◌≡◌, ap, List, map}
use challenge_service.Exec.{ok}
use challenge_service.Jwt.{JwtLibrary}
use challenge_service.RedisClient
use challenge_service.Redis.{key_of}
use challenge_service.Redis.View.{decoded}
use challenge_service.World.{Libraries}
use challenge_service.Wss.Handlers.{Codec}
use challenge_service.Db.Saving.{AdminLaws}
use challenge_service.Startup.{Machine, Service, initialize}
use challenge_service.Startup.Opening.{first_client}
use challenge_service.Startup.Fresh.{initialize-Holds}
use challenge_service.System.Documents.{View, Shows, Shows-same}
use challenge_service.System.Spec.{Runs}
use challenge_service.System.Invariant.{Holds}
use challenge_service.System.Requests.{Request, author, serve_all}
use challenge_service.System.Refinement.{serve_all-Runs}

module _ (lib : Libraries) (rlaw : RedisClient.Laws lib.redis) (jwt : JwtLibrary)
    (codec : Codec) where
  -- The memory of a process does not matter for what the challenges are. If a process starts where
  -- the documents of Redis are in order and look like `v`, and answers any requests, whatever fails
  -- meanwhile, and later another process starts that finds in Redis what the first left there, then
  -- the challenges have changed only by the steps that the specification lets the authors of these
  -- requests take, and the second process starts with the invariant, for the challenges as they were
  -- when the first ended.
  pub initialize-serve_all :
      (machine again : Machine lib) (ext ext' : lib.board.Ext) (net net' : lib.sockets.Net)
      (env : machine.os.Env) (env' : again.os.Env) (v : View) (rs : List Request)
      (svc svc' : Service lib)
      → AdminLaws lib.redis rlaw machine.redis
      → AdminLaws lib.redis rlaw again.redis
      → Shows lib.redis rlaw v (first_client lib machine env)
      → (initialize lib machine ext net env).0 ≡ ok svc
      → ((k : String)
          → rlaw.peek (first_client lib again env') k
            ≡ rlaw.peek (serve_all lib jwt svc.jwt_secret codec rs svc.state).redis k)
      → (initialize lib again ext' net' env').0 ≡ ok svc'
      → (w : View) × (Runs (map author rs) v w) × Holds lib rlaw w svc'.state
  initialize-serve_all machine again ext ext' net net' env env' v rs svc svc' admin admin' shows
        started found restarted =
      let start = initialize-Holds lib machine ext net env rlaw v svc admin shows started in
      let (w, runs, held) =
        serve_all-Runs lib rlaw jwt svc.jwt_secret codec rs v svc.state start.0 in
      let left : Shows lib.redis rlaw w (first_client lib again env') =
        Shows-same lib.redis rlaw w (serve_all lib jwt svc.jwt_secret codec rs svc.state).redis
          (first_client lib again env') (λ id. ap (decoded lib.redis rlaw) (found (key_of id)))
          held.redis in
      let next = initialize-Holds lib again ext' net' env' rlaw w svc' admin' left restarted in
      (w, runs, next.0)
