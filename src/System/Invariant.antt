-- ===== src/System/Invariant.antt =====
-- The invariant of the shared state, and the rules for an action on one of its parts.
use challenge_service.Prelude.{ℕ, String, ◌≡◌, arith}
use challenge_service.Exec.{Exec, ok, attempt}
use challenge_service.RedisClient
use challenge_service.Leaderboard.{Manager}
use challenge_service.Leaderboard.Boards.{IsAllocated}
use challenge_service.Local.{Hub}
use challenge_service.Local.Events.{IsBounded}
use challenge_service.World.{Libraries, World, on_redis, on_mongo, on_boards, on_local, on_net}
use challenge_service.Wss.Json.{Json, Fields}
use challenge_service.Wss.Broadcast.{send_json, send_standard_message, send_error_with_type}
use challenge_service.Wss.Handlers.{send_object, send_error}
use challenge_service.System.Boards.{call-Safe}
use challenge_service.System.Documents.{View, Shows}
use challenge_service.System.Safety.{Anything, Got, Safe, Safe-zoom, Safe-attempt, Safe-weaken}

module _ (lib : Libraries) (rlaw : RedisClient.Laws lib.redis) (v : View) where
  -- The documents of Redis are in order and look like `v`, the map of boards is allocated, and no
  -- event channel is overfull.
  pub record Holds (s : World lib) : Type 0 where
    pub redis : Shows lib.redis rlaw v s.redis
    pub boards : IsAllocated lib.board s.boards
    pub events : IsBounded s.local.states

  module _ {A : Type 0} where
    pub Safe-redis :
        (P : A → Type 0) (m : Exec lib.redis.Db A)
        → Safe (Shows lib.redis rlaw v) P m
        → Safe Holds P (on_redis lib m)
    Safe-redis P m =
        Safe-zoom Holds (Shows lib.redis rlaw v) (λ s. s.redis) (λ t s. record s { redis = t })
          (λ s h. h.redis) (λ t s h j. record { redis = j; boards = h.boards; events = h.events }) P
          m

    pub Safe-boards :
        (m : Exec (Manager lib.board) A)
        → Safe (IsAllocated lib.board) Anything m
        → Safe Holds Anything (on_boards lib m)
    Safe-boards m =
        Safe-zoom Holds (IsAllocated lib.board) (λ s. s.boards) (λ t s. record s { boards = t })
          (λ s h. h.boards) (λ t s h j. record { redis = h.redis; boards = j; events = h.events })
          Anything m

    pub Safe-mongo :
        (m : Exec lib.mongo.Coll A)
        → Safe (λ coll. Unit {0}) Anything m
        → Safe Holds Anything (on_mongo lib m)
    Safe-mongo m =
        Safe-zoom Holds (λ coll. Unit {0}) (λ s. s.mongo) (λ t s. record s { mongo = t })
          (λ s h. tt) (λ t s h j. record { redis = h.redis; boards = h.boards; events = h.events })
          Anything m

    pub Safe-net :
        (m : Exec lib.sockets.Net A)
        → Safe (λ net. Unit {0}) Anything m
        → Safe Holds Anything (on_net lib m)
    Safe-net m =
        Safe-zoom Holds (λ net. Unit {0}) (λ s. s.local.net)
          (λ n s. record s { local = record s.local { net = n } }) (λ s h. tt)
          (λ t s h j. record { redis = h.redis; boards = h.boards; events = h.events }) Anything m

    pub Safe-local :
        (m : Exec (Hub lib.sockets) A)
        → Safe (λ hub. IsBounded hub.states) Anything m
        → Safe Holds Anything (on_local lib m)
    Safe-local m =
        Safe-zoom Holds (λ hub. IsBounded hub.states) (λ s. s.local) (λ t s. record s { local = t })
          (λ s h. h.events) (λ t s h j. record { redis = h.redis; boards = h.boards; events = j })
          Anything m

    -- an attempt whose result is read, or dropped
    pub Safe-tried :
        (m : Exec (World lib) A) → Safe Holds Anything m → Safe Holds Anything (attempt m)
    Safe-tried m h =
        Safe-weaken Holds (Got Anything) Anything (attempt m) (λ a p. tt)
          (Safe-attempt Holds Anything m h)

  -- an action on the sockets that succeeds
  pub Safe-told :
      (m : Exec lib.sockets.Net Unit)
      → ((net : lib.sockets.Net) → (m net).0 ≡ ok tt)
      → Safe Holds Anything (on_net lib m)
  Safe-told m done = Safe-net m (λ net i. record {
    state = tt;
    calm = λ e. ground (arith, done net, e);
    back = λ w e. ground (arith, done net, e);
    gives = λ a e. tt;
  })

  pub send_object-Safe :
      (conn : ℕ) (fields : Fields) → Safe Holds Anything (send_object lib conn fields)
  unfolding send_json
  send_object-Safe conn fields = Safe-net _ (call-Safe (λ net. Unit {0}) _ (λ net i. tt))

  pub send_error-Safe :
      (conn : ℕ) (kind msg : String) (extra : Json)
      → Safe Holds Anything (send_error lib conn kind msg extra)
  unfolding send_error_with_type send_standard_message send_json
  send_error-Safe conn kind msg extra = Safe-net _ (call-Safe (λ net. Unit {0}) _ (λ net i. tt))
