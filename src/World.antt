-- ===== src/World.antt =====
-- internal/global/state.go: the state that the gRPC service and the WebSocket handlers share, and
-- the libraries behind it. Each part is acted on by the repository or manager that owns it.
pub mod Frame
pub mod Snapshot
use challenge_service.Exec.{Exec, zoom}
use challenge_service.Prelude.{◌≡◌}
use challenge_service.RedisClient.{RedisClient}
use challenge_service.MongoClient.{MongoClient}
use challenge_service.RedisBoard.{RedisBoard}
use challenge_service.Wss.Socket.{Sockets}
use challenge_service.Leaderboard.{Manager}
use challenge_service.Local.{Hub}

pub record Libraries : Type 1 where
  pub redis : RedisClient
  pub mongo : MongoClient
  pub board : RedisBoard
  pub sockets : Sockets

module _ (lib : Libraries) where
  pub record World : Type 0 where
    pub redis : lib.redis.Db
    pub mongo : lib.mongo.Coll
    pub boards : Manager lib.board
    pub local : Hub lib.sockets

  module _ {A : Type 0} where
    abbrev pub on_redis : Exec lib.redis.Db A → Exec World A
    on_redis = zoom (λ s. s.redis) (λ t s. record s { redis = t })

    abbrev pub on_mongo : Exec lib.mongo.Coll A → Exec World A
    on_mongo = zoom (λ s. s.mongo) (λ t s. record s { mongo = t })

    abbrev pub on_boards : Exec (Manager lib.board) A → Exec World A
    on_boards = zoom (λ s. s.boards) (λ t s. record s { boards = t })

    abbrev pub on_local : Exec (Hub lib.sockets) A → Exec World A
    on_local = zoom (λ s. s.local) (λ t s. record s { local = t })

    abbrev pub on_net : Exec lib.sockets.Net A → Exec World A
    on_net = zoom (λ s. s.local.net) (λ t s. record s { local = record s.local { net = t } })
