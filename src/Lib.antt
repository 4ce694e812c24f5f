-- ===== src/Lib.antt =====
-- Challenge service: competitive programming challenges over gRPC and WebSocket.
--
-- The program keeps the challenges that are going on in Redis and the finished ones in MongoDB. The
-- gRPC service (internal/service) creates, ends and abandons challenges and takes submissions; the
-- WebSocket server (internal/wss) lets clients join, and sends them what happens. Both share one
-- state (internal/global): the two repositories (internal/repo), the leaderboards
-- (internal/leaderboard) and the connections of this process (internal/local).
--
-- A function that changes state is an action `S → Outcome A × S` (Exec): its result is a value, an
-- error or a panic, or it never comes back, as the process ends or it waits for ever. What it wrote
-- before an error stays written. Each component acts on its own
-- state, and World lifts these actions to the shared state. A library outside the repository is a
-- record of functions, and the behaviour that is relied on is a record of laws: RedisClient and
-- MongoClient (the database drivers), RedisBoard (the scores), Wss/Socket (the connections), in Jwt
-- and Wss/Handlers the JWT library, the JSON codec and the authentication gateway, and in Config, Db
-- and Startup the environment, the commands that open and save the databases, and both servers.
--
--   Prelude      shared names, lists, texts, and Go's integers with their 64-bit wrap-around
--   GoMap        Go's maps with string keys: nil, or a table in the order of one iteration
--   Exec         actions, and how a sequence of them ran
--   Model        internal/model/challenge.go, internal/constants/constants.go
--   Redis        internal/repo/redis.go
--   Mongo        internal/repo/mongo.go
--   Leaderboard  internal/leaderboard/manager.go; Ranking is the part computed in the process
--   Jwt          internal/jwt/jwt.go
--   Local        internal/local/local.go
--   Password     internal/utils/password.go
--   World        internal/global/state.go; Snapshot is the refresh of a stored leaderboard, which
--                internal/service/challenge.go and internal/wss/handlers/join-challenge.go share
--   Service      internal/service/challenge.go: Proto converts the gRPC records, Lifecycle is
--                CreateChallenge, LeaveChallenge, AbandonChallenge, EndChallenge and the move to the
--                history, Submit is PushSubmissionStatus, Queries are the calls that only read
--   Wss          Json and Socket: internal/wss/types/types.go and internal/model/event.go;
--                Broadcast: internal/wss/broadcasts/broadcast.go; Dispatcher:
--                internal/wss/dispatcher.go; Auth: internal/wss/middleware/auth.go and the JWT
--                middleware of cmd/main.go; Handlers: internal/wss/handlers; Server:
--                internal/wss/server.go and the registrations of cmd/main.go
--   Config       internal/config/env.go
--   Db           internal/db/mongo.go, internal/db/redis.go
--   Startup      cmd/main.go but for its registrations: what main builds, the servers, the end
--   System       the service as a whole: Requests is everything that a client can ask for, Spec says
--                which steps a request may make the challenges take, Documents and Invariant relate
--                it to the shared state; the other files take the operations one by one
--   Tests        libraries in memory, and the theorems at concrete inputs
--
-- An operation has the name of the Go function in lower case with underscores; a long function is
-- split where it returns early, and the parts follow it by name. A child module states what holds of
-- its parent's definitions and is named for that.
--
-- Every loop is a structural recursion on the list that it visits, and the sort's outer loop counts
-- down the number of entries that are left; there is no fuel. `int` and `int64` are integers between
-- -2^63 and 2^63 - 1, and sums and products wrap around. The clock, random bytes, the order in which
-- goroutines answer, the tasks that the worker pool runs and the order of an iteration over a map are inputs.
--
-- System takes requests one after the other, as long as the process is there, and lets every call of a
-- library fail. `log.Fatal` ends the process, and so does a panic in a method of the gRPC service. The specification
-- sees of a challenge who created it, when, with which settings, and its status; who takes part, the
-- submissions and the boards may change freely.
--
-- Not modelled: internal/shared, which nothing uses; the payload types of internal/wss/types and
-- internal/model/event.go that nothing fills; the HTTP upgrade; logging;
-- cancellation of a context; requests that run at the same time, since an action runs from its first
-- to its last call of a library, and servers that run beside each other in cmd/main.go.
pub mod Prelude
pub mod GoMap
pub mod Exec
pub mod Model
pub mod RedisClient
pub mod Redis
pub mod RedisBoard
pub mod Leaderboard
pub mod Jwt
pub mod Wss
pub mod Local
pub mod MongoClient
pub mod Mongo
pub mod World
pub mod Password
pub mod Service
pub mod Config
pub mod Db
pub mod Startup
pub mod System
pub mod Tests
