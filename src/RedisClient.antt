-- ===== src/RedisClient.antt =====
-- What the service uses of Redis (github.com/redis/go-redis) and of encoding/json. Both are outside
-- the repository: a client is a parameter, and `Laws` is the behaviour that their documentation
-- promises. A call may fail at any time, and the state `Db` says what the next calls will do.
use challenge_service.Prelude.{String, ◌≡◌, ◌≢◌, ◌↔◌, ◌⊎◌, Option, none, some, List}
use challenge_service.Exec.{Result, value, error}
use challenge_service.Model.{ChallengeDocument}
use mathlib.Core.List.{Mem}
use text.Mathlib.Text.{starts_with}
use challenge_service.Prelude.{true}

pub record RedisClient : Type 1 where
  pub Db : Type 0
  pub Bytes : Type 0
  -- `client.Get`: `none` is the error `redis.Nil`
  pub get : String → Db → Result (Option Bytes) × Db
  -- `client.Set` with no expiry
  pub set : String → Bytes → Db → Result (Unit {0}) × Db
  -- `client.Del`
  pub del : String → Db → Result (Unit {0}) × Db
  -- `client.Keys(prefix + "*")`
  pub keys : String → Db → Result (List String) × Db
  -- `json.Marshal` and `json.Unmarshal` of a challenge document
  pub marshal : ChallengeDocument → Result Bytes
  pub unmarshal : Bytes → Result ChallengeDocument

-- What a call returns, if it returns no error.
abbrev pub Reports {ℓ} : {A : Type ℓ} → Result A → A → Type ℓ
Reports (value a) b = a ≡ b
Reports (error _) b = Unit

-- The bytes of a value that `Keys` and `Get` would find, and whether the server is reachable.
pub record Laws (c : RedisClient) : Type 1 where
  pub peek : c.Db → String → Option c.Bytes
  pub Up : c.Db → Type 0
  -- reads change nothing, and report what is stored
  pub peek-get : (k : String) (db : c.Db) (j : String) → peek (c.get k db).1 j ≡ peek db j
  pub get_lem : (k : String) (db : c.Db) → Reports (c.get k db).0 (peek db k)
  pub peek-keys : (p : String) (db : c.Db) (j : String) → peek (c.keys p db).1 j ≡ peek db j
  pub keys_lem :
      (p : String) (db : c.Db) (l : List String)
      → (c.keys p db).0 ≡ value l
      → (k : String) → Mem k l ↔ ((starts_with k p ≡ true) × (peek db k ≢ none))
  -- a write that reports success has happened, one that fails may have, and no write touches
  -- another key
  pub peek-set :
      (k : String) (b : c.Bytes) (db : c.Db)
      → (c.set k b db).0 ≡ value tt
      → peek (c.set k b db).1 k ≡ some b
  pub peek-set_cases :
      (k : String) (b : c.Bytes) (db : c.Db)
      → (peek (c.set k b db).1 k ≡ some b) ⊎ (peek (c.set k b db).1 k ≡ peek db k)
  pub peek-set_ne :
      (k : String) (b : c.Bytes) (db : c.Db) (j : String)
      → k ≢ j
      → peek (c.set k b db).1 j ≡ peek db j
  pub peek-del : (k : String) (db : c.Db) → (c.del k db).0 ≡ value tt → peek (c.del k db).1 k ≡ none
  pub peek-del_cases :
      (k : String) (db : c.Db)
      → (peek (c.del k db).1 k ≡ none) ⊎ (peek (c.del k db).1 k ≡ peek db k)
  pub peek-del_ne :
      (k : String) (db : c.Db) (j : String) → k ≢ j → peek (c.del k db).1 j ≡ peek db j
  -- a reachable server answers
  pub get_up :
      (k : String) (db : c.Db) → Up db → ((c.get k db).0 ≡ value (peek db k)) × Up (c.get k db).1
  pub set_up :
      (k : String) (b : c.Bytes) (db : c.Db)
      → Up db
      → ((c.set k b db).0 ≡ value tt) × Up (c.set k b db).1
  pub del_up : (k : String) (db : c.Db) → Up db → ((c.del k db).0 ≡ value tt) × Up (c.del k db).1
  pub keys_up :
      (p : String) (db : c.Db)
      → Up db
      → (l : List String) × ((c.keys p db).0 ≡ value l) × Up (c.keys p db).1
  -- a document is encoded, and decoding returns it
  pub marshal_lem :
      (d : ChallengeDocument) → (b : c.Bytes) × (c.marshal d ≡ value b) × (c.unmarshal b ≡ value d)
