-- ===== src/Config.antt =====
-- internal/config/env.go: the configuration from the environment. The packages os, strconv and
-- godotenv are a parameter. `log.Fatal` ends the process: in Config, Db and Startup an action that
-- fails either returns its error or ends the process with it, and nothing runs behind it. In a handler the
-- end of the process is an outcome of its own, `cut exited`.
use Prim.Native.String.{◌++◌ as append}
use challenge_service.Prelude.{String, Option, none, some}
use challenge_service.Prelude.Int.{ℤ, pos}
use challenge_service.Exec.{Exec, Result, value, error, gets, call, wrap, ◌>>◌}

pub record Config : Type 0 where
  pub challenge_grpc_port : String
  pub challenge_http_port : String
  pub psql_url : String
  pub mongo_url : String
  pub session_secret_key : String
  pub redis_url : String
  pub redis_password : String
  pub redis_db : ℤ
  pub jwt_secret : String
  pub api_gateway_token_check_url : String

pub record Os : Type 1 where
  pub Env : Type 0
  -- `godotenv.Load()`, which adds the variables of the file `.env`
  pub load_dotenv : Env → Result (Unit {0}) × Env
  -- `os.LookupEnv`
  pub lookup_env : String → Env → Option String
  -- `strconv.Atoi`
  pub atoi : String → Result ℤ

abbrev or_default : String → Option String → String
or_default d none = d
or_default d (some x) = x

abbrev number_or : ℤ → Result ℤ → ℤ
number_or d (value n) = n
number_or d (error _) = d

module _ (os : Os) where
  unfoldable pub get_env : String → String → os.Env → String
  get_env key default env = or_default default (os.lookup_env key env)

  unfoldable pub get_env_int : String → ℤ → os.Env → ℤ
  get_env_int key default env = elim (os.lookup_env key env) [
    | none ↦ default
    | some x ↦ number_or default (os.atoi x)
  ]

  unfoldable pub config_of : os.Env → Config
  unfolding get_env get_env_int
  config_of env = record {
    challenge_grpc_port = get_env "CHALLENGEGRPCPORT" "50057" env;
    psql_url =
        get_env "PSQLURL"
          "host=localhost port=5432 user=admin password=password dbname=xcodedev sslmode=disable"
          env;
    challenge_http_port = get_env "CHALLENGEHTTPPORT" "3333" env;
    session_secret_key = get_env "SESSIONSECRETKEY" "something" env;
    mongo_url = get_env "MONGOURL" "" env;
    redis_url = get_env "REDISURL" "localhost:6379" env;
    redis_password = get_env "REDISPASSWORD" "" env;
    redis_db = get_env_int "REDISDB" (pos 0) env;
    api_gateway_token_check_url =
        get_env "APIGATEWAYTOKENCHECKURL" "http://localhost:7000/api/v1/users/check-token" env;
    jwt_secret = get_env "JWTSECRET" "secrettt" env;
  }

  unfoldable pub load_config : Exec os.Env Config
  unfolding config_of
  load_config = do wrap (append "Error loading .env file") (call os.load_dotenv); gets config_of
