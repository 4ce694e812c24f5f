-- ===== src/Tests/Startup.antt =====
-- The theorems about the start and the end of the process at concrete inputs.
use Prim.Native.String.{◌++◌ as append}
use challenge_service.Prelude.{map, String, ◌≡◌, ◌⊎◌, ◌↔◌, refl, none, List, [], ◌∷◌}
use challenge_service.Prelude.Int.{pos}
use challenge_service.GoMap.{made, find, lookup}
use challenge_service.Exec.{ok, err, value, error}
use challenge_service.Config.{Os, get_env}
use challenge_service.Db.{RedisAdmin, MongoServer, init_db, save_redis_data}
use challenge_service.Db.Saving.{AdminLaws, save_redis_data_lem}
use challenge_service.Startup.{Machine, Service}
use challenge_service.Startup.Opening.{IsAvailable, env_after}
use challenge_service.Startup.Fresh.{built, initialize_iff, initialize-Holds}
use challenge_service.System.Invariant.{Holds}
use challenge_service.Tests.Memory.{Table, libraries, redis, redis_laws}
use challenge_service.Tests.Data.{table}
use challenge_service.Tests.System.{view, shows, busy}
use challenge_service.Tests.Messages.{jwt}
use challenge_service.Tests.Handlers.{codec}
use challenge_service.Startup.Restart.{initialize-serve_all}
use challenge_service.System.Documents.{View}
use challenge_service.System.Spec.{Runs}
use challenge_service.System.Requests.{author, serve_all}

-- a server that cannot save in the background
abbrev admin : RedisAdmin Table
admin = record {
  connect = λ o. table;
  ping = λ t. (value tt, t);
  config_set = λ p x t. (error "disabled", t);
  bg_save = λ t. (error "busy", t);
  save = λ t. (value tt, t);
  info = λ s t. (value "loading:0", t);
  db_size = λ t. (value (pos 2), t);
}

abbrev admin_laws : AdminLaws redis redis_laws admin
admin_laws = record {
  peek-ping = λ t k. refl;
  peek-config_set = λ p x t k. refl;
  peek-bg_save = λ t k. refl;
  peek-save = λ t k. refl;
  peek-info = λ s t k. refl;
  peek-db_size = λ t k. refl;
}

save_redis_data_lem_example :
    ((save_redis_data admin table).0 ≡ ok tt ↔ (
      ((admin.bg_save table).0 ≡ value tt) ⊎ ((admin.save (admin.bg_save table).1).0 ≡ value tt)))
    × ((admin.bg_save table).0 ≡ value tt
        → (save_redis_data admin table).1 ≡ (admin.bg_save table).1)
    × ((e : String)
        → (save_redis_data admin table).0 ≡ err e
        → (cause : String) × ((admin.save (admin.bg_save table).1).0 ≡ error cause)
          × (e ≡ append "failed to save Redis data: " cause))
    × ((k : String) → redis_laws.peek (save_redis_data admin table).1 k ≡ redis_laws.peek table k)
save_redis_data_lem_example = save_redis_data_lem redis redis_laws admin admin_laws table

-- an environment is a table of variables, to which the file adds a secret
abbrev os : Os
os = record {
  Env = List (String × String);
  load_dotenv = λ env. (value tt, ("JWTSECRET", "hush") ∷ env);
  lookup_env = λ k env. find k env;
  atoi = λ x. error "no number";
}

abbrev servers : MongoServer Table
servers = record { connect = λ url. value []; ping = λ t. (value tt, t) }

abbrev machine : Machine libraries
machine = record { os = os; redis = admin; mongo = servers }

available : IsAvailable libraries machine []
unfolding init_db
available = record {
  server = [];
  loaded = refl;
  connected = refl;
  answered = refl;
  pinged = refl;
  reloaded = refl;
}

abbrev service : Service libraries
service = built libraries machine [] [] [] available

initialize-Holds_example :
    Holds libraries redis_laws view service.state
    × ((id : String) → lookup id service.state.boards.boards ≡ none)
    × (service.state.local.states ≡ made [])
    × (service.jwt_secret
        ≡ get_env os "JWTSECRET" "secrettt"
            (env_after libraries machine (env_after libraries machine [])))
initialize-Holds_example =
    initialize-Holds libraries machine [] [] [] redis_laws view service admin_laws shows
      ((initialize_iff libraries machine [] [] []).1 available)

-- the next process, on the Redis that the first left
abbrev next_admin : RedisAdmin Table
next_admin = record admin {
  connect = λ o. (serve_all libraries jwt service.jwt_secret codec busy service.state).redis;
}

abbrev next : Machine libraries
next = record { os = os; redis = next_admin; mongo = servers }

abbrev next_laws : AdminLaws redis redis_laws next_admin
next_laws = record {
  peek-ping = λ t k. refl;
  peek-config_set = λ p x t k. refl;
  peek-bg_save = λ t k. refl;
  peek-save = λ t k. refl;
  peek-info = λ s t k. refl;
  peek-db_size = λ t k. refl;
}

next_available : IsAvailable libraries next []
unfolding init_db
next_available = record {
  server = [];
  loaded = refl;
  connected = refl;
  answered = refl;
  pinged = refl;
  reloaded = refl;
}

initialize-serve_all_example :
    (w : View) × (Runs (map author busy) view w)
    × Holds libraries redis_laws w (built libraries next [] [] [] next_available).state
initialize-serve_all_example =
    initialize-serve_all libraries redis_laws jwt codec machine next [] [] [] [] [] [] view busy
      service (built libraries next [] [] [] next_available) admin_laws next_laws shows
      ((initialize_iff libraries machine [] [] []).1 available) (λ k. refl)
      ((initialize_iff libraries next [] [] []).1 next_available)
