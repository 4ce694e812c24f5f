-- ===== src/Wss/Dispatcher.antt =====
-- internal/wss/dispatcher.go: handlers by event, each behind a chain of middleware. A middleware may
-- change the context that the next one, and the handler, is given.
pub mod Chain
use Prim.Native.String.{◌++◌ as append}
use challenge_service.Prelude.{ℕ, String, Option, none, some, List, [], ◌∷◌}
use challenge_service.GoMap.{GoMap, made, lookup, insert}
use challenge_service.Exec.{Exec, pure, fail, ◌>>=◌, ◌>>◌}
use challenge_service.Jwt.{CustomClaims}
use challenge_service.Wss.Json.{Json}

-- types.go: the context of one message; the shared state is that of the actions
pub record WsContext : Type 0 where
  pub conn : ℕ
  pub payload : GoMap Json
  pub user_id : String
  pub event_type : String
  pub claims : Option CustomClaims

module _ (S : Type 0) where
  abbrev pub Handler : Type 0
  Handler = WsContext → Exec S Unit

  abbrev pub Middleware : Type 0
  Middleware = WsContext → Exec S WsContext

  pub record HandlerRegistration : Type 0 where
    pub handler : Handler
    pub middlewares : List Middleware

  abbrev pub Dispatcher : Type 0
  Dispatcher = GoMap HandlerRegistration

  abbrev pub new_dispatcher : Dispatcher
  new_dispatcher = made []

  unfoldable pub register : String → Handler → Dispatcher → Dispatcher
  register event h d = insert event (record { handler = h; middlewares = [] }) d

  unfoldable pub register_with_middleware :
      String → Handler → List Middleware → Dispatcher → Dispatcher
  register_with_middleware event h ms d = insert event (record { handler = h; middlewares = ms }) d

  unfoldable pub execute_middleware_chain : List Middleware → WsContext → Exec S WsContext
  execute_middleware_chain [] ctx = pure ctx
  execute_middleware_chain (m ∷ ms) ctx = do ctx' ← m ctx; execute_middleware_chain ms ctx'

  unfoldable pub run_registration : HandlerRegistration → WsContext → Exec S Unit
  run_registration r ctx = do ctx' ← execute_middleware_chain r.middlewares ctx; r.handler ctx'

  unfoldable pub dispatch : Dispatcher → String → WsContext → Exec S Unit
  unfolding run_registration
  dispatch d event ctx = elim (lookup event d) [
    | none ↦ fail (append "unknown event type: " event)
    | some r ↦ run_registration r ctx
  ]
