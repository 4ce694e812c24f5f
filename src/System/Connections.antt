-- ===== src/System/Connections.antt =====
-- A message to the dispatcher of cmd/main.go, and the end of a connection, never panic where the
-- invariant holds, come back but for one reason, and keep what every challenge is: whatever a client sends.
use mathlib.Core.Path.{subst}
use challenge_service.Prelude.{
  ℕ, String, ◌≡◌, Bool-cases, some, Option-cases, inl, inr, List, [], ◌∷◌, ◌==◌, ◌||◌, arith, All,
}
use challenge_service.Prelude.Int.{ℤ}
use challenge_service.GoMap.{GoMap, lookup, insert, delete, lookup-insert}
use challenge_service.Exec.{Cut, Result, value, error, gets, call}
use challenge_service.Model.{ChallengeDocument}
use challenge_service.Jwt.{JwtLibrary}
use challenge_service.RedisClient
use challenge_service.Local.{Hub, get_ws_client, get_all_ws_clients, close_conn, remove_ws_client}
use challenge_service.Local.Events.{
  IsBounded, removes_session, step, step-IsBounded, update_existing-IsBounded,
}
use challenge_service.World.{Libraries, World}
use challenge_service.Wss.Socket.{Sockets}
use challenge_service.Wss.Broadcast.{broadcast_entity_left}
use challenge_service.Wss.Broadcast.Total.{broadcast_entity_left_ok}
use challenge_service.Wss.Dispatcher.{
  WsContext, Middleware, HandlerRegistration, Dispatcher, new_dispatcher, Handler, register,
  register_with_middleware, execute_middleware_chain, run_registration, dispatch,
}
use challenge_service.Wss.Auth.{jwt_middleware}
use challenge_service.Wss.Handlers.{Codec, Gateway, Clock}
use challenge_service.Wss.Server.{tell_left, disconnect, cleanup_connection, pong, main_dispatcher}
use challenge_service.System.Safety.{
  Ends, Ends-Safe, Ends-bind, Anything, Got, Safe, Safe-pure, Safe-fail, Safe-gets, Safe-modify,
  Safe-if, Safe-bind, Safe-attempt, Safe-zoom,
}
use challenge_service.System.Boards.{call-Safe}
use challenge_service.System.Documents.{View, Known}
use challenge_service.System.Invariant.{Holds, Safe-local, Safe-told, send_object-Safe}
use challenge_service.System.Steps.{fetch-Safe, remove-Safe}
use challenge_service.System.Joining.{join_challenge_handler-Ends}
use challenge_service.Wss.Handlers.Join.Environment.{Unloaded}
use challenge_service.System.Handlers.{
  retreive_challenge-Safe, get_leaderboard_handler-Safe, jwt_middleware-Safe,
}

module _ (w : Sockets) where
  abbrev Calm : Hub w → Type 0
  Calm hub = IsBounded hub.states

  pub close_conn-Safe : (conn : ℕ) → Safe Calm Anything (close_conn w conn)
  close_conn-Safe conn =
      let closing =
        Safe-zoom Calm (λ net. Unit {0}) (λ h. h.net) (λ n h. record h { net = n }) (λ h i. tt)
          (λ n h i j. i) Anything (call (w.close conn))
          (call-Safe (λ net. Unit {0}) (w.close conn) (λ net i. tt)) in
      Safe-bind Calm (Got Anything) Anything _ _ (Safe-attempt Calm Anything _ closing)
        λ r _. Safe-pure Calm Anything tt tt

  remove_ws_client-Safe : (id user : String) → Safe Calm Anything (remove_ws_client w id user)
  unfolding remove_ws_client
  remove_ws_client-Safe id user h i = elim (Option-cases (get_ws_client id user h.states)) [
    | inl e ↦ rw (e, remove_ws_client) (Safe-pure Calm Anything tt tt h i)
    | inr (conn, e) ↦
        rw (e, remove_ws_client)
          (Safe-bind Calm Anything Anything _ _ (close_conn-Safe conn)
            (λ u _. Safe-modify Calm _ tt (λ k b.
              update_existing-IsBounded id (λ t. record t { ws_clients = delete user t.ws_clients })
                (λ t ht. ht) k.states b))
            h i)
  ]

module _ (lib : Libraries) (rlaw : RedisClient.Laws lib.redis) (v : View) where
  abbrev I : World lib → Type 0
  I = Holds lib rlaw v

  disconnect-Safe : (user challenge : String) → Safe I Anything (disconnect lib user challenge)
  unfolding disconnect step
  disconnect-Safe user challenge =
      Safe-bind I Anything Anything _ _
        (Safe-local lib rlaw v _ (remove_ws_client-Safe lib.sockets challenge user))
        λ u _. Safe-modify I _ tt (λ s h. record {
          redis = h.redis;
          boards = h.boards;
          events = step-IsBounded (removes_session challenge user) s.local.states h.events;
        })

  tell_left-Safe :
      (user challenge : String) (now : ℤ) (r : Result ChallengeDocument)
      → Safe I Anything (tell_left lib user challenge now r)
  tell_left-Safe user challenge now (error e) = Safe-pure I Anything tt tt
  tell_left-Safe user challenge now (value d) =
      let clients_of : World lib → GoMap ℕ = λ s. get_all_ws_clients challenge s.local.states in
      Safe-bind I Anything Anything (gets clients_of) _ (Safe-gets I clients_of) λ clients _.
        Safe-told lib rlaw v
          (broadcast_entity_left lib.sockets clients user challenge (user == d.creator_id) now)
          (λ net.
            broadcast_entity_left_ok lib.sockets clients challenge user now net
              (user == d.creator_id))

  pub cleanup_connection-Safe :
      (user challenge : String) (now : ℤ)
      → Safe I Anything (cleanup_connection lib user challenge now)
  unfolding cleanup_connection
  cleanup_connection-Safe user challenge now =
      Safe-if I Anything (user == "" || challenge == "") _ _ (λ _. Safe-pure I Anything tt tt)
        λ _. Safe-bind I Anything Anything _ _ (remove-Safe lib rlaw v challenge user) λ a _.
          Safe-bind I (Got (Known v challenge)) Anything _ _ (fetch-Safe lib rlaw v challenge)
            λ r _.
              Safe-bind I Anything Anything _ _ (disconnect-Safe user challenge)
                λ u _. tell_left-Safe user challenge now r

  -- middleware that is safe at every context
  abbrev AllSafe : List (Middleware (World lib)) → Type 0
  AllSafe = All (λ m. (ctx : WsContext) → Safe I Anything (m ctx))

  chain-Safe :
      (ms : List (Middleware (World lib))) (ctx : WsContext)
      → AllSafe ms
      → Safe I Anything (execute_middleware_chain (World lib) ms ctx)
  unfolding execute_middleware_chain
  chain-Safe [] ctx h = Safe-pure I Anything ctx tt
  chain-Safe (m ∷ ms) ctx h =
      Safe-bind I Anything Anything _ _ (h.0 ctx) λ ctx' _. chain-Safe ms ctx' h.1

  module _ (E : Cut → Type 0) where
    -- whatever the event, its handler behind its middleware comes back, or has a reason
    record Serves (d : Dispatcher (World lib)) : Type 0 where
      pub at :
          (event : String) (r : HandlerRegistration (World lib))
          → lookup event d ≡ some r
          → (ctx : WsContext) → Ends I E (run_registration (World lib) r ctx)

    new_dispatcher-Serves : Serves (new_dispatcher (World lib))
    unfolding lookup
    new_dispatcher-Serves = record { at = λ event r e. cc }

    insert-Serves :
        (event : String) (r : HandlerRegistration (World lib)) (d : Dispatcher (World lib))
        → ((ctx : WsContext) → Ends I E (run_registration (World lib) r ctx))
        → Serves d
        → Serves (insert event r d)
    insert-Serves event r d h k = record {
      at = λ j x e. elim (Bool-cases (event == j)) [
        | inl same ↦
            subst (λ y. (ctx : WsContext) → Ends I E (run_registration (World lib) y ctx))
              (ground (arith, lookup-insert event j r d, same, e)) h
        | inr other ↦ k.at j x (ground (arith, lookup-insert event j r d, other, e))
      ];
    }

    module _ (event : String) (h : Handler (World lib)) (d : Dispatcher (World lib))
        (safe : (ctx : WsContext) → Ends I E (h ctx)) where
      register_with_middleware-Serves :
          (ms : List (Middleware (World lib)))
          → AllSafe ms
          → Serves d
          → Serves (register_with_middleware (World lib) event h ms d)
      unfolding register_with_middleware run_registration
      register_with_middleware-Serves ms all k =
          insert-Serves event _ d
            (λ ctx. Ends-bind I E Anything _ _ (chain-Safe ms ctx all) λ ctx' _. safe ctx') k

      register-Serves : Serves d → Serves (register (World lib) event h d)
      unfolding register run_registration
      register-Serves k =
          insert-Serves event _ d
            (λ ctx. Ends-bind I E Anything _ _ (chain-Safe [] ctx tt) λ ctx' _. safe ctx') k

    dispatch-Ends :
        (d : Dispatcher (World lib)) (event : String) (ctx : WsContext)
        → Serves d
        → Ends I E (dispatch (World lib) d event ctx)
    unfolding dispatch
    dispatch-Ends d event ctx k s i = elim (Option-cases (lookup event d)) [
      | inl e ↦ rw (e, dispatch) (Ends-Safe I E _ (Safe-fail I Anything _) s i)
      | inr (r, e) ↦ rw (e, dispatch) (k.at event r e ctx s i)
    ]

  module _ (jwt : JwtLibrary) (secret : String) (codec : Codec) (conn : ℕ) (ip : String)
      (gateway : Gateway) (now : Clock) where
    -- Each event that main.go registers.
    main_dispatcher-Serves :
        Serves (Unloaded gateway) (main_dispatcher lib jwt secret codec conn ip gateway now)
    unfolding main_dispatcher pong
    main_dispatcher-Serves =
        let E = Unloaded gateway in
        let auth : AllSafe (jwt_middleware jwt secret lib ∷ []) =
          ((λ ctx. jwt_middleware-Safe lib rlaw v ctx jwt secret), tt) in
        register_with_middleware-Serves E _ _ _
          (λ ctx. Ends-Safe I E _ (get_leaderboard_handler-Safe lib rlaw v ctx codec)) _ auth
          (register_with_middleware-Serves E _ _ _
            (λ ctx. Ends-Safe I E _ (retreive_challenge-Safe lib rlaw v ctx codec)) _ auth
            (register-Serves E _ _ _
              (λ ctx. join_challenge_handler-Ends lib rlaw v jwt secret now ip ctx codec gateway)
              (register-Serves E _ _ _
                (λ ctx. Ends-Safe I E _ (send_object-Safe lib rlaw v ctx.conn _))
                (new_dispatcher-Serves E))))

    pub message-Ends :
        (event : String) (ctx : WsContext)
        → Ends I (Unloaded gateway) (
            dispatch
              (World lib)
              (main_dispatcher lib jwt secret codec conn ip gateway now)
              event
              ctx)
    message-Ends event ctx = dispatch-Ends (Unloaded gateway) _ event ctx main_dispatcher-Serves
