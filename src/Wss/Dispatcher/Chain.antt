-- ===== src/Wss/Dispatcher/Chain.antt =====
-- How a message passes through the middleware of its event to the handler.
use challenge_service.Prelude.{
  String, ◌≡◌, refl, if◌then◌else◌, List, [], ◌∷◌, ◌++◌, arith, ◌==◌, inl, inr,
}
use challenge_service.GoMap.{lookup-insert}
use challenge_service.Exec.{◌>>=◌}
use challenge_service.Exec.Laws.{Outcome-cases}
use challenge_service.Wss.Dispatcher.{
  WsContext, Handler, Middleware, Dispatcher, register_with_middleware, execute_middleware_chain,
  run_registration, dispatch,
}

module _ (S : Type 0) where
  -- A chain of two parts runs the second part on the context that the first part returns, and not
  -- at all if the first part fails.
  pub execute_middleware_chain-append :
      (ms ns : List (Middleware S)) (ctx : WsContext) (s : S)
      → execute_middleware_chain S (ms ++ ns) ctx s
        ≡ (execute_middleware_chain S ms ctx >>= execute_middleware_chain S ns) s
  unfolding execute_middleware_chain
  execute_middleware_chain-append [] ns ctx s = refl
  execute_middleware_chain-append (m ∷ ms) ns ctx s =
      let (r, s') = m ctx s in
      elim (Outcome-cases r) [
        | inl (ctx', e) ↦ rw e (execute_middleware_chain-append ms ns ctx' s')
        | inr (inl (msg, e)) ↦ rw e refl
        | inr (inr (inl e)) ↦ rw e refl
        | inr (inr (inr (w, e))) ↦ rw e refl
      ]

  -- After a registration an event with the registered name runs the middleware and then the
  -- handler; any other event is dispatched as before.
  pub dispatch-register_with_middleware :
      (event : String) (h : Handler S) (ms : List (Middleware S)) (d : Dispatcher S)
      (other : String) (ctx : WsContext) (s : S)
      → dispatch S (register_with_middleware S event h ms d) other ctx s ≡ (
          if event == other
          then (execute_middleware_chain S ms ctx >>= h) s
          else dispatch S d other ctx s)
  unfolding dispatch register_with_middleware run_registration
  dispatch-register_with_middleware event h ms d other ctx s =
      ground (arith, lookup-insert event other (record { handler = h; middlewares = ms }) d)
