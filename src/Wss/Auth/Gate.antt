-- ===== src/Wss/Auth/Gate.antt =====
-- What the JWT middleware of cmd/main.go lets through.
use challenge_service.Prelude.{
  String, ◌≡◌, false, none, some, [], ◌∷◌, ◌++◌, arith, ◌==◌, inl, inr, eq_refl, eq_iff, Bool-cases,
}
use challenge_service.Exec.{Outcome, ok, value}
use challenge_service.Exec.Laws.{Result-cases}
use challenge_service.Jwt.{CustomClaims, JwtLibrary, validate_token}
use challenge_service.Jwt.Tokens.{to_option, validate_token_nonempty}
use challenge_service.World.{Libraries, World}
use challenge_service.Wss.Json.{Message, null}
use challenge_service.Wss.Socket.{Laws}
use challenge_service.Wss.Broadcast.{
  send_json, send_standard_message, send_error_with_type, standard_message,
}
use challenge_service.Wss.Dispatcher.{
  WsContext, Handler, Dispatcher, register_with_middleware, execute_middleware_chain, dispatch,
}
use challenge_service.Wss.Dispatcher.Chain.{dispatch-register_with_middleware}
use challenge_service.Wss.Auth.{token_of, auth_error, with_claims, admit, jwt_middleware}

-- the notice that a client is sent
abbrev pub auth_notice : String → Message
auth_notice msg = standard_message "AUTH_ERROR" null false (some msg)

-- the token that a request carries
abbrev pub challenge_token : WsContext → String
challenge_token ctx = token_of "challengeToken" ctx.payload

module _ (jwt : JwtLibrary) (secret : String) (lib : Libraries) (law : Laws lib.sockets) where
  admitted :
      (ctx : WsContext) (s : World lib) (claims : CustomClaims)
      → validate_token jwt secret (challenge_token ctx) ≡ value claims
      → jwt_middleware jwt secret lib ctx s ≡ (ok (with_claims jwt secret lib ctx claims), s)
  unfolding jwt_middleware admit
  admitted ctx s claims good = ground (
    arith,
    good,
    eq_iff (challenge_token ctx) "",
    validate_token_nonempty jwt secret (challenge_token ctx) claims good,
  )

  -- The run `out` answered the request with a notice, and only sent it.
  pub record Notified (ctx : WsContext) (s : World lib) (out : Outcome WsContext × World lib)
      : Type 0 where
    pub passed : out.0 ≡ ok ctx
    pub notice : String
    pub told :
        law.sent out.1.local.net ≡ law.sent s.local.net ++ (ctx.conn, auth_notice notice) ∷ []
    pub redis : out.1.redis ≡ s.redis
    pub mongo : out.1.mongo ≡ s.mongo
    pub boards : out.1.boards ≡ s.boards
    pub states : out.1.local.states ≡ s.local.states

  auth_error-Notified :
      (msg : String) (ctx : WsContext) (s : World lib)
      → law.Open ctx.conn s.local.net
      → Notified ctx s (auth_error jwt secret lib msg ctx s)
  unfolding send_error_with_type send_standard_message send_json
  auth_error-Notified msg ctx s h =
      let (wrote, sent') = law.write_json_open ctx.conn (auth_notice msg) s.local.net h in
      record {
        passed = ground (arith, wrote);
        notice = msg;
        told = ground (arith, wrote, sent');
        redis = ground (arith, wrote);
        mongo = ground (arith, wrote);
        boards = ground (arith, wrote);
        states = ground (arith, wrote);
      }

  refused :
      (ctx : WsContext) (s : World lib)
      → to_option (validate_token jwt secret (challenge_token ctx)) ≡ none
      → law.Open ctx.conn s.local.net
      → Notified ctx s (jwt_middleware jwt secret lib ctx s)
  unfolding jwt_middleware admit
  refused ctx s bad open' = elim (Bool-cases (challenge_token ctx == "")) [
    | inl e ↦ rw e (auth_error-Notified "Authentication token required" ctx s open')
    | inr e ↦ elim (Result-cases (validate_token jwt secret (challenge_token ctx))) [
      | inl (claims, ok') ↦ absurd (ground (arith, ok', bad))
      | inr (msg, failed) ↦
          rw (e, failed) (auth_error-Notified "Invalid or expired token" ctx s open')
    ]
  ]

  -- After a registration behind the JWT middleware, a request for the event whose token is missing
  -- or is not valid, on a connection that can be written to, is answered with AUTH_ERROR, and the
  -- middleware reports no error: the handler behind it runs, with the context of the request
  -- unchanged, on a state that differs from the one before only in the notice that was sent.
  pub dispatch_unauthenticated :
      (event : String) (h : Handler (World lib)) (d : Dispatcher (World lib)) (ctx : WsContext)
      (s : World lib)
      → to_option (validate_token jwt secret (challenge_token ctx)) ≡ none
      → law.Open ctx.conn s.local.net
      → (out : Outcome WsContext × World lib) × Notified ctx s out
        × (dispatch
              (World lib)
              (register_with_middleware (World lib) event h (jwt_middleware jwt secret lib ∷ []) d)
              event
              ctx
              s
            ≡ h ctx out.1)
  unfolding execute_middleware_chain
  dispatch_unauthenticated event h d ctx s bad open' =
      let n = refused ctx s bad open' in
      let run =
        dispatch-register_with_middleware (World lib) event h (jwt_middleware jwt secret lib ∷ []) d
          event ctx s in
      (jwt_middleware jwt secret lib ctx s, n, ground (arith, run, n.passed, eq_refl event))

  -- After a registration behind the JWT middleware, a request for the event whose token proves its
  -- claims runs the handler on the claims and the user of the token, and nothing is sent before.
  pub dispatch_authenticated :
      (event : String) (h : Handler (World lib)) (d : Dispatcher (World lib)) (ctx : WsContext)
      (s : World lib) (claims : CustomClaims)
      → validate_token jwt secret (challenge_token ctx) ≡ value claims
      → dispatch
          (World lib)
          (register_with_middleware (World lib) event h (jwt_middleware jwt secret lib ∷ []) d)
          event
          ctx
          s
        ≡ h (record ctx { claims = some claims; user_id = claims.user_id }) s
  unfolding execute_middleware_chain
  dispatch_authenticated event h d ctx s claims good =
      let run =
        dispatch-register_with_middleware (World lib) event h (jwt_middleware jwt secret lib ∷ []) d
          event ctx s in
      ground (arith, run, admitted ctx s claims good, eq_refl event)
