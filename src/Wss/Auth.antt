-- ===== src/Wss/Auth.antt =====
-- internal/wss/middleware/auth.go, and the JWT middleware that cmd/main.go puts before
-- RETRIEVE_CHALLENGE and CURRENT_LEADERBOARD.
pub mod Gate
pub mod Access
use Prim.Native.String.{len, slice}
use package.text.Mathlib.Text.{starts_with}
use challenge_service.Prelude.{
  String, Bool, true, false, Option, none, some, ◌==◌, ◌||◌, if◌then◌else◌,
}
use challenge_service.GoMap.{GoMap, lookup}
use challenge_service.Exec.{Exec, Result, value, error, pure, fail, lift, ◌>>=◌, ◌>>◌}
use challenge_service.Jwt.{CustomClaims, JwtLibrary, validate_token}
use challenge_service.Redis
use challenge_service.World.{Libraries, World, on_redis, on_net}
use challenge_service.Wss.Json.{Json, text, bool, null, object, field, end}
use challenge_service.Wss.Broadcast.{send_error_with_type}
use challenge_service.Wss.Dispatcher.{WsContext, Middleware}

-- `token, _ := ctx.Payload[key].(string)`
abbrev pub token_of_value : Option Json → String
token_of_value (some (text s)) = s
token_of_value _ = ""

abbrev pub token_of : String → GoMap Json → String
token_of key payload = token_of_value (lookup key payload)

-- `strings.CutPrefix(token, "Bearer ")`
abbrev pub without_bearer : String → String
without_bearer token = if starts_with token "Bearer " then slice token 7 (len token) else token

module _ (jwt : JwtLibrary) (secret : String) (lib : Libraries) where
  -- `return broadcasts.SendErrorWithType(...)`: the error of the write, or nil
  abbrev pub auth_error : String → WsContext → Exec (World lib) WsContext
  auth_error msg ctx = do
    on_net lib (send_error_with_type lib.sockets ctx.conn "AUTH_ERROR" msg null)
    pure ctx

  abbrev pub with_claims : WsContext → CustomClaims → WsContext
  with_claims ctx c = record ctx { claims = some c; user_id = c.user_id }

  unfoldable pub admit : Result CustomClaims → WsContext → Exec (World lib) WsContext
  admit (error _) ctx = auth_error "Invalid or expired token" ctx
  admit (value c) ctx = pure (with_claims ctx c)

  -- the two middlewares differ in the key of the payload that holds the token
  unfoldable pub jwt_middleware_at : String → Middleware (World lib)
  unfolding admit
  jwt_middleware_at key ctx =
      let token = token_of key ctx.payload in
      if token == ""
      then auth_error "Authentication token required" ctx
      else admit (validate_token jwt secret token) ctx

  -- the middleware of main.go
  unfoldable pub jwt_middleware : Middleware (World lib)
  unfolding jwt_middleware_at
  jwt_middleware = jwt_middleware_at "challengeToken"

  -- that of auth.go
  unfoldable pub auth_middleware : Middleware (World lib)
  unfolding jwt_middleware_at
  auth_middleware = jwt_middleware_at "token"

  abbrev validated : Result CustomClaims → Result CustomClaims
  validated (value c) = value c
  validated (error _) = error "invalid or expired token"

  unfoldable pub authenticate_jwt : String → Exec (World lib) CustomClaims
  authenticate_jwt token =
      if token == ""
      then fail "token is required"
      else lift (validated (validate_token jwt secret (without_bearer token)))

  unfoldable pub check_challenge_access : String → String → Exec (World lib) Unit
  check_challenge_access user challenge =
      if user == "" || challenge == "" then fail "userID and challengeID are required" else do
        can ← on_redis lib (Redis.can_join lib.redis challenge user)
        if can then pure tt else fail "user cannot join this challenge"

  unfoldable pub authorize_join_challenge : String → String → Exec (World lib) CustomClaims
  unfolding authenticate_jwt check_challenge_access
  authorize_join_challenge token challenge = do
    claims ← authenticate_jwt token
    if claims.challenge_id == challenge
        then (do check_challenge_access claims.user_id challenge; pure claims)
        else fail "challenge ID mismatch"

  unfoldable pub send_auth_error : WsContext → String → String → Exec (World lib) Unit
  send_auth_error ctx kind msg = on_net lib (
      send_error_with_type lib.sockets ctx.conn kind msg
        (object (field "authError" (bool true) end)))
