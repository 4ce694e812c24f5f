-- ===== src/Tests/Messages.antt =====
-- The theorems about connections, events, broadcasts and tokens at concrete inputs.
use challenge_service.Prelude.{
  ℕ, ◌+◌, String, ◌≡◌, refl, Bool, true, none, some, [], ◌∷◌, arith, ◌==◌, ◌&&◌, eq_iff, sym, ◌∙◌,
  if◌then◌else◌,
}
use challenge_service.Prelude.Int.{pos}
use challenge_service.GoMap.{made, lookup, find}
use challenge_service.Exec.{Outcome, ok, Result, value, error, pure}
use challenge_service.Model.{ChallengeDocument}
use challenge_service.Jwt.{CustomClaims, JwtLibrary, generate_token, validate_token}
use challenge_service.Jwt.Tokens.{to_option, SignLaws, validate_token-generate_token}
use challenge_service.Local.{States, add_ws_client, Hub}
use challenge_service.Wss.Json.{text, null}
use challenge_service.Wss.Broadcast.{
  retrieve_challenge, broadcast_standard_message, standard_message,
}
use challenge_service.Wss.Broadcast.Delivery.{copies, broadcast_standard_message_lem}
use challenge_service.Wss.Dispatcher.{
  WsContext, Handler, Middleware, new_dispatcher, register_with_middleware, dispatch,
}
use challenge_service.World.{World}
use challenge_service.Redis
use challenge_service.Redis.View.{stored}
use challenge_service.Redis.Admission.{MayJoin}
use challenge_service.Wss.Auth.{
  without_bearer, authenticate_jwt, check_challenge_access, jwt_middleware,
  authorize_join_challenge,
}
use challenge_service.Wss.Auth.Gate.{Notified, dispatch_unauthenticated}
use challenge_service.Wss.Auth.Access.{authorize_join_challenge_sound}
use challenge_service.Tests.Memory.{sockets, socket_laws, libraries, redis_laws}
use challenge_service.Tests.Data.{world, differ}

-- bob is connected to one challenge
abbrev connected : States
connected = add_ws_client "c1" "bob" 7 (made [])

abbrev hub : Hub sockets
hub = record { states = connected; net = [] }

broadcast_standard_message_lem_example :
    let out =
      broadcast_standard_message sockets
        (made (("bob", 7) ∷ ("eve", 8) ∷ []))
        "HELLO"
        null
        true
        none
        [] in
    (out.0 ≡ ok tt)
    × (out.1
        ≡ copies sockets socket_laws
            (standard_message "HELLO" null true none)
            (("bob", 7) ∷ ("eve", 8) ∷ []))
broadcast_standard_message_lem_example =
    broadcast_standard_message_lem sockets socket_laws (made (("bob", 7) ∷ ("eve", 8) ∷ [])) "HELLO"
      null true none [] (tt, (tt, tt))

abbrev context : WsContext
context = record {
  conn = 7;
  payload = made (("challengeToken", text "signed") ∷ []);
  user_id = "";
  event_type = retrieve_challenge;
  claims = none;
}

-- a middleware that names the user, and a handler that counts its runs
abbrev names : String → Middleware ℕ
names user ctx = pure (record ctx { user_id = user })

abbrev counts : Handler ℕ
counts ctx n = (ok tt, n + 1)

-- one token, which only this key verifies
abbrev eves_claims : CustomClaims
eves_claims = record { user_id = "eve"; challenge_id = "c1"; entity_type = "" }

abbrev signs : CustomClaims → String → Bool
signs c key =
    c.user_id == "eve" && (c.challenge_id == "c1" && (c.entity_type == "" && key == "key"))

abbrev read_with : Result String → Result (CustomClaims × Bool)
read_with (error e) = error e
read_with (value key) =
    if key == "key" then value (eves_claims, true) else error "signature is invalid"

abbrev pub jwt : JwtLibrary
jwt = record {
  parse_with_claims =
      λ f token. if token == "signed" then read_with (f true) else error "malformed";
  parse_unverified = λ token. if token == "signed" then value eves_claims else error "malformed";
  sign = λ c r key. if signs c key then value "signed" else error "no";
}

is_signed :
    (c : CustomClaims) (key token : String)
    → (if signs c key then value "signed" else error "no") ≡ value token
    → (token ≡ "signed")
      × ((c.user_id ≡ "eve") × (c.challenge_id ≡ "c1") × (c.entity_type ≡ "") × (key ≡ "key"))
is_signed c key token h = ground (
  arith,
  h,
  eq_iff c.user_id "eve",
  eq_iff c.challenge_id "c1",
  eq_iff c.entity_type "",
  eq_iff key "key",
)

reads_back :
    (c : CustomClaims) (key token : String) (f : Bool → Result String)
    → (if signs c key then value "signed" else error "no") ≡ value token
    → f true ≡ value key
    → (if token == "signed" then read_with (f true) else error "malformed") ≡ value (c, true)
reads_back c key token f h given =
    let (named, (who, what, kind, by)) = is_signed c key token h in
    ground (arith, named, who, what, kind, by, given, eq_iff token "signed", eq_iff key "key")

abbrev jwt_laws : SignLaws jwt
jwt_laws = record {
  InForce = λ r. Unit;
  sign-nonempty =
      λ c r key token h empty. differ "signed" "" refl (sym (is_signed c key token h).0 ∙ empty);
  parse-sign = λ c r key token f h live given. reads_back c key token f h given;
}

validate_token-generate_token_example : validate_token jwt "key" "signed" ≡ value eves_claims
unfolding generate_token
validate_token-generate_token_example =
    validate_token-generate_token jwt "key" jwt_laws "eve" "c1" (pos 10) (pos 1) (pos 1) (pos 2)
      "signed" refl tt

abbrev shown : Handler (World libraries)
shown ctx s = (ok tt, s)

not_valid : to_option (validate_token jwt "other" "signed") ≡ none
unfolding validate_token
not_valid = refl

dispatch_unauthenticated_example :
    (out : Outcome WsContext × World libraries) × Notified jwt "other" libraries socket_laws context
      world out
    × (dispatch
          (World libraries)
          (register_with_middleware
            (World libraries)
            "E"
            shown
            (jwt_middleware jwt "other" libraries ∷ [])
            (new_dispatcher (World libraries)))
          "E"
          context
          world
        ≡ shown context out.1)
unfolding lookup find
dispatch_unauthenticated_example =
    dispatch_unauthenticated jwt "other" libraries socket_laws "E" shown
      (new_dispatcher (World libraries)) context world not_valid tt

valid : validate_token jwt "key" "signed" ≡ value eves_claims
unfolding validate_token
valid = refl

authorized : (authorize_join_challenge jwt "key" libraries "signed" "c1" world).0 ≡ ok eves_claims
unfolding authorize_join_challenge authenticate_jwt check_challenge_access validate_token
    Redis.can_join Redis.get_challenge Redis.get_challenge_by_id find lookup
authorized = refl

authorize_join_challenge_sound_example :
    (validate_token jwt "key" (without_bearer "signed") ≡ value eves_claims)
    × (eves_claims.challenge_id ≡ "c1")
    × ((d : ChallengeDocument) × (stored libraries.redis redis_laws world.redis "c1" ≡ some d)
        × MayJoin eves_claims.user_id d)
authorize_join_challenge_sound_example =
    authorize_join_challenge_sound jwt "key" libraries redis_laws "signed" "c1" eves_claims world
      authorized
