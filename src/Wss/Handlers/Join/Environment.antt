-- ===== src/Wss/Handlers/Join/Environment.antt =====
-- When a request to join ends the process: `config.LoadConfig()` in internal/wss/handlers/join-challenge.go.
use challenge_service.Prelude.{String, ◌≡◌, ◌≢◌, sym, ap, ◌∙◌, Bool-cases, arith, inl, inr}
use challenge_service.Exec.{Cut, exited, blocked, Result, value, error}
use challenge_service.Wss.Handlers.{Codec, Gateway, AuthPayload, GenericResponse, bytes_or_nil}
use challenge_service.Wss.Handlers.Join.{
  fatal, checked_user, checked_answer, checked_response, checked_request, checked_environment,
  authenticate,
}

-- `config.LoadConfig()` cannot load the environment.
abbrev pub IsUnloaded : Gateway → Type 0
IsUnloaded gateway = gateway.load_dotenv ≢ value tt

-- the only reason of a message not to come back
abbrev pub Unloaded : Gateway → Cut → Type 0
Unloaded gateway exited = IsUnloaded gateway
Unloaded gateway blocked = ⊥

checked_user-ne-fatal :
    (codec : Codec) (gateway : Gateway) (r : Result AuthPayload)
    → checked_user codec gateway r ≢ fatal
checked_user-ne-fatal codec gateway (error e) h = cc
checked_user-ne-fatal codec gateway (value u) h = cc

checked_answer-ne-fatal :
    (codec : Codec) (gateway : Gateway) (r : Result GenericResponse)
    → checked_answer codec gateway r ≢ fatal
checked_answer-ne-fatal codec gateway (error e) h = cc
checked_answer-ne-fatal codec gateway (value r) h = elim (Bool-cases r.success) [
  | inl e ↦
      checked_user-ne-fatal codec gateway
        (codec.unmarshal_auth (bytes_or_nil (codec.marshal r.payload))) (ground (arith, e, h))
  | inr e ↦ ground (arith, e, h)
]

checked_response-ne-fatal :
    (codec : Codec) (gateway : Gateway) (r : Result gateway.Response)
    → checked_response codec gateway r ≢ fatal
checked_response-ne-fatal codec gateway (error e) h = cc
checked_response-ne-fatal codec gateway (value r) h =
    checked_answer-ne-fatal codec gateway (gateway.decode r) h

checked_request-ne-fatal :
    (codec : Codec) (gateway : Gateway) (token : String) (r : Result gateway.Request)
    → checked_request codec gateway token r ≢ fatal
checked_request-ne-fatal codec gateway token (error e) h = cc
checked_request-ne-fatal codec gateway token (value req) h =
    checked_response-ne-fatal codec gateway (gateway.send token req) h

-- The check of a token ends the process only where the environment cannot be loaded.
pub authenticate_fatal :
    (codec : Codec) (gateway : Gateway) (token : String)
    → authenticate codec gateway token ≡ fatal
    → IsUnloaded gateway
unfolding authenticate
authenticate_fatal codec gateway token h loaded =
    checked_request-ne-fatal codec gateway token gateway.new_request
      (sym (ap (checked_environment codec gateway token) loaded) ∙ h)
