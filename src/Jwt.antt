-- ===== src/Jwt.antt =====
-- internal/jwt/jwt.go: the tokens of a challenge. The library github.com/golang-jwt/jwt is a
-- parameter. An instant and a duration are numbers of nanoseconds.
pub mod Tokens
use challenge_service.Prelude.{◌+◌, String, Bool, ◌==◌, if◌then◌else◌}
use challenge_service.Prelude.Int.{ℤ, pos_part, neg_part, sub_ℕ}
use challenge_service.Exec.{Result, value, error}

-- `CustomClaims`, without the registered claims
pub record CustomClaims : Type 0 where
  pub user_id : String
  pub challenge_id : String
  pub entity_type : String

-- `jwt.RegisteredClaims`, of which the code sets three
pub record RegisteredClaims : Type 0 where
  pub expires_at : ℤ
  pub issued_at : ℤ
  pub not_before : ℤ

pub record JwtLibrary : Type 0 where
  -- `jwt.ParseWithClaims(token, claims, keyfunc)`: the key function is asked with whether the
  -- token's method is HMAC; the result is the claims and `token.Valid`
  pub parse_with_claims : (Bool → Result String) → String → Result (CustomClaims × Bool)
  -- `new(jwt.Parser).ParseUnverified(token, claims)`
  pub parse_unverified : String → Result CustomClaims
  -- `jwt.NewWithClaims(jwt.SigningMethodHS256, claims).SignedString(key)`
  pub sign : CustomClaims → RegisteredClaims → String → Result String

-- `t.Add(d)`
abbrev pub add_time : ℤ → ℤ → ℤ
add_time t d = sub_ℕ (pos_part t + pos_part d) (neg_part t + neg_part d)

module _ (jwt : JwtLibrary) (secret : String) where
  -- the clock is read once for each registered claim
  unfoldable pub generate_token : String → String → ℤ → (now₁ now₂ now₃ : ℤ) → Result String
  generate_token user challenge expiration now₁ now₂ now₃ =
      if user == ""
      then error "userID cannot be empty"
      else if challenge == ""
      then error "challengeID cannot be empty"
      else jwt.sign (record { user_id = user; challenge_id = challenge; entity_type = "" })
          (record { expires_at = add_time now₁ expiration; issued_at = now₂; not_before = now₃ })
          secret

  -- the function that `ValidateToken` gives to the library
  abbrev pub key_function : Bool → Result String
  key_function hmac = if hmac then value secret else error "invalid signing method"

  abbrev pub checked : CustomClaims × Bool → Result CustomClaims
  checked (claims, valid) = if valid then value claims else error "invalid token"

  abbrev pub parsed : Result (CustomClaims × Bool) → Result CustomClaims
  parsed (error e) = error e
  parsed (value t) = checked t

  unfoldable pub validate_token : String → Result CustomClaims
  validate_token token =
      if token == ""
      then error "token cannot be empty"
      else parsed (jwt.parse_with_claims key_function token)

  unfoldable pub extract_claims : String → Result CustomClaims
  extract_claims token = jwt.parse_unverified token
