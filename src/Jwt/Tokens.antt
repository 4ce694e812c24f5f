-- ===== src/Jwt/Tokens.antt =====
-- What a token of jwt.go proves.
use challenge_service.Prelude.{
  String, ◌≡◌, ◌≢◌, refl, Bool, true, if◌then◌else◌, Option, none, some, arith, ◌==◌, eq_iff,
}
use challenge_service.Prelude.Int.{ℤ}
use challenge_service.Exec.{Result, value, error}
use challenge_service.Exec.Laws.{Result-cases}
use challenge_service.Jwt.{
  CustomClaims, RegisteredClaims, JwtLibrary, add_time, generate_token, key_function,
  validate_token,
}

-- the claims that a token proves, as the library reads it
abbrev pub proven : Result (CustomClaims × Bool) → Option CustomClaims
proven (error _) = none
proven (value (claims, valid)) = if valid then some claims else none

abbrev pub to_option : Result CustomClaims → Option CustomClaims
to_option (value claims) = some claims
to_option (error _) = none

-- What the library's documentation promises of the tokens that it signs: a token is not empty, and
-- whoever holds the key reads the claims back, as long as the token is valid at the time of asking.
pub record SignLaws (jwt : JwtLibrary) : Type 1 where
  -- the times are those at which the library accepts the token
  pub InForce : RegisteredClaims → Type 0
  pub sign-nonempty :
      (c : CustomClaims) (r : RegisteredClaims) (key token : String)
      → jwt.sign c r key ≡ value token
      → token ≢ ""
  pub parse-sign :
      (c : CustomClaims) (r : RegisteredClaims) (key token : String) (f : Bool → Result String)
      → jwt.sign c r key ≡ value token
      → InForce r
      → f true ≡ value key
      → jwt.parse_with_claims f token ≡ value (c, true)

module _ (jwt : JwtLibrary) (secret : String) where
  -- A token is accepted exactly if it is not empty and the library, given the key for tokens signed
  -- with HMAC and no key for others, decodes it and calls it valid; the claims are those of the
  -- library.
  pub validate_token_iff :
      (token : String)
      → to_option (validate_token jwt secret token) ≡ (
          if token == ""
          then none
          else proven (
              jwt.parse_with_claims
                (λ hmac. if hmac then value secret else error "invalid signing method")
                token))
  unfolding validate_token
  validate_token_iff token =
      ground (arith, Result-cases (jwt.parse_with_claims (key_function jwt secret) token))

  pub validate_token_nonempty :
      (token : String) (claims : CustomClaims)
      → validate_token jwt secret token ≡ value claims
      → token ≢ ""
  unfolding validate_token
  validate_token_nonempty token claims h e = ground (arith, h, eq_iff token "", e)

  -- A token that `GenerateToken` issued is accepted while it is in force, and proves the user and
  -- the challenge that it was issued for.
  pub validate_token-generate_token :
      (law : SignLaws jwt) (user challenge : String) (expiration now₁ now₂ now₃ : ℤ)
      (token : String)
      → generate_token jwt secret user challenge expiration now₁ now₂ now₃ ≡ value token
      → law.InForce
          (record { expires_at = add_time now₁ expiration; issued_at = now₂; not_before = now₃ })
      → validate_token jwt secret token
        ≡ value (record { user_id = user; challenge_id = challenge; entity_type = "" })
  unfolding validate_token generate_token
  validate_token-generate_token law user challenge expiration now₁ now₂ now₃ token issued live =
      let c : CustomClaims = record {
        user_id = user;
        challenge_id = challenge;
        entity_type = "";
      } in
      let r : RegisteredClaims = record {
        expires_at = add_time now₁ expiration;
        issued_at = now₂;
        not_before = now₃;
      } in
      let signed : jwt.sign c r secret ≡ value token = ground (arith, issued) in
      ground (
        arith,
        law.parse-sign c r secret token (key_function jwt secret) signed live refl,
        law.sign-nonempty c r secret token signed,
        eq_iff token "",
      )
