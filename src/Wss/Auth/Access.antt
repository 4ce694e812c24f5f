-- ===== src/Wss/Auth/Access.antt =====
-- `AuthorizeJoinChallenge` of auth.go: who is authorized to join.
use challenge_service.Prelude.{String, ◌≡◌, true, Bool-cases, some, inl, inr, arith, ◌==◌, eq_iff}
use challenge_service.Exec.{ok, value}
use challenge_service.Exec.Laws.{Outcome-cases, Result-cases}
use challenge_service.Model.{ChallengeDocument}
use challenge_service.Jwt.{CustomClaims, JwtLibrary, validate_token}
use challenge_service.RedisClient
use challenge_service.Redis
use challenge_service.Redis.View.{stored}
use challenge_service.Redis.Admission.{MayJoin, can_join_sound, can_join_answers}
use challenge_service.World.{Libraries, World}
use challenge_service.Wss.Auth.{
  without_bearer, authenticate_jwt, check_challenge_access, authorize_join_challenge,
}

module _ (jwt : JwtLibrary) (secret : String) (lib : Libraries)
    (rlaw : RedisClient.Laws lib.redis) where
  check_challenge_access_sound :
      (user challenge : String) (s : World lib)
      → (check_challenge_access jwt secret lib user challenge s).0 ≡ ok tt
      → (Redis.can_join lib.redis challenge user s.redis).0 ≡ ok true
  unfolding check_challenge_access
  check_challenge_access_sound user challenge s h =
      elim (can_join_answers lib.redis rlaw challenge user s.redis) [
        | inl can ↦ can
        | inr (e, cannot) ↦ absurd (ground (arith, h, cannot))
      ]

  -- Whoever is authorized has shown a valid token, without its "Bearer " prefix, for this
  -- challenge, and the claims that are returned are those of the token; the challenge is stored,
  -- and the user of the token is one who may join it.
  pub authorize_join_challenge_sound :
      (token challenge : String) (claims : CustomClaims) (s : World lib)
      → (authorize_join_challenge jwt secret lib token challenge s).0 ≡ ok claims
      → (validate_token jwt secret (without_bearer token) ≡ value claims)
        × (claims.challenge_id ≡ challenge)
        × ((d : ChallengeDocument) × (stored lib.redis rlaw s.redis challenge ≡ some d)
            × MayJoin claims.user_id d)
  unfolding authorize_join_challenge authenticate_jwt
  authorize_join_challenge_sound token challenge claims s h = elim (Bool-cases (token == "")) [
    | inl e ↦ absurd (ground (arith, e, h))
    | inr e ↦ elim (Result-cases (validate_token jwt secret (without_bearer token))) [
      | inr (m, bad) ↦ absurd (ground (arith, e, bad, h))
      | inl (c, good) ↦ elim (Bool-cases (c.challenge_id == challenge)) [
        | inr other ↦ absurd (ground (arith, e, good, other, h))
        | inl same ↦
            elim (Outcome-cases (check_challenge_access jwt secret lib c.user_id challenge s).0) [
              | inr (inl (m, no')) ↦ absurd (ground (arith, e, good, same, no', h))
              | inr (inr (inl no')) ↦ absurd (ground (arith, e, good, same, no', h))
              | inr (inr (inr (w, no'))) ↦ absurd (ground (arith, e, good, same, no', h))
              | inl (u, yes') ↦
                  let got : c ≡ claims = ground (arith, e, good, same, yes', h) in
                  let may =
                    can_join_sound lib.redis rlaw challenge c.user_id s.redis
                      (check_challenge_access_sound c.user_id challenge s yes') in
                  rw (← got) (good, (eq_iff c.challenge_id challenge).0 same, may)
            ]
      ]
    ]
  ]
