-- ===== src/Redis/Admission.antt =====
-- `CanJoin` of redis.go against the condition that it decides.
use challenge_service.Prelude.{
  String, ◌≡◌, ◌≢◌, ◌↔◌, true, none, some, inl, inr, ◌⊎◌, arith, eq_iff,
}
use challenge_service.GoMap.{lookup}
use challenge_service.Exec.{ok, err}
use challenge_service.Exec.Laws.{Outcome-cases}
use challenge_service.Model.{ChallengeDocument, challenge_abandon, challenge_ended}
use challenge_service.RedisClient.{RedisClient, Laws}
use challenge_service.Redis.{get_challenge_by_id, get_challenge, can_join}
use challenge_service.Redis.View.{
  stored, get_challenge_by_id_ok, get_challenge_by_id_up, get_challenge_by_id-ne-panic,
  get_challenge_by_id-ne-cut,
}

-- Who may join a challenge.
pub record MayJoin (user : String) (d : ChallengeDocument) : Type 0 where
  pub not_creator : d.creator_id ≢ user
  pub not_participant : lookup user d.participants ≡ none
  pub not_abandoned : d.status ≢ challenge_abandon
  pub not_ended : d.status ≢ challenge_ended

module _ (c : RedisClient) (law : Laws c) (id user : String) (db : c.Db) where
  -- `CanJoin` never returns false without an error, and never panics.
  pub can_join_answers :
      ((can_join c id user db).0 ≡ ok true) ⊎ ((e : String) × ((can_join c id user db).0 ≡ err e))
  unfolding can_join get_challenge
  can_join_answers = elim (Outcome-cases (get_challenge_by_id c id db).0) [
    | inl (d, got) ↦ ground (arith, got)
    | inr (inl (e, got)) ↦ ground (arith, got)
    | inr (inr (inl got)) ↦ absurd (get_challenge_by_id-ne-panic c id db got)
    | inr (inr (inr (w, got))) ↦ absurd (get_challenge_by_id-ne-cut c id db w got)
  ]

  -- A user whom `CanJoin` lets in meets the condition for the stored challenge.
  pub can_join_sound :
      (can_join c id user db).0 ≡ ok true
      → (d : ChallengeDocument) × (stored c law db id ≡ some d) × MayJoin user d
  unfolding can_join get_challenge
  can_join_sound h = elim (Outcome-cases (get_challenge_by_id c id db).0) [
    | inl (d, got) ↦ (
      d,
      get_challenge_by_id_ok c law id db d got,
      ground (
        arith,
        h,
        got,
        eq_iff d.creator_id user,
        eq_iff d.status challenge_abandon,
        eq_iff d.status challenge_ended,
      ),
    )
    | inr (inl (e, got)) ↦ absurd (ground (arith, h, got))
    | inr (inr got) ↦ absurd (ground (arith, h, got))
  ]

  -- On a reachable server everybody who meets it is let in.
  pub can_join_complete :
      (d : ChallengeDocument)
      → law.Up db
      → id ≢ ""
      → user ≢ ""
      → stored c law db id ≡ some d
      → MayJoin user d
      → (can_join c id user db).0 ≡ ok true
  unfolding can_join get_challenge
  can_join_complete d up ni nu h may =
      let (got, _) = get_challenge_by_id_up c law id db d up h in
      ground (
        arith,
        got,
        may.not_creator,
        may.not_participant,
        may.not_abandoned,
        may.not_ended,
        eq_iff id "",
        eq_iff user "",
        eq_iff d.creator_id user,
        eq_iff d.status challenge_abandon,
        eq_iff d.status challenge_ended,
      )

  -- On a reachable server, and for identifiers that are not empty, `CanJoin` returns true exactly
  -- when the challenge is stored, is neither abandoned nor ended, and the user is neither its
  -- creator nor one of its participants.
  pub can_join_iff :
      law.Up db
      → id ≢ ""
      → user ≢ ""
      → ((can_join c id user db).0 ≡ ok true)
        ↔ ((d : ChallengeDocument) × (stored c law db id ≡ some d) × MayJoin user d)
  can_join_iff up ni nu = (can_join_sound, λ w. can_join_complete w.0 up ni nu w.1 w.2)
