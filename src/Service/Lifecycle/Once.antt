-- ===== src/Service/Lifecycle/Once.antt =====
-- `CreateChallenge`, called twice: one going challenge for each creator.
use mathlib.Core.List.{Perm}
use mathlib.Core.Path.{subst}
use challenge_service.Prelude.{
  ℕ, String, ◌≡◌, ◌≢◌, refl, sym, ◌∙◌, false, some, List, arith, eq_refl, Option-cases, inl, inr,
  [],
}
use challenge_service.Prelude.Int.{ℤ}
use challenge_service.GoMap.{made}
use challenge_service.Exec.{ok, Result}
use challenge_service.Model.{ChallengeDocument}
use challenge_service.RedisClient
use challenge_service.Redis.View.{stored}
use challenge_service.Redis.Creation.{Engages}
use challenge_service.Leaderboard.Boards.{IsAllocated}
use challenge_service.World.{Libraries, World}
use challenge_service.Service.Proto.{
  ChallengeRecord, ConfigRecord, challenge_document_from_proto, submissions_from_proto,
}
use challenge_service.Service.Lifecycle.{create_challenge, new_challenge}
use challenge_service.Service.Lifecycle.Creation.{create_challenge-stored, create_challenge_engaged}

-- The conversion keeps the identifier and the creator.
pub ids-challenge_document_from_proto :
    (req : ChallengeRecord) (d : ChallengeDocument)
    → challenge_document_from_proto req false ≡ some d
    → (d.challenge_id ≡ req.challenge_id) × (d.creator_id ≡ req.creator_id)
unfolding challenge_document_from_proto
ids-challenge_document_from_proto req d h =
    elim (Option-cases (submissions_from_proto req.submissions (made []))) [
      | inl e ↦ absurd (ground (arith, e, h))
      | inr (m, e) ↦ ground (arith, e, h)
    ]

-- A new challenge is going on, and engages the one who asked for it.
new_challenge-Engages :
    (req : ChallengeRecord) (d : ChallengeDocument) (config : ConfigRecord) (now : ℤ)
    (random : Result (List ℕ))
    → challenge_document_from_proto req false ≡ some d
    → Engages req.creator_id (new_challenge req d config now random)
unfolding new_challenge
new_challenge-Engages req d config now random h = record {
  going_on = refl;
  involved = inl (ids-challenge_document_from_proto req d h).1;
}

module _ (lib : Libraries) (rlaw : RedisClient.Laws lib.redis) where
  -- After `CreateChallenge` has created a challenge (Redis reachable, the map of boards
  -- allocated, a request that can be converted and has a configuration, of a named user whom no
  -- stored challenge that is going on engages), a second request of the same user, while Redis is
  -- reachable, creates nothing: it is not answered with a challenge, and no document changes.
  pub create_challenge_once :
      (arrival arrival' : List String → List String) (req req' : ChallengeRecord) (now now' : ℤ)
      (random random' : Result (List ℕ)) (base : ChallengeDocument) (config : ConfigRecord)
      (s : World lib)
      → ((ks : List String) → Perm (arrival ks) ks)
      → ((ks : List String) → Perm (arrival' ks) ks)
      → rlaw.Up s.redis
      → IsAllocated lib.board s.boards
      → challenge_document_from_proto req false ≡ some base
      → req.config ≡ some config
      → req.creator_id ≢ ""
      → ((id : String) (d : ChallengeDocument)
          → stored lib.redis rlaw s.redis id ≡ some d
          → ¬ Engages req.creator_id d)
      → req'.creator_id ≡ req.creator_id
      → rlaw.Up (create_challenge lib arrival req now random s).1.redis
      → let s' = (create_challenge lib arrival req now random s).1 in
        let out = create_challenge lib arrival' req' now' random' s' in
        ((r : ChallengeRecord) → out.0 ≢ ok r)
        × (out.1.mongo ≡ s'.mongo)
        × ((j : String) → stored lib.redis rlaw out.1.redis j ≡ stored lib.redis rlaw s'.redis j)
  create_challenge_once arrival arrival' req req' now now' random random' base config s perm perm'
        up al well has named free same up' =
      let s' = (create_challenge lib arrival req now random s).1 in
      let d = new_challenge req base config now random in
      let (_, _, kept) =
        create_challenge-stored lib rlaw arrival req now random base config s perm up al well has
          named free in
      let here : stored lib.redis rlaw s'.redis d.challenge_id ≡ some d =
        ground (arith, kept d.challenge_id, eq_refl d.challenge_id) in
      let engaged =
        subst (λ u. Engages u d) (sym same)
          (new_challenge-Engages req base config now random well) in
      let (refused, mongo, _, still) =
        create_challenge_engaged lib rlaw arrival' req' now' random' s' d.challenge_id d perm' up'
          (λ e. named (sym same ∙ e)) here engaged in
      (refused, mongo, still)
