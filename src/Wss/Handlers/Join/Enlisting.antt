-- ===== src/Wss/Handlers/Join/Enlisting.antt =====
-- Storing the participant who joins.
use challenge_service.Prelude.{
  String, ◌≡◌, refl, ap, ◌∙◌, Option, none, some, arith, ◌==◌, eq_refl, if◌then◌else◌, Option-cases,
  inl, inr,
}
use challenge_service.GoMap.{lookup, insert-insert}
use challenge_service.Exec.{ok, value, attempt}
use challenge_service.Model.{ChallengeDocument, ParticipantMetadata}
use challenge_service.Jwt.{JwtLibrary}
use challenge_service.RedisClient
use challenge_service.Redis
use challenge_service.Redis.View.{stored, IsKeyed}
use challenge_service.Redis.Updates.{
  add_participant_up, add_participant-Changed, add_participant-IsKeyed, with_participant,
}
use challenge_service.World.{Libraries, World, on_redis}
use challenge_service.Wss.Handlers.{Clock}
use challenge_service.Wss.Handlers.Join.{fresh_participant, enlist}

-- the entry of a participant who joins, again or for the first time
abbrev pub joining : Clock → String → Option ParticipantMetadata → ParticipantMetadata
joining now ip none = record (fresh_participant now.join_time ip) {
  last_connected = now.last_connected;
}
joining now ip (some m) = record m { last_connected = now.last_connected }

module _ (jwt : JwtLibrary) (secret : String) (lib : Libraries) (now : Clock) where
  module _ (rlaw : RedisClient.Laws lib.redis) where
    -- `m` ran from `s` to `after`, which differs in Redis only, where `id` holds `d` if it is
    -- reached, and the documents stay under their own identifiers.
    pub record Holding (id : String) (d : ChallengeDocument) (s after : World lib) : Type 0 where
      pub up : rlaw.Up after.redis
      pub keyed : IsKeyed lib.redis rlaw after.redis
      pub mongo : after.mongo ≡ s.mongo
      pub boards : after.boards ≡ s.boards
      pub local : after.local ≡ s.local
      pub active :
          (j : String)
          → stored lib.redis rlaw after.redis j
            ≡ (if id == j then some d else stored lib.redis rlaw s.redis j)

    -- storing a participant in the challenge `id`, which holds `d`
    put_participant-Holding :
        (id user : String) (m : ParticipantMetadata) (d : ChallengeDocument) (s : World lib)
        → rlaw.Up s.redis
        → IsKeyed lib.redis rlaw s.redis
        → stored lib.redis rlaw s.redis id ≡ some d
        → (after : World lib) × (attempt
              (on_redis lib (Redis.add_participant lib.redis id user m))
              s
            ≡ (ok (value tt), after))
          × Holding id (with_participant user m d) s after
    put_participant-Holding id user m d s up keyed there =
        let (added, still) = add_participant_up lib.redis rlaw id user m s.redis d up there in
        let ch = add_participant-Changed lib.redis rlaw id user m s.redis keyed added in
        let same : ch.before ≡ d = ground (arith, ch.was, there) in
        (
          record s { redis = (Redis.add_participant lib.redis id user m s.redis).1 },
          rw added,
          record {
            up = still;
            keyed = add_participant-IsKeyed lib.redis rlaw id user m keyed;
            mongo = refl;
            boards = refl;
            local = refl;
            active = λ j.
                ch.now j
                ∙ ap
                    (λ x.
                      if id == j
                      then some (with_participant user m x)
                      else stored lib.redis rlaw s.redis j)
                    same;
          },
        )

    -- The handler up to the refresh of the board: it runs on with the joined participant, on a
    -- state in which the challenge holds that participant.
    pub enlisted :
        (ip : String) (id user : String) (d : ChallengeDocument) (s : World lib)
        → rlaw.Up s.redis
        → IsKeyed lib.redis rlaw s.redis
        → stored lib.redis rlaw s.redis id ≡ some d
        → (m : ParticipantMetadata) × (s1 s2 : World lib) × (enlist jwt secret lib now ip id user
              (lookup user d.participants)
              s
            ≡ (ok m, s1))
          × (let m' : ParticipantMetadata = record m { last_connected = now.last_connected } in
              (m' ≡ joining now ip (lookup user d.participants))
              × (attempt (on_redis lib (Redis.update_participant lib.redis id user m')) s1
                  ≡ (ok (value tt), s2))
              × Holding id (with_participant user m' d) s s2)
    unfolding enlist Redis.update_participant
    enlisted ip id user d s up keyed there = elim (Option-cases (lookup user d.participants)) [
      | inr (m, e) ↦
          let m' : ParticipantMetadata = record m { last_connected = now.last_connected } in
          let (after, ran, holding) = put_participant-Holding id user m' d s up keyed there in
          (m, s, after, rw e refl, (rw e refl, ran, holding))
      | inl e ↦
          let m = fresh_participant now.join_time ip in
          let m' : ParticipantMetadata = record m { last_connected = now.last_connected } in
          let (s1, ran1, h1) = put_participant-Holding id user m d s up keyed there in
          let d1 = with_participant user m d in
          let (s2, ran2, h2) =
            put_participant-Holding id user m' d1 s1 h1.up h1.keyed
              (ground (arith, h1.active id, eq_refl id)) in
          (
            m,
            s1,
            s2,
            rw (e, ran1) refl,
            (
              rw e refl,
              ran2,
              record {
                up = h2.up;
                keyed = h2.keyed;
                mongo = h2.mongo ∙ h1.mongo;
                boards = h2.boards ∙ h1.boards;
                local = h2.local ∙ h1.local;
                active = λ j.
                    h2.active j
                    ∙ ground (
                      arith,
                      h1.active j,
                      ap (λ ps. some (record d { participants = ps }))
                          (insert-insert user m' m d.participants),
                    );
              },
            ),
          )
    ]
