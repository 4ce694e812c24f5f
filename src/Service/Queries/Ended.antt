-- ===== src/Service/Queries/Ended.antt =====
-- What is read of a challenge that has ended.
use challenge_service.Prelude.{String, false, ◌≡◌, ◌≢◌, some, arith, eq_iff, eq_refl}
use challenge_service.Exec.{Outcome, ok}
use challenge_service.Model.{ChallengeDocument, challenge_ended}
use challenge_service.RedisClient
use challenge_service.MongoClient
use challenge_service.Mongo.Persist.{taken_over}
use challenge_service.World.{Libraries, World}
use challenge_service.Service.Proto.{ChallengeRecord, challenge_to_proto}
use challenge_service.Service.Queries.{get_full_challenge_data}
use challenge_service.Service.Queries.Lookup.{get_full_challenge_data_lem}
use challenge_service.Service.Lifecycle.{end_challenge}
use challenge_service.Service.Lifecycle.History.{active, history, AllUp, Moved}
use challenge_service.Service.Lifecycle.Ending.{end_challenge-Moved}

module _ (lib : Libraries) (rlaw : RedisClient.Laws lib.redis)
    (mlaw : MongoClient.Laws lib.mongo) where
  abbrev read : String → World lib → Outcome ChallengeRecord
  read id s = (get_full_challenge_data lib id s).0

  read-Moved :
      (id : String) (d : ChallengeDocument) (s s' : World lib)
      → Moved lib rlaw mlaw id d s s'
      → AllUp lib rlaw mlaw s'
      → read id s' ≡ ok (challenge_to_proto false (taken_over d (history lib rlaw mlaw s id)))
  read-Moved id d s s' m up =
      ground (
        arith,
        get_full_challenge_data_lem lib rlaw mlaw id s' up,
        m.gone id,
        m.kept id,
        eq_refl id,
      )

  read-Moved_ne :
      (id : String) (d : ChallengeDocument) (s s' : World lib) (j : String)
      → Moved lib rlaw mlaw id d s s'
      → AllUp lib rlaw mlaw s
      → AllUp lib rlaw mlaw s'
      → id ≢ j
      → read j s' ≡ read j s
  read-Moved_ne id d s s' j m before after ne = ground (
    arith,
    get_full_challenge_data_lem lib rlaw mlaw j s' after,
    get_full_challenge_data_lem lib rlaw mlaw j s before,
    m.gone j,
    m.kept j,
    eq_iff id j,
    ne,
  )

  -- A challenge that its creator ends can still be read. With both servers reachable before and
  -- after, once the creator of a challenge, stored under its own identifier, has ended it,
  -- `GetFullChallengeData` answers with that challenge as the history took it over, with the status
  -- ended, and its answer for any other identifier is what it was before.
  pub get_full_challenge_data-end_challenge :
      (id creator : String) (d : ChallengeDocument) (s : World lib)
      → AllUp lib rlaw mlaw s
      → AllUp lib rlaw mlaw (end_challenge lib id creator s).1
      → active lib rlaw mlaw s id ≡ some d
      → d.challenge_id ≡ id
      → d.creator_id ≡ creator
      → let s' = (end_challenge lib id creator s).1 in
        let kept =
          taken_over (record d { status = challenge_ended }) (history lib rlaw mlaw s id) in
        ((get_full_challenge_data lib id s').0 ≡ ok (challenge_to_proto false kept))
        × ((j : String)
            → id ≢ j
            → (get_full_challenge_data lib j s').0 ≡ (get_full_challenge_data lib j s).0)
  get_full_challenge_data-end_challenge id creator d s before after there own mine =
      let s' = (end_challenge lib id creator s).1 in
      let moved = (end_challenge-Moved lib rlaw mlaw id creator d s before there own mine).1 in
      let ended = record d { status = challenge_ended } in
      (
        read-Moved id ended s s' moved after,
        λ j ne. read-Moved_ne id ended s s' j moved before after ne,
      )
