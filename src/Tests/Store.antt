-- ===== src/Tests/Store.antt =====
-- The theorems about the repositories at concrete inputs.
use mathlib.Core.List.Perm
use challenge_service.Prelude.{String, ◌≡◌, ◌↔◌, refl, true, some, List, ◌==◌, if◌then◌else◌}
use challenge_service.GoMap.{find, assign}
use challenge_service.Exec.{ok}
use challenge_service.Model.{ChallengeDocument}
use challenge_service.Redis
use challenge_service.Mongo
use challenge_service.Redis.View.{stored}
use challenge_service.Redis.Admission.{MayJoin, can_join_iff}
use challenge_service.Redis.Creation.{Engages, can_create_iff}
use challenge_service.Mongo.Persist.{taken_over, persist_lem}
use challenge_service.Tests.Memory.{redis, redis_laws, mongo, mongo_laws}
use challenge_service.Tests.Data.{differ, duel, bob_entry, table}

abbrev in_order : List String → List String
in_order ks = ks

can_create_iff_example : ((Redis.can_create redis in_order "eve" table).0 ≡ ok true) ↔ (
    (id : String) (d : ChallengeDocument)
    → stored redis redis_laws table id ≡ some d
    → ¬ Engages "eve" d)
can_create_iff_example =
    can_create_iff redis redis_laws "eve" in_order table (λ ks. Perm.rfl) tt (differ "eve" "" refl)

can_join_iff_example :
    ((Redis.can_join redis "c1" "eve" table).0 ≡ ok true)
    ↔ ((d : ChallengeDocument) × (stored redis redis_laws table "c1" ≡ some d) × MayJoin "eve" d)
can_join_iff_example =
    can_join_iff redis redis_laws "c1" "eve" table tt (differ "c1" "" refl) (differ "eve" "" refl)

added : (Redis.add_participant redis "c1" "eve" bob_entry table).0 ≡ ok tt
unfolding Redis.add_participant Redis.get_challenge Redis.update_challenge Redis.get_challenge_by_id
    Redis.create_challenge find assign
added = refl

removed : (Redis.remove_participant redis "c1" "bob" table).0 ≡ ok tt
unfolding Redis.remove_participant Redis.get_challenge Redis.update_challenge
    Redis.get_challenge_by_id Redis.create_challenge find
removed = refl

given_up : (Redis.abandon_challenge redis "ann" "c1" table).0 ≡ ok tt
unfolding Redis.abandon_challenge Redis.get_challenge Redis.update_challenge
    Redis.get_challenge_by_id Redis.create_challenge find
given_up = refl

held : stored redis redis_laws table "c1" ≡ some duel
unfolding find
held = refl

persist_lem_example :
    ((Mongo.persist_challenge_from_redis mongo (some duel) table).0 ≡ ok tt)
    × mongo_laws.Up (Mongo.persist_challenge_from_redis mongo (some duel) table).1
    × ((j : String)
        → mongo_laws.held (Mongo.persist_challenge_from_redis mongo (some duel) table).1 j ≡ (
            if duel.challenge_id == j
            then some (taken_over duel (mongo_laws.held table duel.challenge_id))
            else mongo_laws.held table j))
persist_lem_example = persist_lem mongo mongo_laws duel table tt
