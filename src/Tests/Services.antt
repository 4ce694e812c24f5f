-- ===== src/Tests/Services.antt =====
-- The theorems about the service at concrete inputs.
use mathlib.Core.List.{Perm}
use mathlib.Core.List.Perm
use challenge_service.Prelude.{
  inl, inr, ℕ, String, ◌≡◌, ◌≢◌, refl, true, false, none, some, List, [], ◌∷◌, ◌==◌, if◌then◌else◌,
}
use challenge_service.Prelude.Int.{pos}
use challenge_service.GoMap.{find, lookup, entries, made, insert, replace}
use challenge_service.Exec.{ok, panic, Result, value}
use challenge_service.Model.{
  ChallengeDocument, ChallengeProblemMetadata, challenge_abandon, challenge_ended,
}
use challenge_service.Redis
use challenge_service.Redis.Creation.{Engages, can_create_iff}
use challenge_service.Redis.View.{stored}
use challenge_service.Service.Proto.{
  ChallengeRecord, challenge_to_proto, challenge_document_from_proto, document_with,
}
use challenge_service.Service.Lifecycle.{
  create_challenge, new_challenge, end_challenge, abandon_challenge, accepted,
}
use challenge_service.Service.Lifecycle.History.{Moved, active, history}
use challenge_service.Mongo.Persist.{taken_over}
use challenge_service.Service.Queries.{get_full_challenge_data}
use challenge_service.Service.Queries.Ended.{get_full_challenge_data-end_challenge}
use challenge_service.Service.Lifecycle.Ending.{end_challenge-Moved}
use challenge_service.Service.Lifecycle.Abandoning.{abandon_challenge-Moved}
use challenge_service.Service.Lifecycle.Once.{create_challenge_once}
use challenge_service.Service.Lifecycle.Creation.{
  create_challenge-stored, create_challenge_engaged, create_challenge_malformed,
}
use challenge_service.Service.Submit.{push_submission_status, scored, submitted, problem_of, reply}
use challenge_service.Service.Submit.Scores.{wrapped, sum_scores, total_score-perm}
use challenge_service.Service.Submit.Refused.{push_submission_status_stranger}
use challenge_service.Service.Submit.Accepted.{Published, Entered, push_submission_status_processed}
use challenge_service.Tests.Memory.{libraries, redis, redis_laws, mongo_laws, keys_of}
use challenge_service.Tests.Data.{
  differ, duel, bob_entry, world, request, submission, problem, limits, table-IsKeyed,
}

held : active libraries redis_laws mongo_laws world "c1" ≡ some duel
unfolding find
held = refl

ann-ne-bob : ◌≢◌ {A = String} "ann" "bob"
ann-ne-bob = differ "ann" "bob" refl

end_challenge-Moved_example :
    ((end_challenge libraries "c1" "ann" world).0 ≡ ok tt)
    × Moved libraries redis_laws mongo_laws "c1"
        (record duel { status = challenge_ended })
        world
        (end_challenge libraries "c1" "ann" world).1
end_challenge-Moved_example =
    end_challenge-Moved libraries redis_laws mongo_laws "c1" "ann" duel world (tt, tt) held refl
      refl

get_full_challenge_data-end_challenge_example :
    let s' = (end_challenge libraries "c1" "ann" world).1 in
    let kept =
      taken_over
        (record duel { status = challenge_ended })
        (history libraries redis_laws mongo_laws world "c1") in
    ((get_full_challenge_data libraries "c1" s').0 ≡ ok (challenge_to_proto false kept))
    × ((j : String)
        → ◌≢◌ {A = String} "c1" j
        → (get_full_challenge_data libraries j s').0
          ≡ (get_full_challenge_data libraries j world).0)
get_full_challenge_data-end_challenge_example =
    get_full_challenge_data-end_challenge libraries redis_laws mongo_laws "c1" "ann" duel world
      (tt, tt) (tt, tt) held refl refl

abandon_challenge-Moved_example :
    ((abandon_challenge libraries "c1" "ann" (pos 9) world).0 ≡ ok accepted)
    × Moved libraries redis_laws mongo_laws "c1"
        (record duel { status = challenge_abandon })
        world
        (abandon_challenge libraries "c1" "ann" (pos 9) world).1
abandon_challenge-Moved_example =
    abandon_challenge-Moved libraries redis_laws mongo_laws "c1" "ann" (pos 9) duel world (tt, tt)
      held refl refl

abbrev unconfigured : ChallengeRecord
unconfigured = record request { config = none }

abbrev in_order : List String → List String
in_order ks = ks

-- dan takes part in nothing
dan_may : (Redis.can_create redis in_order "dan" world.redis).0 ≡ ok true
unfolding Redis.can_create Redis.collect Redis.check_key Redis.check_reply Redis.strip_prefix lookup
    find keys_of
dan_may = refl

abbrev random : Result (List ℕ)
random = value (1 ∷ 2 ∷ 3 ∷ 4 ∷ 5 ∷ 6 ∷ 7 ∷ [])

dan_is_free :
    (id : String) (d : ChallengeDocument)
    → stored redis redis_laws world.redis id ≡ some d
    → ¬ Engages "dan" d
dan_is_free =
    (can_create_iff redis redis_laws "dan" in_order world.redis (λ ks. Perm.rfl) tt
        (differ "dan" "" refl)).0
      dan_may

-- the conversion of the request
abbrev converted : ChallengeDocument
converted = document_with request false (made [])

converted_lem : challenge_document_from_proto request false ≡ some converted
unfolding challenge_document_from_proto
converted_lem = refl

create_challenge-stored_example :
    let d = new_challenge request converted limits (pos 9) random in
    let out = create_challenge libraries in_order request (pos 9) random world in
    (out.0 ≡ ok (challenge_to_proto false d))
    × (out.1.mongo ≡ world.mongo)
    × ((j : String)
        → stored redis redis_laws out.1.redis j
          ≡ (if d.challenge_id == j then some d else stored redis redis_laws world.redis j))
create_challenge-stored_example =
    create_challenge-stored libraries redis_laws in_order request (pos 9) random converted limits
      world (λ ks. Perm.rfl) tt (λ e. cc) converted_lem refl (differ "dan" "" refl) dan_is_free

-- no configuration, and an entry without a submission
abbrev malformed : ChallengeRecord
malformed = record request {
  config = none;
  submissions = record { user_id = "eve"; entries = ("p1", none) ∷ [] } ∷ [];
}

create_challenge_malformed_example :
    let out = create_challenge libraries in_order malformed (pos 9) random world in
    (out.0 ≡ panic)
    × (out.1.mongo ≡ world.mongo)
    × ((j : String) → stored redis redis_laws out.1.redis j ≡ stored redis redis_laws world.redis j)
create_challenge_malformed_example =
    create_challenge_malformed libraries redis_laws in_order malformed (pos 9) random world
      (λ ks. Perm.rfl) tt (differ "dan" "" refl) dan_is_free (inr (inl tt))

abbrev encore : ChallengeRecord
encore = record request { challenge_id = "c4"; title = "sprint" }

create_challenge_once_example :
    let s' = (create_challenge libraries in_order request (pos 9) random world).1 in
    let out = create_challenge libraries in_order encore (pos 10) random s' in
    ((r : ChallengeRecord) → out.0 ≢ ok r)
    × (out.1.mongo ≡ s'.mongo)
    × ((j : String) → stored redis redis_laws out.1.redis j ≡ stored redis redis_laws s'.redis j)
create_challenge_once_example =
    create_challenge_once libraries redis_laws in_order in_order request encore (pos 9) (pos 10)
      random random converted limits world (λ ks. Perm.rfl) (λ ks. Perm.rfl) tt (λ e. cc)
      converted_lem refl (differ "dan" "" refl) dan_is_free refl tt

abbrev bobs : ChallengeRecord
bobs = record request { creator_id = "bob" }

bob_plays : Engages "bob" duel
unfolding lookup find
bob_plays = record { going_on = refl; involved = inr refl }

create_challenge_engaged_example :
    let out = create_challenge libraries in_order bobs (pos 9) random world in
    ((r : ChallengeRecord) → out.0 ≢ ok r)
    × (out.1.mongo ≡ world.mongo)
    × (out.1.boards ≡ world.boards)
    × ((j : String) → stored redis redis_laws out.1.redis j ≡ stored redis redis_laws world.redis j)
create_challenge_engaged_example =
    create_challenge_engaged libraries redis_laws in_order bobs (pos 9) random world "c1" duel
      (λ ks. Perm.rfl) tt (differ "bob" "" refl) held bob_plays

bob_there : lookup "bob" duel.participants ≡ some bob_entry
unfolding lookup find
bob_there = refl

push_submission_status_processed_example :
    Published libraries redis_laws
      (submitted submission bob_entry duel)
      world
      (push_submission_status libraries submission (pos 9) world)
    × Entered libraries redis_laws submission bob_entry (submitted submission bob_entry duel)
push_submission_status_processed_example =
    push_submission_status_processed libraries redis_laws submission (pos 9) duel bob_entry world tt
      table-IsKeyed (λ e. cc) refl held bob_there

push_submission_status_stranger_example :
    let req = record submission { user_id = "eve" } in
    let out = push_submission_status libraries req (pos 9) world in
    (out.0 ≡ ok (reply "user not a participant" false none))
    × (out.1.mongo ≡ world.mongo)
    × (out.1.boards ≡ world.boards)
    × (out.1.local ≡ world.local)
    × ((j : String) → stored redis redis_laws out.1.redis j ≡ stored redis redis_laws world.redis j)
unfolding lookup find
push_submission_status_stranger_example =
    push_submission_status_stranger libraries redis_laws (record submission { user_id = "eve" })
      (pos 9) duel world tt refl held refl

-- the two problems in the other order
abbrev turned : List (String × ChallengeProblemMetadata)
turned = ("p2", problem_of submission) ∷ ("p1", problem (pos 10)) ∷ []

turned_lem : Perm (entries (scored submission bob_entry).problems_done) turned
unfolding scored insert replace
turned_lem = Perm.swap _ _ []

total_score-perm_example : (scored submission bob_entry).total_score ≡ wrapped (sum_scores turned)
total_score-perm_example = total_score-perm submission bob_entry turned turned_lem
