-- ===== src/MongoClient.antt =====
-- What the service uses of MongoDB (go.mongodb.org/mongo-driver): the filters and updates that it
-- builds with `bson.M`, and a collection of challenge documents, which is a parameter.
use challenge_service.Prelude.{
  String, ◌≡◌, Bool, Option, none, some, List, [], ◌∷◌, ◌==◌, if◌then◌else◌,
}
use challenge_service.Prelude.Int.{ℤ}
use challenge_service.GoMap.{GoMap}
use challenge_service.Exec.{Result, value}
use challenge_service.Model.{ChallengeDocument, ParticipantMetadata, Submission, LeaderboardEntry}

pub data Filter : Type 0 where
  -- {field: value}
  text_is : String → String → Filter
  flag_is : String → Bool → Filter
  -- {field: {$exists: true}}, {field: {$in: [...]}}
  has : String → Filter
  one_of : String → List String → Filter
  -- {a, b}, {$or: [a, b]}
  both : Filter → Filter → Filter
  either : Filter → Filter → Filter

-- an entry of `$set`
pub data SetField : Type 0 where
  set_status : String → SetField
  set_participants : GoMap ParticipantMetadata → SetField
  set_submissions : GoMap (GoMap Submission) → SetField
  set_leaderboard : List LeaderboardEntry → SetField
  set_start_time : ℤ → SetField
  set_processed_problem_ids : List String → SetField
  set_problem_count : ℤ → SetField

-- `options.Find()`: the field to sort by and its direction, `SetSkip`, `SetLimit`
pub record FindOptions : Type 0 where
  pub sort_by : String
  pub direction : ℤ
  pub skip : ℤ
  pub limit : ℤ

pub record MongoClient : Type 1 where
  pub Coll : Type 0
  -- `FindOne(filter).Decode`: `none` is the error `mongo.ErrNoDocuments`
  pub find_one : Filter → Coll → Result (Option ChallengeDocument) × Coll
  pub insert_one : ChallengeDocument → Coll → Result (Unit {0}) × Coll
  pub update_one : Filter → List SetField → Coll → Result (Unit {0}) × Coll
  -- `Find(filter, opts)` and `cursor.All`
  pub find : Filter → FindOptions → Coll → Result (List ChallengeDocument) × Coll

abbrev pub set_field : SetField → ChallengeDocument → ChallengeDocument
set_field (set_status v) d = record d { status = v }
set_field (set_participants v) d = record d { participants = v }
set_field (set_submissions v) d = record d { submissions = v }
set_field (set_leaderboard v) d = record d { leaderboard = v }
set_field (set_start_time v) d = record d { start_time = v }
set_field (set_processed_problem_ids v) d = record d { processed_problem_ids = v }
set_field (set_problem_count v) d = record d { problem_count = v }

-- what `$set` does to a document
abbrev pub set_fields : List SetField → ChallengeDocument → ChallengeDocument
set_fields [] d = d
set_fields (f ∷ fs) d = set_fields fs (set_field f d)

abbrev pub set_in : List SetField → Option ChallengeDocument → Option ChallengeDocument
set_in fs none = none
set_in fs (some d) = some (set_fields fs d)

-- The document that a search by `challengeId` finds, and whether the server is reachable.
pub record Laws (m : MongoClient) : Type 1 where
  pub held : m.Coll → String → Option ChallengeDocument
  pub Up : m.Coll → Type 0
  pub find_one_up :
      (id : String) (t : m.Coll)
      → Up t
      → ((m.find_one (text_is "challengeId" id) t).0 ≡ value (held t id))
        × Up (m.find_one (text_is "challengeId" id) t).1
  pub held-find_one : (f : Filter) (t : m.Coll) (j : String) → held (m.find_one f t).1 j ≡ held t j
  pub insert_one_up :
      (d : ChallengeDocument) (t : m.Coll)
      → Up t
      → held t d.challenge_id ≡ none
      → ((m.insert_one d t).0 ≡ value tt)
        × Up (m.insert_one d t).1
        × ((j : String)
            → held (m.insert_one d t).1 j ≡ (if d.challenge_id == j then some d else held t j))
  pub update_one_up :
      (id : String) (fs : List SetField) (t : m.Coll)
      → Up t
      → ((m.update_one (text_is "challengeId" id) fs t).0 ≡ value tt)
        × Up (m.update_one (text_is "challengeId" id) fs t).1
        × ((j : String)
            → held (m.update_one (text_is "challengeId" id) fs t).1 j
              ≡ (if id == j then set_in fs (held t id) else held t j))
