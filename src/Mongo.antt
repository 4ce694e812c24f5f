-- ===== src/Mongo.antt =====
-- internal/repo/mongo.go: the repository of finished challenges.
pub mod Persist
use Prim.Native.String.{◌++◌ as append}
use challenge_service.Prelude.{
  ℕ, String, Bool, true, false, ◌||◌, Option, none, some, List, [], ◌∷◌, ◌==◌, if◌then◌else◌,
}
use challenge_service.Prelude.Int.{ℤ, pos, negsuc, int_lt, add64, mul64}
use challenge_service.Exec.{Exec, Result, value, error, pure, fail, call, wrap, ◌>>=◌, ◌>>◌}
use challenge_service.Model.{
  ChallengeDocument, challenge_open, challenge_started, challenge_abandon,
}
use challenge_service.MongoClient.{
  MongoClient, Filter, SetField, FindOptions, text_is, flag_is, has, one_of, both, either,
  set_status, set_participants, set_submissions, set_leaderboard, set_start_time,
  set_processed_problem_ids, set_problem_count,
}

-- the `$set` of `PersistChallengeFromRedis`
abbrev pub snapshot : ChallengeDocument → List SetField
snapshot d =
    set_status d.status
    ∷ set_participants d.participants
    ∷ set_submissions d.submissions
    ∷ set_leaderboard d.leaderboard
    ∷ set_start_time d.start_time
    ∷ set_processed_problem_ids d.processed_problem_ids
    ∷ set_problem_count d.problem_count
    ∷ []

-- `options.Find().SetSort(...).SetSkip(int64((page - 1) * pageSize)).SetLimit(int64(pageSize))`
abbrev pub page_options : ℤ → ℤ → ℤ → FindOptions
page_options direction page size = record {
  sort_by = "startTime";
  direction = direction;
  skip = mul64 (add64 page (negsuc 0)) size;
  limit = size;
}

module _ (m : MongoClient) where
  open m use {Coll}

  abbrev pub by_id : String → Filter
  by_id id = text_is "challengeId" id

  -- insert a challenge that is new, update one that is there
  unfoldable pub persist : ChallengeDocument → Option ChallengeDocument → Exec Coll Unit
  persist d none = call (m.insert_one d)
  persist d (some _) = call (m.update_one (by_id d.challenge_id) (snapshot d))

  -- a nil challenge is an error
  unfoldable pub persist_challenge_from_redis : Option ChallengeDocument → Exec Coll Unit
  unfolding persist
  persist_challenge_from_redis none = fail "challenge cannot be nil"
  persist_challenge_from_redis (some d) = do
    existing ←
        wrap (λ e. append "failed to check existing challenge: " e)
          (call (m.find_one (by_id d.challenge_id)))
    persist d existing

  unfoldable pub get_challenge_history : String → ℤ → ℤ → Bool → Exec Coll (List ChallengeDocument)
  get_challenge_history user page size is_private =
      if int_lt page (pos 1) || int_lt size (pos 1) || user == ""
      then fail "invalid pagination or userID"
      else call (
          m.find
            (both (flag_is "isPrivate" is_private)
              (either (text_is "creatorId" user) (has (append "participants." user))))
            (page_options (negsuc 0) page size))

  unfoldable pub abandon_challenge : String → String → Exec Coll Unit
  abandon_challenge creator id = call (
      m.update_one (both (text_is "creatorId" creator) (text_is "challengeId" id))
        (set_status challenge_abandon ∷ []))

  abbrev found : Option ChallengeDocument → Exec Coll ChallengeDocument
  found none = fail "mongo: no documents in result"
  found (some d) = pure d

  unfoldable pub get_challenge_by_id : String → Exec Coll ChallengeDocument
  get_challenge_by_id id = do d ← call (m.find_one (by_id id)); found d

  unfoldable pub get_active_open_challenges : ℤ → ℤ → Exec Coll (List ChallengeDocument)
  get_active_open_challenges page size =
      if int_lt page (pos 1) || int_lt size (pos 1)
      then fail "invalid pagination"
      else call (
          m.find (both (text_is "status" challenge_open) (flag_is "isPrivate" false))
            (page_options (pos 1) page size))

  unfoldable pub get_owners_active_challenges : String → ℤ → ℤ → Exec Coll (List ChallengeDocument)
  get_owners_active_challenges user page size =
      if int_lt page (pos 1) || int_lt size (pos 1) || user == ""
      then fail "invalid pagination or userID"
      else call (
          m.find
            (both (text_is "creatorId" user)
              (one_of "status" (challenge_open ∷ challenge_started ∷ [])))
            (page_options (negsuc 0) page size))
