-- ===== src/Redis.antt =====
-- internal/repo/redis.go: the repository of active challenges over a Redis client. A method acts on
-- the client's state. The goroutines of `CanCreate` send their results in an order that the
-- scheduler chooses: `arrival` is that order. A cancelled context is not modelled.
pub mod View
pub mod Reads
pub mod Updates
pub mod Creation
pub mod Admission
pub mod Listing
use Prim.Native.String.{len, slice, ◌++◌ as append}
use challenge_service.Prelude.{
  ℕ, String, Bool, true, false, ◌||◌, Option, none, some, List, [], ◌∷◌, ltb, ◌==◌, if◌then◌else◌,
}
use challenge_service.GoMap.{GoMap, lookup, assign, delete, allocated}
use challenge_service.Exec.{
  Exec, Outcome, ok, err, panic, Result, value, error, pure, fail, lift, call, must, attempt, wrap,
  ◌>>=◌, ◌>>◌,
}
use challenge_service.Model.{
  ChallengeDocument, ParticipantMetadata, challenge_abandon, challenge_ended,
}
use challenge_service.RedisClient.{RedisClient}

abbrev pub key_prefix : String
key_prefix = "challenge:"

-- `fmt.Sprintf("challenge:%s", challengeID)`
abbrev pub key_of : String → String
key_of id = append key_prefix id

-- `key[10:]`, which panics on a shorter key
unfoldable pub strip_prefix : String → Option String
strip_prefix key = if ltb (len key) 10 then none else some (slice key 10 (len key))

-- the texts of `fmt.Errorf("...: %w", err)`
abbrev pub failed_to : String → String → String
failed_to what e = append "failed to " (append what (append ": " e))

abbrev pub is_over : String → Bool
is_over status = status == challenge_abandon || status == challenge_ended

abbrev pub is_member : String → ChallengeDocument → Bool
is_member user d = elim (lookup user d.participants) [ none ↦ false | some _ ↦ true ]

-- what one goroutine of `CanCreate` sends
pub record CheckResult : Type 0 where
  pub can_create : Bool
  pub message : String
  pub challenge_id : String

module _ (c : RedisClient) where
  open c use {Db, Bytes}

  unfoldable pub create_challenge : ChallengeDocument → Exec Db Unit
  create_challenge d = do
    bytes ← wrap (failed_to "marshal challenge") (lift (c.marshal d))
    call (c.set (key_of d.challenge_id) bytes)

  abbrev pub found : Option Bytes → Exec Db Bytes
  found none = fail "challenge not found"
  found (some b) = pure b

  unfoldable pub get_challenge_by_id : String → Exec Db ChallengeDocument
  get_challenge_by_id id = do
    reply ← wrap (failed_to "get challenge") (call (c.get (key_of id)))
    bytes ← found reply
    wrap (failed_to "unmarshal challenge") (lift (c.unmarshal bytes))

  unfoldable pub get_challenge : String → Exec Db ChallengeDocument
  get_challenge id = get_challenge_by_id id

  unfoldable pub update_challenge : ChallengeDocument → Exec Db Unit
  update_challenge d = create_challenge d

  unfoldable pub delete_challenge : String → Exec Db Unit
  delete_challenge id = call (c.del (key_of id))

  -- the loop that takes the prefix off the keys
  unfoldable pub strip_all : List String → Exec Db (List String)
  strip_all [] = pure []
  strip_all (k ∷ ks) = do id ← must (strip_prefix k); ids ← strip_all ks; pure (id ∷ ids)

  unfoldable pub get_active_challenges : Exec Db (List String)
  get_active_challenges = do
    ks ← wrap (failed_to "get challenge keys") (call (c.keys key_prefix))
    strip_all ks

  -- an iteration of `GetChallengesByStatus`: the identifier is kept, or skipped
  abbrev pub keep_if_status : String → String → List String → Result ChallengeDocument → List String
  keep_if_status status id rest (error _) = rest
  keep_if_status status id rest (value d) = if d.status == status then id ∷ rest else rest

  unfoldable pub filter_status : String → List String → Exec Db (List String)
  filter_status status [] = pure []
  filter_status status (id ∷ ids) = do
    challenge ← attempt (get_challenge id)
    rest ← filter_status status ids
    pure (keep_if_status status id rest challenge)

  unfoldable pub get_challenges_by_status : String → Exec Db (List String)
  get_challenges_by_status status = do ids ← get_active_challenges; filter_status status ids

  unfoldable pub add_participant : String → String → ParticipantMetadata → Exec Db Unit
  add_participant id user metadata = do
    challenge ← get_challenge id
    participants ← must (assign user metadata (allocated challenge.participants))
    update_challenge (record challenge { participants = participants })

  -- `delete` does nothing to a nil map, which the code tests for
  unfoldable pub remove_participant : String → String → Exec Db Unit
  remove_participant id user = do
    challenge ← get_challenge id
    update_challenge (record challenge {
      participants = delete user challenge.participants;
      submissions = delete user challenge.submissions;
    })

  unfoldable pub update_participant : String → String → ParticipantMetadata → Exec Db Unit
  update_participant id user metadata = add_participant id user metadata

  unfoldable pub abandon_challenge : String → String → Exec Db Unit
  abandon_challenge creator id = do
    challenge ← get_challenge id
    if challenge.creator_id == creator
        then update_challenge (record challenge { status = challenge_abandon })
        else fail "only the creator can abandon the challenge"

  unfoldable pub remove_participant_in_join_phase : String → String → Exec Db Unit
  remove_participant_in_join_phase id user = remove_participant id user

  unfoldable pub can_join : String → String → Exec Db Bool
  can_join id user =
      if id == "" || user == "" then fail "challengeID and userID cannot be empty" else do
        challenge ← wrap (failed_to "get challenge") (get_challenge id)
        if challenge.creator_id == user
            then fail "user is the creator of this challenge"
            else if is_member user challenge
            then fail "user is already a participant in this challenge"
            else if challenge.status == challenge_abandon
            then fail "challenge is abandoned"
            else if challenge.status == challenge_ended
            then fail "challenge has ended"
            else pure true

  abbrev free : String → CheckResult
  free id = record { can_create = true; message = ""; challenge_id = id }

  abbrev conflict : String → String → CheckResult
  conflict what id = record { can_create = false; message = append what id; challenge_id = id }

  -- what a goroutine sends for the document that it decoded
  unfoldable pub check_document : String → String → ChallengeDocument → CheckResult
  check_document user id d =
      if is_over d.status
      then free id
      else if d.creator_id == user
      then conflict "user is already the creator of an ongoing challenge: " id
      else if is_member user d
      then conflict "user is already a participant in an ongoing challenge: " id
      else free id

  -- a key that cannot be read, or decoded, is skipped
  unfoldable pub check_reply : String → String → Result (Option Bytes) → CheckResult
  unfolding check_document
  check_reply user id (error _) = free id
  check_reply user id (value none) = free id
  check_reply user id (value (some b)) = elim (c.unmarshal b) [
    | error _ ↦ free id
    | value d ↦ check_document user id d
  ]

  -- one goroutine of `CanCreate`
  unfoldable pub check_key : String → String → Exec Db CheckResult
  check_key user key = do
    id ← must (strip_prefix key)
    reply ← attempt (call (c.get key))
    pure (check_reply user id reply)

  -- the loop over `resultChan`: it ends at the first conflict
  unfoldable pub collect : String → List String → Exec Db Bool
  collect user [] = pure true
  collect user (k ∷ ks) = do
    res ← check_key user k
    let rest = collect user ks
    if res.can_create then rest else fail res.message

  unfoldable pub can_create : (arrival : List String → List String) → String → Exec Db Bool
  can_create arrival user = if user == "" then fail "userID cannot be empty" else do
    ks ← wrap (failed_to "get challenge keys") (call (c.keys key_prefix))
    collect user (arrival ks)
