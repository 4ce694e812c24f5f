-- ===== src/Mongo/Persist.antt =====
-- `PersistChallengeFromRedis`: the history takes over the challenge.
use mathlib.Core.Path.{subst}
use challenge_service.Prelude.{
  String, ◌≡◌, sym, Option, none, some, Option-cases, inl, inr, arith, ◌==◌, if◌then◌else◌,
}
use challenge_service.Exec.{ok}
use challenge_service.Model.{ChallengeDocument}
use challenge_service.MongoClient.{MongoClient, Laws, text_is}
use challenge_service.Mongo.{persist_challenge_from_redis, snapshot}

-- what the history holds of a challenge, given what it held before
abbrev pub taken_over : ChallengeDocument → Option ChallengeDocument → ChallengeDocument
taken_over d none = d
taken_over d (some old) = record old {
  status = d.status;
  participants = d.participants;
  submissions = d.submissions;
  leaderboard = d.leaderboard;
  start_time = d.start_time;
  processed_problem_ids = d.processed_problem_ids;
  problem_count = d.problem_count;
}

module _ (m : MongoClient) (law : Laws m) where
  -- On a reachable server persisting succeeds. A challenge that is new is inserted whole; of one
  -- that is there the status, the participants, the submissions, the leaderboard, the start time
  -- and the problems are replaced. No other challenge changes.
  pub persist_lem :
      (d : ChallengeDocument) (t : m.Coll)
      → law.Up t
      → ((persist_challenge_from_redis m (some d) t).0 ≡ ok tt)
        × law.Up (persist_challenge_from_redis m (some d) t).1
        × ((j : String)
            → law.held (persist_challenge_from_redis m (some d) t).1 j ≡ (
                if d.challenge_id == j
                then some (taken_over d (law.held t d.challenge_id))
                else law.held t j))
  unfolding persist_challenge_from_redis
  persist_lem d t up =
      let (found, up') = law.find_one_up d.challenge_id t up in
      let t' = (m.find_one (text_is "challengeId" d.challenge_id) t).1 in
      let same = law.held-find_one (text_is "challengeId" d.challenge_id) t in
      elim (Option-cases (law.held t d.challenge_id)) [
        | inl new ↦
            let (done, still, map') =
              law.insert_one_up d t' up' (ground (arith, new, same d.challenge_id)) in
            let state : (persist_challenge_from_redis m (some d) t).1 ≡ (m.insert_one d t').1 =
              ground (arith, found, new) in
            (
              ground (arith, found, new, done),
              subst law.Up (sym state) still,
              λ j. ground (arith, found, new, map' j, same j),
            )
        | inr (old, there) ↦
            let (done, still, map') = law.update_one_up d.challenge_id (snapshot d) t' up' in
            let state : (persist_challenge_from_redis m (some d) t).1
                ≡ (m.update_one (text_is "challengeId" d.challenge_id) (snapshot d) t').1 =
              ground (arith, found, there) in
            (
              ground (arith, found, there, done),
              subst law.Up (sym state) still,
              λ j. ground (arith, found, there, map' j, same j, same d.challenge_id),
            )
      ]
