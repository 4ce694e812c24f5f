-- ===== src/System/Abandonment.antt =====
-- `AbandonChallenge` of internal/service/challenge.go, whatever fails on the way: the challenge of the
-- user is closed and archived, or the request stops before.
use challenge_service.Prelude.{ℕ, String, ◌≡◌, ◌⊎◌, refl, true, ◌==◌, none, some, inl, inr, eq_iff}
use challenge_service.Prelude.Int.{ℤ}
use challenge_service.GoMap.{GoMap}
use challenge_service.Exec.{
  cut, Outcome, ok, err, panic, Result, value, error, pure, gets, attempt, caught, ◌>>=◌, ◌>>◌,
}
use challenge_service.Model.{ChallengeDocument, challenge_abandon}
use challenge_service.RedisClient
use challenge_service.Redis
use challenge_service.Redis.{is_over}
use challenge_service.Local.{get_all_ws_clients}
use challenge_service.Wss.Broadcast.{broadcast_challenge_abandon}
use challenge_service.Wss.Broadcast.Total.{broadcast_challenge_abandon_ok}
use challenge_service.World.{Libraries, World, on_redis}
use challenge_service.Service.Lifecycle.{
  refusal, accepted, Reply, AbandonResponse, persist_challenge_to_mongodb, announce_abandoned,
  abandon_done, abandon_fetched, abandon_challenge,
}
use challenge_service.System.Safety.{Anything, Got, Safe, Safe-bind, Safe-gets}
use challenge_service.System.Documents.{View, Known, Shows}
use challenge_service.System.Spec.{Author, closes, put, put_self, with_status}
use challenge_service.System.Writes.{abandon_challenge-Written}
use challenge_service.System.Invariant.{Holds, Safe-told}
use challenge_service.System.Steps.{fetch-Safe}
use challenge_service.System.Moves.{
  Moves, Moves-pure, Moves-if, Moves-attempt, Moves-bind, Moves-then, Moves-write,
}
use challenge_service.System.Endings.{Owned, Owned-of, persist-Moves}
use challenge_service.System.Conclusions.{cleanup_board-Safe}

module _ (lib : Libraries) (rlaw : RedisClient.Laws lib.redis) (by : Author) where
  announce_abandoned-Safe :
      (w : View) (d : ChallengeDocument) (now : ℤ)
      → Safe (Holds lib rlaw w) Anything (announce_abandoned lib d now)
  unfolding announce_abandoned
  announce_abandoned-Safe w d now =
      let J = Holds lib rlaw w in
      let clients_of : World lib → GoMap ℕ =
        λ s. get_all_ws_clients d.challenge_id s.local.states in
      Safe-bind J Anything Anything (gets clients_of) _ (Safe-gets J clients_of) λ clients _.
        Safe-told lib rlaw w
          (broadcast_challenge_abandon lib.sockets clients d.challenge_id d.creator_id now)
          (λ net.
            broadcast_challenge_abandon_ok lib.sockets clients d.challenge_id d.creator_id now net)

  announced-Moves :
      (w : View) (d : ChallengeDocument) (now : ℤ) (r : Reply AbandonResponse)
      → Moves lib rlaw by w (do announce_abandoned lib d now; pure r)
  announced-Moves w d now r =
      Moves-bind lib rlaw by w Anything (announce_abandoned lib d now) (λ _. pure r)
        (announce_abandoned-Safe w d now) λ u _. Moves-pure lib rlaw by w r

  -- with the challenge closed
  abandoned-Moves :
      (w : View) (id : String) (d : ChallengeDocument) (now : ℤ) (o : Owned lib rlaw by w id)
      → is_over o.it.status ≡ true
      → Moves lib rlaw by w (abandon_done lib id d now (value tt))
  unfolding abandon_done
  abandoned-Moves w id d now o over =
      Moves-bind lib rlaw by w Anything _ _ (cleanup_board-Safe lib rlaw by w w id) λ r _.
        Moves-then lib rlaw by w (attempt (persist_challenge_to_mongodb lib id))
          (λ _. do announce_abandoned lib d now; pure accepted)
          (Moves-attempt lib rlaw by w _ (persist-Moves lib rlaw by w id o over))
          λ x a. announced-Moves x d now accepted

  -- a write that did not succeed is answered, whatever became of it
  Stored : Result (Unit {0}) → Type 0
  Stored (value u) = Unit
  Stored (error e) = ⊥

  Stored-error : (a : Result (Unit {0})) (msg : String) → ok (error msg) ≡ ok a → Stored a → ⊥
  unfolding Stored
  Stored-error (value u) msg e g = cc
  Stored-error (error x) msg e g = g

  module _ (v : View) (id : String) (o : Owned lib rlaw by v id) where
    abbrev abandoned_view : View
    abandoned_view = put id (some (with_status challenge_abandon o.it)) v

    abbrev now_owned : Owned lib rlaw by abandoned_view id
    now_owned = record {
      it = with_status challenge_abandon o.it;
      seen = put_self id (some (with_status challenge_abandon o.it)) v;
      creator = o.creator;
    }

    abandon_done-Moves :
        (d : ChallengeDocument) (now : ℤ) (r : Result (Unit {0}))
        → (Stored r × Moves lib rlaw by abandoned_view (abandon_done lib id d now r))
          ⊎ (Moves lib rlaw by v (abandon_done lib id d now r)
              × Moves lib rlaw by abandoned_view (abandon_done lib id d now r))
    unfolding abandon_done Stored
    abandon_done-Moves d now (value u) =
        inl (tt, abandoned-Moves abandoned_view id d now now_owned refl)
    abandon_done-Moves d now (error e) =
        let r = refusal e "CHALLENGEABANDONFAILED" (some e) in
        inr (Moves-pure lib rlaw by v r, Moves-pure lib rlaw by abandoned_view r)

    abandon_write :
        (s : World lib)
        → Holds lib rlaw v s
        → let out = attempt (on_redis lib (Redis.abandon_challenge lib.redis by.user id)) s in
          (Holds lib rlaw v out.1 ⊎ Holds lib rlaw abandoned_view out.1)
          × ((r : Result (Unit {0}))
              → out.0 ≡ ok r
              → Stored r
              → Holds lib rlaw abandoned_view out.1)
    unfolding Stored
    abandon_write s h =
        let w = abandon_challenge-Written lib.redis rlaw v by.user id o.it s.redis o.seen h.redis in
        go (Redis.abandon_challenge lib.redis by.user id s.redis).0
          (Redis.abandon_challenge lib.redis by.user id s.redis).1 w.0 w.1
      where
        seen_from :
            (db : lib.redis.Db) (x : View)
            → Shows lib.redis rlaw x db
            → Holds lib rlaw x (record s { redis = db })
        seen_from db x j = record { redis = j; boards = h.boards; events = h.events }

        both :
            (db : lib.redis.Db)
            → Shows lib.redis rlaw v db ⊎ Shows lib.redis rlaw abandoned_view db
            → Holds lib rlaw v (record s { redis = db })
              ⊎ Holds lib rlaw abandoned_view (record s { redis = db })
        both db (inl j) = inl (seen_from db v j)
        both db (inr j) = inr (seen_from db abandoned_view j)

        go :
            (r : Outcome (Unit {0})) (db : lib.redis.Db)
            → Shows lib.redis rlaw v db ⊎ Shows lib.redis rlaw abandoned_view db
            → (r ≡ ok tt → Shows lib.redis rlaw abandoned_view db)
            → (Holds lib rlaw v (caught r (record s { redis = db })).1
                ⊎ Holds lib rlaw abandoned_view (caught r (record s { redis = db })).1)
              × ((a : Result (Unit {0}))
                  → (caught r (record s { redis = db })).0 ≡ ok a
                  → Stored a
                  → Holds lib rlaw abandoned_view (caught r (record s { redis = db })).1)
        go (ok u) db j k = (both db j, λ a e g. seen_from db abandoned_view (k refl))
        go (err msg) db j k = (both db j, λ a e g. absurd (Stored-error a msg e g))
        go panic db j k = (both db j, λ a e g. cc)
        go (cut w) db j k = (both db j, λ a e g. cc)

    abandoning-Moves :
        (d : ChallengeDocument) (now : ℤ)
        → Moves lib rlaw by v (do
          done ← attempt (on_redis lib (Redis.abandon_challenge lib.redis by.user id))
          abandon_done lib id d now done)
    abandoning-Moves d now =
        Moves-write lib rlaw by v abandoned_view Stored
          (attempt (on_redis lib (Redis.abandon_challenge lib.redis by.user id)))
          (abandon_done lib id d now) (closes id challenge_abandon o.it o.seen o.creator refl)
          abandon_write (abandon_done-Moves d now)

  abandon_fetched-Moves :
      (v : View) (id : String) (now : ℤ) (r : Result ChallengeDocument)
      → Got (Known v id) r
      → Moves lib rlaw by v (abandon_fetched lib id by.user now r)
  unfolding abandon_fetched
  abandon_fetched-Moves v id now (error e) k =
      Moves-pure lib rlaw by v (refusal "Challenge not found" "CHALLENGENOTFOUND" (some e))
  abandon_fetched-Moves v id now (value d) k =
      Moves-if lib rlaw by v (d.creator_id == by.user) _ _
        (λ mine.
          abandoning-Moves v id (Owned-of lib rlaw by k ((eq_iff d.creator_id by.user).0 mine)) d
            now)
        (λ _.
          Moves-pure lib rlaw by v
            (refusal "Only the creator can abandon the challenge" "NOTCREATOR" none))

  -- `AbandonChallenge`
  pub abandon_challenge-Moves :
      (v : View) (id : String) (now : ℤ)
      → Moves lib rlaw by v (abandon_challenge lib id by.user now)
  unfolding abandon_challenge
  abandon_challenge-Moves v id now =
      Moves-bind lib rlaw by v (Got (Known v id)) _ _ (fetch-Safe lib rlaw v id)
        (abandon_fetched-Moves v id now)
