-- ===== src/System/Conclusions.antt =====
-- `EndChallenge` of internal/service/challenge.go, whatever fails on the way: the challenge of the user
-- is closed and archived, or the request stops before.
use challenge_service.Prelude.{
  String, ◌≡◌, refl, ap, ◌∙◌, true, ◌==◌, ◌||◌, inl, eq_iff, if◌then◌else◌,
}
use challenge_service.Exec.{
  cut, Exec, Outcome, ok, err, panic, pure, fail, attempt, wrap, reworded, ◌>>=◌,
}
use challenge_service.Model.{challenge_abandon, challenge_ended}
use challenge_service.RedisClient
use challenge_service.Redis
use challenge_service.Redis.{is_over}
use challenge_service.Leaderboard.{cleanup_leaderboard}
use challenge_service.World.{Libraries, World, on_redis, on_boards}
use challenge_service.Service.Lifecycle.{
  because, persist_challenge_to_mongodb, update_challenge_status, end_challenge,
}
use challenge_service.System.Safety.{Anything, Safe, Safe-fail, Safe-wrap}
use challenge_service.System.Boards.{cleanup_leaderboard-Safe}
use challenge_service.System.Documents.{View, Known, get_challenge_by_id-Safe, get_challenge-Safe}
use challenge_service.System.Spec.{Author}
use challenge_service.System.Invariant.{Holds, Safe-redis, Safe-boards, Safe-tried}
use challenge_service.System.Moves.{
  Moves, Moves-pure, Moves-Safe, Moves-wrap, Moves-if, Moves-attempt, Moves-bind, Moves-then,
  Moves-write,
}
use challenge_service.System.Endings.{
  Owned, Owned-mine, Owned-of, restatused, restatused-Owned, restatused-step, update_status-Holds,
  persist-Moves,
}

ok_of_reworded :
    {A : Type 0} (f : String → String) (r : Outcome A) (a : A) → reworded f r ≡ ok a → r ≡ ok a
ok_of_reworded f (ok x) a e = e
ok_of_reworded f (err m) a e = cc
ok_of_reworded f panic a e = cc
ok_of_reworded f (cut w) a e = cc

module _ (lib : Libraries) (rlaw : RedisClient.Laws lib.redis) (by : Author) (v : View) where
  abbrev I : World lib → Type 0
  I = Holds lib rlaw v

  -- what follows the write of the new status
  abbrev conclude : String → String → Exec (World lib) Unit
  conclude id status =
      if status == challenge_abandon || status == challenge_ended
      then (do _ ← attempt (persist_challenge_to_mongodb lib id); pure tt)
      else pure tt

  conclude-Moves :
      (w : View) (id status : String) (o : Owned lib rlaw by w id)
      → is_over o.it.status ≡ true
      → Moves lib rlaw by w (conclude id status)
  conclude-Moves w id status o over =
      Moves-if lib rlaw by w (status == challenge_abandon || status == challenge_ended) _ (pure tt)
        (λ _.
          Moves-then lib rlaw by w (attempt (persist_challenge_to_mongodb lib id)) (λ _. pure tt)
            (Moves-attempt lib rlaw by w _ (persist-Moves lib rlaw by w id o over))
            (λ x r. Moves-pure lib rlaw by x tt))
        (λ _. Moves-pure lib rlaw by w tt)

  update_challenge_status-Moves :
      (id status : String) (o : Owned lib rlaw by v id)
      → is_over status ≡ true
      → Moves lib rlaw by v (update_challenge_status lib id status)
  unfolding update_challenge_status
  update_challenge_status-Moves id status o over =
      Moves-bind lib rlaw by v (Known v id) _ _
        (Safe-wrap I (Known v id) _ _
          (Safe-redis lib rlaw v (Known v id) _ (get_challenge-Safe lib.redis rlaw v id)))
        λ d k.
          let mine = Owned-mine lib rlaw by o k in
          let w = restatused lib rlaw by v d status in
          let (own, is) = restatused-Owned lib rlaw by v id status d k mine in
          let write =
            on_redis lib (Redis.update_challenge lib.redis (record d { status = status })) in
          let what = because "failed to update challenge status" in
          Moves-write lib rlaw by v w (λ u. Unit {0}) (wrap what write) (λ _. conclude id status)
            (restatused-step lib rlaw by v id status d k mine over)
            (λ s h.
              let both = update_status-Holds lib rlaw by v id status d s k h in
              (both.0, λ u e g. both.1 (ok_of_reworded what (write s).0 tt e)))
            λ u. inl (tt, conclude-Moves w id status own (ap is_over is ∙ over))

  pub cleanup_board-Safe :
      (w : View) (id : String)
      → Safe
          (Holds lib rlaw w)
          Anything
          (attempt (on_boards lib (cleanup_leaderboard lib.board id)))
  cleanup_board-Safe w id =
      Safe-tried lib rlaw w _ (Safe-boards lib rlaw w _ (cleanup_leaderboard-Safe lib.board id))

  -- `EndChallenge`
  pub end_challenge-Moves : (id : String) → Moves lib rlaw by v (end_challenge lib id by.user)
  unfolding end_challenge
  end_challenge-Moves id =
      Moves-bind lib rlaw by v (Known v id) _ _
        (Safe-wrap I (Known v id) _ _
          (Safe-redis lib rlaw v (Known v id) _ (get_challenge_by_id-Safe lib.redis rlaw v id)))
        λ d k.
          Moves-if lib rlaw by v (d.creator_id == by.user) _ _
            (λ mine.
              Moves-bind lib rlaw by v Anything _
                (λ _.
                  wrap (because "failed to end challenge")
                    (update_challenge_status lib id challenge_ended))
                (cleanup_board-Safe v id)
                λ r _.
                  Moves-wrap lib rlaw by v (because "failed to end challenge")
                    (update_challenge_status lib id challenge_ended)
                    (update_challenge_status-Moves id challenge_ended
                      (Owned-of lib rlaw by k ((eq_iff d.creator_id by.user).0 mine)) refl))
            (λ _.
              Moves-Safe lib rlaw by {A = Unit} v Anything
                (fail "only the creator can end the challenge") (Safe-fail I Anything _))
