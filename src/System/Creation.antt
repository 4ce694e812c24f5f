-- ===== src/System/Creation.antt =====
-- `CreateChallenge` of internal/service/challenge.go, whatever fails on the way: it opens one challenge
-- of the user, or stops before, also by a panic.
use challenge_service.Prelude.{
  ℕ, String, ◌≡◌, ◌≢◌, ◌⊎◌, ◌∙◌, ap, sym, refl, false, some, inl, inr, List, [],
}
use challenge_service.Prelude.Int.{ℤ, pos}
use challenge_service.GoMap.{nil, made, insert-ne-nil}
use challenge_service.Exec.{Exec, ok, Result, value, error, pure, fail, attempt, ◌>>=◌, ◌>>◌}
use challenge_service.Model.{ChallengeDocument}
use challenge_service.RedisClient
use challenge_service.Redis
use challenge_service.Redis.Reads.{can_create-Reads, Reads-stored}
use challenge_service.Leaderboard.{initialize_leaderboard}
use challenge_service.World.{Libraries, World, on_redis, on_boards}
use challenge_service.Service.Proto.{
  ChallengeRecord, challenge_document_from_proto, challenge_to_proto,
}
use challenge_service.Service.Lifecycle.{
  new_challenge, creator_participant, add_creator, store_new, create_new, create_challenge,
}
use challenge_service.Service.Lifecycle.Once.{ids-challenge_document_from_proto}
use challenge_service.System.Safety.{Anything, Safe, Safe-pure, Safe-fail, Safe-bind}
use challenge_service.System.Documents.{View, Shows-same, origin}
use challenge_service.System.Spec.{Author, Transition, opens, put}
use challenge_service.System.Writes.{create_challenge-Written}
use challenge_service.System.Invariant.{Holds}
use challenge_service.System.Steps.{initialize-Safe, update_score-Safe}
use challenge_service.System.Moves.{
  Moves, Moves-pure, Moves-Safe, Moves-if, Moves-bind, Moves-after, Moves-must, Moves-write,
}

module _ (lib : Libraries) (rlaw : RedisClient.Laws lib.redis) (by : Author) where
  add_creator-Safe :
      (w : View) (d : ChallengeDocument) (r : Result (Unit {0}))
      → Safe (Holds lib rlaw w) Anything (add_creator lib d r)
  add_creator-Safe w d (error e) = Safe-pure (Holds lib rlaw w) Anything tt tt
  add_creator-Safe w d (value u) =
      Safe-bind (Holds lib rlaw w) Anything Anything _ _
        (update_score-Safe lib rlaw w d.challenge_id d.creator_id (pos 0))
        λ r _. Safe-pure (Holds lib rlaw w) Anything tt tt

  -- what follows the write of the document
  abbrev furnish : ChallengeDocument → Exec (World lib) ChallengeRecord
  furnish d = do
    ready ← attempt (on_boards lib (initialize_leaderboard lib.board d.challenge_id))
    add_creator lib d ready
    pure (challenge_to_proto false d)

  furnish-Moves : (w : View) (d : ChallengeDocument) → Moves lib rlaw by w (furnish d)
  furnish-Moves w d =
      Moves-bind lib rlaw by w Anything _
        (λ ready. do add_creator lib d ready; pure (challenge_to_proto false d))
        (initialize-Safe lib rlaw w d.challenge_id)
        λ ready _.
          Moves-bind lib rlaw by w Anything _ (λ _. pure (challenge_to_proto false d))
            (add_creator-Safe w d ready)
            λ u _. Moves-pure lib rlaw by w (challenge_to_proto false d)

  module _ (v : View) where
    opened : ChallengeDocument → View
    opened d = put d.challenge_id (some (origin d)) v

    create-Holds :
        (d : ChallengeDocument) (s : World lib)
        → d.participants ≢ nil
        → Holds lib rlaw v s
        → let out = on_redis lib (Redis.create_challenge lib.redis d) s in
          (Holds lib rlaw v out.1 ⊎ Holds lib rlaw (opened d) out.1)
          × ((u : Unit {0}) → out.0 ≡ ok u → Unit {0} → Holds lib rlaw (opened d) out.1)
    unfolding opened
    create-Holds d s mapped h =
        let w = create_challenge-Written lib.redis rlaw v d s.redis mapped h.redis in
        (
          elim w.0 [
            | inl old ↦ inl (record { redis = old; boards = h.boards; events = h.events })
            | inr new ↦ inr (record { redis = new; boards = h.boards; events = h.events })
          ],
          λ u good _. record { redis = w.1 good; boards = h.boards; events = h.events },
        )

    store_new-Moves :
        (d : ChallengeDocument)
        → d.participants ≢ nil
        → Transition by v (opened d)
        → Moves lib rlaw by v (store_new lib d)
    unfolding store_new
    store_new-Moves d mapped step =
        Moves-write lib rlaw by v (opened d) (λ u. Unit {0})
          (on_redis lib (Redis.create_challenge lib.redis d)) (λ _. furnish d) step
          (λ s h. create-Holds d s mapped h) (λ u. inl (tt, furnish-Moves (opened d) d))

  module _ (v : View) (arrival : List String → List String) (req : ChallengeRecord) (now : ℤ)
      (random : Result (List ℕ)) (asks : req.creator_id ≡ by.user)
      (names : by.opening ≡ some req.challenge_id) where
    create_new-Moves : Moves lib rlaw by v (create_new lib req now random)
    unfolding create_new new_challenge opened
    create_new-Moves =
        Moves-must lib rlaw by v (challenge_document_from_proto req false) _ λ d converted.
          Moves-must lib rlaw by v req.config _ λ config _.
            let ids = ids-challenge_document_from_proto req d converted in
            store_new-Moves v (new_challenge req d config now random)
              (insert-ne-nil d.creator_id (creator_participant now) (made []))
              (opens d.challenge_id (origin (new_challenge req d config now random))
                (names ∙ ap some (sym (ids.0))) (ids.1 ∙ asks) refl)

    -- `CreateChallenge`
    pub create_challenge-Moves : Moves lib rlaw by v (create_challenge lib arrival req now random)
    unfolding create_challenge
    create_challenge-Moves =
        Moves-after lib rlaw by v (on_redis lib (Redis.can_create lib.redis arrival req.creator_id))
          _
          (λ s h. record {
            redis =
                Shows-same lib.redis rlaw v s.redis _
                  (Reads-stored lib.redis rlaw
                    (can_create-Reads lib.redis rlaw arrival req.creator_id s.redis))
                  h.redis;
            boards = h.boards;
            events = h.events;
          })
          λ can.
            Moves-if lib rlaw by v can _ _ (λ _. create_new-Moves)
              (λ _.
                Moves-Safe lib rlaw by {A = ChallengeRecord} v Anything
                  (fail "active challenge already found, can't create new challenge")
                  (Safe-fail (Holds lib rlaw v) Anything _))
