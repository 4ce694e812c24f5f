-- ===== src/Service/Lifecycle/Creation.antt =====
-- `CreateChallenge`: whose request is taken, and what is stored for it.
use mathlib.Core.Path.{subst}
use challenge_service.Prelude.{
  ℕ, String, ◌≡◌, ◌≢◌, ◌⊎◌, refl, sym, ap, ◌∙◌, true, false, none, some, List, arith, ◌==◌,
  if◌then◌else◌, inl, inr, Option-cases, Bool-cases,
}
use challenge_service.Prelude.Int.{ℤ, pos}
use challenge_service.Exec.{Outcome, ok, panic, Result, value, error}
use challenge_service.Exec.Laws.{Returns, Outcome-cases}
use challenge_service.Model.{ChallengeDocument}
use challenge_service.RedisClient
use challenge_service.Redis
use challenge_service.Redis.View.{stored, create_challenge_up, stored-create_challenge_if}
use challenge_service.Leaderboard.{initialize_leaderboard, update_participant_score}
use challenge_service.Leaderboard.Calm.{update_participant_score-Returns}
use challenge_service.Leaderboard.Boards.{IsAllocated, initialize_leaderboard-Managed}
use challenge_service.World.{Libraries, World}
use challenge_service.Service.Proto.{
  ChallengeRecord, ConfigRecord, challenge_to_proto, challenge_document_from_proto,
}
use challenge_service.Redis.Creation.{Engages, can_create_iff}
use challenge_service.Redis.Reads.{Reads-stored, can_create-Reads}
use mathlib.Core.List.{Perm}
use challenge_service.Service.Proto.Missing.{Lacks, challenge_document-Lacks}
use challenge_service.Service.Lifecycle.{
  create_new, store_new, create_challenge, new_challenge, add_creator,
}

module _ (lib : Libraries) where
  calm :
      (d : ChallengeDocument) (s : World lib)
      → Returns (update_participant_score lib.board d.challenge_id d.creator_id (pos 0) s.boards).0
  calm d s = update_participant_score-Returns lib.board d.challenge_id s.boards d.creator_id (pos 0)

  -- what the boards do after the document was stored
  add_creator_ok :
      (d : ChallengeDocument) (r : Result (Unit {0})) (s : World lib)
      → ((add_creator lib d r s).0 ≡ ok tt)
        × ((add_creator lib d r s).1.redis ≡ s.redis)
        × ((add_creator lib d r s).1.mongo ≡ s.mongo)
  add_creator_ok d (error e) s = (refl, refl, refl)
  add_creator_ok d (value u) s =
      elim (Outcome-cases
        (update_participant_score lib.board d.challenge_id d.creator_id (pos 0) s.boards).0) [
          | inl e ↦ (ground (arith, e), ground (arith, e), ground (arith, e))
          | inr (inl (msg, e)) ↦ (ground (arith, e), ground (arith, e), ground (arith, e))
          | inr (inr (inl e)) ↦ absurd ((calm d s).0 e)
          | inr (inr (inr (w, e))) ↦ absurd ((calm d s).1 w e)
        ]

  module _ (rlaw : RedisClient.Laws lib.redis) where
    -- the run `out` from `s` answered `d` and stored it, and changed no other document
    record Stored (d : ChallengeDocument) (s : World lib)
        (out : Outcome ChallengeRecord × World lib) : Type 0 where
      answered : out.0 ≡ ok (challenge_to_proto false d)
      history : out.1.mongo ≡ s.mongo
      active :
          (j : String)
          → stored lib.redis rlaw out.1.redis j
            ≡ (if d.challenge_id == j then some d else stored lib.redis rlaw s.redis j)

    store_new-Stored :
        (d : ChallengeDocument) (s : World lib)
        → rlaw.Up s.redis
        → IsAllocated lib.board s.boards
        → Stored d s (store_new lib d s)
    unfolding store_new
    store_new-Stored d s up al =
        let (wrote, up1) = create_challenge_up lib.redis rlaw d s.redis up in
        let db1 = (Redis.create_challenge lib.redis d s.redis).1 in
        let (_, calm, _) = initialize_leaderboard-Managed lib.board d.challenge_id s.boards al in
        let s2 : World lib = record s {
          redis = db1;
          boards = (initialize_leaderboard lib.board d.challenge_id s.boards).1;
        } in
        let run : (r : Result (Unit {0})) × (store_new lib d s
              ≡ (ok (challenge_to_proto false d), (add_creator lib d r s2).1)) =
          elim (Outcome-cases (initialize_leaderboard lib.board d.challenge_id s.boards).0) [
            | inl (u, e) ↦ (value tt, ground (arith, wrote, e, add_creator_ok d (value tt) s2))
            | inr (inl (msg, e)) ↦
                (error msg, ground (arith, wrote, e, add_creator_ok d (error msg) s2))
            | inr (inr (inl e)) ↦ absurd (calm.0 e)
            | inr (inr (inr (w, e))) ↦ absurd (calm.1 w e)
          ] in
        let (r, ran) = run in
        let (_, kept, kept') = add_creator_ok d r s2 in
        subst (Stored d s) (sym ran) (record {
          answered = refl;
          history = kept';
          active = λ j. rw kept (stored-create_challenge_if lib.redis rlaw d s.redis wrote j);
        })

    create_new_runs :
        (req : ChallengeRecord) (now : ℤ) (random : Result (List ℕ)) (base : ChallengeDocument)
        (config : ConfigRecord) (s : World lib)
        → challenge_document_from_proto req false ≡ some base
        → req.config ≡ some config
        → create_new lib req now random s
          ≡ store_new lib (new_challenge req base config now random) s
    unfolding create_new
    create_new_runs req now random base config s well has = ground (arith, well, has)

    create_new-Stored :
        (req : ChallengeRecord) (now : ℤ) (random : Result (List ℕ)) (base : ChallengeDocument)
        (config : ConfigRecord) (s : World lib)
        → rlaw.Up s.redis
        → IsAllocated lib.board s.boards
        → challenge_document_from_proto req false ≡ some base
        → req.config ≡ some config
        → Stored (new_challenge req base config now random) s (create_new lib req now random s)
    create_new-Stored req now random base config s up al well has =
        subst (Stored (new_challenge req base config now random) s)
          (sym (create_new_runs req now random base config s well has))
          (store_new-Stored (new_challenge req base config now random) s up al)

    create_challenge_runs :
        (arrival : List String → List String) (req : ChallengeRecord) (now : ℤ)
        (random : Result (List ℕ)) (s : World lib)
        → (Redis.can_create lib.redis arrival req.creator_id s.redis).0 ≡ ok true
        → create_challenge lib arrival req now random s
          ≡ create_new lib req now random
              (record s { redis = (Redis.can_create lib.redis arrival req.creator_id s.redis).1 })
    unfolding create_challenge
    create_challenge_runs arrival req now random s can = ground (arith, can)

    -- With Redis reachable and the map of boards allocated, a request that can be converted and has
    -- a configuration, of a named user whom no stored challenge that is going on engages, is
    -- answered with the new challenge; it is stored under its identifier, whatever becomes of its
    -- board; no other document and nothing of the history changes. The order in which the
    -- goroutines answer does not matter.
    pub create_challenge-stored :
        (arrival : List String → List String) (req : ChallengeRecord) (now : ℤ)
        (random : Result (List ℕ)) (base : ChallengeDocument) (config : ConfigRecord)
        (s : World lib)
        → ((ks : List String) → Perm (arrival ks) ks)
        → rlaw.Up s.redis
        → IsAllocated lib.board s.boards
        → challenge_document_from_proto req false ≡ some base
        → req.config ≡ some config
        → req.creator_id ≢ ""
        → ((id : String) (d : ChallengeDocument)
            → stored lib.redis rlaw s.redis id ≡ some d
            → ¬ Engages req.creator_id d)
        → let d = new_challenge req base config now random in
          let out = create_challenge lib arrival req now random s in
          (out.0 ≡ ok (challenge_to_proto false d))
          × (out.1.mongo ≡ s.mongo)
          × ((j : String)
              → stored lib.redis rlaw out.1.redis j
                ≡ (if d.challenge_id == j then some d else stored lib.redis rlaw s.redis j))
    create_challenge-stored arrival req now random base config s perm up al well has named free =
        let can =
          (can_create_iff lib.redis rlaw req.creator_id arrival s.redis perm up named).1 free in
        let reads = can_create-Reads lib.redis rlaw arrival req.creator_id s.redis in
        let s1 : World lib = record s {
          redis = (Redis.can_create lib.redis arrival req.creator_id s.redis).1;
        } in
        let done = create_new-Stored req now random base config s1 (reads.up up) al well has in
        rw (create_challenge_runs arrival req now random s can) (
          done.answered,
          done.history,
          λ j. rw (← Reads-stored lib.redis rlaw reads j) (done.active j),
        )

    -- With Redis reachable, a named user whom a stored challenge that is going on engages creates
    -- nothing, in whatever order the goroutines answer: it is not answered with a challenge, and no
    -- document, nothing of the history and no board changes.
    pub create_challenge_engaged :
        (arrival : List String → List String) (req : ChallengeRecord) (now : ℤ)
        (random : Result (List ℕ)) (s : World lib) (id : String) (d : ChallengeDocument)
        → ((ks : List String) → Perm (arrival ks) ks)
        → rlaw.Up s.redis
        → req.creator_id ≢ ""
        → stored lib.redis rlaw s.redis id ≡ some d
        → Engages req.creator_id d
        → let out = create_challenge lib arrival req now random s in
          ((r : ChallengeRecord) → out.0 ≢ ok r)
          × (out.1.mongo ≡ s.mongo)
          × (out.1.boards ≡ s.boards)
          × ((j : String) → stored lib.redis rlaw out.1.redis j ≡ stored lib.redis rlaw s.redis j)
    unfolding create_challenge
    create_challenge_engaged arrival req now random s id d perm up named there engaged =
        let reads = can_create-Reads lib.redis rlaw arrival req.creator_id s.redis in
        let cannot : (Redis.can_create lib.redis arrival req.creator_id s.redis).0 ≢ ok true =
          λ can.
            (can_create_iff lib.redis rlaw req.creator_id arrival s.redis perm up named).0 can id d
              there engaged in
        elim (Outcome-cases (Redis.can_create lib.redis arrival req.creator_id s.redis).0) [
          | inl (b, e) ↦ elim (Bool-cases b) [
            | inl yes' ↦ absurd (cannot (e ∙ ap ok yes'))
            | inr no' ↦ rw (e, no') ((λ r h. cc), refl, refl, Reads-stored lib.redis rlaw reads)
          ]
          | inr (inl (m, e)) ↦ rw e ((λ r h. cc), refl, refl, Reads-stored lib.redis rlaw reads)
          | inr (inr (inl e)) ↦ rw e ((λ r h. cc), refl, refl, Reads-stored lib.redis rlaw reads)
          | inr (inr (inr (w, e))) ↦
              rw e ((λ r h. cc), refl, refl, Reads-stored lib.redis rlaw reads)
        ]

    -- On a reachable server, a request of a named user whom no stored challenge that is going on
    -- engages, but that has no configuration, or in which an entry has no submission, makes the
    -- method panic, which ends the process; no document and nothing of the history changes.
    pub create_challenge_malformed :
        (arrival : List String → List String) (req : ChallengeRecord) (now : ℤ)
        (random : Result (List ℕ)) (s : World lib)
        → ((ks : List String) → Perm (arrival ks) ks)
        → rlaw.Up s.redis
        → req.creator_id ≢ ""
        → ((id : String) (d : ChallengeDocument)
            → stored lib.redis rlaw s.redis id ≡ some d
            → ¬ Engages req.creator_id d)
        → (req.config ≡ none) ⊎ Lacks req.submissions
        → let out = create_challenge lib arrival req now random s in
          (out.0 ≡ panic)
          × (out.1.mongo ≡ s.mongo)
          × ((j : String) → stored lib.redis rlaw out.1.redis j ≡ stored lib.redis rlaw s.redis j)
    unfolding create_challenge create_new
    create_challenge_malformed arrival req now random s perm up named free bad =
        let reads = can_create-Reads lib.redis rlaw arrival req.creator_id s.redis in
        let can =
          (can_create_iff lib.redis rlaw req.creator_id arrival s.redis perm up named).1 free in
        let why : (req.config ≡ none) ⊎ (challenge_document_from_proto req false ≡ none) =
          elim bad [ inl e ↦ inl e | inr lacks ↦ inr (challenge_document-Lacks req false lacks) ] in
        let run : create_challenge lib arrival req now random s ≡ (
          panic,
          record s { redis = (Redis.can_create lib.redis arrival req.creator_id s.redis).1 },
        ) =
          elim (Option-cases (challenge_document_from_proto req false)) [
            | inl e ↦ ground (arith, can, e)
            | inr (d, e) ↦ ground (arith, can, why, e)
          ] in
        rw run (refl, refl, Reads-stored lib.redis rlaw reads)
