-- ===== src/Service/Queries/Listing.antt =====
-- `GetActiveOpenChallenges` and `GetOwnersActiveChallenges`: which challenges they list.
use mathlib.Core.List.{Mem, Perm}
use mathlib.Core.List.Perm
use mathlib.Core.Path.{subst}
use challenge_service.Prelude.{
  String, ◌≡◌, refl, sym, ap, ◌∙◌, true, false, Bool-cases, not, some, List, [], ◌∷◌, arith, ◌==◌,
  eq_iff, All, All-map, All-Mem,
}
use challenge_service.Exec.{ok}
use challenge_service.Model.{ChallengeDocument, challenge_open}
use challenge_service.RedisClient
use challenge_service.Redis.View.{stored}
use challenge_service.Redis.Listing.{
  Kept, Kept-trans, get_active_challenges_up, get_challenges_by_status_up,
}
use challenge_service.World.{Libraries, World}
use challenge_service.Service.Proto.{ChallengeRecord, challenge_to_proto, challenges_to_proto}
use challenge_service.Service.Queries.{
  listing, keep_public, keep_owned, fetch_challenges_concurrently, get_active_open_challenges,
  get_owners_active_challenges,
}
use challenge_service.Service.Queries.Fetching.{length-perm, Keeps, fetch_each_up}

-- The identifiers of the problems are not in the answer.
abbrev pub HidesProblems : ChallengeRecord → Type 0
HidesProblems r = r.processed_problem_ids ≡ []

listing-HidesProblems :
    (ds : List ChallengeDocument) → All HidesProblems (listing true ds).challenges
unfolding challenges_to_proto challenge_to_proto
listing-HidesProblems [] = tt
listing-HidesProblems (d ∷ ds) = (refl, listing-HidesProblems ds)

module _ (lib : Libraries) (rlaw : RedisClient.Laws lib.redis) where
  -- a stored challenge
  abbrev pub IsStored : World lib → ChallengeDocument → Type 0
  IsStored s d = (id : String) × (stored lib.redis rlaw s.redis id ≡ some d)

  -- `ds` are exactly the stored challenges of which `P` holds.
  pub record Lists (P : ChallengeDocument → Type 0) (s : World lib) (ds : List ChallengeDocument)
      : Type 0 where
    pub all :
        (id : String) (d : ChallengeDocument)
        → stored lib.redis rlaw s.redis id ≡ some d
        → P d
        → Mem d ds
    pub only : All (λ d. P d × IsStored s d) ds

  -- a challenge that is open to everybody
  abbrev pub IsPublic : ChallengeDocument → Type 0
  IsPublic d = (d.status ≡ challenge_open) × (d.is_private ≡ false)

  keep_public-Keeps : Keeps (λ d. not d.is_private) (keep_public false)
  keep_public-Keeps = record {
    taken = λ d rest. ground (arith, Bool-cases d.is_private);
    skipped = λ msg rest. refl;
  }

  keep_owned-Keeps : (user : String) → Keeps (λ d. d.creator_id == user) (keep_owned user)
  keep_owned-Keeps user = record { taken = λ d rest. refl; skipped = λ msg rest. refl }

  -- With Redis reachable, and where the pool runs every task, in whatever order, the open challenges
  -- that are listed are exactly the stored ones that are open and not private, without their
  -- problems; and no stored challenge changes.
  pub get_active_open_challenges-Lists :
      (arrival : List String → List String) (s : World lib)
      → ((ids : List String) → Perm (arrival ids) ids)
      → rlaw.Up s.redis
      → (ds : List ChallengeDocument) × Lists IsPublic s ds
        × ((get_active_open_challenges lib arrival s).0 ≡ ok (listing true ds))
        × All HidesProblems (listing true ds).challenges
        × Kept lib.redis rlaw s.redis (get_active_open_challenges lib arrival s).1.redis
  unfolding get_active_open_challenges fetch_challenges_concurrently
  get_active_open_challenges-Lists arrival s perm up =
      let (ids, db, listed, kept1, every, right) =
        get_challenges_by_status_up lib.redis rlaw challenge_open s.redis up in
      let s1 : World lib = record s { redis = db } in
      let (ds, s2, fetched, kept2, complete, sound) =
        fetch_each_up lib rlaw (λ d. not d.is_private) (keep_public false) keep_public-Keeps
          (arrival ids) s1 kept1.up in
      let is_open = λ (id : String).
        (d : ChallengeDocument)
        → stored lib.redis rlaw s.redis id ≡ some d
        → (d.status == challenge_open) ≡ true in
      let open' =
        All-map
          (λ id.
            (d : ChallengeDocument) × (stored lib.redis rlaw s.redis id ≡ some d)
            × (d.status ≡ challenge_open))
          is_open (λ id h d held. ground (arith, h.1, h.2, held, eq_iff d.status challenge_open))
          ids right in
      let run : get_active_open_challenges lib arrival s ≡ (ok (listing true ds), s2) =
        ground (arith, listed, fetched, length-perm (perm ids)) in
      (
        ds,
        record {
          all = λ id d h p.
              complete id d ((Perm.mem_iff (perm ids)).1 (every id d h p.0)) (kept1.same id ∙ h)
                (ap not p.1);
          only =
              All-map
                (λ d.
                  (not d.is_private ≡ true)
                  × ((id : String) × Mem id (arrival ids) × (stored lib.redis rlaw db id ≡ some d)))
                (λ d. IsPublic d × IsStored s d)
                (λ d h.
                  let held = sym (kept1.same h.1.0) ∙ h.1.2 in
                  let listed' = (Perm.mem_iff (perm ids)).0 h.1.1 in
                  let st = All-Mem is_open (λ id. hlevel) ids open' listed' d held in
                  (
                    (
                      (eq_iff d.status challenge_open).0 st,
                      ground (arith, h.0, Bool-cases d.is_private),
                    ),
                    (h.1.0, held),
                  ))
                ds sound;
        },
        ap (λ r. r.0) run,
        listing-HidesProblems ds,
        subst (λ w. Kept lib.redis rlaw s.redis w) (ap (λ r. r.1.redis) (sym run))
            (Kept-trans lib.redis rlaw kept1 kept2),
      )

  -- With Redis reachable, the challenges listed for an owner are exactly the stored ones that the
  -- owner created; and no stored challenge changes.
  pub get_owners_active_challenges-Lists :
      (user : String) (s : World lib)
      → rlaw.Up s.redis
      → (ds : List ChallengeDocument) × Lists (λ d. d.creator_id ≡ user) s ds
        × ((get_owners_active_challenges lib user s).0 ≡ ok (challenges_to_proto false ds))
        × Kept lib.redis rlaw s.redis (get_owners_active_challenges lib user s).1.redis
  unfolding get_owners_active_challenges
  get_owners_active_challenges-Lists user s up =
      let (ids, db, listed, kept1, every) = get_active_challenges_up lib.redis rlaw s.redis up in
      let s1 : World lib = record s { redis = db } in
      let (ds, s2, fetched, kept2, complete, sound) =
        fetch_each_up lib rlaw (λ d. d.creator_id == user) (keep_owned user) (keep_owned-Keeps user)
          ids s1 kept1.up in
      let run : get_owners_active_challenges lib user s ≡ (ok (challenges_to_proto false ds), s2) =
        ground (arith, listed, fetched) in
      (
        ds,
        record {
          all = λ id d h p.
              complete id d (every id d h) (kept1.same id ∙ h) ((eq_iff d.creator_id user).1 p);
          only =
              All-map
                (λ d.
                  ((d.creator_id == user) ≡ true)
                  × ((id : String) × Mem id ids × (stored lib.redis rlaw db id ≡ some d)))
                (λ d. (d.creator_id ≡ user) × IsStored s d)
                (λ d h. ((eq_iff d.creator_id user).0 h.0, (h.1.0, sym (kept1.same h.1.0) ∙ h.1.2)))
                ds sound;
        },
        ap (λ r. r.0) run,
        subst (λ w. Kept lib.redis rlaw s.redis w) (ap (λ r. r.1.redis) (sym run))
            (Kept-trans lib.redis rlaw kept1 kept2),
      )
