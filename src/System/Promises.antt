-- ===== src/System/Promises.antt =====
-- What a user can rely on over any sequence of requests, whoever sends them and whatever fails.
use challenge_service.Prelude.{
  true, String, ◌≡◌, ◌≢◌, ap, ◌∙◌, Bool-cases, Option-cases, some, inl, inr, List, [], ◌∷◌, ◌==◌,
  arith, eq_iff, All,
}
use challenge_service.Exec.{ok}
use challenge_service.Jwt.{JwtLibrary}
use challenge_service.RedisClient
use challenge_service.MongoClient
use challenge_service.Redis.View.{stored}
use challenge_service.Model.{ChallengeDocument, challenge_ended}
use challenge_service.World.{Libraries, World}
use challenge_service.Service.Lifecycle.History.{AllUp, Moved}
use challenge_service.Service.Lifecycle.Ending.{end_challenge-Moved}
use challenge_service.Wss.Handlers.{Codec}
use challenge_service.System.Documents.{Origin, View, origin, origin_of}
use challenge_service.System.Spec.{
  Author, Transition, opens, closes, archives, Evolves, stays, moves,
}
use challenge_service.System.Invariant.{Holds}
use challenge_service.System.Requests.{Request, author, answer, goes_on, serve_all, is_up, ends}
use challenge_service.System.Refinement.{answer-Moves}

-- The request is neither one of the creator to open, end or abandon a challenge, nor one to create a
-- challenge with the identifier.
abbrev pub IsForeign : String → Origin → Request → Type 0
IsForeign id o r = ((author r).user ≢ o.creator_id) × ((author r).opening ≢ some id)

module _ (by : Author) (id : String) (o : Origin) (other : by.user ≢ o.creator_id)
    (elsewhere : by.opening ≢ some id) where
  Transition-kept : {v w : View} → Transition by v w → v id ≡ some o → w id ≡ some o
  Transition-kept (opens j x fresh mine open') h = elim (Bool-cases (j == id)) [
    | inl e ↦ absurd (elsewhere (fresh ∙ ap some ((eq_iff j id).0 e)))
    | inr e ↦ ground (arith, e, h)
  ]
  Transition-kept (closes j st x seen mine over) h = elim (Bool-cases (j == id)) [
    | inl e ↦ absurd (other (ground (arith, (eq_iff j id).0 e, seen, h, mine)))
    | inr e ↦ ground (arith, e, h)
  ]
  Transition-kept (archives j x seen mine over) h = elim (Bool-cases (j == id)) [
    | inl e ↦ absurd (other (ground (arith, (eq_iff j id).0 e, seen, h, mine)))
    | inr e ↦ ground (arith, e, h)
  ]

  Evolves-kept : {v w : View} → Evolves by v w → v id ≡ some o → w id ≡ some o
  Evolves-kept stays h = h
  Evolves-kept (moves t e) h = Evolves-kept e (Transition-kept t h)

module _ (lib : Libraries) (rlaw : RedisClient.Laws lib.redis) (jwt : JwtLibrary) (secret : String)
    (codec : Codec) where
  -- The invariant holds with a view in which the challenge `id` looks like `o`.
  record Kept (id : String) (o : Origin) (s : World lib) : Type 0 where
    pub view : View
    pub holds : Holds lib rlaw view s
    pub seen : view id ≡ some o

  Kept-answer :
      (id : String) (o : Origin) (r : Request) (s : World lib)
      → IsForeign id o r
      → Kept id o s
      → Kept id o (answer lib jwt secret codec r s).1
  Kept-answer id o r s foreign k =
      let reached = answer-Moves lib rlaw jwt secret codec k.view r s k.holds in
      record {
        view = reached.view;
        holds = reached.holds;
        seen = Evolves-kept (author r) id o foreign.0 foreign.1 reached.evolved k.seen;
      }

  Kept-serve_all :
      (id : String) (o : Origin) (rs : List Request) (s : World lib)
      → All (IsForeign id o) rs
      → Kept id o s
      → Kept id o (serve_all lib jwt secret codec rs s)
  unfolding serve_all
  Kept-serve_all id o [] s h k = k
  Kept-serve_all id o (r ∷ rs) s h k =
      let after = (answer lib jwt secret codec r s).1 in
      let now = Kept-answer id o r s h.0 k in
      elim (Bool-cases (goes_on lib jwt secret codec r (answer lib jwt secret codec r s).0)) [
        | inl on ↦ rw on (Kept-serve_all id o rs after h.1 now)
        | inr off ↦ rw off now
      ]

  -- Nobody but the creator changes what a challenge is. From a state in which the invariant holds,
  -- a challenge keeps its creator, title, settings and status over any sequence of requests, of
  -- which none is one of the creator to open, end or abandon a challenge and none creates a
  -- challenge with the same identifier, even if any call of a library fails.
  pub serve_all-kept :
      (v : View) (id : String) (o : Origin) (rs : List Request) (s : World lib)
      → Holds lib rlaw v s
      → v id ≡ some o
      → All (IsForeign id o) rs
      → origin_of (stored lib.redis rlaw (serve_all lib jwt secret codec rs s).redis id) ≡ some o
  serve_all-kept v id o rs s h seen foreign =
      let k = Kept-serve_all id o rs s foreign (record { view = v; holds = h; seen = seen }) in
      k.holds.redis.seen id ∙ k.seen

  -- The document that is stored for a challenge that looks like `o`.
  document_of :
      (id : String) (o : Origin) (s : World lib)
      → Kept id o s
      → (d : ChallengeDocument) × (stored lib.redis rlaw s.redis id ≡ some d)
        × (d.challenge_id ≡ id)
        × (origin d ≡ o)
  document_of id o s k = elim (Option-cases (stored lib.redis rlaw s.redis id)) [
    | inl e ↦ absurd (ground (arith, k.holds.redis.seen id, k.seen, e))
    | inr (d, e) ↦
        (d, e, k.holds.redis.own id d e, ground (arith, k.holds.redis.seen id, k.seen, e))
  ]

  module _ (mlaw : MongoClient.Laws lib.mongo) where
    -- A creator can end a challenge as long as the process runs. From a state in which the
    -- invariant holds, after any sequence of requests of which none is one of the creator to open,
    -- end or abandon a challenge, none creates a challenge with the same identifier and none has
    -- ended the process, even if calls of libraries failed meanwhile: as soon as both servers are
    -- reachable, the request of the creator to end the challenge succeeds; the challenge, with its
    -- settings and the status ended, is gone from Redis and taken over into the history, and no
    -- other challenge changes in either. Where the history holds the identifier already, the entry
    -- there keeps its creator, title and configuration.
    pub serve_all-Moved :
        (v : View) (id : String) (o : Origin) (rs : List Request) (s : World lib)
        → Holds lib rlaw v s
        → v id ≡ some o
        → All (IsForeign id o) rs
        → is_up lib jwt secret codec rs s ≡ true
        → AllUp lib rlaw mlaw (serve_all lib jwt secret codec rs s)
        → let before = serve_all lib jwt secret codec rs s in
          let out = answer lib jwt secret codec (ends id o.creator_id) before in
          (d : ChallengeDocument) × (origin d ≡ o)
          × (out.0 ≡ ok tt)
          × Moved lib rlaw mlaw id (record d { status = challenge_ended }) before out.1
    unfolding answer
    serve_all-Moved v id o rs s h seen foreign alive up =
        let before = serve_all lib jwt secret codec rs s in
        let k = Kept-serve_all id o rs s foreign (record { view = v; holds = h; seen = seen }) in
        let (d, there, own, same) = document_of id o before k in
        let (done, moved) =
          end_challenge-Moved lib rlaw mlaw id o.creator_id d before up there own
            (ap (λ x. x.creator_id) same) in
        (d, same, done, moved)
