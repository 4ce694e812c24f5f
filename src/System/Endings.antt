-- ===== src/System/Endings.antt =====
-- `EndChallenge` and `AbandonChallenge` of internal/service/challenge.go, whatever fails on the way:
-- what they do to the challenges is closing and archiving one that the user created.
use challenge_service.Prelude.{
  String, ◌≡◌, ◌⊎◌, refl, sym, ap, ◌∙◌, true, Option, none, some, inl, inr, arith, eq_refl,
}
use challenge_service.Exec.{ok}
use challenge_service.Model.{ChallengeDocument}
use challenge_service.RedisClient
use challenge_service.MongoClient
use challenge_service.Redis
use challenge_service.Redis.{is_over}
use challenge_service.Mongo
use challenge_service.World.{Libraries, World, on_redis}
use challenge_service.Service.Lifecycle.{persist_challenge_to_mongodb}
use challenge_service.System.Safety.{Anything, Safe, Safe-bind, Safe-wrap}
use challenge_service.System.Boards.{call-Safe}
use challenge_service.System.Documents.{Origin, View, Known, origin, get_challenge_by_id-Safe}
use challenge_service.System.Spec.{
  Author, Transition, closes, archives, moves, stays, put, with_status,
}
use challenge_service.System.Writes.{create_challenge-Written, delete_challenge-Written}
use challenge_service.System.Invariant.{Holds, Safe-redis, Safe-mongo}
use challenge_service.System.Moves.{Moves, Moves-pure, Moves-attempt, Moves-bind, Moves-then}

module _ (m : MongoClient.MongoClient) where
  abbrev Any : m.Coll → Type 0
  Any coll = Unit {0}

  persist-Safe :
      (d : ChallengeDocument) → Safe Any Anything (Mongo.persist_challenge_from_redis m (some d))
  unfolding Mongo.persist_challenge_from_redis
  persist-Safe d =
      Safe-bind Any Anything Anything _ _
        (Safe-wrap Any Anything _ _ (call-Safe Any _ (λ coll i. tt))) λ o _. stored-Safe o
    where
      stored-Safe : (o : Option ChallengeDocument) → Safe Any Anything (Mongo.persist m d o)
      stored-Safe none = call-Safe Any _ (λ coll i. tt)
      stored-Safe (some x) = call-Safe Any _ (λ coll i. tt)

abbrev creator_of : Option Origin → String
creator_of none = ""
creator_of (some o) = o.creator_id

module _ (lib : Libraries) (rlaw : RedisClient.Laws lib.redis) (by : Author) where
  -- The challenge `id` was created by the user.
  pub record Owned (v : View) (id : String) : Type 0 where
    pub it : Origin
    pub seen : v id ≡ some it
    pub creator : it.creator_id ≡ by.user

  -- the document that is read is the user's own
  pub Owned-mine :
      {v : View} {id : String} {d : ChallengeDocument}
      → Owned v id
      → Known v id d
      → d.creator_id ≡ by.user
  Owned-mine o k = ap creator_of (sym k.seen ∙ o.seen) ∙ o.creator

  pub Owned-of :
      {v : View} {id : String} {d : ChallengeDocument}
      → Known v id d
      → d.creator_id ≡ by.user
      → Owned v id
  Owned-of {d} k mine = record { it = origin d; seen = k.seen; creator = mine }

  module _ (v : View) where
    abbrev I : World lib → Type 0
    I = Holds lib rlaw v

    delete-Moves :
        (id : String) (o : Owned v id)
        → is_over o.it.status ≡ true
        → Moves lib rlaw by v (on_redis lib (Redis.delete_challenge lib.redis id))
    delete-Moves id o over s h =
        elim (delete_challenge-Written lib.redis rlaw v id s.redis h.redis) [
          | inl same ↦ record {
            view = v;
            evolved = stays;
            holds = record { redis = same; boards = h.boards; events = h.events };
          }
          | inr gone ↦ record {
            view = put id none v;
            evolved = moves (archives id o.it o.seen o.creator over) stays;
            holds = record { redis = gone; boards = h.boards; events = h.events };
          }
        ]

    pub persist-Moves :
        (id : String) (o : Owned v id)
        → is_over o.it.status ≡ true
        → Moves lib rlaw by v (persist_challenge_to_mongodb lib id)
    unfolding persist_challenge_to_mongodb
    persist-Moves id o over =
        Moves-bind lib rlaw by v (Known v id) _ _
          (Safe-wrap I (Known v id) _ _
            (Safe-redis lib rlaw v (Known v id) _ (get_challenge_by_id-Safe lib.redis rlaw v id)))
          λ d k.
            Moves-bind lib rlaw by v Anything _ _
              (Safe-wrap I Anything _ _ (Safe-mongo lib rlaw v _ (persist-Safe lib.mongo d)))
              λ u _.
                Moves-then lib rlaw by v _ _
                  (Moves-attempt lib rlaw by v _ (delete-Moves id o over))
                  (λ w r. Moves-pure lib rlaw by w tt)

    -- the view after the document `d` was given another status
    pub restatused : ChallengeDocument → String → View
    restatused d status = put d.challenge_id (some (with_status status (origin d))) v

    pub restatused-Owned :
        (id status : String) (d : ChallengeDocument)
        → Known v id d
        → d.creator_id ≡ by.user
        → (o : Owned (restatused d status) id) × (o.it.status ≡ status)
    unfolding restatused
    restatused-Owned id status d k mine = (
      record {
        it = with_status status (origin d);
        seen = ground (arith, k.own, eq_refl id);
        creator = mine;
      },
      refl,
    )

    pub update_status-Holds :
        (id status : String) (d : ChallengeDocument) (s : World lib)
        → Known v id d
        → I s
        → let out =
            on_redis lib (Redis.update_challenge lib.redis (record d { status = status })) s in
          (I out.1 ⊎ Holds lib rlaw (restatused d status) out.1)
          × (out.0 ≡ ok tt → Holds lib rlaw (restatused d status) out.1)
    unfolding restatused Redis.update_challenge
    update_status-Holds id status d s k h =
        let w =
          create_challenge-Written lib.redis rlaw v (record d { status = status }) s.redis k.mapped
            h.redis in
        (
          elim w.0 [
            | inl old ↦ inl (record { redis = old; boards = h.boards; events = h.events })
            | inr new ↦ inr (record { redis = new; boards = h.boards; events = h.events })
          ],
          λ good. record { redis = w.1 good; boards = h.boards; events = h.events },
        )

    -- this is a step of the user's
    pub restatused-step :
        (id status : String) (d : ChallengeDocument)
        → Known v id d
        → d.creator_id ≡ by.user
        → is_over status ≡ true
        → Transition by v (restatused d status)
    unfolding restatused
    restatused-step id status d k mine over =
        closes d.challenge_id status (origin d) (ap v k.own ∙ k.seen) mine over
