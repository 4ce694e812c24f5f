-- ===== src/System/Documents.antt =====
-- The methods of redis.go that keep what every challenge is: its identity, its settings and its
-- status. They change who takes part, what was submitted and the leaderboard.
use mathlib.Core.Path.{subst}
use text.Mathlib.TextEquality.{starts_with_iff}
use challenge_service.Prelude.{
  ◌⊎◌, String, ◌≡◌, ◌≢◌, sym, ap, ◌∙◌, Bool, Bool-cases, Option, none, some, inl, inr, List, [],
  ◌∷◌, arith, eq_iff, ◌==◌,
}
use challenge_service.Prelude.Int.{ℤ}
use challenge_service.GoMap.{nil, insert, delete-ne-nil, insert-ne-nil, assign-allocated}
use challenge_service.Exec.{Cut, cut, panic}
use challenge_service.Exec.Laws.{Result-cases}
use challenge_service.Model.{ChallengeDocument, ChallengeConfig, ParticipantMetadata}
use challenge_service.RedisClient.{RedisClient, Laws}
use challenge_service.Redis.{
  key_of, key_prefix, create_challenge, get_challenge_by_id, get_challenge, update_challenge,
  add_participant, remove_participant, get_active_challenges, filter_status,
  get_challenges_by_status,
}
use challenge_service.Redis.View.{
  stored, decoded, stored-get_challenge_by_id, get_challenge_by_id_ok, get_challenge_by_id-ne-panic,
  get_challenge_by_id-ne-cut, stored-create_challenge_cases, stored-create_challenge_ne,
}
use challenge_service.Redis.Listing.{strip_all_keys}
use challenge_service.System.Safety.{Anything, Got, Safe, Safe-pure, Safe-bind, Safe-attempt}

-- What a challenge is, apart from what its participants have done.
pub record Origin : Type 0 where
  pub creator_id : String
  pub created_at : ℤ
  pub title : String
  pub is_private : Bool
  pub password : String
  pub status : String
  pub time_limit : ℤ
  pub start_time : ℤ
  pub config : Option ChallengeConfig
  pub processed_problem_ids : List String
  pub problem_count : ℤ

abbrev pub origin : ChallengeDocument → Origin
origin d = record {
  creator_id = d.creator_id;
  created_at = d.created_at;
  title = d.title;
  is_private = d.is_private;
  password = d.password;
  status = d.status;
  time_limit = d.time_limit;
  start_time = d.start_time;
  config = d.config;
  processed_problem_ids = d.processed_problem_ids;
  problem_count = d.problem_count;
}

abbrev pub origin_of : Option ChallengeDocument → Option Origin
origin_of none = none
origin_of (some d) = some (origin d)

-- the challenges that are going on, by their identifiers
abbrev pub View : Type 0
View = String → Option Origin

-- `d` is the challenge `id`, and the map of its participants is allocated.
pub record Known (v : View) (id : String) (d : ChallengeDocument) : Type 0 where
  pub own : d.challenge_id ≡ id
  pub mapped : d.participants ≢ nil
  pub seen : v id ≡ some (origin d)

module _ (c : RedisClient) (law : Laws c) where
  -- Each document stands under its own identifier with its map of participants, and together they
  -- look like `v`.
  pub record Shows (v : View) (db : c.Db) : Type 0 where
    pub own :
        (id : String) (d : ChallengeDocument) → stored c law db id ≡ some d → d.challenge_id ≡ id
    pub mapped :
        (id : String) (d : ChallengeDocument) → stored c law db id ≡ some d → d.participants ≢ nil
    pub seen : (id : String) → origin_of (stored c law db id) ≡ v id

  pub Shows-same :
      (v : View) (db db' : c.Db)
      → ((id : String) → stored c law db' id ≡ stored c law db id)
      → Shows v db
      → Shows v db'
  Shows-same v db db' same h = record {
    own = λ id d e. h.own id d (sym (same id) ∙ e);
    mapped = λ id d e. h.mapped id d (sym (same id) ∙ e);
    seen = λ id. ap origin_of (same id) ∙ h.seen id;
  }

  -- Under each identifier a write leaves the new document or the old one.
  pub stored-create_challenge_either :
      (d : ChallengeDocument) (db : c.Db) (j : String)
      → ((d.challenge_id ≡ j) × (stored c law (create_challenge c d db).1 j ≡ some d))
        ⊎ (stored c law (create_challenge c d db).1 j ≡ stored c law db j)
  stored-create_challenge_either d db j = elim (Bool-cases (d.challenge_id == j)) [
    | inl e ↦
        let own = (eq_iff d.challenge_id j).0 e in
        elim (stored-create_challenge_cases c law d db) [
          | inl new ↦
              inl (own, subst (λ k. stored c law (create_challenge c d db).1 k ≡ some d) own new)
          | inr old ↦
              inr (
                subst (λ k. stored c law (create_challenge c d db).1 k ≡ stored c law db k) own old)
        ]
    | inr e ↦ inr (
        stored-create_challenge_ne c law d db j
          (λ own. ground (arith, e, own, eq_iff d.challenge_id j)))
  ]

  create_challenge-ne-panic :
      (d : ChallengeDocument) (db : c.Db) → (create_challenge c d db).0 ≢ panic
  unfolding create_challenge
  create_challenge-ne-panic d db h = ground (arith, h)

  create_challenge-ne-cut :
      (d : ChallengeDocument) (db : c.Db) (w : Cut) → (create_challenge c d db).0 ≢ cut w
  unfolding create_challenge
  create_challenge-ne-cut d db w h = ground (arith, h)

  module _ (v : View) where
    Shows-create_challenge :
        (id : String) (d : ChallengeDocument) (db : c.Db)
        → Known v id d
        → Shows v db
        → Shows v (create_challenge c d db).1
    Shows-create_challenge id d db k h = record {
      own = λ j x e. elim (stored-create_challenge_either d db j) [
        | inl (own, new) ↦ ground (arith, own, new, e)
        | inr old ↦ h.own j x (sym old ∙ e)
      ];
      mapped = λ j x e. elim (stored-create_challenge_either d db j) [
        | inl (own, new) ↦ λ gone. k.mapped (ground (arith, new, e, gone))
        | inr old ↦ h.mapped j x (sym old ∙ e)
      ];
      seen = λ j. elim (stored-create_challenge_either d db j) [
        | inl (own, new) ↦ ground (arith, new, k.seen, k.own, own)
        | inr old ↦ ap origin_of old ∙ h.seen j
      ];
    }

    pub update_challenge-Safe :
        (id : String) (d : ChallengeDocument)
        → Known v id d
        → Safe (Shows v) Anything (update_challenge c d)
    unfolding update_challenge
    update_challenge-Safe id d k db h = record {
      state = Shows-create_challenge id d db k h;
      calm = create_challenge-ne-panic d db;
      back = create_challenge-ne-cut d db;
      gives = λ a e. tt;
    }

    pub get_challenge_by_id-Safe :
        (id : String) → Safe (Shows v) (Known v id) (get_challenge_by_id c id)
    get_challenge_by_id-Safe id db h = record {
      state = Shows-same v db _ (stored-get_challenge_by_id c law id db) h;
      calm = get_challenge_by_id-ne-panic c id db;
      back = get_challenge_by_id-ne-cut c id db;
      gives = λ d e.
          let there = get_challenge_by_id_ok c law id db d e in
          record {
            own = h.own id d there;
            mapped = h.mapped id d there;
            seen = sym (h.seen id) ∙ ap origin_of there;
          };
    }

    pub get_challenge-Safe : (id : String) → Safe (Shows v) (Known v id) (get_challenge c id)
    unfolding get_challenge
    get_challenge-Safe id = get_challenge_by_id-Safe id

    pub add_participant-Safe :
        (id user : String) (m : ParticipantMetadata)
        → Safe (Shows v) Anything (add_participant c id user m)
    unfolding add_participant
    add_participant-Safe id user m =
        Safe-bind (Shows v) (Known v id) Anything _ _ (get_challenge-Safe id) λ d k.
          let d' : ChallengeDocument = record d { participants = insert user m d.participants } in
          rw (assign-allocated user m d.participants) (
            update_challenge-Safe id d'
              (record { own = k.own; mapped = insert-ne-nil user m d.participants; seen = k.seen }))

    pub remove_participant-Safe :
        (id user : String) → Safe (Shows v) Anything (remove_participant c id user)
    unfolding remove_participant
    remove_participant-Safe id user =
        Safe-bind (Shows v) (Known v id) Anything _ _ (get_challenge-Safe id) λ d k.
          update_challenge-Safe id _ (record {
            own = k.own;
            mapped = delete-ne-nil user d.participants k.mapped;
            seen = k.seen;
          })

    Shows-keys : (p : String) (db : c.Db) → Shows v db → Shows v (c.keys p db).1
    Shows-keys p db h =
        Shows-same v db _ (λ id. ap (decoded c law) (law.peek-keys p db (key_of id))) h

    pub get_active_challenges-Safe : Safe (Shows v) Anything (get_active_challenges c)
    unfolding get_active_challenges
    get_active_challenges-Safe db h =
        let db' = (c.keys key_prefix db).1 in
        elim (Result-cases (c.keys key_prefix db).0) [
          | inl (ks, e) ↦
              let (ids, ran, _) = strip_all_keys c ks db' (λ k m.
                let (id, is) =
                  (starts_with_iff k key_prefix).0 ((law.keys_lem key_prefix db ks e k).0 m).0 in
                (id, sym is)) in
              rw (e, ran)
                (record {
                  state = Shows-keys key_prefix db h;
                  calm = λ b. cc;
                  back = λ w b. cc;
                  gives = λ a b. tt;
                })
          | inr (msg, e) ↦ rw e (record {
            state = Shows-keys key_prefix db h;
            calm = λ b. cc;
            back = λ w b. cc;
            gives = λ a b. cc;
          })
        ]

    filter_status-Safe :
        (status : String) (ids : List String) → Safe (Shows v) Anything (filter_status c status ids)
    unfolding filter_status
    filter_status-Safe status [] = Safe-pure (Shows v) Anything [] tt
    filter_status-Safe status (id ∷ ids) =
        Safe-bind (Shows v) (Got (Known v id)) Anything _ _
          (Safe-attempt (Shows v) (Known v id) (get_challenge c id) (get_challenge-Safe id))
          λ r _.
            Safe-bind (Shows v) Anything Anything _ _ (filter_status-Safe status ids)
              λ rest _. Safe-pure (Shows v) Anything _ tt

    pub get_challenges_by_status-Safe :
        (status : String) → Safe (Shows v) Anything (get_challenges_by_status c status)
    unfolding get_challenges_by_status
    get_challenges_by_status-Safe status =
        Safe-bind (Shows v) Anything Anything _ _ get_active_challenges-Safe
          λ ids _. filter_status-Safe status ids
