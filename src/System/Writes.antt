-- ===== src/System/Writes.antt =====
-- The writes of redis.go that change what a challenge is: a write has happened or not, and if it
-- reports success it has happened.
use mathlib.Core.Path.{subst}
use challenge_service.Prelude.{
  String, ◌≡◌, ◌≢◌, ◌⊎◌, sym, ap, ◌∙◌, false, Bool-cases, Option, none, some, inl, inr, arith,
  eq_iff, ◌==◌, if◌then◌else◌,
}
use challenge_service.GoMap.{nil}
use challenge_service.Exec.{ok}
use challenge_service.Exec.Laws.{Outcome-cases}
use challenge_service.Model.{ChallengeDocument, challenge_abandon}
use challenge_service.RedisClient.{RedisClient, Laws}
use challenge_service.Redis.{
  key_of, create_challenge, delete_challenge, abandon_challenge, update_challenge, get_challenge,
  get_challenge_by_id,
}
use challenge_service.Redis.View.{
  stored, decoded, key_of-ne, stored-create_challenge_cases, stored-create_challenge_ne,
  stored-create_challenge_if,
}
use challenge_service.System.Documents.{
  Origin, View, origin_of, Shows, Shows-same, get_challenge_by_id-Safe,
}
use challenge_service.System.Spec.{put, with_status}

abbrev restatus : Option Origin → Option Origin
restatus none = none
restatus (some o) = some (with_status challenge_abandon o)

module _ (c : RedisClient) (law : Laws c) where
  -- `db'` holds `x` under `id`, and else what `db` holds.
  abbrev Has : String → Option ChallengeDocument → c.Db → c.Db → Type 0
  Has id x db db' = (j : String) → stored c law db' j ≡ (if id == j then x else stored c law db j)

  -- the document may stand under the identifier
  abbrev pub Fits : String → Option ChallengeDocument → Type 0
  Fits id x = (d : ChallengeDocument) → x ≡ some d → (d.challenge_id ≡ id) × (d.participants ≢ nil)

  Shows-put :
      (v : View) (id : String) (x : Option ChallengeDocument) (db db' : c.Db)
      → Has id x db db'
      → Fits id x
      → Shows c law v db
      → Shows c law (put id (origin_of x) v) db'
  Shows-put v id x db db' has fits h = record {
    own = λ j d e. elim (Bool-cases (id == j)) [
      | inl same ↦ (fits d (ground (arith, has j, same, e))).0 ∙ (eq_iff id j).0 same
      | inr other ↦ h.own j d (ground (arith, has j, other, e))
    ];
    mapped = λ j d e. elim (Bool-cases (id == j)) [
      | inl same ↦ (fits d (ground (arith, has j, same, e))).1
      | inr other ↦ h.mapped j d (ground (arith, has j, other, e))
    ];
    seen = λ j. elim (Bool-cases (id == j)) [
      | inl same ↦ ground (arith, has j, same)
      | inr other ↦ ground (arith, has j, other, h.seen j)
    ];
  }

  -- After a write the database shows what it showed, or the new document.
  pub create_challenge-Written :
      (v : View) (d : ChallengeDocument) (db : c.Db)
      → d.participants ≢ nil
      → Shows c law v db
      → let out = create_challenge c d db in
        ((Shows c law v out.1) ⊎ (Shows c law (put d.challenge_id (origin_of (some d)) v) out.1))
        × (out.0 ≡ ok tt → Shows c law (put d.challenge_id (origin_of (some d)) v) out.1)
  create_challenge-Written v d db mapped h =
      let db' = (create_challenge c d db).1 in
      let fits : Fits d.challenge_id (some d) =
        λ x e. (ground (arith, e), λ gone. mapped (ground (arith, e, gone))) in
      let unsame : (j : String)
          → (d.challenge_id == j) ≡ false
          → stored c law db' j ≡ stored c law db j =
        λ j other.
          stored-create_challenge_ne c law d db j
            (λ e. ground (arith, other, e, eq_iff d.challenge_id j)) in
      (
        elim (stored-create_challenge_cases c law d db) [
          | inl new ↦ inr (
              Shows-put v d.challenge_id (some d) db db'
                (λ j. elim (Bool-cases (d.challenge_id == j)) [
                  | inl same ↦
                      rw same (subst (λ k. stored c law db' k ≡ some d) ((eq_iff _ j).0 same) new)
                  | inr other ↦ rw other (unsame j other)
                ])
                fits h)
          | inr old ↦ inl (
              Shows-same c law v db db'
                (λ j. elim (Bool-cases (d.challenge_id == j)) [
                  | inl same ↦
                      subst (λ k. stored c law db' k ≡ stored c law db k) ((eq_iff _ j).0 same) old
                  | inr other ↦ unsame j other
                ])
                h)
        ],
        λ good.
            Shows-put v d.challenge_id (some d) db db' (stored-create_challenge_if c law d db good)
              fits h,
      )

  pub delete_challenge-Written :
      (v : View) (id : String) (db : c.Db)
      → Shows c law v db
      → let out = delete_challenge c id db in
        (Shows c law v out.1) ⊎ (Shows c law (put id none v) out.1)
  unfolding delete_challenge
  delete_challenge-Written v id db h =
      let db' = (delete_challenge c id db).1 in
      let unsame : (j : String) → (id == j) ≡ false → stored c law db' j ≡ stored c law db j =
        λ j other. ap (decoded c law) (
          law.peek-del_ne (key_of id) db (key_of j)
            (key_of-ne (λ e. ground (arith, other, e, eq_iff id j)))) in
      elim (law.peek-del_cases (key_of id) db) [
        | inl gone ↦ inr (
            Shows-put v id none db db'
              (λ j. elim (Bool-cases (id == j)) [
                | inl same ↦ rw same (
                    subst (λ k. stored c law db' k ≡ none) ((eq_iff _ j).0 same)
                      (ap (decoded c law) gone))
                | inr other ↦ rw other (unsame j other)
              ])
              (λ d e. absurd (ground (arith, e))) h)
        | inr kept ↦ inl (
            Shows-same c law v db db'
              (λ j. elim (Bool-cases (id == j)) [
                | inl same ↦
                    subst (λ k. stored c law db' k ≡ stored c law db k) ((eq_iff _ j).0 same)
                      (ap (decoded c law) kept)
                | inr other ↦ unsame j other
              ])
              h)
      ]

  -- `AbandonChallenge` of the repository, on a challenge that looks like `o`.
  pub abandon_challenge-Written :
      (v : View) (creator id : String) (o : Origin) (db : c.Db)
      → v id ≡ some o
      → Shows c law v db
      → let out = abandon_challenge c creator id db in
        let w = put id (some (with_status challenge_abandon o)) v in
        ((Shows c law v out.1) ⊎ (Shows c law w out.1)) × (out.0 ≡ ok tt → Shows c law w out.1)
  unfolding abandon_challenge update_challenge get_challenge
  abandon_challenge-Written v creator id o db seen h =
      let db' = (get_challenge_by_id c id db).1 in
      let read = get_challenge_by_id-Safe c law v id db h in
      elim (Outcome-cases (get_challenge_by_id c id db).0) [
        | inl (d, e) ↦ elim (Bool-cases (d.creator_id == creator)) [
          | inl mine ↦
              let k = read.gives d e in
              let d' : ChallengeDocument = record d { status = challenge_abandon } in
              let same : put d'.challenge_id (origin_of (some d')) v
                  ≡ put id (some (with_status challenge_abandon o)) v =
                ap (λ (x : String). put x (origin_of (some d')) v) k.own
                ∙ ap (λ (x : Option Origin). put id (restatus x) v) (sym k.seen ∙ seen) in
              rw (e, mine)
                (subst
                  (λ w.
                    ((Shows c law v (create_challenge c d' db').1)
                      ⊎ (Shows c law w (create_challenge c d' db').1))
                    × ((create_challenge c d' db').0 ≡ ok tt
                        → Shows c law w (create_challenge c d' db').1))
                  same (create_challenge-Written v d' db' k.mapped read.state))
          | inr other ↦ rw (e, other) (inl read.state, λ good. cc)
        ]
        | inr (inl (msg, e)) ↦ rw e (inl read.state, λ good. cc)
        | inr (inr (inl e)) ↦ rw e (inl read.state, λ good. cc)
        | inr (inr (inr (w, e))) ↦ rw e (inl read.state, λ good. cc)
      ]
