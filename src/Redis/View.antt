-- ===== src/Redis/View.antt =====
-- What the repository stores, seen as a map from identifiers to documents, and what the reads and
-- the plain writes of redis.go do to that map.
use mathlib.Core.Path.{subst}
use mathlib.Core.Bool.{false≢true}
use text.Mathlib.TextLemmas.{append_cancel_left}
use challenge_service.Prelude.{
  String, ◌≡◌, ◌≢◌, sym, ap, ◌∙◌, Option, none, some, Bool-cases, inl, inr, ◌⊎◌, arith, eq_iff,
  ◌==◌, if◌then◌else◌,
}
use challenge_service.Exec.{Cut, ok, panic, cut, value, error}
use challenge_service.Model.{ChallengeDocument}
use challenge_service.RedisClient.{RedisClient, Laws}
use challenge_service.Redis.{
  key_of, key_prefix, create_challenge, get_challenge_by_id, delete_challenge,
}

pub key_of_inj : (a b : String) → key_of a ≡ key_of b → a ≡ b
key_of_inj a b e = append_cancel_left key_prefix a b e

pub key_of-ne : {a b : String} → a ≢ b → key_of a ≢ key_of b
key_of-ne {a} {b} h e = h (key_of_inj a b e)

pub get_challenge_by_id-ne-panic :
    (c : RedisClient) (id : String) (db : c.Db) → (get_challenge_by_id c id db).0 ≢ panic
unfolding get_challenge_by_id
get_challenge_by_id-ne-panic c id db h = ground (arith, h)

pub get_challenge_by_id-ne-cut :
    (c : RedisClient) (id : String) (db : c.Db) (w : Cut) → (get_challenge_by_id c id db).0 ≢ cut w
unfolding get_challenge_by_id
get_challenge_by_id-ne-cut c id db w h = ground (arith, h)

module _ (c : RedisClient) (law : Laws c) where
  abbrev pub decoded : Option c.Bytes → Option ChallengeDocument
  decoded none = none
  decoded (some b) = elim (c.unmarshal b) [ value d ↦ some d | error _ ↦ none ]

  -- the documents that the database holds
  abbrev pub stored : c.Db → String → Option ChallengeDocument
  stored db id = decoded (law.peek db (key_of id))

  -- every document stands under its own identifier
  pub record IsKeyed (db : c.Db) : Type 0 where
    pub at : (id : String) (d : ChallengeDocument) → stored db id ≡ some d → d.challenge_id ≡ id

  state-get_challenge_by_id :
      (id : String) (db : c.Db) → (get_challenge_by_id c id db).1 ≡ (c.get (key_of id) db).1
  unfolding get_challenge_by_id
  state-get_challenge_by_id id db = ground arith

  -- A read leaves every document as it is.
  pub stored-get_challenge_by_id :
      (id : String) (db : c.Db) (j : String)
      → stored (get_challenge_by_id c id db).1 j ≡ stored db j
  stored-get_challenge_by_id id db j =
      ap decoded (rw (state-get_challenge_by_id id db) (law.peek-get (key_of id) db (key_of j)))

  -- A document that is returned is the one that is stored.
  pub get_challenge_by_id_ok :
      (id : String) (db : c.Db) (d : ChallengeDocument)
      → (get_challenge_by_id c id db).0 ≡ ok d
      → stored db id ≡ some d
  unfolding get_challenge_by_id
  get_challenge_by_id_ok id db d h = ground (arith, law.get_lem (key_of id) db)

  pub get_challenge_by_id_up :
      (id : String) (db : c.Db) (d : ChallengeDocument)
      → law.Up db
      → stored db id ≡ some d
      → ((get_challenge_by_id c id db).0 ≡ ok d) × law.Up (get_challenge_by_id c id db).1
  unfolding get_challenge_by_id
  get_challenge_by_id_up id db d up h = ground (arith, law.get_up (key_of id) db up)

  -- A write that succeeds stores the document under its own identifier.
  pub stored-create_challenge :
      (d : ChallengeDocument) (db : c.Db)
      → (create_challenge c d db).0 ≡ ok tt
      → stored (create_challenge c d db).1 d.challenge_id ≡ some d
  unfolding create_challenge
  stored-create_challenge d db h =
      let (b, enc, dec) = law.marshal_lem d in
      ground (arith, law.peek-set (key_of d.challenge_id) b db)

  -- A write, also one that fails, leaves the other documents as they are.
  pub stored-create_challenge_ne :
      (d : ChallengeDocument) (db : c.Db) (j : String)
      → d.challenge_id ≢ j
      → stored (create_challenge c d db).1 j ≡ stored db j
  unfolding create_challenge
  stored-create_challenge_ne d db j ne =
      let (b, enc, dec) = law.marshal_lem d in
      ground (arith, law.peek-set_ne (key_of d.challenge_id) b db (key_of j) (key_of-ne ne))

  pub create_challenge_up :
      (d : ChallengeDocument) (db : c.Db)
      → law.Up db
      → ((create_challenge c d db).0 ≡ ok tt) × law.Up (create_challenge c d db).1
  unfolding create_challenge
  create_challenge_up d db up =
      let (b, enc, dec) = law.marshal_lem d in
      ground (arith, law.set_up (key_of d.challenge_id) b db up)

  -- Both in one: the map after a write that succeeds.
  pub stored-create_challenge_if :
      (d : ChallengeDocument) (db : c.Db)
      → (create_challenge c d db).0 ≡ ok tt
      → (j : String)
      → stored (create_challenge c d db).1 j ≡ (if d.challenge_id == j then some d else stored db j)
  stored-create_challenge_if d db h j = elim (Bool-cases (d.challenge_id == j)) [
    | inl e ↦ rw e (
        subst (λ k. stored (create_challenge c d db).1 k ≡ some d) ((eq_iff _ j).0 e)
          (stored-create_challenge d db h))
    | inr e ↦
        rw e (stored-create_challenge_ne d db j (λ same. false≢true (sym e ∙ (eq_iff _ j).1 same)))
  ]

  -- A write, also one that fails, has happened or not.
  pub stored-create_challenge_cases :
      (d : ChallengeDocument) (db : c.Db)
      → (stored (create_challenge c d db).1 d.challenge_id ≡ some d)
        ⊎ (stored (create_challenge c d db).1 d.challenge_id ≡ stored db d.challenge_id)
  unfolding create_challenge
  stored-create_challenge_cases d db =
      let (b, enc, dec) = law.marshal_lem d in
      ground (arith, law.peek-set_cases (key_of d.challenge_id) b db)

  pub get_challenge_by_id-IsKeyed :
      (id : String) {db : c.Db} → IsKeyed db → IsKeyed (get_challenge_by_id c id db).1
  get_challenge_by_id-IsKeyed id {db} keyed = record {
    at = λ j d h. keyed.at j d (sym (stored-get_challenge_by_id id db j) ∙ h);
  }

  -- Every write, also one that fails, keeps the documents under their own identifiers.
  pub create_challenge-IsKeyed :
      (d : ChallengeDocument) {db : c.Db} → IsKeyed db → IsKeyed (create_challenge c d db).1
  create_challenge-IsKeyed d {db} keyed = record {
    at = λ j d' h. elim (Bool-cases (d.challenge_id == j)) [
      | inl e ↦
          let own : d.challenge_id ≡ j = (eq_iff _ j).0 e in
          let h' = subst (λ k. stored (create_challenge c d db).1 k ≡ some d') (sym own) h in
          elim (stored-create_challenge_cases d db) [
            | inl new ↦ ground (arith, own, new, h')
            | inr old ↦ keyed.at j d' (subst (λ k. stored db k ≡ some d') own (sym old ∙ h'))
          ]
      | inr e ↦ keyed.at j d' (
          sym (stored-create_challenge_ne d db j (λ same. false≢true (sym e ∙ (eq_iff _ j).1 same)))
          ∙ h)
    ];
  }

  -- A removal on a reachable server takes the document away, and no other.
  pub delete_challenge_up :
      (id : String) (db : c.Db)
      → law.Up db
      → ((delete_challenge c id db).0 ≡ ok tt)
        × law.Up (delete_challenge c id db).1
        × ((j : String)
            → stored (delete_challenge c id db).1 j ≡ (if id == j then none else stored db j))
  unfolding delete_challenge
  delete_challenge_up id db up =
      let (done, still) = law.del_up (key_of id) db up in
      (
        ground (arith, done),
        still,
        λ j. elim (Bool-cases (id == j)) [
          | inl e ↦ ground (arith, e, (eq_iff id j).0 e, law.peek-del (key_of id) db done)
          | inr e ↦ ground (
            arith,
            e,
            law.peek-del_ne (key_of id) db (key_of j)
                (key_of-ne (λ same. false≢true (sym e ∙ (eq_iff _ j).1 same))),
          )
        ],
      )
