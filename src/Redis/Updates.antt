-- ===== src/Redis/Updates.antt =====
-- The methods of redis.go that fetch a document, change it and write it back: `AddParticipant`,
-- `RemoveParticipant`, `AbandonChallenge`.
use challenge_service.Prelude.{
  String, ◌≡◌, ◌≢◌, refl, sym, ap, ◌∙◌, true, false, some, inl, inr, arith, eq_iff, ◌==◌,
  if◌then◌else◌,
}
use mathlib.Core.Path.{subst}
use challenge_service.GoMap.{insert, delete, assign-allocated}
use challenge_service.Exec.{Exec, ok, err, ◌>>=◌, fail}
use challenge_service.Exec.Laws.{continue-ok, continue_cases}
use challenge_service.Model.{ChallengeDocument, ParticipantMetadata, challenge_abandon}
use challenge_service.RedisClient.{RedisClient, Laws}
use challenge_service.Redis.{
  get_challenge_by_id, get_challenge, update_challenge, create_challenge, add_participant,
  remove_participant, abandon_challenge,
}
use challenge_service.Redis.View.{
  stored, IsKeyed, stored-get_challenge_by_id, get_challenge_by_id_ok, get_challenge_by_id_up,
  stored-create_challenge_if, get_challenge_by_id-IsKeyed, create_challenge-IsKeyed,
  stored-create_challenge_ne, create_challenge_up,
}

abbrev pub with_participant : String → ParticipantMetadata → ChallengeDocument → ChallengeDocument
with_participant user m d = record d { participants = insert user m d.participants }

abbrev pub without_participant : String → ChallengeDocument → ChallengeDocument
without_participant user d = record d {
  participants = delete user d.participants;
  submissions = delete user d.submissions;
}

abbrev pub abandoned : ChallengeDocument → ChallengeDocument
abandoned d = record d { status = challenge_abandon }

module _ (c : RedisClient) (law : Laws c) where
  -- fetch a document and write a changed one
  modify_challenge : String → (ChallengeDocument → ChallengeDocument) → Exec c.Db Unit
  modify_challenge id f = do d ← get_challenge_by_id c id; create_challenge c (f d)

  -- `id` holds `f d` where it held `d`, and nothing else has changed
  pub record Changed (id : String) (f : ChallengeDocument → ChallengeDocument) (db db' : c.Db)
      : Type 0 where
    pub before : ChallengeDocument
    pub was : stored c law db id ≡ some before
    pub now :
        (j : String) → stored c law db' j ≡ (if id == j then some (f before) else stored c law db j)

  module _ (id : String) (f : ChallengeDocument → ChallengeDocument)
      (same : (d : ChallengeDocument) → (f d).challenge_id ≡ d.challenge_id) (db : c.Db) where
    -- the map after the document `f d` was written
    written :
        (d : ChallengeDocument)
        → d.challenge_id ≡ id
        → (create_challenge c (f d) (get_challenge_by_id c id db).1).0 ≡ ok tt
        → (j : String)
        → stored c law (create_challenge c (f d) (get_challenge_by_id c id db).1).1 j
          ≡ (if id == j then some (f d) else stored c law db j)
    written d own h j =
        let db' = (get_challenge_by_id c id db).1 in
        subst
          (λ x.
            stored c law (create_challenge c (f d) db').1 j
            ≡ (if x == j then some (f d) else stored c law db j))
          (same d ∙ own)
          (rw (← stored-get_challenge_by_id c law id db j)
            (stored-create_challenge_if c law (f d) db' h j))

    modify_challenge-Changed :
        IsKeyed c law db
        → (modify_challenge id f db).0 ≡ ok tt
        → Changed id f db (modify_challenge id f db).1
    unfolding modify_challenge
    modify_challenge-Changed keyed h =
        let (r, db') = get_challenge_by_id c id db in
        let (d, got, ran) = continue-ok (λ d. create_challenge c (f d)) db' r h in
        let held = get_challenge_by_id_ok c law id db d got in
        record {
          before = d;
          was = held;
          now = λ j. rw ran (written d (keyed.at id d held) (ap (λ p. p.0) (sym ran) ∙ h) j);
        }

    modify_challenge_up :
        (d : ChallengeDocument)
        → law.Up db
        → stored c law db id ≡ some d
        → ((modify_challenge id f db).0 ≡ ok tt) × law.Up (modify_challenge id f db).1
    unfolding modify_challenge
    modify_challenge_up d up h =
        let (got, up') = get_challenge_by_id_up c law id db d up h in
        ground (arith, create_challenge_up c law (f d) (get_challenge_by_id c id db).1 up')

    modify_challenge_ne :
        (j : String)
        → IsKeyed c law db
        → id ≢ j
        → stored c law (modify_challenge id f db).1 j ≡ stored c law db j
    unfolding modify_challenge
    modify_challenge_ne j keyed ne =
        let (r, db') = get_challenge_by_id c id db in
        let read = stored-get_challenge_by_id c law id db j in
        elim (continue_cases (λ d. create_challenge c (f d)) db' r) [
          | inl (d, got, ran) ↦ rw ran (
              stored-create_challenge_ne c law (f d) db' j (λ e.
                ne (
                  sym (keyed.at id d (get_challenge_by_id_ok c law id db d got))
                  ∙ sym (same d)
                  ∙ e))
              ∙ read)
          | inr stopped ↦ rw stopped read
        ]

    modify_challenge-IsKeyed : IsKeyed c law db → IsKeyed c law (modify_challenge id f db).1
    unfolding modify_challenge
    modify_challenge-IsKeyed keyed =
        let (r, db') = get_challenge_by_id c id db in
        let read : IsKeyed c law db' = get_challenge_by_id-IsKeyed c law id keyed in
        elim (continue_cases (λ d. create_challenge c (f d)) db' r) [
          | inl (d, got, ran) ↦ rw ran (create_challenge-IsKeyed c law (f d) read)
          | inr stopped ↦ rw stopped read
        ]

  -- Adding a participant is this change: the panic of an assignment to a nil map never happens.
  add_participant-modify :
      (id user : String) (m : ParticipantMetadata)
      → add_participant c id user m ≡ modify_challenge id (with_participant user m)
  unfolding add_participant get_challenge update_challenge modify_challenge
  add_participant-modify id user m = simp assign-allocated

  remove_participant-modify :
      (id user : String)
      → remove_participant c id user ≡ modify_challenge id (without_participant user)
  unfolding remove_participant get_challenge update_challenge modify_challenge
  remove_participant-modify id user = refl

  -- Where every document stands under its own identifier, an `AddParticipant` that succeeds stores
  -- the metadata under the user in the document that stood under the identifier, keeps the rest of
  -- that document, and changes no other one.
  pub add_participant-Changed :
      (id user : String) (m : ParticipantMetadata) (db : c.Db)
      → IsKeyed c law db
      → (add_participant c id user m db).0 ≡ ok tt
      → Changed id (with_participant user m) db (add_participant c id user m db).1
  add_participant-Changed id user m db =
      rw (add_participant-modify id user m)
        (modify_challenge-Changed id (with_participant user m) (λ d. refl) db)

  -- Where every document stands under its own identifier, a `RemoveParticipant` that succeeds
  -- deletes the user's participation and submissions from the document that stood under the
  -- identifier, keeps its rest, and changes no other document.
  pub remove_participant-Changed :
      (id user : String) (db : c.Db)
      → IsKeyed c law db
      → (remove_participant c id user db).0 ≡ ok tt
      → Changed id (without_participant user) db (remove_participant c id user db).1
  remove_participant-Changed id user db =
      rw (remove_participant-modify id user)
        (modify_challenge-Changed id (without_participant user) (λ d. refl) db)

  -- On a reachable server that holds the challenge, adding a participant succeeds.
  pub add_participant_up :
      (id user : String) (m : ParticipantMetadata) (db : c.Db) (d : ChallengeDocument)
      → law.Up db
      → stored c law db id ≡ some d
      → ((add_participant c id user m db).0 ≡ ok tt) × law.Up (add_participant c id user m db).1
  add_participant_up id user m db d up h =
      rw (add_participant-modify id user m)
        (modify_challenge_up id (with_participant user m) (λ d. refl) db d up h)

  pub remove_participant_up :
      (id user : String) (db : c.Db) (d : ChallengeDocument)
      → law.Up db
      → stored c law db id ≡ some d
      → ((remove_participant c id user db).0 ≡ ok tt) × law.Up (remove_participant c id user db).1
  remove_participant_up id user db d up h =
      rw (remove_participant-modify id user)
        (modify_challenge_up id (without_participant user) (λ d. refl) db d up h)

  pub add_participant-IsKeyed :
      (id user : String) (m : ParticipantMetadata) {db : c.Db}
      → IsKeyed c law db
      → IsKeyed c law (add_participant c id user m db).1
  add_participant-IsKeyed id user m {db} =
      rw (add_participant-modify id user m)
        (modify_challenge-IsKeyed id (with_participant user m) (λ d. refl) db)

  pub remove_participant-IsKeyed :
      (id user : String) {db : c.Db}
      → IsKeyed c law db
      → IsKeyed c law (remove_participant c id user db).1
  remove_participant-IsKeyed id user {db} =
      rw (remove_participant-modify id user)
        (modify_challenge-IsKeyed id (without_participant user) (λ d. refl) db)

  -- `AbandonChallenge` by the creator is the change of the status ...
  abandon_challenge-creator :
      (creator id : String) (db : c.Db) (d : ChallengeDocument)
      → (get_challenge_by_id c id db).0 ≡ ok d
      → (d.creator_id == creator) ≡ true
      → abandon_challenge c creator id db ≡ modify_challenge id abandoned db
  unfolding abandon_challenge get_challenge update_challenge modify_challenge
  abandon_challenge-creator creator id db d got own = ground (arith, got, own)

  -- ... and by anybody else a read that ends in an error.
  abandon_challenge-other :
      (creator id : String) (db : c.Db) (d : ChallengeDocument)
      → (get_challenge_by_id c id db).0 ≡ ok d
      → (d.creator_id == creator) ≡ false
      → abandon_challenge c creator id db
        ≡ (err "only the creator can abandon the challenge", (get_challenge_by_id c id db).1)
  unfolding abandon_challenge get_challenge
  abandon_challenge-other creator id db d got own = ground (arith, got, own)

  abandon_challenge-got :
      (creator id : String) (db : c.Db)
      → (abandon_challenge c creator id db).0 ≡ ok tt
      → (d : ChallengeDocument) × ((get_challenge_by_id c id db).0 ≡ ok d)
        × ((d.creator_id == creator) ≡ true)
  unfolding abandon_challenge get_challenge
  abandon_challenge-got creator id db h =
      let (r, db') = get_challenge_by_id c id db in
      let body : ChallengeDocument → Exec c.Db Unit = λ d.
        if d.creator_id == creator
        then update_challenge c (record d { status = challenge_abandon })
        else fail "only the creator can abandon the challenge" in
      let (d, got, ran) = continue-ok body db' r h in
      (d, got, ground (arith, h, ap (λ p. p.0) ran, got))

  -- `AbandonChallenge` that succeeds was called by the creator; it sets the status, keeps the rest
  -- of the document, and changes no other one.
  pub abandon_challenge-Changed :
      (creator id : String) (db : c.Db)
      → IsKeyed c law db
      → (abandon_challenge c creator id db).0 ≡ ok tt
      → (ch : Changed id abandoned db (abandon_challenge c creator id db).1) × (ch.before.creator_id
          ≡ creator)
  abandon_challenge-Changed creator id db keyed h =
      let (d, got, own) = abandon_challenge-got creator id db h in
      let same = abandon_challenge-creator creator id db d got own in
      let ch =
        modify_challenge-Changed id abandoned (λ x. refl) db keyed (ap (λ p. p.0) (sym same) ∙ h) in
      rw same (
        ch,
        ground (arith, ch.was, get_challenge_by_id_ok c law id db d got, (eq_iff _ creator).0 own),
      )

  -- On a reachable server `AbandonChallenge` by somebody else than the creator of a stored
  -- challenge fails, and leaves every document as it was.
  pub abandon_challenge_refused :
      (creator id : String) (db : c.Db) (d : ChallengeDocument)
      → law.Up db
      → stored c law db id ≡ some d
      → d.creator_id ≢ creator
      → ((abandon_challenge c creator id db).0 ≡ err "only the creator can abandon the challenge")
        × ((j : String) → stored c law (abandon_challenge c creator id db).1 j ≡ stored c law db j)
  abandon_challenge_refused creator id db d up h other =
      let (got, _) = get_challenge_by_id_up c law id db d up h in
      rw (abandon_challenge-other creator id db d got (ground (arith, eq_iff d.creator_id creator)))
        (refl, stored-get_challenge_by_id c law id db)
