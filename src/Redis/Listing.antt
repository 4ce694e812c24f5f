-- ===== src/Redis/Listing.antt =====
-- `GetActiveChallenges` and `GetChallengesByStatus` of redis.go: which identifiers they list.
use mathlib.Core.List.{Mem, mem-cons_self, mem-cons_of_mem, mem-cons, not-mem-nil}
use mathlib.Core.Logic.Or
use text.Mathlib.TextEquality.{starts_with_iff}
use text.Mathlib.TextPositions.{starts_with-append}
use challenge_service.Prelude.{
  String, ◌≡◌, ◌⊎◌, refl, sym, ap, ◌∙◌, Bool-cases, Option-cases, none, some, inl, inr, arith, ◌==◌,
  eq_iff, List, [], ◌∷◌, All, All-map,
}
use challenge_service.Exec.{ok, err}
use challenge_service.Exec.Laws.{Outcome-cases}
use challenge_service.Model.{ChallengeDocument}
use challenge_service.RedisClient.{RedisClient, Laws}
use challenge_service.Redis.{
  key_of, key_prefix, strip_all, get_challenge_by_id, get_challenge, get_active_challenges,
  filter_status, get_challenges_by_status,
}
use challenge_service.Redis.View.{
  stored, decoded, key_of_inj, get_challenge_by_id_up, get_challenge_by_id_ok,
  get_challenge_by_id-ne-panic, get_challenge_by_id-ne-cut, stored-get_challenge_by_id,
}
use challenge_service.Redis.Reads.{Reads-get_challenge_by_id}
use challenge_service.Redis.Creation.{strip_prefix-key_of}

module _ (c : RedisClient) where
  pub strip_all_keys :
      (ks : List String) (db : c.Db)
      → ((k : String) → Mem k ks → (id : String) × (k ≡ key_of id))
      → (ids : List String) × (strip_all c ks db ≡ (ok ids, db))
        × ((id : String) → Mem (key_of id) ks → Mem id ids)
  unfolding strip_all
  strip_all_keys [] db all = ([], refl, λ id m. absurd (not-mem-nil m))
  strip_all_keys (k ∷ ks) db all =
      let (id, e) = all k mem-cons_self in
      let (ids, ran, kept) = strip_all_keys ks db (λ j m. all j (mem-cons_of_mem k m)) in
      (
        id ∷ ids,
        ground (arith, e, strip_prefix-key_of id, ran),
        λ j m.
            Or.elim (hlevel) (mem-cons.0 m) (λ here. rw (key_of_inj j id (here ∙ e)) mem-cons_self)
              (λ later. mem-cons_of_mem id (kept j later)),
      )

  module _ (law : Laws c) where
    -- A read on a reachable server finds what is stored.
    pub get_challenge_by_id_cases :
        (id : String) (db : c.Db)
        → law.Up db
        → ((d : ChallengeDocument) × (stored c law db id ≡ some d)
            × ((get_challenge_by_id c id db).0 ≡ ok d))
          ⊎ ((msg : String) × (stored c law db id ≡ none)
              × ((get_challenge_by_id c id db).0 ≡ err msg))
    get_challenge_by_id_cases id db up = elim (Outcome-cases (get_challenge_by_id c id db).0) [
      | inl (d, got) ↦ inl (d, get_challenge_by_id_ok c law id db d got, got)
      | inr (inl (msg, failed)) ↦ elim (Option-cases (stored c law db id)) [
        | inl absent ↦ inr (msg, absent, failed)
        | inr (d, there) ↦
            absurd (ground (arith, failed, get_challenge_by_id_up c law id db d up there))
      ]
      | inr (inr (inl bad)) ↦ absurd (get_challenge_by_id-ne-panic c id db bad)
      | inr (inr (inr (w, bad))) ↦ absurd (get_challenge_by_id-ne-cut c id db w bad)
    ]

    -- `db'` is a reachable server that holds what `db` holds
    pub record Kept (db db' : c.Db) : Type 0 where
      pub up : law.Up db'
      pub same : (id : String) → stored c law db' id ≡ stored c law db id

    pub Kept-get : (id : String) (db : c.Db) → law.Up db → Kept db (get_challenge_by_id c id db).1
    Kept-get id db up = record {
      up = (Reads-get_challenge_by_id c law id db).up up;
      same = stored-get_challenge_by_id c law id db;
    }

    pub Kept-trans : {db db' db'' : c.Db} → Kept db db' → Kept db' db'' → Kept db db''
    Kept-trans a b = record { up = b.up; same = λ id. b.same id ∙ a.same id }

    -- On a reachable server every stored challenge is listed as active.
    pub get_active_challenges_up :
        (db : c.Db)
        → law.Up db
        → (ids : List String) × (db' : c.Db) × (get_active_challenges c db ≡ (ok ids, db'))
          × Kept db db'
          × ((id : String) (d : ChallengeDocument) → stored c law db id ≡ some d → Mem id ids)
    unfolding get_active_challenges
    get_active_challenges_up db up =
        let (ks, listed, up') = law.keys_up key_prefix db up in
        let db' = (c.keys key_prefix db).1 in
        let listing = law.keys_lem key_prefix db ks listed in
        let (ids, ran, kept) = strip_all_keys ks db' (λ k m.
          let (id, e) = (starts_with_iff k key_prefix).0 ((listing k).0 m).0 in (id, sym e)) in
        (
          ids,
          db',
          ground (arith, listed, ran),
          record {
            up = up';
            same = λ id. ap (decoded c law) (law.peek-keys key_prefix db (key_of id));
          },
          λ id d held. kept id (
              (listing (key_of id)).1
                (starts_with-append key_prefix id, λ gone. ground (arith, held, gone))),
        )

    filter_status_up :
        (status : String) (ids : List String) (db : c.Db)
        → law.Up db
        → (out : List String) × (db' : c.Db) × (filter_status c status ids db ≡ (ok out, db'))
          × Kept db db'
          × ((id : String) (d : ChallengeDocument)
              → Mem id ids
              → stored c law db id ≡ some d
              → d.status ≡ status
              → Mem id out)
          × All
              (λ id. (d : ChallengeDocument) × (stored c law db id ≡ some d) × (d.status ≡ status))
              out
    unfolding filter_status get_challenge
    filter_status_up status [] db up = (
      [],
      db,
      refl,
      record { up = up; same = λ id. refl },
      (λ id d m. absurd (not-mem-nil m)),
      tt,
    )
    filter_status_up status (i ∷ ids) db up =
        let got = Kept-get i db up in
        let db1 = (get_challenge_by_id c i db).1 in
        let (out, db', ran, kept, complete, sound) = filter_status_up status ids db1 got.up in
        let keeps = Kept-trans got kept in
        let later =
          λ (id : String) (d : ChallengeDocument) (m : Mem id ids)
              (h : stored c law db id ≡ some d).
            complete id d m (got.same id ∙ h) in
        let sound' =
          All-map
            (λ id. (d : ChallengeDocument) × (stored c law db1 id ≡ some d) × (d.status ≡ status))
            (λ id. (d : ChallengeDocument) × (stored c law db id ≡ some d) × (d.status ≡ status))
            (λ id h. (h.0, sym (got.same id) ∙ h.1, h.2)) out sound in
        elim (get_challenge_by_id_cases i db up) [
          | inr (msg, absent, failed) ↦ (
            out,
            db',
            ground (arith, failed, ran),
            keeps,
            λ id d m h st.
                Or.elim (hlevel) (mem-cons.0 m) (λ here. absurd (ground (arith, here, absent, h)))
                  (λ rest. later id d rest h st),
            sound',
          )
          | inl (x, there, read) ↦ elim (Bool-cases (x.status == status)) [
            | inr other ↦ (
              out,
              db',
              ground (arith, read, ran, other),
              keeps,
              λ id d m h st.
                  Or.elim (hlevel) (mem-cons.0 m)
                    (λ here.
                      absurd (ground (arith, here, there, h, st, other, eq_iff x.status status)))
                    (λ rest. later id d rest h st),
              sound',
            )
            | inl same ↦ (
              i ∷ out,
              db',
              ground (arith, read, ran, same),
              keeps,
              λ id d m h st.
                  Or.elim (hlevel) (mem-cons.0 m) (λ here. rw here mem-cons_self)
                    (λ rest. mem-cons_of_mem i (later id d rest h st)),
              ((x, there, (eq_iff x.status status).0 same), sound'),
            )
          ]
        ]

    -- On a reachable server the identifiers listed for a status are those of the stored challenges
    -- with that status.
    pub get_challenges_by_status_up :
        (status : String) (db : c.Db)
        → law.Up db
        → (out : List String) × (db' : c.Db) × (get_challenges_by_status c status db
            ≡ (ok out, db'))
          × Kept db db'
          × ((id : String) (d : ChallengeDocument)
              → stored c law db id ≡ some d
              → d.status ≡ status
              → Mem id out)
          × All
              (λ id. (d : ChallengeDocument) × (stored c law db id ≡ some d) × (d.status ≡ status))
              out
    unfolding get_challenges_by_status
    get_challenges_by_status_up status db up =
        let (ids, db1, ran1, kept1, every) = get_active_challenges_up db up in
        let (out, db2, ran2, kept2, complete, sound) = filter_status_up status ids db1 kept1.up in
        (
          out,
          db2,
          ground (arith, ran1, ran2),
          Kept-trans kept1 kept2,
          λ id d h st. complete id d (every id d h) (kept1.same id ∙ h) st,
          All-map
              (λ id. (d : ChallengeDocument) × (stored c law db1 id ≡ some d) × (d.status ≡ status))
              (λ id. (d : ChallengeDocument) × (stored c law db id ≡ some d) × (d.status ≡ status))
              (λ id h. (h.0, sym (kept1.same id) ∙ h.1, h.2)) out sound,
        )
