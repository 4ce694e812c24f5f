-- ===== src/Redis/Creation.antt =====
-- `CanCreate` of redis.go: the verdict over all keys, whatever the order in which the goroutines
-- answer.
use mathlib.Core.Bool.{false≢true, Bool-set}
use mathlib.Core.Path.{subst}
use mathlib.Core.List.{Mem, Perm, mem-cons_self, mem-cons_of_mem, mem-cons, not-mem-nil}
use mathlib.Core.List.Perm
use mathlib.Core.Logic.Or
use text.Mathlib.Text.{starts_with}
use text.Mathlib.TextEquality.{starts_with_iff}
use text.Mathlib.TextPositions.{len-append, slice-append_right, starts_with-append}
use challenge_service.Prelude.{
  String, ◌≡◌, ◌≢◌, ◌↔◌, refl, sym, ap, ◌∙◌, ◌⊎◌, Bool, true, false, Bool-cases, Option, none, some,
  inl, inr, arith, eq_iff, if◌then◌else◌, List, [], ◌∷◌,
}
use challenge_service.Exec.{ok, err, value}
use challenge_service.Exec.Laws.{Result-cases}
use challenge_service.Model.{ChallengeDocument}
use challenge_service.RedisClient.{RedisClient, Laws}
use challenge_service.Redis.{
  key_prefix, key_of, strip_prefix, is_over, is_member, check_reply, check_key, collect, can_create,
}
use challenge_service.Redis.View.{stored, decoded}

-- The challenge is going on, and the user created it or takes part in it.
pub record Engages (user : String) (d : ChallengeDocument) : Type 0 where
  pub going_on : is_over d.status ≡ false
  pub involved : (d.creator_id ≡ user) ⊎ (is_member user d ≡ true)

pub strip_prefix-key_of : (id : String) → strip_prefix (key_of id) ≡ some id
unfolding strip_prefix
strip_prefix-key_of id =
    rw (len-append key_prefix id) (ground (arith, slice-append_right key_prefix id))

module _ (c : RedisClient) (law : Laws c) (user : String) where
  -- the value under a key stands in nobody's way
  abbrev is_free : Option c.Bytes → Bool
  is_free o = (check_reply c user "" (value o)).can_create

  is_free_any :
      (id : String) (o : Option c.Bytes) → (check_reply c user id (value o)).can_create ≡ is_free o
  unfolding check_reply
  is_free_any id none = refl
  is_free_any id (some b) = ground arith

  -- a value stands in the way exactly when it holds a document that engages the user
  Engages-of_not_free :
      (o : Option c.Bytes)
      → is_free o ≡ false
      → (d : ChallengeDocument) × (decoded c law o ≡ some d) × Engages user d
  unfolding check_reply
  Engages-of_not_free none h = cc
  Engages-of_not_free (some b) h = elim (Result-cases (c.unmarshal b)) [
    | inl (d, e) ↦ (d, ground (arith, e), ground (arith, e, h, eq_iff d.creator_id user))
    | inr (m, e) ↦ absurd (ground (arith, e, h))
  ]

  not_free_of_Engages :
      (o : Option c.Bytes) (d : ChallengeDocument)
      → decoded c law o ≡ some d
      → Engages user d
      → is_free o ≡ false
  unfolding check_reply
  not_free_of_Engages none d h g = cc
  not_free_of_Engages (some b) d h g = elim (Result-cases (c.unmarshal b)) [
    | inl (d', e) ↦ ground (arith, e, h, g.going_on, g.involved, eq_iff d.creator_id user)
    | inr (m, e) ↦ absurd (ground (arith, e, h))
  ]

  collect_step :
      (id : String) (ks : List String) (db : c.Db)
      → law.Up db
      → collect c user (key_of id ∷ ks) db ≡ (
          if is_free (law.peek db (key_of id))
          then collect c user ks (c.get (key_of id) db).1
          else (
            err (check_reply c user id (value (law.peek db (key_of id)))).message,
            (c.get (key_of id) db).1,
          ))
  unfolding collect check_key
  collect_step id ks db up = ground (
    arith,
    strip_prefix-key_of id,
    law.get_up (key_of id) db up,
    is_free_any id (law.peek db (key_of id)),
  )

  abbrev IsKey : String → Type 0
  IsKey k = (id : String) × (k ≡ key_of id)

  -- `p` is what the database holds
  abbrev Holds : (String → Option c.Bytes) → c.Db → Type 0
  Holds p db = (k : String) → law.peek db k ≡ p k

  Holds-get :
      (p : String → Option c.Bytes) (k : String) (db : c.Db) → Holds p db → Holds p (c.get k db).1
  Holds-get p k db h j = law.peek-get k db j ∙ h j

  module _ (p : String → Option c.Bytes) where
    collect_pass :
        (id : String) (ks : List String) (db : c.Db)
        → law.Up db
        → Holds p db
        → is_free (p (key_of id)) ≡ true
        → collect c user (key_of id ∷ ks) db ≡ collect c user ks (c.get (key_of id) db).1
    collect_pass id ks db up h free = collect_step id ks db up ∙ ground (arith, h (key_of id), free)

    collect_block :
        (id : String) (ks : List String) (db : c.Db)
        → law.Up db
        → Holds p db
        → is_free (p (key_of id)) ≡ false
        → (collect c user (key_of id ∷ ks) db).0 ≢ ok true
    collect_block id ks db up h free ran =
        ground (arith, collect_step id ks db up, h (key_of id), free, ran)

    collect_complete :
        (ks : List String) (db : c.Db)
        → law.Up db
        → Holds p db
        → ((k : String) → Mem k ks → IsKey k × (is_free (p k) ≡ true))
        → (collect c user ks db).0 ≡ ok true
    unfolding collect
    collect_complete [] db up h all = refl
    collect_complete (k ∷ ks) db up h all =
        let ((id, e), free) = all k mem-cons_self in
        let db' = (c.get (key_of id) db).1 in
        let rest =
          collect_complete ks db' (law.get_up (key_of id) db up).1 (Holds-get p (key_of id) db h)
            (λ j m. all j (mem-cons_of_mem k m)) in
        subst (λ x. (collect c user (x ∷ ks) db).0 ≡ ok true) (sym e)
          (ap (λ r. r.0) (collect_pass id ks db up h (subst (λ x. is_free (p x) ≡ true) e free))
            ∙ rest)

    collect_sound :
        (ks : List String) (db : c.Db)
        → law.Up db
        → Holds p db
        → ((k : String) → Mem k ks → IsKey k)
        → (collect c user ks db).0 ≡ ok true
        → (k : String) → Mem k ks
        → is_free (p k) ≡ true
    collect_sound [] db up h all ran k m = absurd (not-mem-nil m)
    collect_sound (x ∷ ks) db up h all ran k m =
        let (id, e) = all x mem-cons_self in
        let ran' = subst (λ y. (collect c user (y ∷ ks) db).0 ≡ ok true) e ran in
        elim (Bool-cases (is_free (p (key_of id)))) [
          | inr blocked ↦ absurd (collect_block id ks db up h blocked ran')
          | inl free ↦
              let went = collect_pass id ks db up h free in
              Or.elim (Bool-set _ _) (mem-cons.0 m)
                (λ here. subst (λ y. is_free (p y) ≡ true) (sym (here ∙ e)) free)
                (collect_sound ks (c.get (key_of id) db).1 (law.get_up (key_of id) db up).1
                  (Holds-get p (key_of id) db h) (λ j m'. all j (mem-cons_of_mem x m'))
                  (ap (λ r. r.0) (sym went) ∙ ran') k)
        ]

  IsKey-of_prefix : (k : String) → starts_with k key_prefix ≡ true → IsKey k
  IsKey-of_prefix k h = let (id, e) = (starts_with_iff k key_prefix).0 h in (id, sym e)

  can_create_runs :
      (arrival : List String → List String) (db : c.Db) (ks : List String)
      → user ≢ ""
      → (c.keys key_prefix db).0 ≡ value ks
      → (can_create c arrival user db).0 ≡ (collect c user (arrival ks) (c.keys key_prefix db).1).0
  unfolding can_create
  can_create_runs arrival db ks nu listed = ground (arith, eq_iff user "", listed)

  -- On a reachable server, and for a user who is named, `CanCreate` returns true exactly when no
  -- stored challenge that is going on was created by the user or has the user as a participant.
  -- So the verdict does not depend on the order in which the goroutines answer.
  pub can_create_iff :
      (arrival : List String → List String) (db : c.Db)
      → ((ks : List String) → Perm (arrival ks) ks)
      → law.Up db
      → user ≢ ""
      → ((can_create c arrival user db).0 ≡ ok true)
        ↔ ((id : String) (d : ChallengeDocument) → stored c law db id ≡ some d → ¬ Engages user d)
  can_create_iff arrival db perm up nu =
      let (ks, listed, up') = law.keys_up key_prefix db up in
      let db' = (c.keys key_prefix db).1 in
      let runs = can_create_runs arrival db ks nu listed in
      let p = law.peek db in
      let holds : Holds p db' = law.peek-keys key_prefix db in
      let listing = law.keys_lem key_prefix db ks listed in
      let arrived = λ (k : String) (m : Mem k (arrival ks)). (Perm.mem_iff (perm ks)).0 m in
      let keyed = λ (k : String) (m : Mem k (arrival ks)).
        IsKey-of_prefix k ((listing k).0 (arrived k m)).0 in
      (
        λ ran id d held g.
            let there : Mem (key_of id) (arrival ks) = (Perm.mem_iff (perm ks)).1 (
              (listing (key_of id)).1
                (starts_with-append key_prefix id, λ gone. ground (arith, held, gone))) in
            let free =
              collect_sound p (arrival ks) db' up' holds keyed (sym runs ∙ ran) (key_of id) there in
            false≢true (sym (not_free_of_Engages (p (key_of id)) d held g) ∙ free),
        λ none_engages.
            runs
            ∙ collect_complete p (arrival ks) db' up' holds (λ k m.
              let (id, e) = keyed k m in
              (
                (id, e),
                elim (Bool-cases (is_free (p k))) [
                  | inl free ↦ free
                  | inr taken ↦
                      let (d, held, g) = Engages-of_not_free (p k) taken in
                      absurd
                        (none_engages id d (subst (λ x. decoded c law (p x) ≡ some d) e held) g)
                ],
              )),
      )
