-- ===== src/Redis/Reads.antt =====
-- The methods of redis.go that only read leave every document as it is, and the server reachable.
use challenge_service.Prelude.{
  String, ◌≡◌, refl, ap, ◌∙◌, Bool-cases, Option-cases, inl, inr, List, [], ◌∷◌, arith, ◌==◌,
}
use challenge_service.Exec.Laws.{Outcome-cases, Result-cases}
use challenge_service.RedisClient.{RedisClient, Laws}
use challenge_service.Redis.{
  key_of, key_prefix, strip_prefix, get_challenge_by_id, check_key, collect, can_create,
}
use challenge_service.Redis.View.{stored, decoded}

module _ (c : RedisClient) (law : Laws c) where
  -- `db'` is left by reads from `db`
  pub record Reads (db db' : c.Db) : Type 0 where
    pub same : (k : String) → law.peek db' k ≡ law.peek db k
    pub up : law.Up db → law.Up db'

  pub Reads-stored :
      {db db' : c.Db} → Reads db db' → (id : String) → stored c law db' id ≡ stored c law db id
  Reads-stored r id = ap (decoded c law) (r.same (key_of id))

  pub Reads-refl : (db : c.Db) → Reads db db
  Reads-refl db = record { same = λ k. refl; up = λ u. u }

  pub Reads-trans : {db db' db'' : c.Db} → Reads db db' → Reads db' db'' → Reads db db''
  Reads-trans p q = record { same = λ k. q.same k ∙ p.same k; up = λ u. q.up (p.up u) }

  Reads-get : (k : String) (db : c.Db) → Reads db (c.get k db).1
  Reads-get k db = record { same = law.peek-get k db; up = λ u. (law.get_up k db u).1 }

  Reads-keys : (p : String) (db : c.Db) → Reads db (c.keys p db).1
  Reads-keys p db = record { same = law.peek-keys p db; up = λ u. (law.keys_up p db u).2 }

  pub Reads-get_challenge_by_id :
      (id : String) (db : c.Db) → Reads db (get_challenge_by_id c id db).1
  unfolding get_challenge_by_id
  Reads-get_challenge_by_id id db =
      let state : (get_challenge_by_id c id db).1 ≡ (c.get (key_of id) db).1 = ground arith in
      rw state (Reads-get (key_of id) db)

  check_key-Reads : (user k : String) (db : c.Db) → Reads db (check_key c user k db).1
  unfolding check_key
  check_key-Reads user k db = elim (Option-cases (strip_prefix k)) [
    | inl e ↦ rw e (Reads-refl db)
    | inr (id, e) ↦ elim (Result-cases (c.get k db).0) [
      | inl (o, r) ↦ rw (e, r) (Reads-get k db)
      | inr (m, r) ↦ rw (e, r) (Reads-get k db)
    ]
  ]

  collect-Reads : (user : String) (ks : List String) (db : c.Db) → Reads db (collect c user ks db).1
  unfolding collect
  collect-Reads user [] db = Reads-refl db
  collect-Reads user (k ∷ ks) db =
      let first = check_key-Reads user k db in
      elim (Outcome-cases (check_key c user k db).0) [
        | inl (res, e) ↦ elim (Bool-cases res.can_create) [
          | inl free ↦
              rw (e, free) (Reads-trans first (collect-Reads user ks (check_key c user k db).1))
          | inr taken ↦ rw (e, taken) first
        ]
        | inr (inl (m, e)) ↦ rw e first
        | inr (inr (inl e)) ↦ rw e first
        | inr (inr (inr (w, e))) ↦ rw e first
      ]

  -- `CanCreate` changes nothing, whatever its verdict.
  pub can_create-Reads :
      (arrival : List String → List String) (user : String) (db : c.Db)
      → Reads db (can_create c arrival user db).1
  unfolding can_create
  can_create-Reads arrival user db = elim (Bool-cases (user == "")) [
    | inl e ↦ rw e (Reads-refl db)
    | inr e ↦ elim (Result-cases (c.keys key_prefix db).0) [
      | inl (ks, r) ↦
          rw (e, r)
            (Reads-trans (Reads-keys key_prefix db)
              (collect-Reads user (arrival ks) (c.keys key_prefix db).1))
      | inr (m, r) ↦ rw (e, r) (Reads-keys key_prefix db)
    ]
  ]
