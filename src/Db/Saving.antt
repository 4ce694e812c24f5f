-- ===== src/Db/Saving.antt =====
-- What the commands at the start and at the end do to Redis.
use Prim.Native.String.{◌++◌ as append}
use challenge_service.Prelude.{String, ◌≡◌, ◌⊎◌, ◌↔◌, refl, ◌∙◌, inl, inr, arith}
use challenge_service.Exec.{ok, err, value, error}
use challenge_service.Exec.Laws.{Result-cases}
use challenge_service.RedisClient.{RedisClient, Laws}
use challenge_service.Db.{RedisAdmin, save_redis_data}

-- The commands leave the keys alone.
pub record AdminLaws (c : RedisClient) (law : Laws c) (r : RedisAdmin c.Db) : Type 1 where
  pub peek-ping : (db : c.Db) (k : String) → law.peek (r.ping db).1 k ≡ law.peek db k
  pub peek-config_set :
      (p x : String) (db : c.Db) (k : String) → law.peek (r.config_set p x db).1 k ≡ law.peek db k
  pub peek-bg_save : (db : c.Db) (k : String) → law.peek (r.bg_save db).1 k ≡ law.peek db k
  pub peek-save : (db : c.Db) (k : String) → law.peek (r.save db).1 k ≡ law.peek db k
  pub peek-info :
      (section' : String) (db : c.Db) (k : String)
      → law.peek (r.info section' db).1 k ≡ law.peek db k
  pub peek-db_size : (db : c.Db) (k : String) → law.peek (r.db_size db).1 k ≡ law.peek db k

module _ (c : RedisClient) (law : Laws c) (r : RedisAdmin c.Db) (admin : AdminLaws c law r) where
  -- Redis is saved exactly if it starts a background save or, where it does not, the synchronous
  -- save succeeds, which is not asked for otherwise; a failure is the error of the second; and no
  -- stored value changes.
  pub save_redis_data_lem :
      (db : c.Db)
      → ((save_redis_data r db).0 ≡ ok tt
          ↔ (((r.bg_save db).0 ≡ value tt) ⊎ ((r.save (r.bg_save db).1).0 ≡ value tt)))
        × ((r.bg_save db).0 ≡ value tt → (save_redis_data r db).1 ≡ (r.bg_save db).1)
        × ((e : String)
            → (save_redis_data r db).0 ≡ err e
            → (cause : String) × ((r.save (r.bg_save db).1).0 ≡ error cause)
              × (e ≡ append "failed to save Redis data: " cause))
        × ((k : String) → law.peek (save_redis_data r db).1 k ≡ law.peek db k)
  unfolding save_redis_data
  save_redis_data_lem db = elim (Result-cases (r.bg_save db).0) [
    | inl (u, e) ↦
        rw e (((λ _. inl refl), (λ _. refl)), (λ _. refl), (λ m h. cc), admin.peek-bg_save db)
    | inr (msg, e) ↦
        let db' = (r.bg_save db).1 in
        elim (Result-cases (r.save db').0) [
          | inl (u, f) ↦
              rw (e, f)
                (
                  ((λ _. inr refl), (λ _. refl)),
                  (λ h. cc),
                  (λ m h. cc),
                  λ k. admin.peek-save db' k ∙ admin.peek-bg_save db k,
                )
          | inr (why, f) ↦
              rw (e, f)
                (
                  ((λ h. cc), (λ h. ground (arith, h))),
                  (λ h. cc),
                  (λ m h. (why, refl, ground (arith, h))),
                  λ k. admin.peek-save db' k ∙ admin.peek-bg_save db k,
                )
        ]
  ]
