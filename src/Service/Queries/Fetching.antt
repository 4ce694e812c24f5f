-- ===== src/Service/Queries/Fetching.antt =====
-- The loop that fetches challenges and keeps some: which ones it keeps.
use mathlib.Core.List.{Mem, mem-cons_self, mem-cons_of_mem, mem-cons, not-mem-nil}
use mathlib.Core.List.{Perm, Permᴰ}
use mathlib.Core.List.Permᴰ.{nil, cons, swap, trans}
use mathlib.Core.Logic.{∥∥₁_elim}
use mathlib.Core.HLevel.{hedberg}
use Prim.Native.Nat.{suc}
use mathlib.Core.Logic.Or
use mathlib.Core.Path.{subst}
use challenge_service.Prelude.{
  ℕ, length, nat_eq, ap, String, ◌≡◌, refl, sym, ◌∙◌, Bool, true, Bool-cases, some, List, [], ◌∷◌,
  arith, inl, inr, if◌then◌else◌, All, All-map,
}
use challenge_service.Exec.{ok, Result, value, error}
use challenge_service.Model.{ChallengeDocument}
use challenge_service.RedisClient
use challenge_service.Redis
use challenge_service.Redis.View.{stored}
use challenge_service.Redis.Listing.{Kept, Kept-get, Kept-trans, get_challenge_by_id_cases}
use challenge_service.World.{Libraries, World}
use challenge_service.Service.Queries.{fetch_each}

ℕ_discrete : Discrete ℕ
ℕ_discrete a b = elim (Bool-cases (nat_eq a b)) [
  | inl e ↦ yes (ground (arith, e))
  | inr e ↦ no (λ same. ground (arith, same, e))
]

length-permᴰ : {l l' : List String} → Permᴰ l l' → length l ≡ length l'
length-permᴰ nil = refl
length-permᴰ (cons e d) = ap suc (length-permᴰ d)
length-permᴰ (swap e₁ e₂) = refl
length-permᴰ (trans d₁ d₂) = length-permᴰ d₁ ∙ length-permᴰ d₂

pub length-perm : {l l' : List String} → Perm l l' → length l ≡ length l'
length-perm same = ∥∥₁_elim same (hedberg ℕ_discrete _ _) length-permᴰ

-- `keep` keeps the challenges that pass the test.
pub record Keeps (test : ChallengeDocument → Bool)
    (keep : Result ChallengeDocument → List ChallengeDocument → List ChallengeDocument)
    : Type 0 where
  pub taken :
      (d : ChallengeDocument) (rest : List ChallengeDocument)
      → keep (value d) rest ≡ (if test d then d ∷ rest else rest)
  pub skipped : (msg : String) (rest : List ChallengeDocument) → keep (error msg) rest ≡ rest

module _ (lib : Libraries) (rlaw : RedisClient.Laws lib.redis) where
  module _ (test : ChallengeDocument → Bool)
      (keep : Result ChallengeDocument → List ChallengeDocument → List ChallengeDocument)
      (keeps : Keeps test keep) where
    pub fetch_each_up :
        (ids : List String) (s : World lib)
        → rlaw.Up s.redis
        → (out : List ChallengeDocument) × (s' : World lib) × (fetch_each lib keep ids s
            ≡ (ok out, s'))
          × Kept lib.redis rlaw s.redis s'.redis
          × ((id : String) (d : ChallengeDocument)
              → Mem id ids
              → stored lib.redis rlaw s.redis id ≡ some d
              → test d ≡ true
              → Mem d out)
          × All
              (λ d.
                (test d ≡ true)
                × ((id : String) × Mem id ids × (stored lib.redis rlaw s.redis id ≡ some d)))
              out
    unfolding fetch_each
    fetch_each_up [] s up =
        ([], s, refl, record { up = up; same = λ id. refl }, (λ id d m. absurd (not-mem-nil m)), tt)
    fetch_each_up (i ∷ ids) s up =
        let got = Kept-get lib.redis rlaw i s.redis up in
        let s1 : World lib = record s {
          redis = (Redis.get_challenge_by_id lib.redis i s.redis).1;
        } in
        let (out, s', ran, kept, complete, sound) = fetch_each_up ids s1 got.up in
        let keeps' = Kept-trans lib.redis rlaw got kept in
        let later =
          λ (id : String) (d : ChallengeDocument) (m : Mem id ids)
              (h : stored lib.redis rlaw s.redis id ≡ some d).
            complete id d m (got.same id ∙ h) in
        let sound' =
          All-map
            (λ d.
              (test d ≡ true)
              × ((id : String) × Mem id ids × (stored lib.redis rlaw s1.redis id ≡ some d)))
            (λ d.
              (test d ≡ true)
              × ((id : String) × Mem id (i ∷ ids) × (stored lib.redis rlaw s.redis id ≡ some d)))
            (λ d h. (h.0, (h.1.0, mem-cons_of_mem i h.1.1, sym (got.same h.1.0) ∙ h.1.2))) out
            sound in
        elim (get_challenge_by_id_cases lib.redis rlaw i s.redis up) [
          | inr (msg, absent, failed) ↦ (
            out,
            s',
            ground (arith, failed, ran, keeps.skipped msg out),
            keeps',
            λ id d m h t.
                Or.elim (hlevel) (mem-cons.0 m) (λ here. absurd (ground (arith, here, absent, h)))
                  (λ rest. later id d rest h t),
            sound',
          )
          | inl (x, there, read) ↦ elim (Bool-cases (test x)) [
            | inr other ↦ (
              out,
              s',
              ground (arith, read, ran, other, keeps.taken x out),
              keeps',
              λ id d m h t.
                  Or.elim (hlevel) (mem-cons.0 m)
                    (λ here. absurd (ground (arith, here, there, h, t, other)))
                    (λ rest. later id d rest h t),
              sound',
            )
            | inl passes ↦ (
              x ∷ out,
              s',
              ground (arith, read, ran, passes, keeps.taken x out),
              keeps',
              λ id d m h t.
                  Or.elim (hlevel) (mem-cons.0 m)
                    (λ here.
                      let same : x ≡ d = ground (arith, here, there, h) in
                      subst (λ y. Mem y (x ∷ out)) same mem-cons_self)
                    (λ rest. mem-cons_of_mem x (later id d rest h t)),
              ((passes, (i, mem-cons_self, there)), sound'),
            )
          ]
        ]
