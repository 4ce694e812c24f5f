-- ===== src/GoMap.antt =====
-- Go's maps with string keys: `nil`, or an allocated table. A table is its entries in the order in
-- which one iteration meets them; Go leaves that order open, so what depends on it is stated up to
-- a permutation.
use challenge_service.Prelude.{
  String, ◌≡◌, ◌≢◌, refl, ap, false, Option, none, some, List, [], ◌∷◌, arith, ◌==◌, eq_iff,
  eq_refl, if◌then◌else◌, All,
}

pub data GoMap {ℓ} (V : Type ℓ) : Type ℓ where
  nil : GoMap V
  made : List (String × V) → GoMap V

module _ {ℓ} {V : Type ℓ} where
  unfoldable pub find : String → List (String × V) → Option V
  find k [] = none
  find k ((j, v) ∷ l) = if j == k then some v else find k l

  unfoldable pub replace : String → V → List (String × V) → List (String × V)
  replace k v [] = (k, v) ∷ []
  replace k v ((j, w) ∷ l) = if j == k then (k, v) ∷ l else (j, w) ∷ replace k v l

  unfoldable pub without : String → List (String × V) → List (String × V)
  without k [] = []
  without k (e ∷ l) = let others = without k l in if e.0 == k then others else e ∷ others

  -- the entries that `range m` visits
  abbrev pub entries : GoMap V → List (String × V)
  entries nil = []
  entries (made l) = l

  -- `v, exists := m[k]`
  unfoldable pub lookup : String → GoMap V → Option V
  unfolding find
  lookup k m = find k (entries m)

  -- `m[k] = v`; `none` is the panic of an assignment to a nil map
  unfoldable pub assign : String → V → GoMap V → Option (GoMap V)
  unfolding replace
  assign k v nil = none
  assign k v (made l) = some (made (replace k v l))

  -- `delete(m, k)`
  unfoldable pub delete : String → GoMap V → GoMap V
  unfolding without
  delete k nil = nil
  delete k (made l) = made (without k l)

  -- `if m == nil { m = make(...) }`
  abbrev pub allocated : GoMap V → GoMap V
  allocated nil = made []
  allocated (made l) = made l

  -- `m[k] = v` where `m` has just been allocated if it was nil
  unfoldable pub insert : String → V → GoMap V → GoMap V
  unfolding replace
  insert k v m = made (replace k v (entries m))

  pub find-replace :
      (k j : String) (v : V) (l : List (String × V))
      → find j (replace k v l) ≡ (if k == j then some v else find j l)
  unfolding find replace
  find-replace k j v [] = refl
  find-replace k j v ((i, w) ∷ l) =
      ground (arith, eq_iff k j, eq_iff i k, eq_iff i j, find-replace k j v l)

  -- Of two assignments to a key the second one counts.
  replace-replace :
      (k : String) (v w : V) (l : List (String × V)) → replace k v (replace k w l) ≡ replace k v l
  unfolding replace
  replace-replace k v w [] = ground (arith, eq_refl k)
  replace-replace k v w ((j, x) ∷ l) = ground (arith, eq_refl k, replace-replace k v w l)

  pub insert-insert :
      (k : String) (v w : V) (m : GoMap V) → insert k v (insert k w m) ≡ insert k v m
  unfolding insert
  insert-insert k v w m = ap made (replace-replace k v w (entries m))

  pub assign-insert :
      (k : String) (v : V) (m : GoMap V) → m ≢ nil → assign k v m ≡ some (insert k v m)
  unfolding assign insert
  assign-insert k v nil h = absurd (h refl)
  assign-insert k v (made l) h = refl

  pub find-without :
      (k j : String) (l : List (String × V))
      → find j (without k l) ≡ (if k == j then none else find j l)
  unfolding find without
  find-without k j [] = ground arith
  find-without k j ((i, v) ∷ l) =
      ground (arith, find-without k j l, eq_iff i k, eq_iff i j, eq_iff k j)

  pub lookup-insert :
      (k j : String) (v : V) (m : GoMap V)
      → lookup j (insert k v m) ≡ (if k == j then some v else lookup j m)
  unfolding lookup insert
  lookup-insert k j v m = find-replace k j v (entries m)

  pub lookup-delete :
      (k j : String) (m : GoMap V) → lookup j (delete k m) ≡ (if k == j then none else lookup j m)
  unfolding lookup delete
  lookup-delete k j nil = ground arith
  lookup-delete k j (made l) = find-without k j l

  pub delete-ne-nil : (k : String) (m : GoMap V) → m ≢ nil → delete k m ≢ nil
  unfolding delete
  delete-ne-nil k nil h e = h refl
  delete-ne-nil k (made l) h e = cc

  pub insert-ne-nil : (k : String) (v : V) (m : GoMap V) → insert k v m ≢ nil
  unfolding insert
  insert-ne-nil k v m e = cc

  -- An assignment to an allocated map is an insertion.
  pub assign-allocated :
      (k : String) (v : V) (m : GoMap V) → assign k v (allocated m) ≡ some (insert k v m)
  unfolding assign insert
  assign-allocated k v nil = refl
  assign-allocated k v (made l) = refl

  -- No key stands in `l` that is `k`.
  abbrev pub Absent : String → List (String × V) → Type 0
  Absent k = All (λ e. (e.0 == k) ≡ false)

  -- Go's maps hold a key once.
  abbrev pub Distinct : List (String × V) → Type 0
  Distinct [] = Unit
  Distinct ((k, v) ∷ l) = Absent k l × Distinct l

  Absent-replace :
      (k j : String) (v : V) (l : List (String × V))
      → (k == j) ≡ false
      → Absent j l
      → Absent j (replace k v l)
  unfolding replace
  Absent-replace k j v [] e h = (e, tt)
  Absent-replace k j v ((i, w) ∷ l) e h = ground (arith, Absent-replace k j v l)

  pub Distinct-replace :
      (k : String) (v : V) (l : List (String × V)) → Distinct l → Distinct (replace k v l)
  unfolding replace
  Distinct-replace k v [] h = (tt, tt)
  Distinct-replace k v ((i, w) ∷ l) h =
      ground (arith, eq_iff i k, eq_iff k i, Absent-replace k i v l, Distinct-replace k v l)

  Absent-without : (k j : String) (l : List (String × V)) → Absent j l → Absent j (without k l)
  unfolding without
  Absent-without k j [] h = tt
  Absent-without k j ((i, w) ∷ l) h = ground (arith, Absent-without k j l)

  pub Distinct-without : (k : String) (l : List (String × V)) → Distinct l → Distinct (without k l)
  unfolding without
  Distinct-without k [] h = tt
  Distinct-without k ((i, w) ∷ l) h = ground (arith, Absent-without k i l, Distinct-without k l)

pub ruleset map_laws = (lookup-insert, lookup-delete)
