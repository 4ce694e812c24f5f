-- ===== src/Service/Proto/Filling.antt =====
-- Maps that a loop fills, read back in the order in which they were filled.
use mathlib.Core.List.{append_assoc, append-nil}
use challenge_service.Prelude.{
  String, ◌≡◌, refl, sym, ap, ◌∙◌, false, List, [], ◌∷◌, ◌++◌, map, All, All-map, ◌==◌, arith,
  eq_iff,
}
use challenge_service.GoMap.{made, insert, replace, Absent, Distinct}
use challenge_service.Service.Proto.{insert_all}

module _ {V : Type 0} where
  Absent-snoc :
      (j k : String) (v : V) (l : List (String × V))
      → (k == j) ≡ false
      → Absent j l
      → Absent j (l ++ (k, v) ∷ [])
  Absent-snoc j k v [] e h = (e, tt)
  Absent-snoc j k v (x ∷ l) e h = (h.0, Absent-snoc j k v l e h.1)

  -- An assignment to a new key adds an entry at the end.
  replace-Absent :
      (k : String) (v : V) (l : List (String × V)) → Absent k l → replace k v l ≡ l ++ (k, v) ∷ []
  unfolding replace
  replace-Absent k v [] h = refl
  replace-Absent k v ((j, w) ∷ l) h = ground (arith, h.0, replace-Absent k v l h.1)

All-both {ℓ} :
    {A : Type ℓ} (P Q : A → Type 0) (l : List A) → All P l → All Q l → All (λ a. P a × Q a) l
All-both P Q [] p q = tt
All-both P Q (x ∷ l) p q = ((p.0, q.0), All-both P Q l p.1 q.1)

module _ {A V : Type 0} (f : A → V) where
  abbrev pub converted : String × A → String × V
  converted e = (e.0, f e.1)

  -- A loop of assignments with distinct keys to an allocated map adds its entries in order.
  insert_all-made :
      (l : List (String × A)) (acc : List (String × V))
      → Distinct l
      → All (λ e. Absent e.0 acc) l
      → insert_all f l (made acc) ≡ made (acc ++ map converted l)
  unfolding insert_all insert
  insert_all-made [] acc d h = ap made (sym (append-nil acc))
  insert_all-made ((k, v) ∷ l) acc d h =
      let new = replace-Absent k (f v) acc h.0 in
      let later =
        All-map (λ e. (Absent e.0 acc) × ((e.0 == k) ≡ false))
          (λ e. Absent e.0 (acc ++ (k, f v) ∷ []))
          (λ e p. Absent-snoc e.0 k (f v) acc (ground (arith, p.1, eq_iff e.0 k, eq_iff k e.0)) p.0)
          l (All-both (λ e. Absent e.0 acc) (λ e. (e.0 == k) ≡ false) l h.1 d.0) in
      ap (λ a. insert_all f l (made a)) new
      ∙ insert_all-made l (acc ++ (k, f v) ∷ []) d.1 later
      ∙ ap made (append_assoc acc ((k, f v) ∷ []) (map converted l))

  none_yet : (l : List (String × A)) → All (λ e. Absent {V = V} e.0 []) l
  none_yet [] = tt
  none_yet (x ∷ l) = (tt, none_yet l)

  pub insert_all-Distinct :
      (l : List (String × A)) → Distinct l → insert_all f l (made []) ≡ made (map converted l)
  insert_all-Distinct l d = insert_all-made l [] d (none_yet l)

pub map_back {ℓ κ} :
    {A : Type ℓ} {B : Type κ} (f : A → B) (g : B → A) (l : List A)
    → All (λ a. g (f a) ≡ a) l
    → map g (map f l) ≡ l
map_back f g [] h = refl
map_back f g (x ∷ l) h = ground (arith, h.0, map_back f g l h.1)
