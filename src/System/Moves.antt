-- ===== src/System/Moves.antt =====
-- Actions whose effect on the challenges is a run of the steps of Spec: the rules by which a method
-- that writes is checked along its do block.
use challenge_service.Prelude.{
  String, ◌≡◌, ◌⊎◌, refl, Bool, true, false, Option, none, some, inl, inr, if◌then◌else◌,
}
use challenge_service.Exec.{
  cut, Exec, Outcome, ok, err, panic, continue, caught, pure, must, attempt, wrap, ◌>>=◌,
}
use challenge_service.RedisClient
use challenge_service.World.{Libraries, World}
use challenge_service.System.Documents.{View}
use challenge_service.System.Safety.{Safe}
use challenge_service.System.Spec.{Author, Transition, Evolves, stays, moves}
use challenge_service.System.Invariant.{Holds}

pub trans : {by : Author} {v w x : View} → Evolves by v w → Evolves by w x → Evolves by v x
trans stays r = r
trans (moves t q) r = moves t (trans q r)

module _ (lib : Libraries) (rlaw : RedisClient.Laws lib.redis) (by : Author) where
  -- The challenges, which looked like `v`, have evolved as a request may make them.
  pub record Reached (v : View) (s : World lib) : Type 0 where
    pub view : View
    pub evolved : Evolves by v view
    pub holds : Holds lib rlaw view s

  -- every run does so
  abbrev pub Moves : {A : Type 0} → View → Exec (World lib) A → Type 0
  Moves v m = (s : World lib) → Holds lib rlaw v s → Reached v (m s).1

  -- every run leaves them as they are
  abbrev pub Keeps : {A : Type 0} → View → Exec (World lib) A → Type 0
  Keeps v m = (s : World lib) → Holds lib rlaw v s → Holds lib rlaw v (m s).1

  Reached-from : {v w : View} {s : World lib} → Evolves by v w → Reached w s → Reached v s
  Reached-from e r = record { view = r.view; evolved = trans e r.evolved; holds = r.holds }

  Reached-here : {v : View} {s : World lib} → Holds lib rlaw v s → Reached v s
  Reached-here {v} h = record { view = v; evolved = stays; holds = h }

  module _ {A : Type 0} where
    pub Keeps-Safe :
        (v : View) (P : A → Type 0) (m : Exec (World lib) A)
        → Safe (Holds lib rlaw v) P m
        → Keeps v m
    Keeps-Safe v P m safe s h = (safe s h).state

    pub Moves-pure : (v : View) (a : A) → Moves v (pure a)
    Moves-pure v a s h = Reached-here h

    pub Moves-Keeps : (v : View) (m : Exec (World lib) A) → Keeps v m → Moves v m
    Moves-Keeps v m keep s h = Reached-here (keep s h)

    pub Moves-Safe :
        (v : View) (P : A → Type 0) (m : Exec (World lib) A)
        → Safe (Holds lib rlaw v) P m
        → Moves v m
    Moves-Safe v P m safe s h = Reached-here (safe s h).state

    pub Moves-if :
        (v : View) (b : Bool) (m n : Exec (World lib) A)
        → (b ≡ true → Moves v m)
        → (b ≡ false → Moves v n)
        → Moves v (if b then m else n)
    Moves-if v true m n hm hn = hm refl
    Moves-if v false m n hm hn = hn refl

    pub Moves-attempt : (v : View) (m : Exec (World lib) A) → Moves v m → Moves v (attempt m)
    Moves-attempt v m h s i = Reached-caught (m s).0 (m s).1 (h s i)
      where
        Reached-caught : (r : Outcome A) (t : World lib) → Reached v t → Reached v (caught r t).1
        Reached-caught (ok a) t h = h
        Reached-caught (err e) t h = h
        Reached-caught panic t h = h
        Reached-caught (cut w) t h = h

    pub Moves-wrap :
        (v : View) (f : String → String) (m : Exec (World lib) A) → Moves v m → Moves v (wrap f m)
    Moves-wrap v f m h s i = h s i

  module _ {A B : Type 0} where
    -- an action that keeps the view, and gives `P`, before one that moves
    pub Moves-bind :
        (v : View) (P : A → Type 0) (m : Exec (World lib) A) (f : A → Exec (World lib) B)
        → Safe (Holds lib rlaw v) P m
        → ((a : A) → P a → Moves v (f a))
        → Moves v (m >>= f)
    Moves-bind v P m f hm hf s i =
        go (m s).0 (m s).1 (hm s i).state (λ a e. hf a ((hm s i).gives a e))
      where
        go :
            (r : Outcome A) (t : World lib)
            → Holds lib rlaw v t
            → ((a : A) → r ≡ ok a → Moves v (f a))
            → Reached v (continue r f t).1
        go (ok a) t h k = k a refl t h
        go (err e) t h k = Reached-here h
        go panic t h k = Reached-here h
        go (cut w) t h k = Reached-here h

    -- an action that keeps the view and may panic
    pub Moves-after :
        (v : View) (m : Exec (World lib) A) (f : A → Exec (World lib) B)
        → ((s : World lib) → Holds lib rlaw v s → Holds lib rlaw v (m s).1)
        → ((a : A) → Moves v (f a))
        → Moves v (m >>= f)
    Moves-after v m f hm hf s i = go (m s).0 (m s).1 (hm s i)
      where
        go : (r : Outcome A) (t : World lib) → Holds lib rlaw v t → Reached v (continue r f t).1
        go (ok a) t h = hf a t h
        go (err e) t h = Reached-here h
        go panic t h = Reached-here h
        go (cut w) t h = Reached-here h

    -- a value that may be missing
    pub Moves-must :
        (v : View) (o : Option A) (f : A → Exec (World lib) B)
        → ((a : A) → o ≡ some a → Moves v (f a))
        → Moves v (must o >>= f)
    Moves-must v none f h s i = Reached-here i
    Moves-must v (some a) f h s i = h a refl s i

    -- an action that moves, before one that keeps whatever view there is
    pub Moves-then :
        (v : View) (m : Exec (World lib) A) (f : A → Exec (World lib) B)
        → Moves v m
        → ((w : View) (a : A) → Moves w (f a))
        → Moves v (m >>= f)
    Moves-then v m f hm hf s i = go (m s).0 (m s).1 (hm s i)
      where
        go : (r : Outcome A) (t : World lib) → Reached v t → Reached v (continue r f t).1
        go (ok a) t h = Reached-from h.evolved (hf h.view a t h.holds)
        go (err e) t h = h
        go panic t h = h
        go (cut w) t h = h

    -- A write that takes one step or fails. Where its result is good the step was taken; what follows
    -- another result must be right in both cases.
    pub Moves-write :
        (v w : View) (Good : A → Type 0) (m : Exec (World lib) A) (f : A → Exec (World lib) B)
        → Transition by v w
        → ((s : World lib)
            → Holds lib rlaw v s
            → (Holds lib rlaw v (m s).1 ⊎ Holds lib rlaw w (m s).1)
              × ((a : A) → (m s).0 ≡ ok a → Good a → Holds lib rlaw w (m s).1))
        → ((a : A) → (Good a × Moves w (f a)) ⊎ (Moves v (f a) × Moves w (f a)))
        → Moves v (m >>= f)
    Moves-write v w Good m f step hm hf s i = go (m s).0 (m s).1 (hm s i).0 (hm s i).1
      where
        advance : {t : World lib} → Reached w t → Reached v t
        advance r = Reached-from (moves step stays) r

        ended : (t : World lib) → Holds lib rlaw v t ⊎ Holds lib rlaw w t → Reached v t
        ended t (inl h) = Reached-here h
        ended t (inr h) = advance (Reached-here h)

        after :
            (a : A) (t : World lib)
            → Moves v (f a) × Moves w (f a)
            → Holds lib rlaw v t ⊎ Holds lib rlaw w t
            → Reached v (f a t).1
        after a t k (inl h) = k.0 t h
        after a t k (inr h) = advance (k.1 t h)

        go :
            (r : Outcome A) (t : World lib)
            → Holds lib rlaw v t ⊎ Holds lib rlaw w t
            → ((a : A) → r ≡ ok a → Good a → Holds lib rlaw w t)
            → Reached v (continue r f t).1
        go (ok a) t h k = elim (hf a) [
          | inl (g, mw) ↦ advance (mw t (k a refl g))
          | inr both ↦ after a t both h
        ]
        go (err e) t h k = ended t h
        go panic t h k = ended t h
        go (cut w) t h k = ended t h
