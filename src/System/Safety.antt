-- ===== src/System/Safety.antt =====
-- Actions that keep an invariant, come back and do not panic, and what is known of their results: the rules by
-- which a method is checked along its do block. The actions are those of Exec.
use mathlib.Core.Path.{subst}
use challenge_service.Prelude.{
  String, ◌≡◌, ◌≢◌, ◌⊎◌, inl, inr, refl, Bool, true, false, Option, none, some, arith,
  if◌then◌else◌,
}
use challenge_service.Exec.{
  Exec, Cut, Outcome, ok, err, panic, cut, Result, value, error, continue, caught, reworded, pure,
  fail, lift, gets, must, modify, attempt, wrap, zoom, ◌>>=◌,
}

-- nothing is known of the result
abbrev pub Anything : {A : Type 0} → A → Type 0
Anything a = Unit {0}

-- what is known of a call whose error is kept
abbrev pub Got : {A : Type 0} → (A → Type 0) → Result A → Type 0
Got P (value a) = P a
Got P (error _) = Unit

module _ {S : Type 0} (I : S → Type 0) where
  -- A run that did not come back, for a reason that `E` tells, and left a state that satisfies the
  -- invariant.
  pub record Gone {A : Type 0} (E : Cut → Type 0) (out : Outcome A × S) : Type 0 where
    pub why : Cut
    pub gone : out.0 ≡ cut why
    pub kept : I out.1
    pub reason : E why

  -- A run that came back with `out`: without a panic, in a state that satisfies the invariant.
  pub record Fine {A : Type 0} (P : A → Type 0) (out : Outcome A × S) : Type 0 where
    pub state : I out.1
    pub calm : out.0 ≢ panic
    pub back : (c : Cut) → out.0 ≢ cut c
    pub gives : (a : A) → out.0 ≡ ok a → P a

  -- every run from a state that satisfies the invariant
  abbrev pub Safe : {A : Type 0} → (A → Type 0) → Exec S A → Type 0
  Safe P m = (s : S) → I s → Fine P (m s)

  module _ {A : Type 0} (P : A → Type 0) where
    Fine-ok : (a : A) (s : S) → I s → P a → Fine P (ok a, s)
    Fine-ok a s i p = record {
      state = i;
      calm = λ e. cc;
      back = λ c e. cc;
      gives = λ a' e. ground (arith, e, p);
    }

    Fine-err : (e : String) (s : S) → I s → Fine P (err e, s)
    Fine-err e s i = record { state = i; calm = λ h. cc; back = λ c h. cc; gives = λ a h. cc }

    pub Safe-pure : (a : A) → P a → Safe P (pure a)
    Safe-pure a p s i = Fine-ok a s i p

    pub Safe-fail : (e : String) → Safe P (fail e)
    Safe-fail e s i = Fine-err e s i

    pub Safe-lift : (r : Result A) → Got P r → Safe P (lift r)
    Safe-lift (value a) p s i = Fine-ok a s i p
    Safe-lift (error e) p s i = Fine-err e s i

    pub Safe-if :
        (b : Bool) (m n : Exec S A)
        → (b ≡ true → Safe P m)
        → (b ≡ false → Safe P n)
        → Safe P (if b then m else n)
    Safe-if true m n hm hn = hm refl
    Safe-if false m n hm hn = hn refl

    pub Safe-must : (o : Option A) → o ≢ none → ((a : A) → o ≡ some a → P a) → Safe P (must o)
    Safe-must none h k s i = absurd (h refl)
    Safe-must (some a) h k s i = Fine-ok a s i (k a refl)

    pub Safe-attempt : (m : Exec S A) → Safe P m → Safe (Got P) (attempt m)
    Safe-attempt m h s i = Fine-caught (m s).0 (m s).1 (h s i)
      where
        Fine-caught : (r : Outcome A) (t : S) → Fine P (r, t) → Fine (Got P) (caught r t)
        Fine-caught (ok a) t f = record {
          state = f.state;
          calm = λ e. cc;
          back = λ c e. cc;
          gives = λ r e. ground (arith, e, f.gives a refl);
        }
        Fine-caught (err msg) t f = record {
          state = f.state;
          calm = λ e. cc;
          back = λ c e. cc;
          gives = λ r e. ground (arith, e);
        }
        Fine-caught panic t f = absurd (f.calm refl)
        Fine-caught (cut c) t f = absurd (f.back c refl)

    pub Safe-wrap : (f : String → String) (m : Exec S A) → Safe P m → Safe P (wrap f m)
    Safe-wrap f m h s i = Fine-reworded (m s).0 (m s).1 (h s i)
      where
        Fine-reworded : (r : Outcome A) (t : S) → Fine P (r, t) → Fine P (reworded f r, t)
        Fine-reworded (ok a) t h = h
        Fine-reworded (err msg) t h = Fine-err (f msg) t h.state
        Fine-reworded panic t h = h
        Fine-reworded (cut c) t h = h

  module _ {A : Type 0} where
    pub Safe-gets : (f : S → A) → Safe Anything (gets f)
    Safe-gets f s i = Fine-ok Anything (f s) s i tt

    pub Safe-modify : (f : S → S) (a : A) → ((s : S) → I s → I (f s)) → Safe Anything (modify f a)
    Safe-modify f a h s i = Fine-ok Anything a (f s) (h s i) tt

    pub Safe-weaken :
        (P Q : A → Type 0) (m : Exec S A) → ((a : A) → P a → Q a) → Safe P m → Safe Q m
    Safe-weaken P Q m h f s i =
        let r = f s i in
        record { state = r.state; calm = r.calm; back = r.back; gives = λ a e. h a (r.gives a e) }

  module _ {A B : Type 0} (P : A → Type 0) (Q : B → Type 0) where
    Fine-continue :
        (r : Outcome A) (s : S) (f : A → Exec S B)
        → Fine P (r, s)
        → ((a : A) → P a → Safe Q (f a))
        → Fine Q (continue r f s)
    Fine-continue (ok a) s f h k = k a (h.gives a refl) s h.state
    Fine-continue (err e) s f h k = Fine-err Q e s h.state
    Fine-continue panic s f h k = absurd (h.calm refl)
    Fine-continue (cut c) s f h k = absurd (h.back c refl)

    pub Safe-bind :
        (m : Exec S A) (f : A → Exec S B)
        → Safe P m
        → ((a : A) → P a → Safe Q (f a))
        → Safe Q (m >>= f)
    Safe-bind m f hm hf s i = Fine-continue (m s).0 (m s).1 f (hm s i) hf

-- An action on a part of the state, whose invariant is a part of that of the whole.
module _ {S T : Type 0} (I : S → Type 0) (J : T → Type 0) (get : S → T) (put : T → S → S)
    (part : (s : S) → I s → J (get s)) (back : (t : T) (s : S) → I s → J t → I (put t s)) where
  pub Safe-zoom :
      {A : Type 0} (P : A → Type 0) (m : Exec T A) → Safe J P m → Safe I P (zoom get put m)
  Safe-zoom P m h s i =
      let f = h (get s) (part s i) in
      record {
        state = back (m (get s)).1 s i f.state;
        calm = f.calm;
        back = f.back;
        gives = f.gives;
      }

-- Actions that keep the invariant and do not panic, and come back unless there is a reason.
module _ {S : Type 0} (I : S → Type 0) (E : Cut → Type 0) where
  abbrev pub Ends : {A : Type 0} → Exec S A → Type 0
  Ends m = (s : S) → I s → Fine I Anything (m s) ⊎ Gone I E (m s)

  pub Ends-Safe : {A : Type 0} (m : Exec S A) → Safe I Anything m → Ends m
  Ends-Safe m h s i = inl (h s i)

  pub Ends-state : {A : Type 0} (m : Exec S A) → Ends m → (s : S) → I s → I (m s).1
  Ends-state m h s i = elim (h s i) [ inl f ↦ f.state | inr g ↦ g.kept ]

  pub Ends-calm : {A : Type 0} (m : Exec S A) → Ends m → (s : S) → I s → (m s).0 ≢ panic
  Ends-calm m h s i e = elim (h s i) [ inl f ↦ f.calm e | inr g ↦ ground (arith, g.gone, e) ]

  pub Ends-reason :
      {A : Type 0} (m : Exec S A) → Ends m → (s : S) → I s → (c : Cut) → (m s).0 ≡ cut c → E c
  Ends-reason m h s i c e = elim (h s i) [
    | inl f ↦ absurd (f.back c e)
    | inr g ↦ let same : g.why ≡ c = ground (arith, g.gone, e) in subst E same g.reason
  ]

  module _ {A B : Type 0} where
    Ends-continue :
        (P : A → Type 0) (r : Outcome A) (s : S) (f : A → Exec S B)
        → Fine I P (r, s)
        → ((a : A) → P a → Ends (f a))
        → Fine I Anything (continue r f s) ⊎ Gone I E (continue r f s)
    Ends-continue P (ok a) s f h k = k a (h.gives a refl) s h.state
    Ends-continue P (err e) s f h k = inl (Fine-err I Anything e s h.state)
    Ends-continue P panic s f h k = absurd (h.calm refl)
    Ends-continue P (cut c) s f h k = absurd (h.back c refl)

    pub Ends-bind :
        (P : A → Type 0) (m : Exec S A) (f : A → Exec S B)
        → Safe I P m
        → ((a : A) → P a → Ends (f a))
        → Ends (m >>= f)
    Ends-bind P m f hm hf s i = Ends-continue P (m s).0 (m s).1 f (hm s i) hf

    Gone-continue :
        (r : Outcome A) (s : S) (f : A → Exec S B) → Gone I E (r, s) → Gone I E (continue r f s)
    Gone-continue (cut c) s f h = record {
      why = c;
      gone = refl;
      kept = h.kept;
      reason = ground (arith, h.gone, h.reason);
    }
    Gone-continue (ok a) s f h = absurd (ground (arith, h.gone))
    Gone-continue (err e) s f h = absurd (ground (arith, h.gone))
    Gone-continue panic s f h = absurd (ground (arith, h.gone))

    pub Ends-then :
        (m : Exec S A) (f : A → Exec S B) → Ends m → ((a : A) → Ends (f a)) → Ends (m >>= f)
    Ends-then m f hm hf s i = elim (hm s i) [
      | inl h ↦ Ends-continue Anything (m s).0 (m s).1 f h (λ a _. hf a)
      | inr g ↦ inr (Gone-continue (m s).0 (m s).1 f g)
    ]

  module _ {A : Type 0} where
    Gone-caught : (r : Outcome A) (s : S) → Gone I E (r, s) → Gone I E (caught r s)
    Gone-caught (cut c) s h = record {
      why = h.why;
      gone = ground (arith, h.gone);
      kept = h.kept;
      reason = h.reason;
    }
    Gone-caught (ok a) s h = absurd (ground (arith, h.gone))
    Gone-caught (err e) s h = absurd (ground (arith, h.gone))
    Gone-caught panic s h = absurd (ground (arith, h.gone))

    pub Ends-attempt : (m : Exec S A) → Ends m → Ends (attempt m)
    Ends-attempt m h s i = elim (h s i) [
      | inl f ↦
          let same : Safe I Anything (λ t. m s) = λ t _. f in
          inl (
            Safe-weaken I (Got Anything) Anything (attempt (λ t. m s)) (λ a p. tt)
              (Safe-attempt I Anything (λ t. m s) same) s i)
      | inr g ↦ inr (Gone-caught (m s).0 (m s).1 g)
    ]

-- Another reason will do.
pub Ends-weaken :
    {S A : Type 0} (I : S → Type 0) (E F : Cut → Type 0) (m : Exec S A)
    → ((c : Cut) → E c → F c)
    → Ends I E m
    → Ends I F m
Ends-weaken I E F m h e s i = elim (e s i) [
  | inl f ↦ inl f
  | inr g ↦ inr (record { why = g.why; gone = g.gone; kept = g.kept; reason = h g.why g.reason })
]
