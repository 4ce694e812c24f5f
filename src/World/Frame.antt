-- ===== src/World/Frame.antt =====
-- Actions that cannot fail and leave the repositories alone: what a handler does to the boards, the
-- sockets and the local state, with its errors logged, does not change a stored challenge.
use challenge_service.Prelude.{◌≡◌, refl, ◌∙◌, inl, inr, arith}
use challenge_service.Exec.{Exec, ok, Result, value, error, pure, gets, attempt, ◌>>=◌}
use challenge_service.Exec.Laws.{Returns, Outcome-cases, bind_ran}
use challenge_service.Leaderboard.{Manager}
use challenge_service.World.{Libraries, World, on_boards, on_local, on_net}
use challenge_service.Local.{Hub}

-- nothing is known of the result
abbrev pub Any : {A : Type 0} → A → Type 0
Any a = Unit {0}

module _ (lib : Libraries) where
  -- A run of `m` from `s` that succeeds with a result of which `P` holds, and changes neither
  -- repository.
  pub record Quiet {A : Type 0} (P : A → Type 0) (m : Exec (World lib) A) (s : World lib)
      : Type 0 where
    pub result : A
    pub after : World lib
    pub ran : m s ≡ (ok result, after)
    pub holds : P result
    pub redis : after.redis ≡ s.redis
    pub mongo : after.mongo ≡ s.mongo

  -- every run is such a run
  abbrev pub IsQuiet : {A : Type 0} (P : A → Type 0) (m : Exec (World lib) A) → Type 0
  IsQuiet P m = (s : World lib) → Quiet P m s

  module _ {A : Type 0} where
    pub IsQuiet-pure : (P : A → Type 0) (a : A) → P a → IsQuiet P (pure a)
    IsQuiet-pure P a h s = record {
      result = a;
      after = s;
      ran = refl;
      holds = h;
      redis = refl;
      mongo = refl;
    }

    pub IsQuiet-gets : (f : World lib → A) → IsQuiet Any (gets f)
    IsQuiet-gets f s = record {
      result = f s;
      after = s;
      ran = refl;
      holds = tt;
      redis = refl;
      mongo = refl;
    }

    -- a value that an attempt on the boards reports is one that the action returned
    abbrev pub Reported : Exec (Manager lib.board) A → Result A → Type 0
    Reported m r = (a : A) → r ≡ value a → (b : Manager lib.board) × ((m b).0 ≡ ok a)

    pub Quiet-attempt_boards :
        (m : Exec (Manager lib.board) A) (s : World lib)
        → Returns (m s.boards).0
        → Quiet (Reported m) (attempt (on_boards lib m)) s
    Quiet-attempt_boards m s calm =
        let s' : World lib = record s { boards = (m s.boards).1 } in
        elim (Outcome-cases (m s.boards).0) [
          | inl (a, e) ↦ record {
            result = value a;
            after = s';
            ran = rw e;
            holds = λ a' same. (s.boards, ground (arith, same, e));
            redis = refl;
            mongo = refl;
          }
          | inr (inl (msg, e)) ↦ record {
            result = error msg;
            after = s';
            ran = rw e;
            holds = λ a' same. cc;
            redis = refl;
            mongo = refl;
          }
          | inr (inr (inl e)) ↦ absurd (calm.0 e)
          | inr (inr (inr (w, e))) ↦ absurd (calm.1 w e)
        ]

    pub IsQuiet-attempt_boards :
        (m : Exec (Manager lib.board) A)
        → ((b : Manager lib.board) → Returns (m b).0)
        → IsQuiet (Reported m) (attempt (on_boards lib m))
    IsQuiet-attempt_boards m calm s = Quiet-attempt_boards m s (calm s.boards)

    pub IsQuiet-net :
        (m : Exec lib.sockets.Net A) (a : A)
        → ((net : lib.sockets.Net) → (m net).0 ≡ ok a)
        → IsQuiet Any (on_net lib m)
    IsQuiet-net m a e s = record {
      result = a;
      after = record s { local = record s.local { net = (m s.local.net).1 } };
      ran = rw (e s.local.net);
      holds = tt;
      redis = refl;
      mongo = refl;
    }

    pub IsQuiet-local :
        (m : Exec (Hub lib.sockets) A) (a : A)
        → ((h : Hub lib.sockets) → (m h).0 ≡ ok a)
        → IsQuiet Any (on_local lib m)
    IsQuiet-local m a e s = record {
      result = a;
      after = record s { local = (m s.local).1 };
      ran = rw (e s.local);
      holds = tt;
      redis = refl;
      mongo = refl;
    }

  module _ {A B : Type 0} (P : A → Type 0) (Q : B → Type 0) where
    pub IsQuiet-bind :
        (m : Exec (World lib) A) (f : A → Exec (World lib) B)
        → IsQuiet P m
        → ((a : A) → P a → IsQuiet Q (f a))
        → IsQuiet Q (m >>= f)
    IsQuiet-bind m f hm hf s =
        let q = hm s in
        let r = hf q.result q.holds q.after in
        record {
          result = r.result;
          after = r.after;
          ran = bind_ran m f s q.ran ∙ r.ran;
          holds = r.holds;
          redis = r.redis ∙ q.redis;
          mongo = r.mongo ∙ q.mongo;
        }
