-- ===== src/System/Refinement.antt =====
-- `answer` and `serve_all` against the specification in Spec.
use challenge_service.Prelude.{Bool-cases, inl, inr, String, refl, List, [], ◌∷◌, map}
use challenge_service.Exec.{Cut, Exec, pure}
use challenge_service.Jwt.{JwtLibrary}
use challenge_service.RedisClient
use challenge_service.World.{Libraries, World}
use challenge_service.Wss.Handlers.{Codec}
use challenge_service.Wss.Handlers.Join.Environment.{Unloaded}
use challenge_service.System.Safety.{
  Anything, Safe, Safe-pure, Safe-bind, Ends, Ends-Safe, Ends-then, Ends-state,
}
use challenge_service.System.Documents.{View}
use challenge_service.System.Spec.{stays, Author, Runs, done, then}
use challenge_service.System.Invariant.{Holds, Safe-local}
use challenge_service.System.Submissions.{push_submission_status-Safe}
use challenge_service.System.Queries.{
  leave_challenge-Safe, get_full_challenge_data-Safe, get_challenge_history-Safe,
  get_active_open_challenges-Ends, Refusing, get_owners_active_challenges-Safe,
}
use challenge_service.System.Connections.{message-Ends, cleanup_connection-Safe, close_conn-Safe}
use challenge_service.System.Moves.{Moves, Moves-Keeps, Moves-pure, Moves-then}
use challenge_service.System.Conclusions.{end_challenge-Moves}
use challenge_service.System.Abandonment.{abandon_challenge-Moves}
use challenge_service.System.Creation.{create_challenge-Moves}
use challenge_service.System.Requests.{
  Request, creates, leaves, ends, abandons, submits, reads_challenge, reads_history, lists_open,
  lists_owned, sends, hangs_up, author, answered, answer, goes_on, serve_all,
}

-- a request that opens and closes nothing
abbrev pub IsOrdinary : Request → Type 0
IsOrdinary (creates _ _ _ _) = ⊥
IsOrdinary (ends _ _) = ⊥
IsOrdinary (abandons _ _ _) = ⊥
IsOrdinary _ = Unit

-- no reason at all
abbrev pub Never : Cut → Type 0
Never c = ⊥

-- Why a request that opens and closes nothing may not come back: the environment cannot be loaded at
-- a request to join, or the pool does not run every task of a listing.
abbrev pub Reason : Request → Cut → Type 0
Reason (sends conn ip gateway now m) c = Unloaded gateway c
Reason (lists_open arrival) c = Refusing arrival c
Reason _ c = Never c

-- nothing changes
idle : {v : View} (rest : List Author) → Runs rest v v
idle [] = done
idle (by ∷ rest) = then stays (idle rest)

module _ (lib : Libraries) (rlaw : RedisClient.Laws lib.redis) (jwt : JwtLibrary) (secret : String)
    (codec : Codec) where
  answered-Ends :
      {A : Type 0} (E : Cut → Type 0) (v : View) (m : Exec (World lib) A)
      → Ends (Holds lib rlaw v) E m
      → Ends (Holds lib rlaw v) E (answered m)
  answered-Ends E v m h =
      let I = Holds lib rlaw v in
      Ends-then I E m (λ _. pure tt) h (λ a. Ends-Safe I E _ (Safe-pure I Anything tt tt))

  answered-Safe :
      {A : Type 0} (E : Cut → Type 0) (v : View) (m : Exec (World lib) A)
      → Safe (Holds lib rlaw v) Anything m
      → Ends (Holds lib rlaw v) E (answered m)
  answered-Safe E v m h = answered-Ends E v m (Ends-Safe (Holds lib rlaw v) E m h)

  pub ordinary-Ends :
      (v : View) (r : Request)
      → IsOrdinary r
      → Ends (Holds lib rlaw v) (Reason r) (answer lib jwt secret codec r)
  unfolding answer
  ordinary-Ends v (leaves challenge user) o s h =
      answered-Safe Never v _ (leave_challenge-Safe lib rlaw v challenge user) s h
  ordinary-Ends v (submits req now) o s h =
      answered-Safe Never v _ (push_submission_status-Safe lib rlaw v req now) s h
  ordinary-Ends v (reads_challenge id) o s h =
      answered-Safe Never v _ (get_full_challenge_data-Safe lib rlaw v id) s h
  ordinary-Ends v (reads_history user page size is_private) o s h =
      answered-Safe Never v _ (get_challenge_history-Safe lib rlaw v user page size is_private) s h
  ordinary-Ends v (lists_open arrival) o s h =
      answered-Ends (Refusing arrival) v _ (get_active_open_challenges-Ends lib rlaw v arrival) s h
  ordinary-Ends v (lists_owned user) o s h =
      answered-Safe Never v _ (get_owners_active_challenges-Safe lib rlaw v user) s h
  ordinary-Ends v (sends conn ip gateway now m) o s h =
      message-Ends lib rlaw v jwt secret codec conn ip gateway now m.message_type _ s h
  ordinary-Ends v (hangs_up conn user challenge now) o s h = inl (
      Safe-bind (Holds lib rlaw v) Anything Anything _ _
        (cleanup_connection-Safe lib rlaw v user challenge now)
        (λ u _. Safe-local lib rlaw v _ (close_conn-Safe lib.sockets conn)) s h)
  ordinary-Ends v (creates a b c d) o s h = absurd o
  ordinary-Ends v (ends a b) o s h = absurd o
  ordinary-Ends v (abandons a b c) o s h = absurd o

  answered-Moves :
      {A : Type 0} (by : Author) (v : View) (m : Exec (World lib) A)
      → Moves lib rlaw by v m
      → Moves lib rlaw by v (answered m)
  answered-Moves by v m h =
      Moves-then lib rlaw by v m (λ _. pure tt) h (λ w a. Moves-pure lib rlaw by w tt)

  ordinary-Moves :
      (v : View) (r : Request)
      → IsOrdinary r
      → Moves lib rlaw (author r) v (answer lib jwt secret codec r)
  ordinary-Moves v r o = Moves-Keeps lib rlaw (author r) v (answer lib jwt secret codec r) (
      Ends-state (Holds lib rlaw v) (Reason r) (answer lib jwt secret codec r)
        (ordinary-Ends v r o))

  pub answer-Moves :
      (v : View) (r : Request) → Moves lib rlaw (author r) v (answer lib jwt secret codec r)
  unfolding answer author
  answer-Moves v (creates arrival req now random) =
      answered-Moves _ v _ (create_challenge-Moves lib rlaw _ v arrival req now random refl refl)
  answer-Moves v (ends challenge user) = end_challenge-Moves lib rlaw _ v challenge
  answer-Moves v (abandons challenge user now) =
      answered-Moves _ v _ (abandon_challenge-Moves lib rlaw _ v challenge now)
  answer-Moves v r = ordinary-Moves v r tt

  -- The service refines the specification: where the invariant holds and the challenges look like
  -- `v`, any sequence of requests, whatever they hold and whatever call of a library fails, also
  -- where the code panics, changes what the challenges are only by the steps that the specification
  -- lets the authors of these requests take, in their order, and the invariant holds again, also if
  -- one of the requests has ended the process.
  pub serve_all-Runs :
      (rs : List Request) (v : View) (s : World lib)
      → Holds lib rlaw v s
      → (w : View) × (Runs (map author rs) v w)
        × Holds lib rlaw w (serve_all lib jwt secret codec rs s)
  unfolding serve_all
  serve_all-Runs [] v s h = (v, done, h)
  serve_all-Runs (r ∷ rs) v s h =
      let step = answer-Moves v r s h in
      let (w, runs, held) =
        serve_all-Runs rs step.view (answer lib jwt secret codec r s).1 step.holds in
      elim (Bool-cases (goes_on lib jwt secret codec r (answer lib jwt secret codec r s).0)) [
        | inl on ↦ rw on (w, then step.evolved runs, held)
        | inr off ↦ rw off (step.view, then step.evolved (idle (map author rs)), step.holds)
      ]
