-- ===== src/System/Requests.antt =====
-- Everything that a client can ask of the service, one request at a time: the methods of the gRPC
-- service in internal/service/challenge.go, one message on a WebSocket (the body of the loop in
-- internal/wss/server.go) and the end of one. What is answered is dropped, but for an error or a
-- panic.
use challenge_service.Prelude.{
  true, false, if◌then◌else◌, ℕ, String, Bool, none, some, List, [], ◌∷◌,
}
use challenge_service.Prelude.Int.{ℤ}
use challenge_service.Exec.{
  Outcome, ok, err, panic, cut, exited, blocked, Exec, Result, pure, ◌>>=◌, ◌>>◌,
}
use challenge_service.Jwt.{JwtLibrary}
use challenge_service.World.{Libraries, World, on_local}
use challenge_service.Local.{close_conn}
use challenge_service.Service.Proto.{ChallengeRecord}
use challenge_service.Service.Lifecycle.{
  create_challenge, leave_challenge, end_challenge, abandon_challenge,
}
use challenge_service.Service.Submit.{SubmissionRequest, push_submission_status}
use challenge_service.Service.Queries.{
  get_full_challenge_data, get_challenge_history, get_active_open_challenges,
  get_owners_active_challenges,
}
use challenge_service.Wss.Dispatcher.{dispatch}
use challenge_service.Wss.Handlers.{Codec, Gateway, Clock, WsMessageRequest}
use challenge_service.Wss.Server.{main_dispatcher, context_of, cleanup_connection}
use challenge_service.System.Spec.{Author}

-- A creation comes with the order in which the goroutines answer, the clock and the random bytes; a
-- message with the connection, the address of the peer, the gateway and the clock.
pub data Request : Type 1 where
  creates : (List String → List String) → ChallengeRecord → ℤ → Result (List ℕ) → Request
  leaves : (challenge user : String) → Request
  ends : (challenge user : String) → Request
  abandons : (challenge user : String) → ℤ → Request
  submits : SubmissionRequest → ℤ → Request
  reads_challenge : String → Request
  reads_history : String → ℤ → ℤ → Bool → Request
  lists_open : (List String → List String) → Request
  lists_owned : String → Request
  sends : ℕ → String → Gateway → Clock → WsMessageRequest → Request
  hangs_up : ℕ → (user challenge : String) → ℤ → Request

-- Who asks to create, end or abandon, and for which identifier. Another request opens and closes
-- nothing, in whosever name it is sent.
unfoldable pub author : Request → Author
author (creates arrival req now random) = record {
  user = req.creator_id;
  opening = some req.challenge_id;
}
author (ends challenge user) = record { user = user; opening = none }
author (abandons challenge user now) = record { user = user; opening = none }
author _ = record { user = ""; opening = none }

module _ {S A : Type 0} where
  abbrev pub answered : Exec S A → Exec S Unit
  answered m = do _ ← m; pure tt

module _ (lib : Libraries) (jwt : JwtLibrary) (secret : String) (codec : Codec) where
  unfoldable pub answer : Request → Exec (World lib) Unit
  answer (creates arrival req now random) = answered (create_challenge lib arrival req now random)
  answer (leaves challenge user) = answered (leave_challenge lib challenge user)
  answer (ends challenge user) = end_challenge lib challenge user
  answer (abandons challenge user now) = answered (abandon_challenge lib challenge user now)
  answer (submits req now) = answered (push_submission_status lib req now)
  answer (reads_challenge id) = answered (get_full_challenge_data lib id)
  answer (reads_history user page size is_private) =
      answered (get_challenge_history lib user page size is_private)
  answer (lists_open arrival) = answered (get_active_open_challenges lib arrival)
  answer (lists_owned user) = answered (get_owners_active_challenges lib user)
  answer (sends conn ip gateway now m) =
      dispatch (World lib) (main_dispatcher lib jwt secret codec conn ip gateway now) m.message_type
        (context_of lib jwt secret codec conn ip m)
  answer (hangs_up conn user challenge now) = do
    cleanup_connection lib user challenge now
    on_local lib (close_conn lib.sockets conn)

  -- The process goes on after a request, unless it was ended, or a method of the gRPC service
  -- panicked: `grpc.NewServer()` recovers no panic. `net/http` recovers one of a connection.
  unfoldable pub goes_on : Request → Outcome (Unit {0}) → Bool
  goes_on _ (ok _) = true
  goes_on _ (err _) = true
  goes_on (sends _ _ _ _ _) panic = true
  goes_on (hangs_up _ _ _ _) panic = true
  goes_on _ panic = false
  goes_on _ (cut exited) = false
  goes_on _ (cut blocked) = true

  -- the state after a sequence of requests, or at the end of the process, if that is before
  unfoldable pub serve_all : List Request → World lib → World lib
  unfolding answer goes_on
  serve_all [] s = s
  serve_all (r ∷ rs) s =
      let (out, after) = answer r s in
      let rest = serve_all rs after in if goes_on r out then rest else after

  -- the process is still there after a sequence of requests
  unfoldable pub is_up : List Request → World lib → Bool
  unfolding answer goes_on
  is_up [] s = true
  is_up (r ∷ rs) s =
      let (out, after) = answer r s in
      let rest = is_up rs after in if goes_on r out then rest else false
