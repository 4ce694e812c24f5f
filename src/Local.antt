-- ===== src/Local.antt =====
-- internal/local/local.go: the sessions, the connections and the event channel of each challenge in
-- this process, together with the sockets that they write to. The locks make each method one step.
-- The constructor allocates all maps. A channel is its buffer, of 100 events.
pub mod Clients
pub mod Events
use challenge_service.Prelude.{
  ℕ, String, Bool, true, false, Option, none, some, List, [], ◌∷◌, ◌++◌, map, ltb, length,
  if◌then◌else◌,
}
use challenge_service.GoMap.{GoMap, made, entries, lookup, insert, delete}
use challenge_service.Exec.{Exec, pure, call, attempt, zoom, modify, ◌>>=◌, ◌>>◌}
use challenge_service.Model.{Session}
use challenge_service.Wss.Json.{Event}
use challenge_service.Wss.Socket.{Sockets}

pub record ChallengeLocalState : Type 0 where
  pub sessions : GoMap Session
  pub ws_clients : GoMap ℕ
  pub event_chan : List Event

abbrev pub event_capacity : ℕ
event_capacity = 100

abbrev pub empty_state : ChallengeLocalState
empty_state = record { sessions = made []; ws_clients = made []; event_chan = [] }

-- the map `challengeStates`
abbrev pub States : Type 0
States = GoMap ChallengeLocalState

abbrev pub state_or_new : Option ChallengeLocalState → ChallengeLocalState
state_or_new none = empty_state
state_or_new (some s) = s

-- `GetChallengeState`: the state, which now stands in the map
unfoldable pub get_challenge_state : String → States → ChallengeLocalState × States
get_challenge_state id lsm =
    let state = state_or_new (lookup id lsm) in
    (state, elim (lookup id lsm) [ none ↦ insert id state lsm | some _ ↦ lsm ])

-- a change through the pointer that `GetChallengeState` returns
unfoldable pub update_state : String → (ChallengeLocalState → ChallengeLocalState) → States → States
unfolding get_challenge_state
update_state id f lsm = let (state, lsm') = get_challenge_state id lsm in insert id (f state) lsm'

-- a change of a state that is there; otherwise the method returns
unfoldable pub update_existing :
    String → (ChallengeLocalState → ChallengeLocalState) → States → States
update_existing id f lsm = elim (lookup id lsm) [
  | none ↦ lsm
  | some state ↦ insert id (f state) lsm
]

unfoldable pub add_session : String → Session → States → States
unfolding update_state
add_session id session =
    update_state id (λ s. record s { sessions = insert session.user_id session s.sessions })

unfoldable pub remove_session : String → String → States → States
unfolding update_existing
remove_session id user = update_existing id (λ s. record s { sessions = delete user s.sessions })

unfoldable pub get_session : String → String → States → Option Session
get_session id user lsm = elim (lookup id lsm) [ none ↦ none | some s ↦ lookup user s.sessions ]

unfoldable pub add_ws_client : String → String → ℕ → States → States
unfolding update_state
add_ws_client id user conn =
    update_state id (λ s. record s { ws_clients = insert user conn s.ws_clients })

unfoldable pub get_ws_client : String → String → States → Option ℕ
get_ws_client id user lsm = elim (lookup id lsm) [ none ↦ none | some s ↦ lookup user s.ws_clients ]

-- a copy, so that it can be read outside the lock
unfoldable pub get_all_ws_clients : String → States → GoMap ℕ
get_all_ws_clients id lsm = elim (lookup id lsm) [
  | none ↦ made []
  | some s ↦ made (entries s.ws_clients)
]

-- The `select` with a `default`. Go sends on a buffered channel that nobody receives from exactly if it
-- holds fewer events than its capacity; otherwise the default is taken, and the event is dropped.
abbrev pub offer : Event → List Event → List Event
offer e q = if ltb (length q) event_capacity then q ++ e ∷ [] else q

unfoldable pub send_event : String → Event → States → States
unfolding update_state
send_event id e = update_state id (λ s. record s { event_chan = offer e s.event_chan })

-- the channel, as its buffer; the state of the challenge now stands in the map
unfoldable pub get_event_channel : String → States → List Event × States
unfolding get_challenge_state
get_event_channel id lsm =
    let (state, lsm') = get_challenge_state id lsm in (state.event_chan, lsm')

unfoldable pub get_all_challenge_ids : States → List String
get_all_challenge_ids lsm = map (λ e. e.0) (entries lsm)

module _ (w : Sockets) where
  -- the local state and the sockets
  pub record Hub : Type 0 where
    pub states : States
    pub net : w.Net

  abbrev pub on_net : Exec w.Net Unit → Exec Hub Unit
  on_net = zoom (λ h. h.net) (λ n h. record h { net = n })

  -- `conn.Close()`, whose error is dropped
  abbrev pub close_conn : ℕ → Exec Hub Unit
  close_conn conn = do _ ← attempt (on_net (call (w.close conn))); pure tt

  unfoldable pub remove_ws_client : String → String → Exec Hub Unit
  remove_ws_client id user h = elim (get_ws_client id user h.states) [
    | none ↦ pure tt h
    | some conn ↦
        (do
          close_conn conn
          modify
              (λ k. record k {
                states =
                    update_existing id (λ s. record s { ws_clients = delete user s.ws_clients })
                      k.states;
              })
              tt)
          h
  ]

  unfoldable pub close_all : List (String × ℕ) → Exec Hub Unit
  close_all [] = pure tt
  close_all ((_, conn) ∷ l) = do close_conn conn; close_all l

  unfoldable pub cleanup_challenge : String → Exec Hub Unit
  unfolding close_all
  cleanup_challenge id h = elim (lookup id h.states) [
    | none ↦ pure tt h
    | some s ↦
        (do
          close_all (entries s.ws_clients)
          modify (λ k. record k { states = delete id k.states }) tt)
          h
  ]
