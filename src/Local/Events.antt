-- ===== src/Local/Events.antt =====
-- The event channels of the local state: each method keeps them within their capacity.
use challenge_service.Prelude.{
  ℕ, ◌≤◌, String, ◌≡◌, some, Option-cases, inl, inr, List, [], ◌∷◌, arith, length, length-append,
}
use challenge_service.GoMap.{made, lookup, insert, delete}
use challenge_service.Model.{Session}
use challenge_service.Wss.Json.{Event}
use challenge_service.Local.{
  ChallengeLocalState, States, event_capacity, offer, state_or_new, update_state, update_existing,
  add_session, remove_session, add_ws_client, send_event,
}
use challenge_service.Local.Clients.{lookup-update_state, lookup-update_existing}

-- No event channel holds more than its capacity.
abbrev pub IsBounded : States → Type 0
IsBounded lsm =
    (id : String) (s : ChallengeLocalState)
    → lookup id lsm ≡ some s
    → length s.event_chan ≤ event_capacity

length-offer-le :
    (e : Event) (q : List Event) → length q ≤ event_capacity → length (offer e q) ≤ event_capacity
length-offer-le e q h = ground (arith, length-append q (e ∷ []))

state_or_new-bounded :
    (id : String) (lsm : States)
    → IsBounded lsm
    → length (state_or_new (lookup id lsm)).event_chan ≤ event_capacity
state_or_new-bounded id lsm h = elim (Option-cases (lookup id lsm)) [
  | inl e ↦ rw e (omega arith)
  | inr (s, e) ↦ rw e (h id s e)
]

module _ (id : String) (f : ChallengeLocalState → ChallengeLocalState)
    (fits : (s : ChallengeLocalState)
      → length s.event_chan ≤ event_capacity
      → length (f s).event_chan ≤ event_capacity)
    (lsm : States) (bounded : IsBounded lsm) where
  update_state-IsBounded : IsBounded (update_state id f lsm)
  update_state-IsBounded j s h = ground (
    arith,
    h,
    lookup-update_state id f lsm j,
    fits (state_or_new (lookup id lsm)) (state_or_new-bounded id lsm bounded),
    bounded j s,
  )

  pub update_existing-IsBounded : IsBounded (update_existing id f lsm)
  update_existing-IsBounded j s h = elim (Option-cases (lookup id lsm)) [
    | inl e ↦ ground (arith, h, e, lookup-update_existing id f lsm j, bounded j s)
    | inr (t, e) ↦
        ground
          (arith, h, e, lookup-update_existing id f lsm j, bounded j s, fits t (bounded id t e))
  ]

-- The methods that change the local state of this process without closing a connection.
pub data Call : Type 0 where
  adds_session : String → Session → Call
  removes_session : String → String → Call
  adds_client : String → String → ℕ → Call
  sends_event : String → Event → Call

unfoldable pub step : Call → States → States
step (adds_session id s) = add_session id s
step (removes_session id user) = remove_session id user
step (adds_client id user conn) = add_ws_client id user conn
step (sends_event id e) = send_event id e

pub step-IsBounded : (c : Call) (lsm : States) → IsBounded lsm → IsBounded (step c lsm)
unfolding step add_session remove_session add_ws_client send_event
step-IsBounded (adds_session id s) lsm h =
    update_state-IsBounded id (λ t. record t { sessions = insert s.user_id s t.sessions })
      (λ t ht. ht) lsm h
step-IsBounded (removes_session id user) lsm h =
    update_existing-IsBounded id (λ t. record t { sessions = delete user t.sessions }) (λ t ht. ht)
      lsm h
step-IsBounded (adds_client id user conn) lsm h =
    update_state-IsBounded id (λ t. record t { ws_clients = insert user conn t.ws_clients })
      (λ t ht. ht) lsm h
step-IsBounded (sends_event id e) lsm h =
    update_state-IsBounded id (λ t. record t { event_chan = offer e t.event_chan })
      (λ t ht. length-offer-le e t.event_chan ht) lsm h

pub empty-IsBounded : IsBounded (made [])
unfolding lookup
empty-IsBounded id s h = cc
