-- ===== src/Local/Clients.antt =====
-- What can be read of the local state after a method changed it.
use challenge_service.Prelude.{
  ℕ, String, ◌≡◌, refl, Option, none, some, Option-cases, inl, inr, [], arith, eq_iff, ◌==◌,
  if◌then◌else◌, ◌&&◌,
}
use challenge_service.GoMap.{
  GoMap, entries, made, lookup, insert, delete, lookup-insert, lookup-delete,
}
use challenge_service.Exec.{ok}
use challenge_service.Exec.Laws.{Result-cases}
use challenge_service.Wss.Socket.{Sockets}
use challenge_service.Local.{
  ChallengeLocalState, empty_state, States, Hub, state_or_new, update_state, update_existing,
  add_ws_client, get_ws_client, get_all_ws_clients, remove_ws_client,
}

lookup-made : (v : String) → lookup v (let m : GoMap ℕ = made [] in m) ≡ none
unfolding lookup
lookup-made v = refl

lookup-entries : (v : String) (m : GoMap ℕ) → lookup v (made (entries m)) ≡ lookup v m
unfolding lookup
lookup-entries v m = refl

pub lookup-update_state :
    (id : String) (f : ChallengeLocalState → ChallengeLocalState) (lsm : States) (j : String)
    → lookup j (update_state id f lsm)
      ≡ (if id == j then some (f (state_or_new (lookup id lsm))) else lookup j lsm)
unfolding update_state
lookup-update_state id f lsm j = ground (
  arith,
  lookup-insert id j (f (state_or_new (lookup id lsm))) (insert id empty_state lsm),
  lookup-insert id j (f (state_or_new (lookup id lsm))) lsm,
  lookup-insert id j empty_state lsm,
)

abbrev pub mapped :
    (ChallengeLocalState → ChallengeLocalState)
    → Option ChallengeLocalState
    → Option ChallengeLocalState
mapped f none = none
mapped f (some s) = some (f s)

pub lookup-update_existing :
    (id : String) (f : ChallengeLocalState → ChallengeLocalState) (lsm : States) (j : String)
    → lookup j (update_existing id f lsm)
      ≡ (if id == j then mapped f (lookup id lsm) else lookup j lsm)
unfolding update_existing
lookup-update_existing id f lsm j = elim (Option-cases (lookup id lsm)) [
  | inl e ↦ ground (arith, e, eq_iff id j)
  | inr (s, e) ↦ ground (arith, e, lookup-insert id j (f s) lsm)
]

-- the change that `AddWSClient` and `RemoveWSClient` make to one state
abbrev with_client : String → ℕ → ChallengeLocalState → ChallengeLocalState
with_client user conn s = record s { ws_clients = insert user conn s.ws_clients }

abbrev without_client : String → ChallengeLocalState → ChallengeLocalState
without_client user s = record s { ws_clients = delete user s.ws_clients }

add_ws_client-update :
    (id user : String) (conn : ℕ) (lsm : States)
    → add_ws_client id user conn lsm ≡ update_state id (with_client user conn) lsm
unfolding add_ws_client
add_ws_client-update id user conn lsm = refl

-- After `AddWSClient` the user's connection is the one that was added, and the connection of every
-- other user, and of every user of another challenge, is what it was.
pub get_ws_client-add :
    (id user : String) (conn : ℕ) (lsm : States) (j v : String)
    → get_ws_client j v (add_ws_client id user conn lsm)
      ≡ (if id == j && user == v then some conn else get_ws_client j v lsm)
unfolding get_ws_client
get_ws_client-add id user conn lsm j v = ground (
  arith,
  add_ws_client-update id user conn lsm,
  lookup-update_state id (with_client user conn) lsm j,
  lookup-insert user v conn (state_or_new (lookup id lsm)).ws_clients,
  lookup-made v,
  eq_iff id j,
)

get_ws_client-without :
    (id user : String) (lsm : States) (j v : String)
    → get_ws_client j v (update_existing id (without_client user) lsm)
      ≡ (if id == j && user == v then none else get_ws_client j v lsm)
unfolding get_ws_client
get_ws_client-without id user lsm j v = ground (
  arith,
  lookup-update_existing id (without_client user) lsm j,
  lookup-delete user v (state_or_new (lookup id lsm)).ws_clients,
  eq_iff id j,
)

-- After `RemoveWSClient` the user has no connection in the challenge, whether its socket could be
-- closed or not; every other connection is what it was; and the method does not panic.
pub get_ws_client-remove :
    (w : Sockets) (id user : String) (h : Hub w) (j v : String)
    → (get_ws_client j v (remove_ws_client w id user h).1.states
        ≡ (if id == j && user == v then none else get_ws_client j v h.states))
      × ((remove_ws_client w id user h).0 ≡ ok tt)
unfolding remove_ws_client
get_ws_client-remove w id user h j v = elim (Option-cases (get_ws_client id user h.states)) [
  | inl gone ↦ (ground (arith, gone, eq_iff id j, eq_iff user v), ground (arith, gone))
  | inr (conn, here) ↦ elim (Result-cases (w.close conn h.net).0) [
    | inl (_, closed) ↦ (
      ground (arith, here, closed, get_ws_client-without id user h.states j v),
      ground (arith, here, closed),
    )
    | inr (e, failed) ↦ (
      ground (arith, here, failed, get_ws_client-without id user h.states j v),
      ground (arith, here, failed),
    )
  ]
]

-- The copy that `GetAllWSClients` returns holds exactly the connections of the challenge.
pub lookup-get_all_ws_clients :
    (id user : String) (lsm : States)
    → lookup user (get_all_ws_clients id lsm) ≡ get_ws_client id user lsm
unfolding get_all_ws_clients get_ws_client
lookup-get_all_ws_clients id user lsm = elim (Option-cases (lookup id lsm)) [
  | inl e ↦ ground (arith, e, lookup-made user)
  | inr (s, e) ↦ ground (arith, e, lookup-entries user s.ws_clients)
]
