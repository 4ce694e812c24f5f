-- ===== src/Wss/Broadcast/Total.antt =====
-- A broadcast always succeeds: the error of a write to a client is dropped.
use challenge_service.Prelude.{ℕ, String, ◌≡◌, refl, Bool, List, [], ◌∷◌, arith, inl, inr}
use challenge_service.Prelude.Int.{ℤ}
use challenge_service.GoMap.{GoMap, entries}
use challenge_service.Exec.{ok}
use challenge_service.Exec.Laws.{Result-cases}
use challenge_service.Model.{LeaderboardEntry}
use challenge_service.Wss.Json.{Message}
use challenge_service.Wss.Socket.{Sockets}
use challenge_service.Wss.Broadcast.{
  send_json, broadcast_to, broadcast_standard_message, broadcast_entity_joined,
  broadcast_entity_left, broadcast_challenge_abandon, broadcast_new_submission,
  broadcast_leaderboard_update,
}

module _ (w : Sockets) where
  broadcast_to_ok :
      (m : Message) (clients : List (String × ℕ)) (net : w.Net)
      → (broadcast_to w m clients net).0 ≡ ok tt
  unfolding broadcast_to send_json
  broadcast_to_ok m [] net = refl
  broadcast_to_ok m ((_, conn) ∷ clients) net =
      let (r, net') = w.write_json conn m net in
      elim (Result-cases r) [
        | inl (done, e) ↦ ground (arith, e, broadcast_to_ok m clients net')
        | inr (msg, e) ↦ ground (arith, e, broadcast_to_ok m clients net')
      ]

  module _ (clients : GoMap ℕ) (challenge user : String) (now : ℤ) (net : w.Net) where
    pub broadcast_entity_joined_ok :
        (is_owner : Bool)
        → (broadcast_entity_joined w clients user challenge is_owner now net).0 ≡ ok tt
    unfolding broadcast_entity_joined broadcast_standard_message
    broadcast_entity_joined_ok is_owner = broadcast_to_ok _ (entries clients) net

    pub broadcast_entity_left_ok :
        (is_owner : Bool)
        → (broadcast_entity_left w clients user challenge is_owner now net).0 ≡ ok tt
    unfolding broadcast_entity_left broadcast_standard_message
    broadcast_entity_left_ok is_owner = broadcast_to_ok _ (entries clients) net

    pub broadcast_challenge_abandon_ok :
        (broadcast_challenge_abandon w clients challenge user now net).0 ≡ ok tt
    unfolding broadcast_challenge_abandon broadcast_standard_message
    broadcast_challenge_abandon_ok = broadcast_to_ok _ (entries clients) net

    pub broadcast_new_submission_ok :
        (problem : String) (score rank : ℤ)
        → (broadcast_new_submission w clients challenge user problem score rank now net).0 ≡ ok tt
    unfolding broadcast_new_submission broadcast_standard_message
    broadcast_new_submission_ok problem score rank = broadcast_to_ok _ (entries clients) net

    pub broadcast_leaderboard_update_ok :
        (l : List LeaderboardEntry)
        → (broadcast_leaderboard_update w clients challenge l user now net).0 ≡ ok tt
    unfolding broadcast_leaderboard_update broadcast_standard_message
    broadcast_leaderboard_update_ok l = broadcast_to_ok _ (entries clients) net
