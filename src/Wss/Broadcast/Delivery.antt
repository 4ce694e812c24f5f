-- ===== src/Wss/Broadcast/Delivery.antt =====
-- Whom a broadcast of internal/wss/broadcasts/broadcast.go reaches.
use challenge_service.Prelude.{
  ℕ, String, ◌≡◌, refl, sym, Bool, Option, List, [], ◌∷◌, ◌++◌, map, All, All-map, arith,
}
use mathlib.Core.List.{append_assoc, append-nil}
use challenge_service.GoMap.{GoMap, entries}
use challenge_service.Exec.{ok}
use challenge_service.Wss.Json.{Json, Message}
use challenge_service.Wss.Socket.{Sockets, Laws}
use challenge_service.Wss.Broadcast.{
  send_json, broadcast_to, broadcast_standard_message, standard_message,
}

module _ (w : Sockets) (law : Laws w) where
  abbrev pub AllOpen : List (String × ℕ) → w.Net → Type 0
  AllOpen clients net = All (λ e. law.Open e.1 net) clients

  -- what the peers are sent
  abbrev pub copies : Message → List (String × ℕ) → List (ℕ × Message)
  copies m = map (λ e. (e.1, m))

  pub broadcast_to_open :
      (m : Message) (clients : List (String × ℕ)) (net : w.Net)
      → AllOpen clients net
      → ((broadcast_to w m clients net).0 ≡ ok tt)
        × (law.sent (broadcast_to w m clients net).1 ≡ law.sent net ++ copies m clients)
  unfolding broadcast_to send_json
  broadcast_to_open m [] net h = (refl, sym (append-nil _))
  broadcast_to_open m ((user, conn) ∷ clients) net (open', rest) =
      let net' = (w.write_json conn m net).1 in
      let (wrote, sent') = law.write_json_open conn m net open' in
      let still =
        All-map (λ e. law.Open e.1 net) (λ e. law.Open e.1 net')
          (λ e. law.write_json-Open conn e.1 m net) clients rest in
      let (done, all) = broadcast_to_open m clients net' still in
      (
        ground (arith, wrote, done),
        ground (
          arith,
          wrote,
          all,
          sent',
          append_assoc (law.sent net) ((conn, m) ∷ []) (copies m clients),
        ),
      )

  -- If a write to each client of a challenge gets through, a broadcast succeeds, and every client is
  -- sent the message once, in the order of the map.
  pub broadcast_standard_message_lem :
      (clients : GoMap ℕ) (kind : String) (payload : Json) (success : Bool)
      (message : Option String) (net : w.Net)
      → AllOpen (entries clients) net
      → ((broadcast_standard_message w clients kind payload success message net).0 ≡ ok tt)
        × (law.sent (broadcast_standard_message w clients kind payload success message net).1
            ≡ law.sent net
              ++ copies (standard_message kind payload success message) (entries clients))
  unfolding broadcast_standard_message
  broadcast_standard_message_lem clients kind payload success message net h =
      broadcast_to_open (standard_message kind payload success message) (entries clients) net h
