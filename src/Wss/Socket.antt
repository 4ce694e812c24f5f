-- ===== src/Wss/Socket.antt =====
-- What the service uses of github.com/gorilla/websocket: a parameter. A connection is known by the
-- identity of its pointer. `Laws` says what a successful write does.
use challenge_service.Prelude.{ℕ, ◌≡◌, List, [], ◌∷◌, ◌++◌}
use challenge_service.Exec.{Result, value}
use challenge_service.Wss.Json.{Message}

pub record Sockets : Type 1 where
  pub Net : Type 0
  -- `conn.WriteJSON(message)` and `conn.Close()`
  pub write_json : ℕ → Message → Net → Result (Unit {0}) × Net
  pub close : ℕ → Net → Result (Unit {0}) × Net

-- What the peers have been sent, and the connections that the service closed. `Open` says that a
-- write to the connection gets through.
pub record Laws (w : Sockets) : Type 1 where
  pub sent : w.Net → List (ℕ × Message)
  pub Open : ℕ → w.Net → Type 0
  pub write_json_open :
      (conn : ℕ) (m : Message) (net : w.Net)
      → Open conn net
      → ((w.write_json conn m net).0 ≡ value tt)
        × (sent (w.write_json conn m net).1 ≡ sent net ++ (conn, m) ∷ [])
  pub write_json-Open :
      (conn j : ℕ) (m : Message) (net : w.Net) → Open j net → Open j (w.write_json conn m net).1
  pub sent-close : (conn : ℕ) (net : w.Net) → sent (w.close conn net).1 ≡ sent net
