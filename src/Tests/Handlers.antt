-- ===== src/Tests/Handlers.antt =====
-- The theorems about the handlers and the connections at concrete inputs.
use challenge_service.Prelude.{
  arith, inr, List, String, ◌≡◌, ◌≢◌, ◌⊎◌, refl, true, none, some, [], ◌∷◌,
}
use challenge_service.Prelude.Int.{ℤ, pos}
use challenge_service.GoMap.{made, nil, lookup, find}
use challenge_service.Exec.{value, cut, exited}
use challenge_service.Model.{ChallengeDocument, challenge_abandon}
use challenge_service.Redis.View.{stored}
use challenge_service.Wss.Json.{text}
use challenge_service.Wss.Broadcast.{join_challenge, ping_server}
use challenge_service.Wss.Dispatcher.{WsContext}
use challenge_service.Wss.Handlers.{Codec, Gateway, Clock, WsMessageRequest, JoinChallengePayload}
use challenge_service.Wss.Handlers.Join.{authenticate, join_challenge_handler}
use challenge_service.Wss.Handlers.Join.Entering.{with_joined, Joined}
use challenge_service.Wss.Handlers.Join.Environment.{IsUnloaded}
use challenge_service.Wss.Handlers.Join.Checks.{
  Asks, LetsIn, Refused, join_challenge_handler_cases, join_challenge_handler-Joined,
}
use challenge_service.Wss.Handlers.Retrieve.{retreive_challenge}
use challenge_service.Wss.Handlers.Standings.{standings, get_leaderboard_handler}
use challenge_service.Wss.Handlers.ReadOnly.{Same}
use challenge_service.Wss.Handlers.Reading.{retreive_challenge-Same}
use challenge_service.Wss.Handlers.Answers.{Reads, IsLimit, get_leaderboard_handler_lem}
use challenge_service.Leaderboard.Ranking.{rank_users}
use challenge_service.World.{World}
use challenge_service.Wss.Json.{plain}
use challenge_service.Exec.{ok}
use challenge_service.Tests.Memory.{socket_laws}
use challenge_service.Wss.Server.{Arrival, cleanup_connection, ws_handler}
use challenge_service.Wss.Server.Cleanup.{Removed, cleanup_connection-Removed}
use challenge_service.Wss.Server.Session.{ws_handler-Removed}
use challenge_service.Tests.Memory.{libraries, redis_laws}
use challenge_service.Tests.Data.{world, duel, differ, table-IsKeyed}
use challenge_service.Tests.Messages.{jwt}

abbrev pub clock : Clock
clock = record {
  join_time = pos 200;
  last_connected = pos 201;
  announced = pos 202;
  token₁ = pos 203;
  token₂ = pos 204;
  token₃ = pos 205;
}

abbrev ping : WsMessageRequest
ping = record {
  message_type = ping_server;
  payload = made (("userId", text "bob") ∷ ("challengeId", text "c1") ∷ []);
}

abbrev asked : JoinChallengePayload
asked = record { user_id = ""; challenge_id = "c1"; password = ""; token = "eves" }

-- every text reads as the same values
abbrev pub codec : Codec
codec = record {
  marshal = λ m. value "raw";
  unmarshal_message = λ raw. value ping;
  unmarshal_join = λ raw. value asked;
  unmarshal_retrieve = λ raw. value (record { user_id = "bob"; challenge_id = "c1" });
  unmarshal_leaderboard =
      λ raw. value (record { user_id = "bob"; challenge_id = "c1"; limit = pos 0 });
  unmarshal_auth = λ raw. value (record { user_id = "eve" });
}

-- a gateway that knows every token as eve's
abbrev pub gateway : Gateway
gateway = record {
  Request = Unit;
  Response = Unit;
  load_dotenv = value tt;
  new_request = value tt;
  send = λ token req. value tt;
  decode = λ resp.
      value (record { success = true; status = pos 200; payload = made []; failure = none });
}

abbrev context : WsContext
context = record {
  conn = 9;
  payload = made [];
  user_id = "";
  event_type = join_challenge;
  claims = none;
}

asks : Asks codec gateway context asked "eve"
unfolding authenticate
asks = record { raw = "raw"; marshalled = refl; decoded = refl; known = refl }

held : stored libraries.redis redis_laws world.redis "c1" ≡ some duel
unfolding find
held = refl

lets_in : LetsIn asked duel
lets_in = record { going_on = differ "CHALLENGEOPEN" challenge_abandon refl; shown = λ private. cc }

full : duel.participants ≢ nil
full e = cc

join_challenge_handler-Joined_example :
    Joined jwt "key" libraries clock redis_laws "c1" "eve" 9
      (with_joined clock "10.0.0.3" "eve" duel)
      world
      (join_challenge_handler jwt "key" libraries clock codec gateway "10.0.0.3" context world)
join_challenge_handler-Joined_example =
    join_challenge_handler-Joined jwt "key" libraries clock redis_laws codec gateway "10.0.0.3"
      context asked "eve" duel world tt table-IsKeyed (λ e. cc) asks held lets_in full

join_challenge_handler_cases_example :
    Refused jwt "key" libraries clock redis_laws world
      (join_challenge_handler jwt "key" libraries clock codec gateway "10.0.0.3" context world)
    ⊎ (IsUnloaded gateway
        × (join_challenge_handler jwt "key" libraries clock codec gateway "10.0.0.3" context world
            ≡ (cut exited, world)))
    ⊎ ((p : JoinChallengePayload) × (user : String) × Asks codec gateway context p user
        × (d : ChallengeDocument) × (stored libraries.redis redis_laws world.redis p.challenge_id
            ≡ some d)
        × LetsIn p d)
join_challenge_handler_cases_example =
    join_challenge_handler_cases jwt "key" libraries clock redis_laws codec gateway "10.0.0.3"
      context world

cleanup_connection-Removed_example :
    Removed libraries redis_laws "bob" "c1" duel world
      (cleanup_connection libraries "bob" "c1" (pos 9) world)
cleanup_connection-Removed_example =
    cleanup_connection-Removed libraries redis_laws "bob" "c1" (pos 9) duel world
      (differ "bob" "" refl) (differ "c1" "" refl) tt table-IsKeyed held

abbrev arrival : Arrival
arrival = record { raw = "raw"; gateway = gateway; clock = clock }

ws_handler-Removed_example :
    Removed libraries redis_laws "bob" "c1" duel world
      (ws_handler libraries jwt "key" codec 9 "10.0.0.3" (pos 9) (arrival ∷ []) world)
unfolding lookup find
ws_handler-Removed_example =
    ws_handler-Removed libraries jwt "key" codec 9 "10.0.0.3" redis_laws (pos 9) arrival ping "bob"
      "c1" duel world refl refl refl refl (differ "bob" "" refl) (differ "c1" "" refl) tt
      table-IsKeyed held

retreive_challenge-Same_example :
    Same libraries redis_laws world (retreive_challenge libraries codec context world).1
retreive_challenge-Same_example = retreive_challenge-Same libraries redis_laws codec context world

-- the board of the challenge holds the scores of two users
abbrev ranked : World libraries
ranked = record world {
  boards = record world.boards {
    boards = made (("c1", "challenge_c1") ∷ []);
    ext = ("eve", pos 3) ∷ ("bob", pos 10) ∷ [];
  };
}

abbrev reads : Reads codec context (record { user_id = "bob"; challenge_id = "c1"; limit = pos 0 })
reads = record { raw = "raw"; marshalled = refl; decoded = refl }

no_limit : IsLimit (record { user_id = "bob"; challenge_id = "c1"; limit = pos 0 }) (pos 100)
no_limit = record { asked = λ h. absurd (omega (arith, h)); missing = λ e. refl }

get_leaderboard_handler_lem_example :
    let out = get_leaderboard_handler libraries codec context ranked in
    let users : List (String × ℤ) = ("eve", pos 3) ∷ ("bob", pos 10) ∷ [] in
    (out.0 ≡ ok tt)
    × (out.1.local.net ≡ (9, plain (standings "c1" (rank_users (pos 100) (some duel) users))) ∷ [])
unfolding lookup find
get_leaderboard_handler_lem_example =
    get_leaderboard_handler_lem libraries redis_laws socket_laws codec context
      (record { user_id = "bob"; challenge_id = "c1"; limit = pos 0 }) duel ranked (pos 100)
      "challenge_c1" (("eve", pos 3) ∷ ("bob", pos 10) ∷ []) tt tt reads (differ "c1" "" refl) held
      (inr (λ e. cc)) no_limit refl refl
