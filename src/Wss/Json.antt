-- ===== src/Wss/Json.antt =====
-- The JSON values that the service sends and receives, internal/wss/types/types.go and
-- internal/model/event.go. A time is its reading of the clock.
use challenge_service.Prelude.{String, Bool, Option, List}
use challenge_service.Prelude.Int.{ℤ}
use challenge_service.Model.{ChallengeDocument, LeaderboardEntry}

mutual
  pub data Json : Type 0 where
    null : Json
    text : String → Json
    int : ℤ → Json
    bool : Bool → Json
    time : ℤ → Json
    leaderboard : List LeaderboardEntry → Json
    document : ChallengeDocument → Json
    object : Fields → Json

  pub data Fields : Type 0 where
    end : Fields
    field : String → Json → Fields → Fields

-- `model.Event`
pub record Event : Type 0 where
  pub event_type : String
  pub payload : Json

-- what `WriteJSON` is given: the standard message, or any other object
pub record StandardBroadcastMessage : Type 0 where
  pub message_type : String
  pub payload : Json
  pub success : Bool
  pub message : Option String

pub data Message : Type 0 where
  standard : StandardBroadcastMessage → Message
  plain : Fields → Message
