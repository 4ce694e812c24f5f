-- ===== src/System/Spec.antt =====
-- What the service promises of its challenges, without boards, participants or connections: each has
-- a creator, settings and a status, and nobody but the creator opens, closes or archives it.
use challenge_service.Prelude.{
  String, ◌≡◌, true, Option, none, some, ◌==◌, arith, eq_refl, if◌then◌else◌, List, [], ◌∷◌,
}
use challenge_service.Model.{challenge_open}
use challenge_service.Redis.{is_over}
use challenge_service.System.Documents.{Origin, View}

abbrev pub put : String → Option Origin → View → View
put id o v j = if id == j then o else v j

pub put_self : (id : String) (o : Option Origin) (v : View) → put id o v id ≡ o
put_self id o v = ground (arith, eq_refl id)

abbrev pub with_status : String → Origin → Origin
with_status status o = record o { status = status }

-- the user in whose name a request acts, and the identifier of the challenge that it asks for
pub record Author : Type 0 where
  pub user : String
  pub opening : Option String

-- One step that a request may take. A challenge that is opened has the identifier that was asked
-- for, and may take the place of another. What is closed is the user's own, and what is archived is
-- the user's own and over.
pub data Transition (by : Author) : View → View → Type 0 where
  opens :
      {v : View} (id : String) (o : Origin)
      → by.opening ≡ some id
      → o.creator_id ≡ by.user
      → o.status ≡ challenge_open
      → Transition by v (put id (some o) v)
  closes :
      {v : View} (id status : String) (o : Origin)
      → v id ≡ some o
      → o.creator_id ≡ by.user
      → is_over status ≡ true
      → Transition by v (put id (some (with_status status o)) v)
  archives :
      {v : View} (id : String) (o : Origin)
      → v id ≡ some o
      → o.creator_id ≡ by.user
      → is_over o.status ≡ true
      → Transition by v (put id none v)

-- any number of such steps
pub data Evolves (by : Author) : View → View → Type 0 where
  stays : {v : View} → Evolves by v v
  moves : {v w x : View} → Transition by v w → Evolves by w x → Evolves by v x

-- The steps of a sequence of requests, one after the other.
pub data Runs : List Author → View → View → Type 0 where
  done : {v : View} → Runs [] v v
  then :
      {by : Author} {rest : List Author} {v w x : View}
      → Evolves by v w
      → Runs rest w x
      → Runs (by ∷ rest) v x
