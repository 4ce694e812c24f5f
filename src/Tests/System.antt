-- ===== src/Tests/System.antt =====
-- The theorems about the whole service at concrete inputs.
use challenge_service.Prelude.{
  true, ◌≡◌, ◌≢◌, refl, sym, ◌∙◌, String, Option, none, some, List, [], ◌∷◌, All, map, arith,
}
use challenge_service.Prelude.Int.{pos}
use challenge_service.GoMap.{find, nil}
use challenge_service.Exec.{ok}
use challenge_service.Model.{ChallengeDocument, challenge_ended}
use challenge_service.Redis.View.{decoded, stored}
use challenge_service.Redis.{key_of}
use challenge_service.Local.Events.{empty-IsBounded}
use challenge_service.Service.Lifecycle.History.{Moved}
use challenge_service.Wss.Server.{Arrival}
use challenge_service.System.Documents.{View, Shows, origin, origin_of}
use challenge_service.System.Spec.{Runs}
use challenge_service.System.Invariant.{Holds}
use challenge_service.System.Requests.{
  is_up, Request, leaves, ends, submits, hangs_up, abandons, author, answer, serve_all,
}
use challenge_service.System.Refinement.{serve_all-Runs}
use challenge_service.System.Promises.{IsForeign, serve_all-kept, serve_all-Moved}
use challenge_service.System.Loop.{is_up_ordinary}
use challenge_service.Tests.Memory.{Table, libraries, redis, redis_laws, mongo_laws}
use challenge_service.Tests.Data.{differ, duel, submission, table, table-IsKeyed, world}
use challenge_service.Tests.Messages.{jwt}
use challenge_service.Tests.Handlers.{clock, codec, gateway}

find_all :
    (P : ChallengeDocument → Type 0) (k : String) (t : Table) (d : ChallengeDocument)
    → All (λ e. P e.1) t
    → find k t ≡ some d
    → P d
unfolding find
find_all P k [] d h e = absurd (ground (arith, e))
find_all P k ((j, x) ∷ t) d h e = ground (arith, h.0, find_all P k t d h.1, e)

decoded_lem : (o : Option ChallengeDocument) → decoded redis redis_laws o ≡ o
decoded_lem none = refl
decoded_lem (some d) = refl

abbrev pub view : View
view id = origin_of (stored redis redis_laws table id)

pub shows : Shows redis redis_laws view table
shows = record {
  own = table-IsKeyed.at;
  mapped = λ id d e.
      find_all (λ d. d.participants ≢ nil) (key_of id) table d (λ e. cc, (λ e. cc, tt))
        (sym (decoded_lem (find (key_of id) table)) ∙ e);
  seen = λ id. refl;
}

holds : Holds libraries redis_laws view world
holds = record { redis = shows; boards = λ e. cc; events = empty-IsBounded }

-- bob submits, asks to end the duel of ann, leaves it, and hangs up; cid abandons what is over
abbrev pub busy : List Request
busy =
    submits submission (pos 9)
    ∷ ends "c1" "bob"
    ∷ leaves "c1" "bob"
    ∷ hangs_up 7 "bob" "c1" (pos 10)
    ∷ abandons "c2" "cid" (pos 11)
    ∷ []

duel_seen : view "c1" ≡ some (origin duel)
unfolding find
duel_seen = refl

busy-IsForeign : All (IsForeign "c1" (origin duel)) busy
unfolding author
busy-IsForeign = (
  (differ "" "ann" refl, λ e. cc),
  (
    (differ "bob" "ann" refl, λ e. cc),
    (
      (differ "" "ann" refl, λ e. cc),
      ((differ "" "ann" refl, λ e. cc), ((differ "cid" "ann" refl, λ e. cc), tt)),
    ),
  ),
)

serve_all-Runs_example :
    (w : View) × (Runs (map author busy) view w)
    × Holds libraries redis_laws w (serve_all libraries jwt "key" codec busy world)
serve_all-Runs_example = serve_all-Runs libraries redis_laws jwt "key" codec busy view world holds

serve_all-kept_example :
    origin_of (stored redis redis_laws (serve_all libraries jwt "key" codec busy world).redis "c1")
    ≡ some (origin duel)
serve_all-kept_example =
    serve_all-kept libraries redis_laws jwt "key" codec view "c1" (origin duel) busy world holds
      duel_seen busy-IsForeign

-- bob submits, leaves and hangs up
abbrev quiet : List Request
quiet = submits submission (pos 9) ∷ leaves "c1" "bob" ∷ hangs_up 7 "bob" "c1" (pos 10) ∷ []

quiet-IsForeign : All (IsForeign "c1" (origin duel)) quiet
unfolding author
quiet-IsForeign = (
  (differ "" "ann" refl, λ e. cc),
  ((differ "" "ann" refl, λ e. cc), ((differ "" "ann" refl, λ e. cc), tt)),
)

quiet_up : is_up libraries jwt "key" codec quiet world ≡ true
quiet_up =
    is_up_ordinary libraries redis_laws jwt "key" codec view quiet world (tt, (tt, (tt, tt)))
      (λ e. e, (λ e. e, (λ e. e, tt))) holds

serve_all-Moved_example :
    let before = serve_all libraries jwt "key" codec quiet world in
    let out = answer libraries jwt "key" codec (ends "c1" "ann") before in
    (d : ChallengeDocument) × (origin d ≡ origin duel)
    × (out.0 ≡ ok tt)
    × Moved libraries redis_laws mongo_laws "c1"
        (record d { status = challenge_ended })
        before
        out.1
serve_all-Moved_example =
    serve_all-Moved libraries redis_laws jwt "key" codec mongo_laws view "c1" (origin duel) quiet
      world holds duel_seen quiet-IsForeign quiet_up (tt, tt)

-- two messages, whatever they say
abbrev arrivals : List Arrival
arrivals =
    record { raw = "one"; gateway = gateway; clock = clock }
    ∷ record { raw = "two"; gateway = gateway; clock = clock }
    ∷ []
