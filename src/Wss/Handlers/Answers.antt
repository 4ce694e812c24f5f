-- ===== src/Wss/Handlers/Answers.antt =====
-- What the client of `GetLeaderboardHandler` is sent.
use challenge_service.Prelude.{
  ◌⊎◌, none, ◌<◌, ◌==◌, inl, inr, Option-cases, Bool-cases, String, ◌≡◌, ◌≢◌, true, some, List, [],
  ◌∷◌, ◌++◌, arith, eq_iff,
}
use challenge_service.Prelude.Int.{ℤ, pos, pos_part}
use challenge_service.GoMap.{lookup}
use challenge_service.Exec.{ok, value}
use challenge_service.Model.{ChallengeDocument}
use challenge_service.RedisClient
use challenge_service.Redis.View.{stored, get_challenge_by_id_up}
use challenge_service.Leaderboard.{get_leaderboard, get_board, leaderboard_of, scores}
use challenge_service.Leaderboard.Ranking.{rank_users}
use challenge_service.World.{Libraries, World}
use challenge_service.Wss.Json.{plain}
use challenge_service.Wss.Socket.{Laws}
use challenge_service.Wss.Broadcast.{send_json}
use challenge_service.Wss.Dispatcher.{WsContext}
use challenge_service.Wss.Handlers.{Codec, GetLeaderboardPayload}
use challenge_service.Wss.Handlers.Standings.{
  limit_of, may_read, standings, leaderboard_read, leaderboard_fetched, leaderboard_decoded,
  get_leaderboard_handler,
}

-- The request reads as `p`.
pub record Reads (codec : Codec) (ctx : WsContext) (p : GetLeaderboardPayload) : Type 0 where
  pub raw : String
  pub marshalled : codec.marshal ctx.payload ≡ value raw
  pub decoded : codec.unmarshal_leaderboard raw ≡ value p

-- The limit of the answer: the one that was asked for, if it is positive, else 100.
pub record IsLimit (p : GetLeaderboardPayload) (limit : ℤ) : Type 0 where
  pub asked : 0 < pos_part p.limit → limit ≡ p.limit
  pub missing : pos_part p.limit ≡ 0 → limit ≡ pos 100

limit_of_lem : (p : GetLeaderboardPayload) (limit : ℤ) → IsLimit p limit → limit_of p ≡ limit
limit_of_lem p limit h = ground (arith, h.asked, h.missing)

may_read_of :
    (p : GetLeaderboardPayload) (d : ChallengeDocument)
    → (p.user_id ≡ "") ⊎ (lookup p.user_id d.participants ≢ none)
    → may_read p d ≡ true
may_read_of p d h = elim h [
  | inl e ↦ ground (arith, e, eq_iff p.user_id "")
  | inr there ↦ elim (Option-cases (lookup p.user_id d.participants)) [
    | inl absent ↦ absurd (there absent)
    | inr (m, e) ↦ elim (Bool-cases (p.user_id == "")) [
      | inl yes' ↦ ground (arith, e, yes')
      | inr no' ↦ ground (arith, e, no')
    ]
  ]
]

module _ (lib : Libraries) (rlaw : RedisClient.Laws lib.redis) (law : Laws lib.sockets)
    (codec : Codec) where
  -- With Redis reachable and a connection that can be written to, a request for a stored challenge
  -- with a board, by no named user or by a participant, is answered with the ranking of the users
  -- that RedisBoard returned, up to the limit that was asked for, or 100 where none that is positive
  -- was; nothing else is sent.
  pub get_leaderboard_handler_lem :
      (ctx : WsContext) (p : GetLeaderboardPayload) (d : ChallengeDocument) (s : World lib)
      (limit : ℤ) (board : lib.board.Board) (users : List (String × lib.board.Float))
      → rlaw.Up s.redis
      → law.Open ctx.conn s.local.net
      → Reads codec ctx p
      → p.challenge_id ≢ ""
      → stored lib.redis rlaw s.redis p.challenge_id ≡ some d
      → (p.user_id ≡ "") ⊎ (lookup p.user_id d.participants ≢ none)
      → IsLimit p limit
      → lookup p.challenge_id s.boards.boards ≡ some board
      → (lib.board.get_top_k_global board s.boards.ext).0 ≡ value users
      → ((get_leaderboard_handler lib codec ctx s).0 ≡ ok tt)
        × (law.sent (get_leaderboard_handler lib codec ctx s).1.local.net
            ≡ law.sent s.local.net
              ++ (
                ctx.conn,
                plain
                    (standings p.challenge_id (rank_users limit (some d) (scores lib.board users))),
              )
                ∷ [])
  unfolding get_leaderboard_handler leaderboard_decoded leaderboard_fetched leaderboard_read
      get_leaderboard get_board leaderboard_of send_json
  get_leaderboard_handler_lem ctx p d s limit board users up open' reads named there who lim has
        top =
      let allowed = may_read_of p d who in
      let asked : limit_of p ≡ limit = limit_of_lem p limit lim in
      let (got, _) = get_challenge_by_id_up lib.redis rlaw p.challenge_id s.redis d up there in
      let m =
        plain (standings p.challenge_id (rank_users limit (some d) (scores lib.board users))) in
      let (wrote, sent') = law.write_json_open ctx.conn m s.local.net open' in
      let here = eq_iff p.challenge_id "" in
      (
        ground (
          arith, reads.marshalled, reads.decoded, got, here, named, allowed, asked, has, top, wrote,
        ),
        ground (
          arith, reads.marshalled, reads.decoded, got, here, named, allowed, asked, has, top, wrote,
          sent',
        ),
      )
