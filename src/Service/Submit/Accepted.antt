-- ===== src/Service/Submit/Accepted.antt =====
-- The submissions of `PushSubmissionStatus` that count: what is stored for them.
use challenge_service.Prelude.{
  ℕ, String, ◌≡◌, ◌⊎◌, refl, sym, ap, ◌∙◌, true, none, some, List, arith, inl, inr, ◌==◌, eq_refl,
  if◌then◌else◌,
}
use mathlib.Core.Path.{subst}
use challenge_service.Prelude.Int.{ℤ, pos}
use challenge_service.GoMap.{insert, lookup-insert, GoMap, lookup}
use challenge_service.Exec.{gets, Outcome, ok, Result, value, error}
use challenge_service.Exec.Laws.{bind_ran}
use challenge_service.Model.{Submission, ChallengeDocument, ParticipantMetadata, LeaderboardEntry}
use challenge_service.RedisClient
use challenge_service.Redis
use challenge_service.Redis.View.{
  stored, IsKeyed, get_challenge_by_id_up, stored-get_challenge_by_id, get_challenge_by_id-IsKeyed,
  create_challenge_up, stored-create_challenge_if,
}
use challenge_service.Redis.Updates.{add_participant_up, add_participant-Changed}
use challenge_service.Leaderboard.{
  Manager, ParticipantLeaderboardData, get_leaderboard, get_participant_rank,
}
use challenge_service.Leaderboard.Boards.{IsAllocated}
use challenge_service.Leaderboard.Calm.{get_participant_rank-Returns}
use challenge_service.Local.{get_all_ws_clients}
use challenge_service.Wss.Broadcast.{broadcast_new_submission}
use challenge_service.Wss.Broadcast.Total.{
  broadcast_new_submission_ok, broadcast_leaderboard_update_ok,
}
use challenge_service.World.{Libraries, World, on_net}
use challenge_service.World.Snapshot.{with_leaderboard, refresh_board}
use challenge_service.World.Snapshot.Laws.{IsRanking, refresh_board-Refreshed}
use challenge_service.World.Frame.{
  IsQuiet, Any, Reported, IsQuiet-pure, IsQuiet-gets, IsQuiet-attempt_boards, IsQuiet-net,
  IsQuiet-bind,
}
use challenge_service.Service.Lifecycle.{Reply}
use challenge_service.Service.Submit.Scores.{Rated, scored-Rated}
use challenge_service.Service.Submit.{
  submission_of, submissions_of, SubmissionRequest, SubmissionResponse, push_submission_status,
  publish, announce, tell, announce_leaderboard, rank_or_none, reply, scored, submitted,
}

abbrev pub processed : Reply SubmissionResponse
processed = reply "submission processed successfully" true none

challenge_id-submitted :
    (req : SubmissionRequest) (p : ParticipantMetadata) (d : ChallengeDocument)
    → (submitted req p d).challenge_id ≡ d.challenge_id
unfolding submitted
challenge_id-submitted req p d = refl

module _ (lib : Libraries) where
  announce_leaderboard-IsQuiet :
      (clients : GoMap ℕ) (req : SubmissionRequest) (now : ℤ)
      (board : Result (List LeaderboardEntry))
      → IsQuiet lib Any (announce_leaderboard lib clients req now board)
  announce_leaderboard-IsQuiet clients req now (error e) = IsQuiet-pure lib Any tt tt
  announce_leaderboard-IsQuiet clients req now (value l) = IsQuiet-net lib _ tt (λ net.
      broadcast_leaderboard_update_ok lib.sockets clients req.challenge_id req.user_id now net l)

  abbrev IsProcessed : Reply SubmissionResponse → Type 0
  IsProcessed r = r ≡ processed

  tell-IsQuiet :
      (req : SubmissionRequest) (now : ℤ) (board : Result (List LeaderboardEntry))
      (rank : Result ParticipantLeaderboardData) (clients : GoMap ℕ)
      → IsQuiet lib IsProcessed (tell lib req now board rank clients)
  unfolding tell
  tell-IsQuiet req now board rank clients =
      let told =
        broadcast_new_submission lib.sockets clients req.challenge_id req.user_id req.problem_id
          req.score (rank_or_none lib rank) now in
      IsQuiet-bind lib Any IsProcessed (on_net lib told) _
        (IsQuiet-net lib told tt (λ net.
          broadcast_new_submission_ok lib.sockets clients req.challenge_id req.user_id now net
            req.problem_id req.score (rank_or_none lib rank)))
        λ _ _.
          IsQuiet-bind lib Any IsProcessed _ _ (announce_leaderboard-IsQuiet clients req now board)
            λ _ _. IsQuiet-pure lib IsProcessed processed refl

  announce-IsQuiet :
      (req : SubmissionRequest) (now : ℤ) (board : Result (List LeaderboardEntry))
      → IsQuiet lib IsProcessed (announce lib req now board)
  unfolding announce
  announce-IsQuiet req now board =
      IsQuiet-bind lib (Reported lib (get_participant_rank lib.board req.challenge_id req.user_id))
        IsProcessed _ _
        (IsQuiet-attempt_boards lib (get_participant_rank lib.board req.challenge_id req.user_id)
          (λ b. get_participant_rank-Returns lib.board req.challenge_id b req.user_id))
        λ rank _.
          IsQuiet-bind lib Any IsProcessed
            (gets (λ s. get_all_ws_clients req.challenge_id s.local.states))
            (tell lib req now board rank)
            (IsQuiet-gets lib (λ s. get_all_ws_clients req.challenge_id s.local.states))
            λ clients _. tell-IsQuiet req now board rank clients

  module _ (rlaw : RedisClient.Laws lib.redis) where
    -- The run `out` from `s` answered that the submission was processed, and stored `d` with a
    -- leaderboard: the one that it had, or one that `GetLeaderboard` returned for it.
    pub record Published (d : ChallengeDocument) (s : World lib)
        (out : Outcome (Reply SubmissionResponse) × World lib) : Type 0 where
      pub answered : out.0 ≡ ok processed
      pub history : out.1.mongo ≡ s.mongo
      pub leaderboard : List LeaderboardEntry
      pub ranked :
          (leaderboard ≡ d.leaderboard)
          ⊎ ((m : Manager lib.board) × ((get_leaderboard lib.board d.challenge_id
                  (pos 50)
                  (some d)
                  m).0
                ≡ ok leaderboard))
      pub active :
          (j : String)
          → stored lib.redis rlaw out.1.redis j ≡ (
              if d.challenge_id == j
              then some (record d { leaderboard = leaderboard })
              else stored lib.redis rlaw s.redis j)

    leaderboard-with_leaderboard :
        (d : ChallengeDocument) (board : Result (List LeaderboardEntry))
        → IsRanking lib rlaw d board
        → (l : List LeaderboardEntry) × (with_leaderboard d board ≡ record d { leaderboard = l })
          × ((l ≡ d.leaderboard)
              ⊎ ((m : Manager lib.board) × ((get_leaderboard lib.board d.challenge_id
                      (pos 50)
                      (some d)
                      m).0
                    ≡ ok l)))
    leaderboard-with_leaderboard d (error e) h = (d.leaderboard, refl, inl refl)
    leaderboard-with_leaderboard d (value l) h = (l, refl, inr (h l refl))

    publish-Published :
        (req : SubmissionRequest) (now : ℤ) (p : ParticipantMetadata) (d : ChallengeDocument)
        (s : World lib)
        → rlaw.Up s.redis
        → IsAllocated lib.board s.boards
        → d.challenge_id ≡ req.challenge_id
        → stored lib.redis rlaw s.redis req.challenge_id ≡ some d
        → Published d s (publish lib req now p d s)
    unfolding publish
    publish-Published req now p d s up al own there =
        let f =
          refresh_board-Refreshed lib rlaw req.challenge_id req.user_id p.total_score d s up al own
            there in
        let q = announce-IsQuiet req now f.board f.after in
        let ran : publish lib req now p d s ≡ (ok q.result, q.after) =
          bind_ran (refresh_board lib req.challenge_id req.user_id p.total_score d)
            (announce lib req now) s f.ran
          ∙ q.ran in
        let (l, new, source) = leaderboard-with_leaderboard d f.board f.ranking in
        record {
          answered = ap (λ r. r.0) ran ∙ ap ok q.holds;
          history = ap (λ r. r.1.mongo) ran ∙ q.mongo ∙ f.mongo;
          leaderboard = l;
          ranked = source;
          active = λ j.
              ap (λ r. stored lib.redis rlaw r.1.redis j) ran
              ∙ ap (λ db. stored lib.redis rlaw db j) q.redis
              ∙ f.active j
              ∙ ap (λ x. if d.challenge_id == j then some x else stored lib.redis rlaw s.redis j)
                  new;
        }

    -- The document holds the submission, and the participant as the submission leaves it.
    pub record Entered (req : SubmissionRequest) (p : ParticipantMetadata) (d : ChallengeDocument)
        : Type 0 where
      pub participant : ParticipantMetadata
      pub entered : lookup req.user_id d.participants ≡ some participant
      pub rated : Rated req p participant
      pub submissions : GoMap Submission
      pub kept : lookup req.user_id d.submissions ≡ some submissions
      pub submission : Submission
      pub made : lookup req.problem_id submissions ≡ some submission
      pub points : submission.points ≡ req.score

    submitted-Entered :
        (req : SubmissionRequest) (p : ParticipantMetadata) (d : ChallengeDocument)
        → Entered req p (submitted req p d)
    unfolding submitted
    submitted-Entered req p d =
        let user = req.user_id in
        let mine = insert req.problem_id (submission_of req) (submissions_of user d) in
        record {
          participant = scored req p;
          entered =
              ground (arith, lookup-insert user user (scored req p) d.participants, eq_refl user);
          rated = scored-Rated req p;
          submissions = mine;
          kept = ground (arith, lookup-insert user user mine d.submissions, eq_refl user);
          submission = submission_of req;
          made = ground (
            arith,
            lookup-insert req.problem_id req.problem_id (submission_of req) (submissions_of user d),
            eq_refl req.problem_id,
          );
          points = refl;
        }

    -- With Redis reachable, the map of boards allocated and every document under its own
    -- identifier, a successful submission of a participant of the stored challenge is answered as
    -- processed; the document then holds the submission, the participant with the score of the
    -- problem, the number of problems done and the sum of their scores, wrapped around to 64 bits,
    -- and a leaderboard that it had or that `GetLeaderboard` returned; no other document and
    -- nothing of the history changes, whatever becomes of the boards and the broadcasts.
    pub push_submission_status_processed :
        (req : SubmissionRequest) (now : ℤ) (d : ChallengeDocument) (p : ParticipantMetadata)
        (s : World lib)
        → rlaw.Up s.redis
        → IsKeyed lib.redis rlaw s.redis
        → IsAllocated lib.board s.boards
        → req.is_successful ≡ true
        → stored lib.redis rlaw s.redis req.challenge_id ≡ some d
        → lookup req.user_id d.participants ≡ some p
        → Published (submitted req p d) s (push_submission_status lib req now s)
          × Entered req p (submitted req p d)
    unfolding push_submission_status Redis.update_participant Redis.update_challenge
    push_submission_status_processed req now d p s up keyed al good there member =
        let id = req.challenge_id in
        let own = keyed.at id d there in
        let (got, up1) = get_challenge_by_id_up lib.redis rlaw id s.redis d up there in
        let db1 = (Redis.get_challenge_by_id lib.redis id s.redis).1 in
        let here = stored-get_challenge_by_id lib.redis rlaw id s.redis in
        let p' = scored req p in
        let (added, up2) =
          add_participant_up lib.redis rlaw id req.user_id p' db1 d up1 (here id ∙ there) in
        let db2 = (Redis.add_participant lib.redis id req.user_id p' db1).1 in
        let changed =
          add_participant-Changed lib.redis rlaw id req.user_id p' db1
            (get_challenge_by_id-IsKeyed lib.redis rlaw id keyed) added in
        let d' = submitted req p d in
        let own' : d'.challenge_id ≡ id = challenge_id-submitted req p d ∙ own in
        let (wrote, up3) = create_challenge_up lib.redis rlaw d' db2 up2 in
        let after = stored-create_challenge_if lib.redis rlaw d' db2 wrote in
        let s3 : World lib = record s { redis = (Redis.create_challenge lib.redis d' db2).1 } in
        let out =
          publish-Published req now p' d' s3 up3 al own'
            (ground (arith, after id, own', eq_refl id)) in
        let run : push_submission_status lib req now s ≡ publish lib req now p' d' s3 =
          ground (arith, got, good, member, added, wrote) in
        (
          subst (Published d' s) (sym run) (record {
            answered = out.answered;
            history = out.history;
            leaderboard = out.leaderboard;
            ranked = out.ranked;
            active = λ j. out.active j ∙ ground (arith, after j, changed.now j, here j, own');
          }),
          submitted-Entered req p d,
        )
