-- ===== src/Service/Submit/Scores.antt =====
-- The score of a participant after a submission.
use challenge_service.Prelude.{
  ℕ, ◌+◌, ◌%◌, ◌^◌, ◌≢◌, some, [], ◌∷◌, eq_refl, eq_iff, String, ◌≡◌, refl, ap, ◌∙◌, List, arith,
  length, inl, inr, Bool-cases,
}
use mathlib.Core.List.{Perm, Permᴰ}
use mathlib.Core.List.Permᴰ.{nil, cons, swap, trans}
use mathlib.Core.Logic.{∥∥₁_elim}
use mathlib.Core.HLevel.{hedberg}
use challenge_service.Prelude.Int.{
  residue64, signed64, residue-signed, ℤ, pos, int_eq, int_eq→eq, add64, add64_right_comm,
}
use challenge_service.GoMap.{lookup, lookup-insert, GoMap, entries, insert, insert-insert}
use challenge_service.Model.{ChallengeProblemMetadata, ParticipantMetadata}
use challenge_service.Service.Submit.{SubmissionRequest, add_scores, scored, problem_of}

-- the participant with the problems `done`, counted
abbrev counted : ParticipantMetadata → GoMap ChallengeProblemMetadata → ParticipantMetadata
counted p done = record p {
  problems_done = done;
  total_score = add_scores (pos 0) (entries done);
  problems_attempted = pos (length (entries done));
}

-- Of two submissions for the same problem only the later one counts, whatever their scores: it
-- leaves the participant as if the earlier one had not been made.
pub scored-scored :
    (req old : SubmissionRequest) (p : ParticipantMetadata)
    → old.problem_id ≡ req.problem_id
    → scored req (scored old p) ≡ scored req p
unfolding scored
scored-scored req old p e = ap (counted p) (
    ap (λ k. insert req.problem_id (problem_of req) (insert k (problem_of old) p.problems_done)) e
    ∙ insert-insert req.problem_id (problem_of req) (problem_of old) p.problems_done)

ℤ_discrete : Discrete ℤ
ℤ_discrete a b = elim (Bool-cases (int_eq a b)) [
  | inl e ↦ yes (int_eq→eq a b e)
  | inr e ↦ no (λ same. ground (arith, same, e))
]

add_scores-permᴰ :
    {l l' : List (String × ChallengeProblemMetadata)}
    → Permᴰ l l'
    → (total : ℤ) → add_scores total l ≡ add_scores total l'
unfolding add_scores
add_scores-permᴰ nil total = refl
add_scores-permᴰ (cons {a = (_, m)} {b = (_, m')} {l₂ = l₂} e d) total =
    add_scores-permᴰ d (add64 total m.score) ∙ ap (λ x. add_scores (add64 total x.1.score) l₂) e
add_scores-permᴰ (swap {a = (_, x)} {b = (_, y)} {a' = a'} {l = l} e₁ e₂) total =
    ap (λ t. add_scores t l) (add64_right_comm total x.score y.score)
    ∙ ap (λ u. add_scores (add64 (add64 total u.1.score) x.score) l) e₂
    ∙ ap (λ u. add_scores (add64 (add64 total a'.1.score) u.1.score) l) e₁
add_scores-permᴰ (trans d₁ d₂) total = add_scores-permᴰ d₁ total ∙ add_scores-permᴰ d₂ total

-- the sum of the scores, as residues, without an overflow
unfoldable pub sum_scores : List (String × ChallengeProblemMetadata) → ℕ
sum_scores [] = 0
sum_scores ((_, m) ∷ l) = residue64 m.score + sum_scores l

-- the value of the type `int` that a sum of residues wraps around to
abbrev pub wrapped : ℕ → ℤ
wrapped n = signed64 (n % 2 ^ 64)

add64-wrapped : (n : ℕ) (a : ℤ) → add64 (wrapped n) a ≡ wrapped (n + residue64 a)
unfolding add64
add64-wrapped n a = ap signed64 (omega (arith, residue-signed (n % 2 ^ 64) (omega arith)))

add_scores-wrapped :
    (l : List (String × ChallengeProblemMetadata)) (n : ℕ)
    → add_scores (wrapped n) l ≡ wrapped (n + sum_scores l)
unfolding add_scores sum_scores
add_scores-wrapped [] n = ap wrapped (omega arith)
add_scores-wrapped ((k, m) ∷ l) n =
    ap (λ t. add_scores t l) (add64-wrapped n m.score)
    ∙ add_scores-wrapped l (n + residue64 m.score)
    ∙ ap wrapped (omega arith)

add_scores_lem :
    (l : List (String × ChallengeProblemMetadata)) → add_scores (pos 0) l ≡ wrapped (sum_scores l)
add_scores_lem l = add_scores-wrapped l 0 ∙ ap wrapped (omega arith)

-- The total score of a participant after a submission is the sum of the scores of the problems done,
-- wrapped around to 64 bits, in whatever order the map is visited.
pub total_score-perm :
    (req : SubmissionRequest) (p : ParticipantMetadata)
    (l : List (String × ChallengeProblemMetadata))
    → Perm (entries (scored req p).problems_done) l
    → (scored req p).total_score ≡ wrapped (sum_scores l)
unfolding scored
total_score-perm req p l same =
    ∥∥₁_elim same (hedberg ℤ_discrete _ _) (λ d. add_scores-permᴰ d (pos 0)) ∙ add_scores_lem l

-- What a submission makes of a participant: the problem has the new score, the other problems stay,
-- and the count and the total score are those of the problems done.
pub record Rated (req : SubmissionRequest) (p p' : ParticipantMetadata) : Type 0 where
  pub solved :
      (m : ChallengeProblemMetadata) × (lookup req.problem_id p'.problems_done ≡ some m)
      × (m.score ≡ req.score)
  pub others :
      (k : String) → req.problem_id ≢ k → lookup k p'.problems_done ≡ lookup k p.problems_done
  pub count : p'.problems_attempted ≡ pos (length (entries p'.problems_done))
  pub total : p'.total_score ≡ wrapped (sum_scores (entries p'.problems_done))

pub scored-Rated : (req : SubmissionRequest) (p : ParticipantMetadata) → Rated req p (scored req p)
unfolding scored
scored-Rated req p =
    let id = req.problem_id in
    record {
      solved = (
        problem_of req,
        ground (arith, lookup-insert id id (problem_of req) p.problems_done, eq_refl id),
        refl,
      );
      others = λ k ne.
          ground (arith, lookup-insert id k (problem_of req) p.problems_done, eq_iff id k, ne);
      count = refl;
      total = add_scores_lem (entries (insert id (problem_of req) p.problems_done));
    }
