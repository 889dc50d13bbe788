-- ===== src/Competitions/Score/Winner.antt =====
-- The winner does not depend on which pair is called A.
use padel_bot_api.Prelude.{ℕ, ◌≡◌, refl, inl, inr, none, List, [], ◌∷◌, arith, Option-cases}
use padel_bot_api.Competitions.Score.{
  Score, Side, MatchFormat, won_by, invalid, one_set, best_of_three, set_error, sets_of_a,
  score_for, evaluate_score,
}
use padel_bot_api.Competitions.Score.{
  set_error, Score, evaluate_score, sets_of_a, MatchFormat, score_for,
}

abbrev pub flip : List (ℕ × ℕ) → List (ℕ × ℕ)
flip [] = []
flip ((x, y) ∷ sets) = (y, x) ∷ flip sets

abbrev pub other_side : Score → Score
other_side (won_by Side.a) = won_by Side.b
other_side (won_by Side.b) = won_by Side.a
other_side (invalid e) = invalid e

set_error-flip : (sets : List (ℕ × ℕ)) → set_error (flip sets) ≡ set_error sets
unfolding set_error
set_error-flip [] = refl
set_error-flip ((x, y) ∷ sets) = ground (arith, set_error-flip sets)

score_for-flip :
    (sets : List (ℕ × ℕ)) (format : MatchFormat)
    → set_error sets ≡ none
    → score_for format (flip sets) ≡ other_side (score_for format sets)
unfolding set_error sets_of_a
score_for-flip [] one_set h = refl
score_for-flip ((x, y) ∷ []) one_set h = ground arith
score_for-flip (s ∷ t ∷ []) one_set h = refl
score_for-flip (s ∷ t ∷ u ∷ sets) one_set h = refl
score_for-flip [] best_of_three h = refl
score_for-flip (s ∷ []) best_of_three h = refl
score_for-flip ((x, y) ∷ (z, w) ∷ []) best_of_three h = ground arith
score_for-flip ((x, y) ∷ (z, w) ∷ (p, q) ∷ []) best_of_three h = ground arith
score_for-flip (s ∷ t ∷ u ∷ v ∷ sets) best_of_three h = refl

-- Reading every set from the other pair's side gives the same complaint, or the other side as the
-- winner.
pub evaluate_score-flip :
    (sets : List (ℕ × ℕ)) (format : MatchFormat)
    → evaluate_score (flip sets) format ≡ other_side (evaluate_score sets format)
unfolding evaluate_score
evaluate_score-flip sets format = elim (Option-cases (set_error sets)) [
  | inl e ↦ ground (arith, set_error-flip sets, score_for-flip sets format)
  | inr (x, e) ↦ ground (arith, set_error-flip sets)
]
