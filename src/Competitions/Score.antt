-- ===== src/Competitions/Score.antt =====
-- src/competitions/lib/score.ts: the winner of a match from the games of its sets. The games come in
-- as natural numbers, so that `Number.isInteger(g) && g >= 0` holds of them.
pub mod Winner
use padel_bot_api.Prelude.{
  ℕ, ◌+◌, ◌-◌, Bool, true, false, not, ◌&&◌, ◌||◌, Option, none, some, List, [], ◌∷◌, ltb, ◌==◌,
  if◌then◌else◌, length,
}

-- The Spanish reasons of the exceptions, by what they say.
pub data ScoreError : Type 0 where
  not_games tied_set not_one_set not_best_of_three third_missing third_extra : ScoreError

pub data Side : Type 0 where
  a b : Side

pub data MatchFormat : Type 0 where
  one_set best_of_three : MatchFormat

pub data Score : Type 0 where
  won_by : Side → Score
  invalid : ScoreError → Score

abbrev pub max_games : ℕ
max_games = 99

-- The first complaint about a set, in the order of the loop.
unfoldable pub set_error : List (ℕ × ℕ) → Option ScoreError
set_error [] = none
set_error ((x, y) ∷ sets) =
    if ltb max_games x || ltb max_games y
    then some not_games
    else if x == y
    then some tied_set
    else set_error sets

abbrev pub is_for_a : ℕ × ℕ → Bool
is_for_a (x, y) = ltb y x

unfoldable pub sets_of_a : List (ℕ × ℕ) → ℕ
sets_of_a [] = 0
sets_of_a (s ∷ sets) = (if is_for_a s then 1 else 0) + sets_of_a sets

abbrev side_of : Bool → Side
side_of true = Side.a
side_of false = Side.b

abbrev pub one_set_score : List (ℕ × ℕ) → Score
one_set_score (s ∷ []) = won_by (side_of (is_for_a s))
one_set_score _ = invalid not_one_set

abbrev same_winner : ℕ × ℕ → ℕ × ℕ → Bool
same_winner s t = if is_for_a s then is_for_a t else not (is_for_a t)

abbrev pub more_sets : List (ℕ × ℕ) → Score
more_sets sets = won_by (side_of (ltb (length sets - sets_of_a sets) (sets_of_a sets)))

abbrev pub best_of_three_score : List (ℕ × ℕ) → Score
best_of_three_score (s ∷ t ∷ []) =
    if not (sets_of_a (s ∷ t ∷ []) == 2) && not (2 - sets_of_a (s ∷ t ∷ []) == 2)
    then invalid third_missing
    else more_sets (s ∷ t ∷ [])
best_of_three_score (s ∷ t ∷ u ∷ []) =
    if (sets_of_a (s ∷ t ∷ u ∷ []) == 3) || (3 - sets_of_a (s ∷ t ∷ u ∷ []) == 3) || same_winner s t
    then invalid third_extra
    else more_sets (s ∷ t ∷ u ∷ [])
best_of_three_score _ = invalid not_best_of_three

abbrev pub score_for : MatchFormat → List (ℕ × ℕ) → Score
score_for one_set sets = one_set_score sets
score_for best_of_three sets = best_of_three_score sets

unfoldable pub evaluate_score : List (ℕ × ℕ) → MatchFormat → Score
evaluate_score sets format = elim (set_error sets) [
  | some e ↦ invalid e
  | none ↦ score_for format sets
]
