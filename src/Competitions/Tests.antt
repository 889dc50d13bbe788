-- ===== src/Competitions/Tests.antt =====
-- Runs of a score and of a draw, and instances of their theorems.
use padel_bot_api.Prelude.{
  ◌+◌, ℕ, ◌≡◌, refl, List, [], ◌∷◌, none, some, All, ◌≤◌, ◌<◌, Bool, arith, suc, sum, length, map,
}
use padel_bot_api.Competitions.Score.{
  evaluate_score, MatchFormat, Side, won_by, set_error, sets_of_a,
}
use padel_bot_api.Competitions.Waves.{Pairing, WavedPairing, pack_into_waves}
use padel_bot_api.Competitions.Waves.Placed.{
  IsClashFree, pack_into_waves_lem, count_placed, count_if,
}
use padel_bot_api.Competitions.Score.Winner.{flip, other_side, evaluate_score-flip}
use padel_bot_api.Competitions.Standings.{
  StandingsMatch, StandingRow, compute_standings, played_matches, sort_rows, insert_row,
  compare_rows, head_to_head, place_from, count_matches, count_match, count_sets, count_winner,
  update_row, rows_of,
}
use padel_bot_api.Competitions.Standings.Totals.{AddsUp, compute_standings-AddsUp}
use padel_bot_api.Competitions.Bracket.{
  BracketEntrant, BracketMatch, bracket_size, build_bracket, draw_of, seed_order, order_from,
  couples,
}
use padel_bot_api.Competitions.Bracket.Sizes.{power, bracket_size_lem}
use padel_bot_api.Competitions.Bracket.Seeds.{Firsts}
use padel_bot_api.Competitions.Bracket.Swaps.{IsEntrant}
use padel_bot_api.Competitions.Bracket.Draw.{weight, draw_of_lem}
use padel_bot_api.Competitions.Bracket.Rounds.{sides, build_bracket_lem}

abbrev sets : List (ℕ × ℕ)
sets = (6, 4) ∷ (3, 6) ∷ (10, 8) ∷ []

evaluate_score-flip_example :
    evaluate_score (flip sets) MatchFormat.best_of_three
    ≡ other_side (evaluate_score sets MatchFormat.best_of_three)
evaluate_score-flip_example = evaluate_score-flip sets MatchFormat.best_of_three

third_set : evaluate_score sets MatchFormat.best_of_three ≡ won_by Side.a
unfolding evaluate_score set_error sets_of_a
third_set = refl

-- Four players, everyone against everyone, on two courts.
abbrev pairings : List Pairing
pairings =
    record { round = 1; a = 0; b = 3 }
    ∷ record { round = 1; a = 1; b = 2 }
    ∷ record { round = 2; a = 0; b = 2 }
    ∷ record { round = 2; a = 1; b = 3 }
    ∷ []

pack_into_waves_lem_example :
    (placed : List WavedPairing) × (pack_into_waves pairings 2 ≡ some placed)
    × ((test : Pairing → Bool) → count_placed test placed ≡ count_if test pairings)
    × All (λ q. (1 ≤ q.wave) × (q.court_index < 2)) placed
    × IsClashFree placed
pack_into_waves_lem_example = pack_into_waves_lem pairings 2 (omega arith)

-- A zona of three pairs; the last match has not been played.
abbrev zona : List StandingsMatch
zona =
    record { pair_a = some 1; pair_b = some 2; sets = some sets; winner = some 1 }
    ∷ record {
      pair_a = some 3;
      pair_b = some 1;
      sets = some ((6, 2) ∷ (6, 3) ∷ []);
      winner = some 3;
    }
    ∷ record { pair_a = some 2; pair_b = some 3; sets = none; winner = none }
    ∷ []

compute_standings-AddsUp_example : AddsUp (compute_standings (1 ∷ 2 ∷ 3 ∷ []) zona)
compute_standings-AddsUp_example = compute_standings-AddsUp (1 ∷ 2 ∷ 3 ∷ []) zona

-- Three pairs that beat each other in a circle, each match 6-3 6-3: the last of the
-- table came in before the second, and beat the first.
abbrev won_match : ℕ → ℕ → StandingsMatch
won_match a b = record {
  pair_a = some a;
  pair_b = some b;
  sets = some ((6, 3) ∷ (6, 3) ∷ []);
  winner = some a;
}

abbrev circle : List StandingsMatch
circle = won_match 1 2 ∷ won_match 2 3 ∷ won_match 3 1 ∷ []

circular_table :
    map (λ (r : StandingRow). r.pair_id) (compute_standings (1 ∷ 3 ∷ 2 ∷ []) circle)
    ≡ 1 ∷ 2 ∷ 3 ∷ []
unfolding compute_standings sort_rows insert_row compare_rows head_to_head place_from count_matches
    count_match count_sets count_winner update_row rows_of played_matches
circular_table = refl

-- Three pairs in a bracket of four: the first seed has a bye.
abbrev entrant : ℕ → BracketEntrant
entrant i = record { pair_id = i; label = []; group = none }

abbrev entrants : List BracketEntrant
entrants = entrant 1 ∷ entrant 2 ∷ entrant 3 ∷ []

seeds_of_eight : seed_order 8 ≡ 1 ∷ 8 ∷ 4 ∷ 5 ∷ 2 ∷ 7 ∷ 3 ∷ 6 ∷ []
unfolding seed_order order_from couples
seeds_of_eight = refl

bracket_size_lem_example :
    (k : ℕ) × (bracket_size 5 ≡ power (suc k))
    × (5 ≤ bracket_size 5)
    × ((j : ℕ) → 5 ≤ power (suc j) → bracket_size 5 ≤ power (suc j))
bracket_size_lem_example = bracket_size_lem 5

draw_of_lem_example :
    ((test : BracketEntrant → Bool)
      → sum (map (weight test) (draw_of entrants)) ≡ sum (map (λ e. weight test (some e)) entrants))
    × Firsts IsEntrant (draw_of entrants)
draw_of_lem_example = draw_of_lem entrants (omega arith)

build_bracket_lem_example :
    (ms : List BracketMatch) × (build_bracket entrants ≡ some ms)
    × (length ms + 1 ≡ bracket_size (length entrants))
    × ((test : BracketEntrant → Bool)
        → sides test ms ≡ sum (map (λ e. weight test (some e)) entrants))
build_bracket_lem_example = build_bracket_lem entrants (omega arith)
