-- ===== src/Competitions/Standings/Ranked.antt =====
-- The order of the table.
use padel_bot_api.Prelude.{
  ℕ, ◌+◌, ◌≤◌, ◌<◌, ◌≡◌, ◌⊎◌, true, not, ◌||◌, none, some, List, [], ◌∷◌, ◌==◌, if◌then◌else◌,
  find_first,
}
use padel_bot_api.Competitions.Standings.{StandingRow, PlayedMatch, is_between, place_from}

-- The first match that the two pairs played was not the lower pair's; if they played none, the upper
-- pair came in no later.
abbrev pub IsDecided : List PlayedMatch → List ℕ → StandingRow → StandingRow → Type 0
IsDecided ms ids x y =
    ((m : PlayedMatch) × (find_first (is_between x.pair_id y.pair_id) ms ≡ some m)
      × ((m.winner == x.pair_id) || not (m.winner == y.pair_id) ≡ true))
    ⊎ ((find_first (is_between x.pair_id y.pair_id) ms ≡ none)
        × (place_from x.pair_id 0 0 ids ≤ place_from y.pair_id 0 0 ids))

-- A row may stand right above another: it has more wins, or as many and a better difference of sets,
-- or the same and a better difference of games, or the same and the rest decides.
abbrev pub IsAhead : List PlayedMatch → List ℕ → StandingRow → StandingRow → Type 0
IsAhead ms ids x y =
    (y.won < x.won)
    ⊎ ((x.won ≡ y.won)
        × ((y.sets_won + x.sets_lost < x.sets_won + y.sets_lost)
            ⊎ ((x.sets_won + y.sets_lost ≡ y.sets_won + x.sets_lost)
                × ((y.games_won + x.games_lost < x.games_won + y.games_lost)
                    ⊎ ((x.games_won + y.games_lost ≡ y.games_won + x.games_lost)
                        × IsDecided ms ids x y)))))

abbrev Above : List PlayedMatch → List ℕ → StandingRow → List StandingRow → Type 0
Above ms ids x [] = Unit
Above ms ids x (y ∷ ys) = IsAhead ms ids x y

-- Every row may stand right above the next one.
abbrev pub AreRanked : List PlayedMatch → List ℕ → List StandingRow → Type 0
AreRanked ms ids [] = Unit
AreRanked ms ids (x ∷ xs) = Above ms ids x xs × AreRanked ms ids xs

-- The row of a pair, as a number.
abbrev pub one_of : ℕ → StandingRow → ℕ
one_of i r = if r.pair_id == i then 1 else 0
