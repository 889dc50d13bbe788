-- ===== src/Competitions/Standings.antt =====
-- competitions/lib/standings.ts, computeStandings: the table of a zona or a peña.
pub mod Totals
pub mod Ranked
use padel_bot_api.Prelude.{
  ℕ, ◌+◌, Bool, true, false, not, ◌&&◌, ◌||◌, Option, none, some, List, [], ◌∷◌, ltb, ◌==◌,
  if◌then◌else◌, keep, find_first, any_of,
}

-- A match; `pairAId`, `pairBId` and `winnerPairId` may be missing, and so may the sets.
pub record StandingsMatch : Type 0 where
  pub pair_a : Option ℕ
  pub pair_b : Option ℕ
  pub sets : Option (List (ℕ × ℕ))
  pub winner : Option ℕ

pub record StandingRow : Type 0 where
  pub pair_id : ℕ
  pub played : ℕ
  pub won : ℕ
  pub lost : ℕ
  pub sets_won : ℕ
  pub sets_lost : ℕ
  pub games_won : ℕ
  pub games_lost : ℕ

abbrev pub empty_row : ℕ → StandingRow
empty_row i = record {
  pair_id = i;
  played = 0;
  won = 0;
  lost = 0;
  sets_won = 0;
  sets_lost = 0;
  games_won = 0;
  games_lost = 0;
}

-- `new Map(pairIds.map(…))`: a repeated identifier keeps its first place.
unfoldable pub rows_of : List ℕ → List StandingRow
rows_of [] = []
rows_of (i ∷ ids) = empty_row i ∷ keep (λ (r : StandingRow). not (r.pair_id == i)) (rows_of ids)

-- A match that was played: both pairs, the winner and the sets are there.
pub record PlayedMatch : Type 0 where
  pub a : ℕ
  pub b : ℕ
  pub sets : List (ℕ × ℕ)
  pub winner : ℕ

abbrev pub played_of : Option ℕ → Option ℕ → Option ℕ → Option (List (ℕ × ℕ)) → Option PlayedMatch
played_of (some a) (some b) (some w) (some sets) =
    some (record { a = a; b = b; sets = sets; winner = w })
played_of _ _ _ _ = none

abbrev pub push_played : Option PlayedMatch → List PlayedMatch → List PlayedMatch
push_played none ms = ms
push_played (some m) ms = m ∷ ms

unfoldable pub played_matches : List StandingsMatch → List PlayedMatch
played_matches [] = []
played_matches (m ∷ ms) =
    push_played (played_of m.pair_a m.pair_b m.winner m.sets) (played_matches ms)

-- The row of a pair, which the loop changes in place.
unfoldable pub update_row : ℕ → (StandingRow → StandingRow) → List StandingRow → List StandingRow
update_row i f [] = []
update_row i f (r ∷ rs) = if r.pair_id == i then f r ∷ rs else r ∷ update_row i f rs

abbrev pub has_row : ℕ → List StandingRow → Bool
has_row i rs = any_of (λ (r : StandingRow). r.pair_id == i) rs

abbrev pub add_win : StandingRow → StandingRow
add_win r = record r { played = r.played + 1; won = r.won + 1 }

abbrev pub add_loss : StandingRow → StandingRow
add_loss r = record r { played = r.played + 1; lost = r.lost + 1 }

-- One set for the pair that won the games `for_games` and lost `against`.
abbrev pub add_set : ℕ → ℕ → Bool → StandingRow → StandingRow
add_set for_games against is_won r = record r {
  games_won = r.games_won + for_games;
  games_lost = r.games_lost + against;
  sets_won = if is_won then r.sets_won + 1 else r.sets_won;
  sets_lost = if is_won then r.sets_lost else r.sets_lost + 1;
}

unfoldable pub count_sets : ℕ → ℕ → List (ℕ × ℕ) → List StandingRow → List StandingRow
count_sets a b [] rs = rs
count_sets a b ((games_a, games_b) ∷ sets) rs = count_sets a b sets (
    update_row b (add_set games_b games_a (not (ltb games_b games_a)))
      (update_row a (add_set games_a games_b (ltb games_b games_a)) rs))

-- The result of a match between two pairs of the table.
unfoldable pub count_winner : PlayedMatch → List StandingRow → List StandingRow
count_winner m rs =
    if m.winner == m.a
    then update_row m.b add_loss (update_row m.a add_win rs)
    else update_row m.a add_loss (update_row m.b add_win rs)

unfoldable pub count_match : PlayedMatch → List StandingRow → List StandingRow
count_match m rs =
    if has_row m.a rs && has_row m.b rs then count_sets m.a m.b m.sets (count_winner m rs) else rs

unfoldable pub count_matches : List PlayedMatch → List StandingRow → List StandingRow
count_matches [] rs = rs
count_matches (m ∷ ms) rs = count_matches ms (count_match m rs)

-- The sign of a comparison.
pub data Sign : Type 0 where
  before same after : Sign

-- `b - a`: the larger number goes first.
abbrev pub larger_first : ℕ → ℕ → Sign
larger_first a b = if ltb b a then Sign.before else if ltb a b then Sign.after else Sign.same

-- `x || y`
abbrev pub or_then : Sign → Sign → Sign
or_then Sign.before s = Sign.before
or_then Sign.same s = s
or_then Sign.after s = Sign.after

abbrev pub is_between : ℕ → ℕ → PlayedMatch → Bool
is_between x y m = ((m.a == x) && (m.b == y)) || ((m.a == y) && (m.b == x))

unfoldable pub head_to_head : List PlayedMatch → ℕ → ℕ → Sign
head_to_head ms x y = elim (find_first (is_between x y) ms) [
  | none ↦ Sign.same
  | some m ↦ if m.winner == x then Sign.before else Sign.after
]

-- `order`, the place of a pair among those that came in; a repeated identifier has its last place.
unfoldable pub place_from : ℕ → ℕ → ℕ → List ℕ → ℕ
place_from x found i [] = found
place_from x found i (j ∷ ids) = place_from x (if j == x then i else found) (i + 1) ids

-- The comparison of two rows. Differences of sets and of games are compared by cross sums.
unfoldable pub compare_rows : List PlayedMatch → List ℕ → StandingRow → StandingRow → Sign
compare_rows ms ids x y = or_then (larger_first x.won y.won) (
    or_then (larger_first (x.sets_won + y.sets_lost) (y.sets_won + x.sets_lost)) (
      or_then (larger_first (x.games_won + y.games_lost) (y.games_won + x.games_lost)) (
        or_then (head_to_head ms x.pair_id y.pair_id)
          (larger_first (place_from y.pair_id 0 0 ids) (place_from x.pair_id 0 0 ids)))))

abbrev pub goes_after : Sign → Bool
goes_after Sign.before = false
goes_after Sign.same = false
goes_after Sign.after = true

-- A stable sort. Where the comparison is an order, every stable sort gives the same.
unfoldable pub insert_row :
    (StandingRow → StandingRow → Sign) → StandingRow → List StandingRow → List StandingRow
insert_row c r [] = r ∷ []
insert_row c r (s ∷ ss) = if goes_after (c r s) then s ∷ insert_row c r ss else r ∷ s ∷ ss

unfoldable pub sort_rows : (StandingRow → StandingRow → Sign) → List StandingRow → List StandingRow
sort_rows c [] = []
sort_rows c (r ∷ rs) = insert_row c r (sort_rows c rs)

-- `computeStandings`
unfoldable pub compute_standings : List ℕ → List StandingsMatch → List StandingRow
compute_standings ids matches =
    let played : List PlayedMatch = played_matches matches in
    sort_rows (compare_rows played ids) (count_matches played (rows_of ids))
