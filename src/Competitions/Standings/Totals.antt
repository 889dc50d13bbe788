-- ===== src/Competitions/Standings/Totals.antt =====
-- The table adds up.
use padel_bot_api.Prelude.{
  ℕ, ◌+◌, ◌≡◌, refl, sym, ◌∙◌, inl, inr, Bool, true, not, ◌&&◌, List, [], ◌∷◌, map, arith, ltb,
  ◌==◌, if◌then◌else◌, Bool-cases, keep, All, sum,
}
use padel_bot_api.Competitions.Standings.{
  StandingsMatch, StandingRow, PlayedMatch, rows_of, played_matches, update_row, has_row, add_win,
  add_loss, add_set, count_sets, count_winner, count_match, count_matches, Sign, insert_row,
  sort_rows, compute_standings, goes_after, empty_row,
}

abbrev pub total : (StandingRow → ℕ) → List StandingRow → ℕ
total f rs = sum (map f rs)

abbrev pub Balances : StandingRow → Type 0
Balances r = r.played ≡ r.won + r.lost

-- Every row has as many matches as wins and losses, and what one pair wins another one loses.
pub record AddsUp (rs : List StandingRow) : Type 0 where
  pub rows : All Balances rs
  pub matches : total (λ r. r.won) rs ≡ total (λ r. r.lost) rs
  pub sets : total (λ r. r.sets_won) rs ≡ total (λ r. r.sets_lost) rs
  pub games : total (λ r. r.games_won) rs ≡ total (λ r. r.games_lost) rs

-- A row that is there changes a total by what it changes itself.
update_row-total :
    (g : StandingRow → ℕ) (i d : ℕ) (f : StandingRow → StandingRow) (rs : List StandingRow)
    → ((r : StandingRow) → g (f r) ≡ g r + d)
    → has_row i rs ≡ true
    → total g (update_row i f rs) ≡ total g rs + d
unfolding update_row
update_row-total g i d f [] step h = cc
update_row-total g i d f (r ∷ rs) step h = ground (arith, step r, update_row-total g i d f rs step)

update_row-has :
    (i j : ℕ) (f : StandingRow → StandingRow) (rs : List StandingRow)
    → ((r : StandingRow) → (f r).pair_id ≡ r.pair_id)
    → has_row j (update_row i f rs) ≡ has_row j rs
unfolding update_row
update_row-has i j f [] same = refl
update_row-has i j f (r ∷ rs) same = ground (arith, same r, update_row-has i j f rs same)

update_row-rows :
    (i : ℕ) (f : StandingRow → StandingRow) (rs : List StandingRow)
    → ((r : StandingRow) → r.played ≡ r.won + r.lost → (f r).played ≡ (f r).won + (f r).lost)
    → All Balances rs
    → All Balances (update_row i f rs)
unfolding update_row
update_row-rows i f [] step h = tt
update_row-rows i f (r ∷ rs) step h = elim (Bool-cases (r.pair_id == i)) [
  | inl e ↦ rw e (step r h.0, h.1)
  | inr e ↦ rw e (h.0, update_row-rows i f rs step h.1)
]

-- The rows of two pairs change, perhaps of one pair twice.
pair-total :
    (g : StandingRow → ℕ) (a b d e : ℕ) (f h : StandingRow → StandingRow) (rs : List StandingRow)
    → ((r : StandingRow) → (f r).pair_id ≡ r.pair_id)
    → ((r : StandingRow) → g (f r) ≡ g r + d)
    → ((r : StandingRow) → g (h r) ≡ g r + e)
    → (has_row a rs ≡ true) × (has_row b rs ≡ true)
    → total g (update_row b h (update_row a f rs)) ≡ total g rs + d + e
pair-total g a b d e f h rs same fd he there =
    update_row-total g b e h (update_row a f rs) he (update_row-has a b f rs same ∙ there.1)
    ∙ omega (arith, update_row-total g a d f rs fd there.0)

abbrev unit : Bool → ℕ
unit c = if c then 1 else 0

add_set-AddsUp :
    (a b x y : ℕ) (c : Bool) (rs : List StandingRow)
    → (has_row a rs ≡ true) × (has_row b rs ≡ true)
    → AddsUp rs
    → AddsUp (update_row b (add_set y x (not c)) (update_row a (add_set x y c) rs))
add_set-AddsUp a b x y c rs there up = record {
  rows = update_row-rows b _ _ (λ r e. e) (update_row-rows a _ rs (λ r e. e) up.rows);
  matches =
      twice (λ r. r.won) 0 0 (λ r. omega arith) (λ r. omega arith)
      ∙ ground (arith, up.matches, twice (λ r. r.lost) 0 0 (λ r. omega arith) (λ r. omega arith));
  sets =
      twice (λ r. r.sets_won) (unit c) (unit (not c)) (λ r. ground arith) (λ r. ground arith)
      ∙ ground (
        arith,
        up.sets,
        twice (λ r. r.sets_lost) (unit (not c)) (unit c) (λ r. ground arith) (λ r. ground arith),
      );
  games =
      twice (λ r. r.games_won) x y (λ r. refl) (λ r. refl)
      ∙ ground (arith, up.games, twice (λ r. r.games_lost) y x (λ r. refl) (λ r. refl));
}
  where
    twice :
        (g : StandingRow → ℕ) (d e : ℕ)
        → ((r : StandingRow) → g (add_set x y c r) ≡ g r + d)
        → ((r : StandingRow) → g (add_set y x (not c) r) ≡ g r + e)
        → total g (update_row b (add_set y x (not c)) (update_row a (add_set x y c) rs))
          ≡ total g rs + d + e
    twice g d e p q =
        pair-total g a b d e (add_set x y c) (add_set y x (not c)) rs (λ r. refl) p q there

-- A win of one pair is a loss of the other.
win-AddsUp :
    (a b : ℕ) (rs : List StandingRow)
    → (has_row a rs ≡ true) × (has_row b rs ≡ true)
    → AddsUp rs
    → AddsUp (update_row b add_loss (update_row a add_win rs))
win-AddsUp a b rs there up = record {
  rows =
      update_row-rows b add_loss _ (λ r e. omega arith)
        (update_row-rows a add_win rs (λ r e. omega arith) up.rows);
  matches =
      twice (λ r. r.won) 1 0 (λ r. refl) (λ r. omega arith)
      ∙ ground (arith, up.matches, twice (λ r. r.lost) 0 1 (λ r. omega arith) (λ r. refl));
  sets =
      twice (λ r. r.sets_won) 0 0 (λ r. omega arith) (λ r. omega arith)
      ∙ ground (arith, up.sets, twice (λ r. r.sets_lost) 0 0 (λ r. omega arith) (λ r. omega arith));
  games =
      twice (λ r. r.games_won) 0 0 (λ r. omega arith) (λ r. omega arith)
      ∙ ground
          (arith, up.games, twice (λ r. r.games_lost) 0 0 (λ r. omega arith) (λ r. omega arith));
}
  where
    twice :
        (g : StandingRow → ℕ) (d e : ℕ)
        → ((r : StandingRow) → g (add_win r) ≡ g r + d)
        → ((r : StandingRow) → g (add_loss r) ≡ g r + e)
        → total g (update_row b add_loss (update_row a add_win rs)) ≡ total g rs + d + e
    twice g d e p q = pair-total g a b d e add_win add_loss rs (λ r. refl) p q there

-- Two updates keep every pair's row.
keeps_rows :
    (a b i : ℕ) (f h : StandingRow → StandingRow) (rs : List StandingRow)
    → ((r : StandingRow) → (f r).pair_id ≡ r.pair_id)
    → ((r : StandingRow) → (h r).pair_id ≡ r.pair_id)
    → has_row i rs ≡ true
    → has_row i (update_row b h (update_row a f rs)) ≡ true
keeps_rows a b i f h rs p q e = update_row-has b i h _ q ∙ update_row-has a i f rs p ∙ e

count_sets-AddsUp :
    (a b : ℕ) (sets : List (ℕ × ℕ)) (rs : List StandingRow)
    → (has_row a rs ≡ true) × (has_row b rs ≡ true)
    → AddsUp rs
    → AddsUp (count_sets a b sets rs)
unfolding count_sets
count_sets-AddsUp a b [] rs there up = up
count_sets-AddsUp a b ((x, y) ∷ sets) rs there up =
    count_sets-AddsUp a b sets _
      (
        keeps_rows a b a _ _ rs (λ r. refl) (λ r. refl) there.0,
        keeps_rows a b b _ _ rs (λ r. refl) (λ r. refl) there.1,
      )
      (add_set-AddsUp a b x y (ltb y x) rs there up)

count_match-AddsUp :
    (m : PlayedMatch) (rs : List StandingRow) → AddsUp rs → AddsUp (count_match m rs)
unfolding count_match count_winner
count_match-AddsUp m rs up = elim (Bool-cases (has_row m.a rs && has_row m.b rs)) [
  | inr e ↦ rw e up
  | inl e ↦
      let there : (has_row m.a rs ≡ true) × (has_row m.b rs ≡ true) =
        (ground arith, ground arith) in
      elim (Bool-cases (m.winner == m.a)) [
        | inl w ↦
            rw (e, w)
              (count_sets-AddsUp m.a m.b m.sets _
                (
                  keeps_rows m.a m.b m.a add_win add_loss rs (λ r. refl) (λ r. refl) there.0,
                  keeps_rows m.a m.b m.b add_win add_loss rs (λ r. refl) (λ r. refl) there.1,
                )
                (win-AddsUp m.a m.b rs there up))
        | inr w ↦
            rw (e, w)
              (count_sets-AddsUp m.a m.b m.sets _
                (
                  keeps_rows m.b m.a m.a add_win add_loss rs (λ r. refl) (λ r. refl) there.0,
                  keeps_rows m.b m.a m.b add_win add_loss rs (λ r. refl) (λ r. refl) there.1,
                )
                (win-AddsUp m.b m.a rs (there.1, there.0) up))
      ]
]

count_matches-AddsUp :
    (ms : List PlayedMatch) (rs : List StandingRow) → AddsUp rs → AddsUp (count_matches ms rs)
unfolding count_matches
count_matches-AddsUp [] rs up = up
count_matches-AddsUp (m ∷ ms) rs up =
    count_matches-AddsUp ms (count_match m rs) (count_match-AddsUp m rs up)

-- Sorting keeps what adds up.
insert_row-total :
    (g : StandingRow → ℕ) (c : StandingRow → StandingRow → Sign) (r : StandingRow)
    (rs : List StandingRow)
    → total g (insert_row c r rs) ≡ g r + total g rs
unfolding insert_row
insert_row-total g c r [] = refl
insert_row-total g c r (s ∷ ss) = ground (arith, insert_row-total g c r ss)

pub sort_rows-total :
    (g : StandingRow → ℕ) (c : StandingRow → StandingRow → Sign) (rs : List StandingRow)
    → total g (sort_rows c rs) ≡ total g rs
unfolding sort_rows
sort_rows-total g c [] = refl
sort_rows-total g c (r ∷ rs) =
    insert_row-total g c r (sort_rows c rs) ∙ omega (arith, sort_rows-total g c rs)

insert_row-rows :
    (c : StandingRow → StandingRow → Sign) (r : StandingRow) (rs : List StandingRow)
    → Balances r
    → All Balances rs
    → All Balances (insert_row c r rs)
unfolding insert_row
insert_row-rows c r [] b h = (b, tt)
insert_row-rows c r (s ∷ ss) b h = elim (Bool-cases (goes_after (c r s))) [
  | inl e ↦ rw e (h.0, insert_row-rows c r ss b h.1)
  | inr e ↦ rw e (b, h)
]

sort_rows-rows :
    (c : StandingRow → StandingRow → Sign) (rs : List StandingRow)
    → All Balances rs
    → All Balances (sort_rows c rs)
unfolding sort_rows
sort_rows-rows c [] h = tt
sort_rows-rows c (r ∷ rs) h = insert_row-rows c r (sort_rows c rs) h.0 (sort_rows-rows c rs h.1)

sort_rows-AddsUp :
    (c : StandingRow → StandingRow → Sign) (rs : List StandingRow)
    → AddsUp rs
    → AddsUp (sort_rows c rs)
sort_rows-AddsUp c rs up = record {
  rows = sort_rows-rows c rs up.rows;
  matches = sort_rows-total _ c rs ∙ up.matches ∙ sym (sort_rows-total _ c rs);
  sets = sort_rows-total _ c rs ∙ up.sets ∙ sym (sort_rows-total _ c rs);
  games = sort_rows-total _ c rs ∙ up.games ∙ sym (sort_rows-total _ c rs);
}

keep-total :
    (g : StandingRow → ℕ) (p : StandingRow → Bool) (rs : List StandingRow)
    → total g rs ≡ 0
    → total g (keep p rs) ≡ 0
keep-total g p [] h = refl
keep-total g p (r ∷ rs) h = ground (arith, keep-total g p rs)

rows_of-total :
    (g : StandingRow → ℕ) (ids : List ℕ)
    → ((i : ℕ) → g (empty_row i) ≡ 0)
    → total g (rows_of ids) ≡ 0
unfolding rows_of
rows_of-total g [] z = refl
rows_of-total g (i ∷ ids) z =
    omega
      (arith, z i, keep-total g (λ r. not (r.pair_id == i)) (rows_of ids) (rows_of-total g ids z))

keep-rows :
    (p : StandingRow → Bool) (rs : List StandingRow) → All Balances rs → All Balances (keep p rs)
keep-rows p [] h = tt
keep-rows p (r ∷ rs) h = elim (Bool-cases (p r)) [
  | inl e ↦ rw e (h.0, keep-rows p rs h.1)
  | inr e ↦ rw e (keep-rows p rs h.1)
]

rows_of-rows : (ids : List ℕ) → All Balances (rows_of ids)
unfolding rows_of
rows_of-rows [] = tt
rows_of-rows (i ∷ ids) = (refl, keep-rows _ (rows_of ids) (rows_of-rows ids))

rows_of-AddsUp : (ids : List ℕ) → AddsUp (rows_of ids)
rows_of-AddsUp ids = record {
  rows = rows_of-rows ids;
  matches = rows_of-total _ ids (λ i. refl) ∙ sym (rows_of-total _ ids (λ i. refl));
  sets = rows_of-total _ ids (λ i. refl) ∙ sym (rows_of-total _ ids (λ i. refl));
  games = rows_of-total _ ids (λ i. refl) ∙ sym (rows_of-total _ ids (λ i. refl));
}

-- The table of a zona adds up, whatever matches it is given, also with missing pairs, pairs of other
-- zonas or a pair against itself: every pair has as many matches as wins and losses, and over the
-- table wins and losses, sets won and lost, and games won and lost are as many.
pub compute_standings-AddsUp :
    (ids : List ℕ) (matches : List StandingsMatch) → AddsUp (compute_standings ids matches)
unfolding compute_standings
compute_standings-AddsUp ids matches =
    sort_rows-AddsUp _ _
      (count_matches-AddsUp (played_matches matches) (rows_of ids) (rows_of-AddsUp ids))
