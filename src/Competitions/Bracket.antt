-- ===== src/Competitions/Bracket.antt =====
-- competitions/lib/bracket.ts: the single-elimination bracket.
pub mod Sizes
pub mod Seeds
pub mod Swaps
pub mod Draw
pub mod Rounds
use padel_bot_api.Prelude.{
  ℕ, zero, suc, ◌+◌, ◌-◌, ◌*◌, ◌/◌, ◌%◌, Bool, true, false, not, ◌&&◌, ◌||◌, Option, none, some,
  List, [], ◌∷◌, ◌++◌, map, ltb, leb, ◌==◌, if◌then◌else◌, is_some, length,
}
use padel_bot_api.Prelude.Text.{Text, text_eq}

pub record BracketEntrant : Type 0 where
  pub pair_id : ℕ
  pub label : Text
  pub group : Option Text

pub data NextSlot : Type 0 where
  slot_a slot_b : NextSlot

-- Where the winner of a match goes.
pub record Next : Type 0 where
  pub position : ℕ
  pub slot : NextSlot

pub record BracketMatch : Type 0 where
  pub round : ℕ
  pub position : ℕ
  pub a : Option BracketEntrant
  pub b : Option BracketEntrant
  pub next : Option Next

-- The doubling of `size`.
unfoldable pub size_from : ℕ → ℕ → ℕ → ℕ
size_from zero size count = size
size_from (suc n) size count =
    let rest = size_from n (size * 2) count in if ltb size count then rest else size

-- `bracketSize`; the size doubles fewer times than there are entrants.
unfoldable pub bracket_size : ℕ → ℕ
bracket_size count = size_from count 2 count

-- `order.flatMap(seed => [seed, total - seed])`
unfoldable pub couples : ℕ → List ℕ → List ℕ
couples total [] = []
couples total (seed ∷ seeds) = seed ∷ (total - seed) ∷ couples total seeds

unfoldable pub order_from : ℕ → List ℕ → ℕ → List ℕ
order_from zero order size = order
order_from (suc n) order size =
    let rest = order_from n (couples (length order * 2 + 1) order) size in
    if ltb (length order) size then rest else order

-- `seedOrder`; the order doubles fewer times than the size.
unfoldable pub seed_order : ℕ → List ℕ
seed_order size = order_from size (1 ∷ []) size

abbrev pub has_group : Option Text → Bool
has_group none = false
has_group (some []) = false
has_group (some (c ∷ cs)) = true

abbrev pub eq_group : Option Text → Option Text → Bool
eq_group (some g) (some h) = text_eq g h
eq_group (some g) none = false
eq_group none _ = false

-- `sameGroup`
unfoldable pub same_group : Option BracketEntrant → Option BracketEntrant → Bool
same_group (some x) (some y) = has_group x.group && eq_group x.group y.group
same_group (some x) none = false
same_group none y = false

-- `draw[i]`
unfoldable pub entry : ℕ → List (Option BracketEntrant) → Option BracketEntrant
entry i [] = none
entry zero (e ∷ draw) = e
entry (suc i) (e ∷ draw) = entry i draw

-- `draw[i] = e`
unfoldable pub set_entry :
    ℕ → Option BracketEntrant → List (Option BracketEntrant) → List (Option BracketEntrant)
set_entry i e [] = []
set_entry zero e (d ∷ draw) = e ∷ draw
set_entry (suc i) e (d ∷ draw) = d ∷ set_entry i e draw

-- The guards of a swap of the second entrants of the matches at `m` and `other`.
abbrev pub can_swap : ℕ → ℕ → List (Option BracketEntrant) → Bool
can_swap m other draw =
    not (other == m)
    && is_some (entry (other + 1) draw)
    && not (
        same_group (entry m draw) (entry (other + 1) draw)
        || same_group (entry other draw) (entry (m + 1) draw))

unfoldable pub swap : ℕ → ℕ → List (Option BracketEntrant) → List (Option BracketEntrant)
swap m other draw =
    set_entry (m + 1) (entry (other + 1) draw) (set_entry (other + 1) (entry (m + 1) draw) draw)

-- The search of the other match; the first argument bounds the matches left.
unfoldable pub swap_from : ℕ → ℕ → ℕ → List (Option BracketEntrant) → List (Option BracketEntrant)
swap_from zero m other draw = draw
swap_from (suc n) m other draw =
    let rest = swap_from n m (other + 2) draw in
    if ltb other (length draw)
    then if can_swap m other draw then swap m other draw else rest
    else draw

unfoldable pub part : ℕ → List (Option BracketEntrant) → List (Option BracketEntrant)
part m draw =
    if same_group (entry m draw) (entry (m + 1) draw)
    then swap_from (length draw) m 0 draw
    else draw

unfoldable pub avoid_from : ℕ → ℕ → List (Option BracketEntrant) → List (Option BracketEntrant)
avoid_from zero m draw = draw
avoid_from (suc n) m draw =
    let rest = avoid_from n (m + 2) (part m draw) in if ltb m (length draw) then rest else draw

-- `avoidGroupClashes`
unfoldable pub avoid_group_clashes : List (Option BracketEntrant) → List (Option BracketEntrant)
avoid_group_clashes draw = avoid_from (length draw) 0 draw

-- `entrants[i]`
unfoldable pub entrant_at : List BracketEntrant → ℕ → Option BracketEntrant
entrant_at [] i = none
entrant_at (e ∷ es) zero = some e
entrant_at (e ∷ es) (suc i) = entrant_at es i

abbrev pub seeded : List BracketEntrant → ℕ → Option BracketEntrant
seeded entrants seed = entrant_at entrants (seed - 1)

unfoldable pub draw_of : List BracketEntrant → List (Option BracketEntrant)
draw_of entrants =
    avoid_group_clashes (map (seeded entrants) (seed_order (bracket_size (length entrants))))

abbrev pub next_of : ℕ → ℕ → Option Next
next_of round_size position =
    if ltb 1 round_size
    then some (record {
      position = position / 2;
      slot = if position % 2 == 0 then NextSlot.slot_a else NextSlot.slot_b;
    })
    else none

unfoldable pub match_at : List (Option BracketEntrant) → ℕ → ℕ → ℕ → BracketMatch
match_at draw round round_size position = record {
  round = round;
  position = position;
  a = if round == 1 then entry (position * 2) draw else none;
  b = if round == 1 then entry (position * 2 + 1) draw else none;
  next = next_of round_size position;
}

-- The matches of a round; the first argument counts those that are left.
unfoldable pub round_from : ℕ → List (Option BracketEntrant) → ℕ → ℕ → ℕ → List BracketMatch
round_from zero draw round round_size position = []
round_from (suc n) draw round round_size position =
    match_at draw round round_size position ∷ round_from n draw round round_size (position + 1)

-- The rounds; the first argument bounds those that are left. Half a match is no match.
unfoldable pub rounds_from : ℕ → List (Option BracketEntrant) → ℕ → ℕ → List BracketMatch
rounds_from zero draw round round_size = []
rounds_from (suc n) draw round round_size =
    let rest = rounds_from n draw (round + 1) (round_size / 2) in
    if leb 1 round_size then round_from round_size draw round round_size 0 ++ rest else []

-- `buildBracket`, which throws with fewer than two entrants.
unfoldable pub build_bracket : List BracketEntrant → Option (List BracketMatch)
build_bracket entrants =
    let size = bracket_size (length entrants) in
    if ltb (length entrants) 2
    then none
    else some (rounds_from size (draw_of entrants) 1 (size / 2))
