-- ===== src/Competitions/Bracket/Rounds.antt =====
-- `buildBracket`: the matches of a bracket.
use padel_bot_api.Prelude.{
  ℕ, zero, suc, ◌+◌, ◌*◌, ◌/◌, ◌≤◌, ◌≡◌, refl, sym, ap, ◌∙◌, inl, inr, Bool, Option, some, List, [],
  ◌∷◌, ◌++◌, map, arith, leb, Bool-cases, length, sum, length-append,
}
use padel_bot_api.Competitions.Bracket.{
  BracketEntrant, BracketMatch, bracket_size, draw_of, entry, match_at, round_from, rounds_from,
  build_bracket,
}
use padel_bot_api.Competitions.Bracket.Sizes.{power, power-positive, bracket_size_lem}
use padel_bot_api.Competitions.Bracket.Seeds.{at_same}
use padel_bot_api.Competitions.Bracket.Draw.{weight, draw_of_lem, length-draw_of}

-- The sides of matches that hold an entrant of a certain kind.
abbrev pub sides : (BracketEntrant → Bool) → List BracketMatch → ℕ
sides test [] = 0
sides test (m ∷ ms) = weight test m.a + weight test m.b + sides test ms

sides-append :
    (test : BracketEntrant → Bool) (ms ns : List BracketMatch)
    → sides test (ms ++ ns) ≡ sides test ms + sides test ns
sides-append test [] ns = omega arith
sides-append test (m ∷ ms) ns = omega (arith, sides-append test ms ns)

-- The places of a draw from `i` on, two by two.
abbrev pairs_from : (Option BracketEntrant → ℕ) → List (Option BracketEntrant) → ℕ → ℕ → ℕ
pairs_from g draw zero i = 0
pairs_from g draw (suc n) i =
    g (entry i draw) + g (entry (suc i) draw) + pairs_from g draw n (suc (suc i))

pairs_from-tail :
    (g : Option BracketEntrant → ℕ) (x y : Option BracketEntrant)
    (draw : List (Option BracketEntrant)) (n i : ℕ)
    → pairs_from g (x ∷ y ∷ draw) n (suc (suc i)) ≡ pairs_from g draw n i
unfolding entry
pairs_from-tail g x y draw zero i = refl
pairs_from-tail g x y draw (suc n) i = omega (arith, pairs_from-tail g x y draw n (suc (suc i)))

pairs_from-sum :
    (g : Option BracketEntrant → ℕ) (n : ℕ) (draw : List (Option BracketEntrant))
    → length draw ≡ n * 2
    → pairs_from g draw n 0 ≡ sum (map g draw)
unfolding entry
pairs_from-sum g zero [] h = refl
pairs_from-sum g zero (x ∷ draw) h = absurd (omega arith)
pairs_from-sum g (suc n) [] h = absurd (omega arith)
pairs_from-sum g (suc n) (x ∷ []) h = absurd (omega arith)
pairs_from-sum g (suc n) (x ∷ y ∷ draw) h =
    omega (arith, pairs_from-tail g x y draw n 0, pairs_from-sum g n draw (omega arith))

first_round-sides :
    (test : BracketEntrant → Bool) (draw : List (Option BracketEntrant)) (round_size n p i : ℕ)
    → i ≡ p * 2
    → sides test (round_from n draw 1 round_size p) ≡ pairs_from (weight test) draw n i
unfolding round_from match_at
first_round-sides test draw round_size zero p i h = refl
first_round-sides test draw round_size (suc n) p i h = omega (
  arith,
  at_same (λ j. weight test (entry j draw)) (p * 2) i (sym h),
  at_same (λ j. weight test (entry j draw)) (p * 2 + 1) (suc i) (omega arith),
  first_round-sides test draw round_size n (p + 1) (suc (suc i)) (omega arith),
)

later_round-sides :
    (test : BracketEntrant → Bool) (draw : List (Option BracketEntrant)) (round round_size n p : ℕ)
    → 2 ≤ round
    → sides test (round_from n draw round round_size p) ≡ 0
unfolding round_from match_at
later_round-sides test draw round round_size zero p later = refl
later_round-sides test draw round round_size (suc n) p later =
    ground (arith, later, later_round-sides test draw round round_size n (p + 1))

later_rounds-sides :
    (test : BracketEntrant → Bool) (draw : List (Option BracketEntrant)) (n round round_size : ℕ)
    → 2 ≤ round
    → sides test (rounds_from n draw round round_size) ≡ 0
unfolding rounds_from
later_rounds-sides test draw zero round round_size later = refl
later_rounds-sides test draw (suc n) round round_size later = elim (Bool-cases (leb 1 round_size)) [
  | inl e ↦ rw e (
      sides-append test (round_from round_size draw round round_size 0) _
      ∙ omega (
        arith,
        later_round-sides test draw round round_size round_size 0 later,
        later_rounds-sides test draw n (round + 1) (round_size / 2) (omega arith),
      ))
  | inr e ↦ rw e refl
]

length-round_from :
    (n : ℕ) (draw : List (Option BracketEntrant)) (round round_size p : ℕ)
    → length (round_from n draw round round_size p) ≡ n
unfolding round_from
length-round_from zero draw round round_size p = refl
length-round_from (suc n) draw round round_size p =
    ap (λ m. suc m) (length-round_from n draw round round_size (p + 1))

no_rounds :
    (n : ℕ) (draw : List (Option BracketEntrant)) (round : ℕ) → rounds_from n draw round 0 ≡ []
unfolding rounds_from
no_rounds zero draw round = refl
no_rounds (suc n) draw round = refl

rounds_from-sides :
    (test : BracketEntrant → Bool) (draw : List (Option BracketEntrant)) (n round_size : ℕ)
    → (1 ≤ n) × (1 ≤ round_size)
    → length draw ≡ round_size * 2
    → sides test (rounds_from n draw 1 round_size) ≡ sum (map (weight test) draw)
unfolding rounds_from
rounds_from-sides test draw zero round_size some_left len = absurd (omega (arith, some_left.0))
rounds_from-sides test draw (suc n) round_size some_left len =
    elim (Bool-cases (leb 1 round_size)) [
      | inl e ↦ rw e (
          sides-append test (round_from round_size draw 1 round_size 0) _
          ∙ omega (
            arith,
            first_round-sides test draw round_size round_size 0 0 refl,
            pairs_from-sum (weight test) round_size draw len,
            later_rounds-sides test draw n 2 (round_size / 2) (omega arith),
          ))
      | inr e ↦ absurd (ground (arith, some_left.1))
    ]

-- Halving goes on to the final.
length-rounds_from :
    (n k : ℕ) (draw : List (Option BracketEntrant)) (round : ℕ)
    → power k ≤ n
    → length (rounds_from n draw round (power k)) + 1 ≡ power k * 2
unfolding rounds_from round_from
length-rounds_from zero k draw round h = absurd (omega (arith, power-positive k))
length-rounds_from (suc n) zero draw round h =
    ap (λ ms. suc (length ms) + 1) (no_rounds n draw (round + 1))
length-rounds_from (suc n) (suc k) draw round h = elim (Bool-cases (leb 1 (power (suc k)))) [
  | inl e ↦ rw e (
      omega (
        arith,
        length-append (round_from (power (suc k)) draw round (power (suc k)) 0)
            (rounds_from n draw (round + 1) (power (suc k) / 2)),
        length-round_from (power (suc k)) draw round (power (suc k)) 0,
        at_same (λ m. length (rounds_from n draw (round + 1) m)) (power (suc k) / 2) (power k)
            (omega arith),
        length-rounds_from n k draw (round + 1) (omega (arith, power-positive k)),
      ))
  | inr e ↦ absurd (ground (arith, power-positive k))
]

-- A field of two or more gets a bracket. It has one match less than its size, as a knockout must,
-- and over the whole bracket every entrant is put on exactly one side of one match.
pub build_bracket_lem :
    (entrants : List BracketEntrant)
    → 2 ≤ length entrants
    → (ms : List BracketMatch) × (build_bracket entrants ≡ some ms)
      × (length ms + 1 ≡ bracket_size (length entrants))
      × ((test : BracketEntrant → Bool)
          → sides test ms ≡ sum (map (λ e. weight test (some e)) entrants))
unfolding build_bracket
build_bracket_lem entrants two =
    let (k, same, fits, smallest) = bracket_size_lem (length entrants) in
    let half : bracket_size (length entrants) / 2 ≡ power k = omega arith in
    (
      rounds_from (bracket_size (length entrants)) (draw_of entrants) 1
          (bracket_size (length entrants) / 2),
      ground (arith, two),
      at_same
            (λ m. length (rounds_from (bracket_size (length entrants)) (draw_of entrants) 1 m) + 1)
            (bracket_size (length entrants) / 2) (power k) half
          ∙ length-rounds_from (bracket_size (length entrants)) k (draw_of entrants) 1 (omega arith)
          ∙ sym same,
      λ test.
          rounds_from-sides test (draw_of entrants) (bracket_size (length entrants))
            (bracket_size (length entrants) / 2)
            (omega (arith, power-positive k), omega (arith, power-positive k))
            (length-draw_of entrants ∙ omega arith)
          ∙ (draw_of_lem entrants two).0 test,
    )
