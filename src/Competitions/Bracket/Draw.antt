-- ===== src/Competitions/Bracket/Draw.antt =====
-- `buildBracket`: the first round of a bracket.
use padel_bot_api.Prelude.{
  ℕ, zero, suc, ◌-◌, ◌≤◌, ◌<◌, ◌≡◌, refl, sym, subst, ◌∙◌, inl, inr, Bool, true, Option, none, some,
  List, [], ◌∷◌, map, arith, leb, if◌then◌else◌, is_some, Bool-cases, length, sum,
}
use padel_bot_api.Competitions.Bracket.{
  BracketEntrant, bracket_size, seed_order, entrant_at, seeded, draw_of,
}
use padel_bot_api.Competitions.Bracket.Sizes.{power, power-positive, bracket_size_lem}
use padel_bot_api.Competitions.Bracket.Seeds.{
  HasSeeds, at_same, up_to, up_to-same, up_to-first, seed_order-HasSeeds, seed_order-Firsts, Firsts,
  Firsts-map, IsStrong,
}
use padel_bot_api.Competitions.Bracket.Swaps.{IsEntrant, KeepsDraw, avoid_group_clashes-KeepsDraw}

-- The places of a draw that hold an entrant of a certain kind.
abbrev pub weight : (BracketEntrant → Bool) → Option BracketEntrant → ℕ
weight test none = 0
weight test (some e) = if test e then 1 else 0

up_to-zero : (n : ℕ) → up_to (λ s. 0) n ≡ 0
up_to-zero zero = refl
up_to-zero (suc n) = omega (arith, up_to-zero n)

-- The places 1, …, n hold every entrant once, when there are enough.
seeded-sum :
    (test : BracketEntrant → Bool) (entrants : List BracketEntrant) (n : ℕ)
    → length entrants ≤ n
    → up_to (λ s. weight test (seeded entrants s)) n
      ≡ sum (map (λ e. weight test (some e)) entrants)
unfolding entrant_at
seeded-sum test [] n h = up_to-zero n
seeded-sum test (e ∷ es) zero h = absurd (omega arith)
seeded-sum test (e ∷ es) (suc n) h =
    let rest : up_to (λ s. weight test (seeded (e ∷ es) (suc s))) n
        ≡ up_to (λ s. weight test (seeded es s)) n =
      up_to-same (λ s. weight test (seeded (e ∷ es) (suc s))) (λ s. weight test (seeded es s)) n
        (λ s le.
          at_same (λ i. weight test (entrant_at (e ∷ es) i)) (suc (suc s) - 1) (suc s) (omega arith)
          ∙ at_same (λ i. weight test (entrant_at es i)) s (suc s - 1) (omega arith)) in
    omega (
      arith,
      up_to-first (λ s. weight test (seeded (e ∷ es) s)) n,
      rest,
      seeded-sum test es n (omega arith),
    )

sum-map-map {ℓ κ} :
    {A : Type ℓ} {B : Type κ} (f : A → B) (g : B → ℕ) (xs : List A)
    → sum (map g (map f xs)) ≡ sum (map (λ x. g (f x)) xs)
sum-map-map f g [] = refl
sum-map-map f g (x ∷ xs) = omega (arith, sum-map-map f g xs)

entrant_at-IsEntrant :
    (entrants : List BracketEntrant) (i : ℕ)
    → i < length entrants
    → is_some (entrant_at entrants i) ≡ true
unfolding entrant_at
entrant_at-IsEntrant [] i h = absurd (omega arith)
entrant_at-IsEntrant (e ∷ es) zero h = refl
entrant_at-IsEntrant (e ∷ es) (suc i) h = entrant_at-IsEntrant es i (omega arith)

-- The bracket is less than twice as large as the field.
half_power :
    (k count : ℕ)
    → 2 ≤ count
    → ((j : ℕ) → count ≤ power (suc j) → power (suc k) ≤ power (suc j))
    → power k < count
half_power zero count two smallest = omega arith
half_power (suc k) count two smallest = elim (Bool-cases (leb count (power (suc k)))) [
  | inl e ↦ absurd (omega (arith, smallest k (ground arith), power-positive k))
  | inr e ↦ ground arith
]

bracket_order-HasSeeds :
    (count : ℕ) → HasSeeds (bracket_size count) (seed_order (bracket_size count))
bracket_order-HasSeeds count =
    let (k, same, fits, smallest) = bracket_size_lem count in
    subst (λ n. HasSeeds n (seed_order n)) (sym same) (seed_order-HasSeeds (suc k))

sum-ones {ℓ} : {A : Type ℓ} (xs : List A) → sum (map (λ x. 1) xs) ≡ length xs
sum-ones [] = refl
sum-ones (x ∷ xs) = omega (arith, sum-ones xs)

up_to-ones : (n : ℕ) → up_to (λ s. 1) n ≡ n
up_to-ones zero = refl
up_to-ones (suc n) = omega (arith, up_to-ones n)

pub length-draw_of :
    (entrants : List BracketEntrant) → length (draw_of entrants) ≡ bracket_size (length entrants)
unfolding draw_of
length-draw_of entrants =
    sym (sum-ones (draw_of entrants))
    ∙ (avoid_group_clashes-KeepsDraw
          (map (seeded entrants) (seed_order (bracket_size (length entrants))))).0
        (λ e. 1)
    ∙ sum-map-map (seeded entrants) (λ e. 1) (seed_order (bracket_size (length entrants)))
    ∙ bracket_order-HasSeeds (length entrants) (λ s. 1)
    ∙ up_to-ones (bracket_size (length entrants))

-- In the first round every entrant stands exactly once, zona-mates moved apart or not: as many
-- places of the draw hold an entrant of any kind as there are such entrants. With two entrants or
-- more every match has one on its first side, so that no two byes meet.
pub draw_of_lem :
    (entrants : List BracketEntrant)
    → 2 ≤ length entrants
    → ((test : BracketEntrant → Bool)
        → sum (map (weight test) (draw_of entrants))
          ≡ sum (map (λ e. weight test (some e)) entrants))
      × Firsts IsEntrant (draw_of entrants)
unfolding draw_of
draw_of_lem entrants two =
    let (k, same, fits, smallest) = bracket_size_lem (length entrants) in
    let kept : KeepsDraw (map (seeded entrants) (seed_order (bracket_size (length entrants))))
        (draw_of entrants) =
      avoid_group_clashes-KeepsDraw _ in
    let half : power k < length entrants =
      half_power k (length entrants) two
        (λ j h. subst (λ n. n ≤ power (suc j)) same (smallest j h)) in
    (
      λ test.
          kept.0 (weight test)
          ∙ sum-map-map (seeded entrants) (weight test)
              (seed_order (bracket_size (length entrants)))
          ∙ bracket_order-HasSeeds (length entrants) (λ s. weight test (seeded entrants s))
          ∙ seeded-sum test entrants (bracket_size (length entrants)) fits,
      kept.1 (
          Firsts-map (IsStrong (power (suc k))) IsEntrant (seeded entrants) _
            (λ s strong. entrant_at-IsEntrant entrants (s - 1) (omega (arith, strong.0, strong.1)))
            (subst (λ n. Firsts (IsStrong (power (suc k))) (seed_order n)) (sym same)
              (seed_order-Firsts k))),
    )
