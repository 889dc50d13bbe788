-- ===== src/Competitions/Bracket/Sizes.antt =====
-- `bracketSize`: the loop ends with the smallest power of two that fits.
use padel_bot_api.Prelude.{
  ℕ, zero, suc, ◌+◌, ◌*◌, ◌≤◌, ◌<◌, ◌≡◌, refl, inl, inr, arith, ltb, Bool-cases,
}
use padel_bot_api.Competitions.Bracket.{size_from, bracket_size}

abbrev pub power : ℕ → ℕ
power zero = 1
power (suc k) = power k * 2

pub power-positive : (k : ℕ) → 1 ≤ power k
power-positive zero = omega arith
power-positive (suc k) = omega (arith, power-positive k)

-- Between a power of two and its double there is none.
pub power-gap : (i j : ℕ) → power i < power j → power i * 2 ≤ power j
power-gap zero zero h = absurd (omega arith)
power-gap zero (suc j) h = omega (arith, power-positive j)
power-gap (suc i) zero h = absurd (omega (arith, power-positive i))
power-gap (suc i) (suc j) h =
    let ih : power i * 2 ≤ power j = power-gap i j (omega arith) in omega arith

size_from-Fits : (n size count : ℕ) → 1 ≤ size → count ≤ size + n → count ≤ size_from n size count
unfolding size_from
size_from-Fits zero size count one enough = omega arith
size_from-Fits (suc n) size count one enough = ground (arith, size_from-Fits n (size * 2) count)

size_from-power : (n k count : ℕ) → (j : ℕ) × (size_from n (power (suc k)) count ≡ power (suc j))
unfolding size_from
size_from-power zero k count = (k, refl)
size_from-power (suc n) k count = elim (Bool-cases (ltb (power (suc k)) count)) [
  | inl e ↦ (let (j, same) = size_from-power n (suc k) count in (j, rw e same))
  | inr e ↦ (k, rw e refl)
]

size_from-smallest :
    (n k j count : ℕ) → power k ≤ power j → count ≤ power j → size_from n (power k) count ≤ power j
unfolding size_from
size_from-smallest zero k j count h fits = h
size_from-smallest (suc n) k j count h fits = elim (Bool-cases (ltb (power k) count)) [
  | inl e ↦ rw e (size_from-smallest n (suc k) j count (power-gap k j (ground arith)) fits)
  | inr e ↦ rw e h
]

-- For any number of entrants the loop of `bracketSize` ends, and with the smallest power of two,
-- from 2 on, that is no less than the number of entrants.
pub bracket_size_lem :
    (count : ℕ)
    → (k : ℕ) × (bracket_size count ≡ power (suc k))
      × (count ≤ bracket_size count)
      × ((j : ℕ) → count ≤ power (suc j) → bracket_size count ≤ power (suc j))
unfolding bracket_size
bracket_size_lem count =
    let (k, same) = size_from-power count 0 count in
    (
      k,
      same,
      size_from-Fits count 2 count (omega arith) (omega arith),
      λ j fits. size_from-smallest count 1 (suc j) count (omega (arith, power-positive j)) fits,
    )
