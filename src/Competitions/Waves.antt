-- ===== src/Competitions/Waves.antt =====
-- src/competitions/lib/round-robin.ts, packIntoWaves: the pairings on the courts, wave by wave.
pub mod Placed
use padel_bot_api.Prelude.{
  ℕ, zero, suc, ◌+◌, Bool, ◌||◌, Option, none, some, List, [], ◌∷◌, ◌++◌, ltb, ◌==◌, if◌then◌else◌,
  length, any_of,
}

pub record Pairing : Type 0 where
  pub round : ℕ
  pub a : ℕ
  pub b : ℕ

pub record WavedPairing : Type 0 where
  pub pairing : Pairing
  pub wave : ℕ
  pub court_index : ℕ

abbrev pub is_busy : List ℕ → ℕ → Bool
is_busy busy x = any_of (λ y. y == x) busy

-- The inner loop, with the courts that are left: what it places, and what remains in its order.
unfoldable pub fill : ℕ → ℕ → ℕ → List ℕ → List Pairing → List WavedPairing × List Pairing
fill wave court_index zero busy ps = ([], ps)
fill wave court_index (suc courts) busy [] = ([], [])
fill wave court_index (suc courts) busy (p ∷ ps) =
    let skipped = fill wave court_index (suc courts) busy ps in
    let taken = fill wave (court_index + 1) courts (p.a ∷ p.b ∷ busy) ps in
    if is_busy busy p.a || is_busy busy p.b
    then (skipped.0, p ∷ skipped.1)
    else (record { pairing = p; wave = wave; court_index = court_index } ∷ taken.0, taken.1)

-- The outer loop. Each wave places a pairing at least, so that as many waves as pairings are enough.
unfoldable pub waves_from : ℕ → ℕ → ℕ → List Pairing → List WavedPairing
waves_from zero wave court_count ps = []
waves_from (suc fuel) wave court_count ps =
    let (placed, left) = fill wave 0 court_count [] ps in
    placed ++ waves_from fuel (wave + 1) court_count left

-- For a court at least; without one the source throws.
unfoldable pub pack_into_waves : List Pairing → ℕ → Option (List WavedPairing)
pack_into_waves pairings court_count =
    if ltb court_count 1 then none else some (waves_from (length pairings) 1 court_count pairings)
