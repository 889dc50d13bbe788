-- ===== src/Competitions/Waves/Placed.antt =====
-- Every pairing is placed once, and nobody is on two courts at a time.
use padel_bot_api.Prelude.{
  ℕ, zero, suc, ◌+◌, ◌≤◌, ◌<◌, ◌≡◌, refl, ap, ◌∙◌, ◌≢◌, ◌⊎◌, inl, inr, Bool, false, ◌||◌, some,
  List, [], ◌∷◌, ◌++◌, arith, if◌then◌else◌, Bool-cases, length, All,
}
use padel_bot_api.Competitions.Waves.{
  Pairing, WavedPairing, is_busy, fill, waves_from, pack_into_waves,
}

fill-length :
    (wave court_index courts : ℕ) (busy : List ℕ) (ps : List Pairing)
    → length (fill wave court_index courts busy ps).0
        + length (fill wave court_index courts busy ps).1
      ≡ length ps
unfolding fill
fill-length wave court_index zero busy ps = omega arith
fill-length wave court_index (suc courts) busy [] = refl
fill-length wave court_index (suc courts) busy (p ∷ ps) = ground (
  arith,
  fill-length wave court_index (suc courts) busy ps,
  fill-length wave (court_index + 1) courts (p.a ∷ p.b ∷ busy) ps,
)

-- The first pairing of a wave is always placed.
fill-first :
    (wave courts : ℕ) (p : Pairing) (ps : List Pairing)
    → 1 ≤ courts
    → 1 ≤ length (fill wave 0 courts [] (p ∷ ps)).0
unfolding fill
fill-first wave zero p ps h = absurd (omega arith)
fill-first wave (suc courts) p ps h = omega arith

-- How many pairings pass a test, and how many of those that are placed.
abbrev pub count_if : (Pairing → Bool) → List Pairing → ℕ
count_if test [] = 0
count_if test (p ∷ ps) = (if test p then 1 else 0) + count_if test ps

abbrev pub count_placed : (Pairing → Bool) → List WavedPairing → ℕ
count_placed test [] = 0
count_placed test (q ∷ qs) = (if test q.pairing then 1 else 0) + count_placed test qs

count_placed-append :
    (test : Pairing → Bool) (xs ys : List WavedPairing)
    → count_placed test (xs ++ ys) ≡ count_placed test xs + count_placed test ys
count_placed-append test [] ys = omega arith
count_placed-append test (x ∷ xs) ys = ground (arith, count_placed-append test xs ys)

fill-count_if :
    (test : Pairing → Bool) (wave court_index courts : ℕ) (busy : List ℕ) (ps : List Pairing)
    → count_placed test (fill wave court_index courts busy ps).0
        + count_if test (fill wave court_index courts busy ps).1
      ≡ count_if test ps
unfolding fill
fill-count_if test wave court_index zero busy ps = omega arith
fill-count_if test wave court_index (suc courts) busy [] = refl
fill-count_if test wave court_index (suc courts) busy (p ∷ ps) = ground (
  arith,
  fill-count_if test wave court_index (suc courts) busy ps,
  fill-count_if test wave (court_index + 1) courts (p.a ∷ p.b ∷ busy) ps,
)

waves_from-count_if :
    (test : Pairing → Bool) (fuel wave courts : ℕ) (ps : List Pairing)
    → 1 ≤ courts
    → length ps ≤ fuel
    → count_placed test (waves_from fuel wave courts ps) ≡ count_if test ps
unfolding waves_from
waves_from-count_if test zero wave courts [] h enough = refl
waves_from-count_if test zero wave courts (p ∷ ps) h enough = absurd (omega arith)
waves_from-count_if test (suc fuel) wave courts ps h enough =
    let (placed, left) = fill wave 0 courts [] ps in
    let fewer = left_fewer ps in
    count_placed-append test placed (waves_from fuel (wave + 1) courts left)
    ∙ ap (λ n. count_placed test placed + n)
        (waves_from-count_if test fuel (wave + 1) courts left h (omega arith))
    ∙ fill-count_if test wave 0 courts [] ps
  where
    left_fewer :
        (qs : List Pairing)
        → (length (fill wave 0 courts [] qs).1 < length qs)
          ⊎ (length (fill wave 0 courts [] qs).1 ≡ 0)
    left_fewer [] = inr (omega (arith, fill-length wave 0 courts [] []))
    left_fewer (q ∷ qs) =
        inl (omega (arith, fill-length wave 0 courts [] (q ∷ qs), fill-first wave courts q qs h))

-- Nobody of `p` plays in `q`.
abbrev pub AreApart : Pairing → Pairing → Type 0
AreApart p q = (p.a ≢ q.a) × (p.a ≢ q.b) × (p.b ≢ q.a) × (p.b ≢ q.b)

-- Of two pairings of the same wave nobody plays in both.
abbrev pub IsClashFree : List WavedPairing → Type 0
IsClashFree [] = Unit {0}
IsClashFree (p ∷ ps) = All (λ q. q.wave ≡ p.wave → AreApart p.pairing q.pairing) ps × IsClashFree ps

-- Where a wave puts a pairing: on a court that there is, with nobody that is busy.
abbrev IsPlaced : ℕ → ℕ → List ℕ → WavedPairing → Type 0
IsPlaced wave top busy q =
    (q.wave ≡ wave)
    × (q.court_index < top)
    × (is_busy busy q.pairing.a ≡ false)
    × (is_busy busy q.pairing.b ≡ false)

All-map :
    {P Q : WavedPairing → Type 0} (qs : List WavedPairing)
    → ((q : WavedPairing) → P q → Q q)
    → All P qs
    → All Q qs
All-map [] f h = tt
All-map (q ∷ qs) f h = (f q h.0, All-map qs f h.1)

fill-IsPlaced :
    (wave court_index courts : ℕ) (busy : List ℕ) (ps : List Pairing)
    → All (IsPlaced wave (court_index + courts) busy) (fill wave court_index courts busy ps).0
unfolding fill
fill-IsPlaced wave court_index zero busy ps = tt
fill-IsPlaced wave court_index (suc courts) busy [] = tt
fill-IsPlaced wave court_index (suc courts) busy (p ∷ ps) =
    elim (Bool-cases (is_busy busy p.a || is_busy busy p.b)) [
      | inl e ↦ rw e (fill-IsPlaced wave court_index (suc courts) busy ps)
      | inr e ↦ rw e (
        (refl, omega arith, ground arith, ground arith),
        All-map _ (λ q h. (h.0, omega arith, ground arith, ground arith))
            (fill-IsPlaced wave (court_index + 1) courts (p.a ∷ p.b ∷ busy) ps),
      )
    ]

fill-IsClashFree :
    (wave court_index courts : ℕ) (busy : List ℕ) (ps : List Pairing)
    → IsClashFree (fill wave court_index courts busy ps).0
unfolding fill
fill-IsClashFree wave court_index zero busy ps = tt
fill-IsClashFree wave court_index (suc courts) busy [] = tt
fill-IsClashFree wave court_index (suc courts) busy (p ∷ ps) =
    elim (Bool-cases (is_busy busy p.a || is_busy busy p.b)) [
      | inl e ↦ rw e (fill-IsClashFree wave court_index (suc courts) busy ps)
      | inr e ↦ rw e (
        All-map _
            (λ q h same.
              ((λ x. ground arith), (λ x. ground arith), (λ x. ground arith), (λ x. ground arith)))
            (fill-IsPlaced wave (court_index + 1) courts (p.a ∷ p.b ∷ busy) ps),
        fill-IsClashFree wave (court_index + 1) courts (p.a ∷ p.b ∷ busy) ps,
      )
    ]

All-append :
    (P : WavedPairing → Type 0) (xs ys : List WavedPairing) → All P xs → All P ys → All P (xs ++ ys)
All-append P [] ys h k = k
All-append P (x ∷ xs) ys h k = (h.0, All-append P xs ys h.1 k)

-- Waves that come one after the other do not clash.
append-IsClashFree :
    (wave : ℕ) (xs ys : List WavedPairing)
    → All (λ q. q.wave ≡ wave) xs
    → All (λ q. wave < q.wave) ys
    → IsClashFree xs
    → IsClashFree ys
    → IsClashFree (xs ++ ys)
append-IsClashFree wave [] ys now later h k = k
append-IsClashFree wave (x ∷ xs) ys now later h k = (
  All-append _ xs ys h.0 (All-map ys (λ q after same. absurd (omega arith)) later),
  append-IsClashFree wave xs ys now.1 later h.1 k,
)

-- Whatever is placed from a wave on is in that wave or a later one, on a court that there is.
waves_from-All :
    (fuel wave courts : ℕ) (ps : List Pairing)
    → All (λ q. (wave ≤ q.wave) × (q.court_index < courts)) (waves_from fuel wave courts ps)
unfolding waves_from
waves_from-All zero wave courts ps = tt
waves_from-All (suc fuel) wave courts ps =
    let (placed, left) = fill wave 0 courts [] ps in
    All-append _ placed _
      (All-map placed (λ q h. (omega arith, omega arith)) (fill-IsPlaced wave 0 courts [] ps))
      (All-map _ (λ q h. (omega arith, h.1)) (waves_from-All fuel (wave + 1) courts left))

waves_from-IsClashFree :
    (fuel wave courts : ℕ) (ps : List Pairing) → IsClashFree (waves_from fuel wave courts ps)
unfolding waves_from
waves_from-IsClashFree zero wave courts ps = tt
waves_from-IsClashFree (suc fuel) wave courts ps =
    let (placed, left) = fill wave 0 courts [] ps in
    append-IsClashFree wave placed _
      (All-map placed (λ q h. h.0) (fill-IsPlaced wave 0 courts [] ps))
      (All-map _ (λ q h. omega arith) (waves_from-All fuel (wave + 1) courts left))
      (fill-IsClashFree wave 0 courts [] ps) (waves_from-IsClashFree fuel (wave + 1) courts left)

-- With a court at least, packing ends and places every pairing as often as it was given, as any test
-- of pairings counts them, each on a court that there is, and of two matches of the same wave nobody
-- plays in both.
pub pack_into_waves_lem :
    (pairings : List Pairing) (courts : ℕ)
    → 1 ≤ courts
    → (placed : List WavedPairing) × (pack_into_waves pairings courts ≡ some placed)
      × ((test : Pairing → Bool) → count_placed test placed ≡ count_if test pairings)
      × All (λ q. (1 ≤ q.wave) × (q.court_index < courts)) placed
      × IsClashFree placed
unfolding pack_into_waves
pack_into_waves_lem pairings courts h = (
  waves_from (length pairings) 1 courts pairings,
  ground arith,
  (λ test. waves_from-count_if test (length pairings) 1 courts pairings h (omega arith)),
  waves_from-All (length pairings) 1 courts pairings,
  waves_from-IsClashFree (length pairings) 1 courts pairings,
)
