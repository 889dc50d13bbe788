-- ===== src/Recurring/Weeks/Calendar.antt =====
-- The days of a turno fijo: none is missed, none is wrong.
use padel_bot_api.Prelude.{
  ℕ, zero, suc, ◌+◌, ◌-◌, ◌*◌, ◌/◌, ◌≤◌, ◌<◌, ◌≡◌, subst, ◌↔◌, inl, inr, Bool, true, false, Option,
  List, arith, ◌==◌, Bool-cases, any_of,
}
use padel_bot_api.Schedule.{weekday_of_key}
use padel_bot_api.Recurring.Weeks.{is_past, days_from, days_until, max_iterations, next_days}

-- A day that the turno fijo takes place on, as a calendar has it.
abbrev pub IsTurnoDay : ℕ → ℕ → Option ℕ → ℕ → Type 0
IsTurnoDay target today until d =
    (weekday_of_key d ≡ target)
    × (today ≤ d)
    × (is_past until d ≡ false)
    × (d < today + 7 * max_iterations until)

abbrev pub has : ℕ → List ℕ → Bool
has d ds = any_of (λ e. e == d) ds

-- The days of the loop are those at whole weeks from its first.
days_from_sound :
    (n : ℕ) (until : Option ℕ) (cursor d : ℕ)
    → has d (days_from n until cursor) ≡ true
    → (k : ℕ) × (k < n) × (d ≡ cursor + 7 * k) × (is_past until d ≡ false)
unfolding days_from
days_from_sound zero until cursor d h = cc
days_from_sound (suc n) until cursor d h = elim (Bool-cases (is_past until cursor)) [
  | inl past ↦ absurd (ground arith)
  | inr today ↦ elim (Bool-cases (cursor == d)) [
    | inl hit ↦ (0, omega arith, ground arith, ground arith)
    | inr miss ↦
        let (k, lt, e, still) = days_from_sound n until (cursor + 7) d (ground arith) in
        (suc k, omega arith, omega arith, still)
  ]
]

days_from_complete :
    (n : ℕ) (until : Option ℕ) (cursor k : ℕ)
    → k < n
    → is_past until (cursor + 7 * k) ≡ false
    → has (cursor + 7 * k) (days_from n until cursor) ≡ true
unfolding days_from
days_from_complete zero until cursor k lt h = absurd (omega arith)
days_from_complete (suc n) until cursor zero lt h = ground arith
days_from_complete (suc n) until cursor (suc k) lt h =
    ground (arith, days_from_complete n until (cursor + 7) k)

-- The days of a turno fijo are exactly the days of its weekday, from today on and up to its last day
-- if it has one, for eight weeks, or for a hundred and four if it has a last day.
pub next_days_iff :
    (target today : ℕ) (until : Option ℕ) (d : ℕ)
    → target < 7
    → (has d (next_days target today until) ≡ true) ↔ IsTurnoDay target today until d
unfolding next_days
next_days_iff target today until d lt = (
  λ h.
      let (k, below, e, still) =
        days_from_sound (max_iterations until) until (today + days_until target today) d h in
      (omega arith, omega arith, still, omega arith),
  λ (w, from, still, to).
      let k : ℕ = (d - (today + days_until target today)) / 7 in
      let e : today + days_until target today + 7 * k ≡ d = omega arith in
      subst (λ x. has x (next_days target today until) ≡ true) e
        (days_from_complete (max_iterations until) until (today + days_until target today) k
          (omega arith) (rw e still)),
)
