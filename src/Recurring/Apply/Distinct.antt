-- ===== src/Recurring/Apply/Distinct.antt =====
-- The slots of the weeks are different ones.
use padel_bot_api.Prelude.{
  ℕ, zero, suc, ◌+◌, ◌<◌, ◌≡◌, refl, inl, inr, false, Option, none, List, [], ◌∷◌, map, arith,
  Bool-cases, All,
}
use padel_bot_api.Prelude.Table.{find}
use padel_bot_api.Schedule.{ScheduleBand, band_date_times}
use padel_bot_api.Bookings.Model.{Db, slot_keyed, booking_keyed}
use padel_bot_api.Recurring.Weeks.{Occurrence, occurrence_on, days_from, is_past}
use padel_bot_api.Recurring.Apply.{FijoEnv}
use padel_bot_api.Recurring.Apply.Takes.{has, IsDistinct}
use padel_bot_api.Recurring.Apply.Planned.{IsOnSaleAt}
use padel_bot_api.Recurring.Apply.Courts.{ids_of}

abbrev pub starts : List Occurrence → List ℕ
starts os = map (λ (o : Occurrence). o.starts_at) os

later_start :
    (to_utc : ℕ → ℕ) (band : ScheduleBand) (a b : ℕ)
    → ((x y : ℕ) → x < y → to_utc x < to_utc y)
    → a < b
    → (occurrence_on to_utc band a).starts_at < (occurrence_on to_utc band b).starts_at
unfolding occurrence_on band_date_times
later_start to_utc band a b mono lt = mono _ _ (omega arith)

new_start :
    (to_utc : ℕ → ℕ) (band : ScheduleBand) (n : ℕ) (until : Option ℕ) (d cursor : ℕ)
    → ((x y : ℕ) → x < y → to_utc x < to_utc y)
    → d < cursor
    → has
        (occurrence_on to_utc band d).starts_at
        (starts (map (occurrence_on to_utc band) (days_from n until cursor)))
      ≡ false
unfolding days_from
new_start to_utc band zero until d cursor mono lt = refl
new_start to_utc band (suc n) until d cursor mono lt = ground (
  arith,
  later_start to_utc band d cursor mono lt,
  new_start to_utc band n until d (cursor + 7) mono,
)

pub days_from-IsDistinct :
    (to_utc : ℕ → ℕ) (band : ScheduleBand) (n : ℕ) (until : Option ℕ) (cursor : ℕ)
    → ((x y : ℕ) → x < y → to_utc x < to_utc y)
    → IsDistinct (starts (map (occurrence_on to_utc band) (days_from n until cursor)))
unfolding days_from IsDistinct
days_from-IsDistinct to_utc band zero until cursor mono = tt
days_from-IsDistinct to_utc band (suc n) until cursor mono =
    elim (Bool-cases (is_past until cursor)) [
      | inl past ↦ rw past tt
      | inr still ↦ rw still (
        new_start to_utc band n until cursor (cursor + 7) mono (omega arith),
        days_from-IsDistinct to_utc band n until (cursor + 7) mono,
      )
    ]

id_new :
    (e : FijoEnv) (t : ℕ) (os : List Occurrence)
    → ((a b : ℕ) → e.fresh_slot a ≡ e.fresh_slot b → a ≡ b)
    → has t (starts os) ≡ false
    → has (e.fresh_slot t) (ids_of e os) ≡ false
id_new e t [] inj h = refl
id_new e t (o ∷ os) inj h = ground (arith, inj o.starts_at t, id_new e t os inj)

pub ids_of-IsDistinct :
    (e : FijoEnv) (os : List Occurrence)
    → ((a b : ℕ) → e.fresh_slot a ≡ e.fresh_slot b → a ≡ b)
    → IsDistinct (starts os)
    → IsDistinct (ids_of e os)
unfolding IsDistinct
ids_of-IsDistinct e [] inj d = tt
ids_of-IsDistinct e (o ∷ os) inj d =
    (id_new e o.starts_at os inj d.0, ids_of-IsDistinct e os inj d.1)

absent :
    (db : Db) (i : ℕ) (ids : List ℕ)
    → find i db.slots ≡ none
    → All (λ j. (t : ℕ) × IsOnSaleAt db t j) ids
    → has i ids ≡ false
absent db i [] h all = refl
absent db i (j ∷ ids) h all =
    let (t, (s, at, start, free)) = all.0 in ground (arith, absent db i ids h all.1)

-- New slots are none of those that are there.
pub new_absent :
    (e : FijoEnv) (db : Db) (os : List Occurrence) (ids : List ℕ)
    → ((t : ℕ) → find (e.fresh_slot t) db.slots ≡ none)
    → All (λ j. (t : ℕ) × IsOnSaleAt db t j) ids
    → All (λ x. has x ids ≡ false) (ids_of e os)
new_absent e db [] ids new all = tt
new_absent e db (o ∷ os) ids new all =
    (absent db (e.fresh_slot o.starts_at) ids (new o.starts_at) all, new_absent e db os ids new all)
