-- ===== src/Bookings/Repricing.antt =====
-- src/pricing/slot-pricing.service.ts: the price that a slot carries when it goes back on sale.
-- The club's wall clock (`Intl`) comes in as the functions of `Clock`.
use mathlib.Core.Option
use padel_bot_api.Prelude.{
  ℕ, Bool, not, ◌&&◌, ◌||◌, Option, none, some, List, [], ◌∷◌, ltb, ◌==◌, if◌then◌else◌, is_some,
  or_else, keep, any_of,
}
use padel_bot_api.Prelude.Text.{Text}
use padel_bot_api.Prelude.Table.{find, modify}
use padel_bot_api.Pricing.{resolve_band_price_cents}
use padel_bot_api.Bookings.Model.{
  Db, Slot, Booking, PlayerPayment, RecurringBooking, Court, is_pending, is_cancelled, slot_keyed,
  court_keyed, recurring_keyed,
}
use padel_bot_api.Bookings.Monad.{Action, ok}

-- The weekday and the wall-clock time of an instant, in the club's time zone, and the instant of a
-- wall-clock time that is written as if it were UTC.
pub record Clock : Type 0 where
  pub weekday : ℕ → ℕ
  pub wall_time : ℕ → Text
  pub to_utc : ℕ → ℕ

abbrev pub has_player_payment : ℕ → List PlayerPayment → Bool
has_player_payment booking_id ps = any_of (λ p. p.booking_id == booking_id) ps

-- `isSold`
unfoldable pub is_sold : Db → Booking → Bool
is_sold db b =
    is_pending b.status
    || is_some b.transfer_amount_cents
    || ltb 0 b.credit_applied_cents
    || ltb 0 b.local_payment_cents
    || has_player_payment b.id db.payments

-- The agreed price of a turno fijo.
abbrev pub agreed_price : Db → Booking → Option ℕ
agreed_price db b = elim b.recurring_booking_id [
  | none ↦ none
  | some r ↦ Option.map (λ (x : RecurringBooking). x.price_cents) (find r db.recurring)
]

abbrev pub first_agreed : Db → List Booking → Option ℕ
first_agreed db [] = none
first_agreed db (b ∷ bs) = elim (agreed_price db b) [ some c ↦ some c | none ↦ first_agreed db bs ]

abbrev pub active_on : ℕ → Db → List Booking
active_on slot_id db = keep (λ b. (b.slot_id == slot_id) && not (is_cancelled b.status)) db.bookings

-- `targetPriceCents`
unfoldable pub target_price_cents : Clock → Db → Slot → Court → Option ℕ
unfolding is_sold
target_price_cents clock db slot court =
    let active = active_on slot.id db in
    if any_of (is_sold db) active
    then none
    else some (
        or_else (first_agreed db active) (
          resolve_band_price_cents court.price_cents court.price_rules
            (clock.weekday slot.starts_at) (clock.wall_time slot.starts_at)))

-- The price that `repriceSlot` returns for a slot, `null` when the slot is gone.
abbrev pub repriced : Clock → Db → Option Slot → Option ℕ
repriced clock db none = none
repriced clock db (some s) = elim (find s.court_id db.courts) [
  | none ↦ none
  | some court ↦ some (or_else (target_price_cents clock db s court) s.price_cents)
]

-- The slot under the identifier, in the club when one is given.
abbrev pub slot_in : Option ℕ → ℕ → Db → Option Slot
slot_in club_id i db = elim (find i db.slots) [
  | none ↦ none
  | some s ↦ elim club_id [ none ↦ some s | some c ↦ if s.club_id == c then some s else none ]
]

-- `repriceSlot`: writing an unchanged price changes nothing, so the write is not guarded here.
unfoldable pub reprice_slot : Clock → ℕ → Option ℕ → Action (Option ℕ)
reprice_slot clock slot_id club_id db =
    let price = repriced clock db (slot_in club_id slot_id db) in
    (
      ok price,
      record db {
        slots = elim price [
          | none ↦ db.slots
          | some cents ↦ modify slot_id (λ s. record s { price_cents = cents }) db.slots
        ];
      },
    )
