-- ===== src/Bookings/Desk/Records.antt =====
-- The desk's records: the mark of a settled turno, and the count of ausencias.
use padel_bot_api.Prelude.{
  ℕ, ◌≡◌, refl, inl, inr, Option, none, some, arith, is_some, Bool-cases, Option-cases, ◌↔◌, ◌<◌,
  ◌*◌, ◌+◌, leb, true, Bool,
}
use padel_bot_api.Prelude.Table.{find, find-modify}
use padel_bot_api.Bookings.Model.{
  Db, Booking, booking_keyed, player_keyed, Club, PlayerRescheduleMode,
}
use padel_bot_api.Bookings.Monad.{ok, pure, ◌>>=◌}
use padel_bot_api.Bookings.Bill.{settle_view, should_be_settled}
use padel_bot_api.Bookings.Statements.{update_booking}
use padel_bot_api.Account.{BookingAccountView}
use padel_bot_api.Bookings.Desk.{reschedule_mode, is_self, RescheduleReason}
use padel_bot_api.Bookings.Lifecycle.{hour_ms}

-- Refreshing the mark of a turno whose bill was just read leaves it settled exactly when the bill is
-- paid in full and something was paid, in the answer and in the row.
pub settle_view_lem :
    (now i : ℕ) (v : BookingAccountView) (b : Booking) (db : Db)
    → find i db.bookings ≡ some b
    → b.settled_at ≡ v.settled_at
    → (w : BookingAccountView) × (c : Booking) × ((settle_view now i v db).0 ≡ ok w)
      × (find i (settle_view now i v db).1.bookings ≡ some c)
      × (is_some w.settled_at ≡ should_be_settled v)
      × (c.settled_at ≡ w.settled_at)
      × (c.status ≡ b.status)
unfolding settle_view update_booking pure ◌>>=◌
settle_view_lem now i v b db found same = elim (Bool-cases (should_be_settled v)) [
  | inl due ↦ elim (Option-cases v.settled_at) [
    | inl unset ↦ (
      record v { settled_at = some now },
      record b { settled_at = some now },
      ground arith,
      ground (arith, find-modify i i (stamp (some now)) db.bookings (λ x. refl)),
      ground arith,
      refl,
      refl,
    )
    | inr (t, set) ↦ (v, b, ground arith, ground arith, ground arith, same, refl)
  ]
  | inr open_bill ↦ elim (Option-cases v.settled_at) [
    | inl unset ↦ (v, b, ground arith, ground arith, ground arith, same, refl)
    | inr (t, set) ↦ (
      record v { settled_at = none },
      record b { settled_at = none },
      ground arith,
      ground (arith, find-modify i i (stamp none) db.bookings (λ x. refl)),
      ground arith,
      refl,
      refl,
    )
  ]
]
  where
    stamp : Option ℕ → Booking → Booking
    stamp o c = record c { settled_at = o }

-- The start is at least so many hours ahead, where a number of hours is asked for.
abbrev pub is_ahead : Option ℕ → ℕ → ℕ → Bool
is_ahead none now starts_at = true
is_ahead (some hours) now starts_at = leb (now + hours * hour_ms) starts_at

-- A player may move a reservation alone exactly when the club lets players do so, the moves of the
-- reservation are fewer than its limit, and it starts no sooner than the hours ahead that the club
-- asks for, if it asks for any; and then, and only then, the reason says that all is fine.
pub reschedule_mode_lem :
    (c : Club) (now : ℕ) (b : Booking) (starts_at : ℕ)
    → (((reschedule_mode (some c) now b starts_at).0 ≡ PlayerRescheduleMode.self) ↔ (
        (is_self c.player_reschedule ≡ true)
        × (b.reschedule_count < c.max_player_reschedules)
        × (is_ahead c.player_reschedule_cutoff_hours now starts_at ≡ true)))
      × (((reschedule_mode (some c) now b starts_at).0 ≡ PlayerRescheduleMode.self)
          ↔ ((reschedule_mode (some c) now b starts_at).1 ≡ RescheduleReason.fine))
unfolding reschedule_mode
reschedule_mode_lem c now b starts_at = elim (Option-cases c.player_reschedule_cutoff_hours) [
  | inl e ↦ (
    (λ h. (ground arith, ground arith, ground arith), λ h. ground (arith, h.0, h.1)),
    (λ h. ground arith, λ h. ground arith),
  )
  | inr (hours, e) ↦ (
    (λ h. (ground arith, ground arith, ground arith), λ h. ground (arith, h.0, h.1)),
    (λ h. ground arith, λ h. ground arith),
  )
]
