-- ===== src/Bookings/Statements/Courts.antt =====
-- The statements of the service, as changes of the courts or none.
use padel_bot_api.Prelude.{Option-cases, inl, inr, ℕ, ◌≡◌, refl, Option, none, some, arith}
use padel_bot_api.Prelude.Table.{find, modify, find-modify}
use padel_bot_api.Bookings.Model.{
  Db, Slot, Booking, Event, BookingAction, slot_keyed, booking_keyed,
}
use padel_bot_api.Bookings.Statements.{
  give_credit, increment_credit, emit, emit_booking_change, emit_slot_freed, update_booking,
}
use padel_bot_api.Bookings.Repricing.{Clock, reprice_slot, repriced, slot_in}
use padel_bot_api.Bookings.Courts.{held_by, status_of, stay, done, next}
use padel_bot_api.Bookings.Steps.{Steps-unchanged, Steps}

pub Steps-emit : (db : Db) (e : Event) → Steps db (emit e)
unfolding emit
Steps-emit db e = record { at = next done (stay (λ i. refl) (λ s. refl)) }

pub Steps-emit_booking_change :
    (db : Db) (a : BookingAction) (b : Booking) → Steps db (emit_booking_change a b)
unfolding emit_booking_change
Steps-emit_booking_change db a b = Steps-emit db _

pub Steps-emit_slot_freed : (db : Db) (s cents : ℕ) → Steps db (emit_slot_freed s cents)
unfolding emit_slot_freed emit
Steps-emit_slot_freed db s cents = Steps-unchanged db _ (ground arith) (ground arith)

pub Steps-give_credit : (db : Db) (p : Option ℕ) (cents : ℕ) → Steps db (give_credit p cents)
unfolding give_credit increment_credit
Steps-give_credit db p cents = Steps-unchanged db _ (ground arith) (ground arith)

-- An update that keeps the key and the price alone changes no status.
pub Steps-reprice_slot :
    (db : Db) (clock : Clock) (s : ℕ) (c : Option ℕ) → Steps db (reprice_slot clock s c)
unfolding reprice_slot
Steps-reprice_slot db clock s c = record {
  at = next done (stay (λ i. refl) (λ t. same (repriced clock db (slot_in c s db)) t));
}
  where
    same :
        (o : Option ℕ) (t : ℕ)
        → status_of (
            find t (elim o [
              | none ↦ db.slots
              | some cents ↦ modify s (λ (r : Slot). record r { price_cents = cents }) db.slots
            ]))
          ≡ status_of (find t db.slots)
    same none t = refl
    same (some cents) t = ground (
      arith,
      find-modify s t (λ (r : Slot). record r { price_cents = cents }) db.slots (λ r. refl),
    )

-- An update that keeps the key, the slot and the standing of a booking moves no court.
pub Steps-update_booking :
    (db : Db) (i : ℕ) (f : Booking → Booking)
    → ((b : Booking) → (f b).id ≡ b.id)
    → ((b : Booking) → find i db.bookings ≡ some b → held_by (some (f b)) ≡ held_by (some b))
    → Steps db (update_booking i f)
unfolding update_booking
Steps-update_booking db i f keyed held = record {
  at = elim (Option-cases (find i db.bookings)) [
    | inl e ↦ rw (e, update_booking) done
    | inr (b, e) ↦
        rw (e, update_booking)
          (next done (stay (λ j. same j (find j db.bookings) refl) (λ s. refl)))
  ];
}
  where
    same :
        (j : ℕ) (o : Option Booking)
        → find j db.bookings ≡ o
        → held_by (find j (modify i f db.bookings)) ≡ held_by (find j db.bookings)
    same j none e = ground (arith, find-modify i j f db.bookings keyed)
    same j (some b) e = ground (arith, find-modify i j f db.bookings keyed, held b)
