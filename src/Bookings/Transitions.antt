-- ===== src/Bookings/Transitions.antt =====
-- The transactions of the service, each one change of the abstract courts or none.
use padel_bot_api.Prelude.{
  not, ℕ, ◌≡◌, refl, sym, subst, ◌≢◌, ◌⊎◌, inl, inr, Bool, true, false, ◌&&◌, none, some, arith,
  ◌==◌, if◌then◌else◌, Bool-cases, Option-cases,
}
use padel_bot_api.Prelude.Table.{find, modify, find-modify, find-cons}
use padel_bot_api.Bookings.Model.{
  Db, Slot, SlotStatus, Booking, is_available, is_cancelled, slot_keyed, booking_keyed, same_status,
}
use padel_bot_api.Bookings.Monad.{ok, err, conflict, record_missing, ◌>>=◌, raise_if}
use padel_bot_api.Bookings.Statements.{
  create_booking, lock_slot_or_throw, book_slot_if, set_slot_status, update_booking_if,
  update_booking,
}
use padel_bot_api.Bookings.Lifecycle.{
  take_slot, cancel_write, reschedule_write, cancel_data, move_data, CancellationOutcome,
}
use padel_bot_api.Bookings.Courts.{
  view, status_of, take, done, next, release, Move, change, Moves-trans,
}
use padel_bot_api.Bookings.Steps.{
  Steps, Steps-transaction, Commits, Committed, Commits-last, Commits-ok, Commits-err,
  Commits-raise_if,
}
use padel_bot_api.Bookings.Statements.Courts.{Steps-give_credit}

abbrev pub mark : SlotStatus → Slot → Slot
mark status s = record s { status = status }

abbrev pub with_status : ℕ → SlotStatus → Db → Db
with_status i status db = record db { slots = modify i (mark status) db.slots }

-- `lockSlotOrThrow` throws and leaves all as it was, or finds the slot on sale and books it.
pub lock_cases :
    (i club_id : ℕ) (db : Db)
    → (lock_slot_or_throw i club_id db ≡ (err conflict, db))
      ⊎ ((s : Slot) × (find i db.slots ≡ some s)
          × (s.status ≡ SlotStatus.available)
          × (s.club_id ≡ club_id)
          × (lock_slot_or_throw i club_id db ≡ (ok tt, with_status i SlotStatus.booked db)))
unfolding lock_slot_or_throw book_slot_if raise_if ◌>>=◌
lock_cases i club_id db = elim (Option-cases (find i db.slots)) [
  | inl e ↦ inl (ground arith)
  | inr (s, e) ↦ elim (Bool-cases (is_available s.status && (s.club_id == club_id))) [
    | inl t ↦ inr (s, e, ground arith, ground arith, ground arith)
    | inr f ↦ inl (ground arith)
  ]
]

pub status-with_status :
    (i t : ℕ) (status : SlotStatus) (db : Db) (s : Slot)
    → find i db.slots ≡ some s
    → status_of (find t (modify i (mark status) db.slots))
      ≡ (if i == t then some status else status_of (find t db.slots))
status-with_status i t status db s e =
    ground (arith, find-modify i t (mark status) db.slots (λ r. refl))

-- A conditional update writes the row when the test passes, and otherwise nothing.
pub update_booking_if_cases :
    (i : ℕ) (test : Booking → Bool) (f : Booking → Booking) (db : Db)
    → (update_booking_if i test f db ≡ (ok false, db))
      ⊎ ((b : Booking) × (find i db.bookings ≡ some b)
          × (test b ≡ true)
          × (update_booking_if i test f db
              ≡ (ok true, record db { bookings = modify i f db.bookings })))
unfolding update_booking_if
update_booking_if_cases i test f db = elim (Option-cases (find i db.bookings)) [
  | inl e ↦ inl (ground arith)
  | inr (b, e) ↦ elim (Bool-cases (test b)) [
    | inl t ↦ inr (b, e, t, ground arith)
    | inr t ↦ inl (ground arith)
  ]
]

pub set_slot_status_cases :
    (i : ℕ) (status : SlotStatus) (db : Db)
    → (set_slot_status i status db ≡ (err record_missing, db))
      ⊎ ((s : Slot) × (find i db.slots ≡ some s)
          × (set_slot_status i status db ≡ (ok tt, with_status i status db)))
unfolding set_slot_status
set_slot_status_cases i status db = elim (Option-cases (find i db.slots)) [
  | inl e ↦ inl (ground arith)
  | inr (s, e) ↦ inr (s, e, ground arith)
]

abbrev pub with_booking : ℕ → (Booking → Booking) → Db → Db
with_booking i f db = record db { bookings = modify i f db.bookings }

-- Cancelling a row and freeing its slot is one release.
pub release-Move :
    (i r : ℕ) (c : Booking) (f : Booking → Booking) (db : Db) (s : Slot)
    → find i db.bookings ≡ some c
    → c.slot_id ≡ r
    → find r db.slots ≡ some s
    → is_cancelled c.status ≡ false
    → ((b : Booking) → ((f b).id ≡ b.id) × (is_cancelled (f b).status ≡ true))
    → Move (view db) (view (with_status r SlotStatus.available (with_booking i f db)))
release-Move i r c f db s found on slot_found active kept =
    release i r (ground arith)
      (λ j. ground (arith, find-modify i j f db.bookings (λ b. (kept b).0), kept c))
      (λ t. status-with_status r t SlotStatus.available db s slot_found)

-- A row that stays in force moves to a slot that is free, and leaves its old one on sale.
pub change-Move :
    (i r t : ℕ) (c : Booking) (f : Booking → Booking) (db : Db) (s u : Slot)
    → find i db.bookings ≡ some c
    → c.slot_id ≡ r
    → r ≢ t
    → find r db.slots ≡ some s
    → find t db.slots ≡ some u
    → u.status ≡ SlotStatus.available
    → is_cancelled c.status ≡ false
    → ((b : Booking) → ((f b).id ≡ b.id) × ((f b).slot_id ≡ t) × ((f b).status ≡ b.status))
    → Move (view db) (
        view (
          with_booking i f
            (with_status t SlotStatus.booked (with_status r SlotStatus.available db))))
change-Move i r t c f db s u found on differ old_found new_found free active kept =
    change i r t (ground arith) differ (inl (ground arith))
      (λ j. ground (arith, find-modify i j f db.bookings (λ b. (kept b).0), kept c))
      (λ q. ground (
        arith,
        find-modify r t (mark SlotStatus.available) db.slots (λ x. refl),
        find-modify r q (mark SlotStatus.available) db.slots (λ x. refl),
        find-modify t q (mark SlotStatus.booked) (modify r (mark SlotStatus.available) db.slots)
            (λ x. refl),
      ))

-- Only a booking that is new, that is not cancelled and that names the slot takes it.
pub take-Commits :
    (i club_id : ℕ) (b : Booking) (db : Db)
    → find b.id db.bookings ≡ none
    → b.slot_id ≡ i
    → is_cancelled b.status ≡ false
    → Commits (view db) db (lock_slot_or_throw i club_id >>= λ _. create_booking b)
unfolding create_booking
take-Commits i club_id b db fresh names active = elim (lock_cases i club_id db) [
  | inl e ↦ Commits-err (view db) db _ _ conflict db e
  | inr (s, found, free, _, e) ↦ Commits-ok (view db) db _ _ tt _ e (
      Commits-last (view db) _ _ (
        next done (
          take b.id i (ground arith) (inl (ground arith))
            (λ j. ground (arith, find-cons j b db.bookings))
            (λ t. status-with_status i t SlotStatus.booked db s found))))
]

pub take_slot-Steps :
    (i club_id : ℕ) (b : Booking) (db : Db)
    → find b.id db.bookings ≡ none
    → b.slot_id ≡ i
    → is_cancelled b.status ≡ false
    → Steps db (take_slot i club_id b)
unfolding take_slot
take_slot-Steps i club_id b db fresh names active =
    Steps-transaction db _ (take-Commits i club_id b db fresh names active)

-- The transaction of `cancel`, on any state of the database: one release, or nothing, provided
-- that the booking is still on the slot that was read.
pub cancel_write-Steps :
    (b : Booking) (out : CancellationOutcome) (declined : Bool) (now : ℕ) (db : Db)
    → is_cancelled b.status ≡ false
    → ((c : Booking) → find b.id db.bookings ≡ some c → c.slot_id ≡ b.slot_id)
    → Steps db (cancel_write b out declined now)
unfolding cancel_write
cancel_write-Steps b out declined now db active same_slot =
    Steps-transaction db _
      (elim (update_booking_if_cases b.id (λ c. same_status b.status c.status)
        (cancel_data out.deposit_outcome declined now) db) [
          | inl missed ↦
              Commits-ok (view db) db _ _ false db missed
                (Commits-raise_if (view db) db (not false) conflict _ (λ h. cc))
          | inr (c, found, hit, written) ↦ Commits-ok (view db) db _ _ true _ written (
              Commits-raise_if (view db) _ (not true) conflict _ λ _.
                elim (set_slot_status_cases b.slot_id SlotStatus.available
                  (with_booking b.id (cancel_data out.deposit_outcome declined now) db)) [
                    | inl e ↦ Commits-err (view db) _ _ _ record_missing _ e
                    | inr (s, slot_found, e) ↦ Commits-ok (view db) _ _ _ tt _ e (
                        Commits-last (view db) _ _ (
                          Moves-trans
                            (next done (
                              release-Move b.id b.slot_id c _ db s found (same_slot c found)
                                slot_found (ground arith) (λ _. (refl, refl))))
                            (Steps-give_credit _ b.player_id out.credit_delta_cents).at))
                  ])
        ])

pub update_booking_cases :
    (i : ℕ) (f : Booking → Booking) (db : Db)
    → (update_booking i f db ≡ (err record_missing, db))
      ⊎ ((b : Booking) × (find i db.bookings ≡ some b)
          × (update_booking i f db ≡ (ok tt, with_booking i f db)))
unfolding update_booking
update_booking_cases i f db = elim (Option-cases (find i db.bookings)) [
  | inl e ↦ inl (ground arith)
  | inr (b, e) ↦ inr (b, e, ground arith)
]

-- The transaction of `reschedule`, on any state of the database: one change of slot, or nothing,
-- provided that the booking is still in force and on the slot that was read.
pub reschedule_write-Steps :
    (b : Booking) (t club_id : ℕ) (db : Db)
    → b.slot_id ≢ t
    → ((c : Booking)
        → find b.id db.bookings ≡ some c
        → (c.slot_id ≡ b.slot_id) × (is_cancelled c.status ≡ false))
    → Steps db (reschedule_write b t club_id)
unfolding reschedule_write
reschedule_write-Steps b t club_id db differ fresh =
    Steps-transaction db _ (elim (set_slot_status_cases b.slot_id SlotStatus.available db) [
      | inl e ↦ Commits-err (view db) db _ _ record_missing db e
      | inr (s, old_found, e) ↦
          Commits-ok (view db) db _ _ tt _ e
            (elim (lock_cases t club_id (with_status b.slot_id SlotStatus.available db)) [
              | inl l ↦ Commits-err (view db) _ _ _ conflict _ l
              | inr (u, new_found, free, _, l) ↦
                  Commits-ok (view db) _ _ _ tt _ l
                    (elim (update_booking_cases b.id (move_data t) (
                      with_status t SlotStatus.booked
                        (with_status b.slot_id SlotStatus.available db))) [
                          | inl gone ↦ record { at = subst (Committed (view db)) (sym gone) tt }
                          | inr (c, found, w) ↦ record {
                            at = subst (Committed (view db)) (sym w) (
                                next done (
                                  change-Move b.id b.slot_id t c (move_data t) db s u found
                                    (fresh c found).0 differ old_found
                                    (ground (
                                      arith,
                                      find-modify b.slot_id t (mark SlotStatus.available) db.slots
                                          (λ x. refl),
                                    ))
                                    free (fresh c found).1 (λ _. (refl, refl, refl))));
                          }
                        ])
            ])
    ])
