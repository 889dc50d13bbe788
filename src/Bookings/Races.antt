-- ===== src/Bookings/Races.antt =====
-- What happens when the row that `cancel` read is no longer where it was: the transaction checks the
-- status of the booking and not its slot.
use padel_bot_api.Prelude.{
  ℕ, ◌≡◌, refl, ap, subst, ◌∙◌, ◌≢◌, Bool, true, false, not, none, some, arith,
}
use padel_bot_api.Prelude.Table.{find, find-modify}
use padel_bot_api.Bookings.Model.{
  Db, Slot, SlotStatus, Booking, is_cancelled, same_status, slot_keyed, booking_keyed,
}
use padel_bot_api.Bookings.Courts.{view, IsSafe}
use padel_bot_api.Bookings.Lifecycle.{cancel_write, CancellationOutcome, cancel_data}
use padel_bot_api.Bookings.Monad.{
  transaction, raise_if, ◌>>=◌, ok, Result, settle, Action, continue, conflict,
}
use padel_bot_api.Bookings.Statements.{update_booking_if, set_slot_status, give_credit}
use padel_bot_api.Bookings.Transitions.{with_status, with_booking, status-with_status}

bind_ok :
    {A B : Type 0} (m : Action A) (f : A → Action B) (a : A) (db db1 : Db)
    → m db ≡ (ok a, db1)
    → (m >>= f) db ≡ f a db1
unfolding ◌>>=◌
bind_ok m f a db db1 e = ap (λ r. continue r.0 f r.1) e

cancel_write-run :
    (b c : Booking) (s : Slot) (out : CancellationOutcome) (declined : Bool) (now : ℕ) (db : Db)
    → find b.id db.bookings ≡ some c
    → same_status b.status c.status ≡ true
    → find b.slot_id db.slots ≡ some s
    → b.player_id ≡ none
    → cancel_write b out declined now db ≡ (
      ok tt,
      with_status b.slot_id SlotStatus.available
          (with_booking b.id (cancel_data out.deposit_outcome declined now) db),
    )
unfolding cancel_write transaction
cancel_write-run b c s out declined now db found same slot guest = ap (settle db) (
    bind_ok
      (update_booking_if b.id (λ x. same_status b.status x.status)
        (cancel_data out.deposit_outcome declined now))
      _ true db db1 (unfold update_booking_if in ground arith)
    ∙ bind_ok (raise_if (not true) conflict) _ tt db1 db1 (unfold raise_if in refl)
    ∙ bind_ok (set_slot_status b.slot_id SlotStatus.available) _ tt db1
        (with_status b.slot_id SlotStatus.available db1) (unfold set_slot_status in ground arith)
    ∙ guest_credit)
  where
    db1 : Db
    db1 = with_booking b.id (cancel_data out.deposit_outcome declined now) db

    guest_credit :
        give_credit b.player_id out.credit_delta_cents
          (with_status b.slot_id SlotStatus.available db1)
        ≡ (ok tt, with_status b.slot_id SlotStatus.available db1)
    guest_credit = unfold give_credit in ground arith

-- If `cancel` read a guest's booking on a slot that is another active booking's by the time of its
-- transaction, and the status of the booking is the one that was read, then the database is not safe
-- after the transaction: the slot is on sale under the other booking.
pub cancel_write-stale :
    (b c d : Booking) (s : Slot) (out : CancellationOutcome) (declined : Bool) (now : ℕ) (db : Db)
    → find b.id db.bookings ≡ some c
    → same_status b.status c.status ≡ true
    → find d.id db.bookings ≡ some d
    → b.id ≢ d.id
    → is_cancelled d.status ≡ false
    → d.slot_id ≡ b.slot_id
    → find b.slot_id db.slots ≡ some s
    → b.player_id ≡ none
    → ¬ IsSafe (view (cancel_write b out declined now db).1)
cancel_write-stale b c d s out declined now db found same other differ active on slot guest safe =
    let write = cancel_data out.deposit_outcome declined now in
    let db2 = with_status b.slot_id SlotStatus.available (with_booking b.id write db) in
    let safe2 =
      subst (λ (r : Result (Unit {0}) × Db). IsSafe (view r.1))
        (cancel_write-run b c s out declined now db found same slot guest) safe in
    let held : (view db2).holding d.id ≡ some b.slot_id =
      ground (arith, find-modify b.id d.id write db.bookings (λ x. refl)) in
    ground (
      arith,
      safe2.marked d.id b.slot_id held,
      status-with_status b.slot_id b.slot_id SlotStatus.available (with_booking b.id write db) s
          slot,
    )
