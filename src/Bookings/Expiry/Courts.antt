-- ===== src/Bookings/Expiry/Courts.antt =====
-- Letting a pending booking go is one release of its slot, and a sweep is a sequence of releases.
use padel_bot_api.Prelude.{
  ℕ, ◌≡◌, refl, inl, inr, Bool, true, false, Option, none, some, arith, Option-cases,
}
use padel_bot_api.Prelude.Table.{find, find-key}
use padel_bot_api.Bookings.Model.{
  Db, SlotStatus, Booking, is_pending, slot_keyed, booking_keyed, Receipt,
}
use padel_bot_api.Bookings.Courts.{view, done, next, Moves-trans}
use padel_bot_api.Bookings.Payments.Courts.{Steps-update_booking_if, confirm_payment-Steps}
use padel_bot_api.Bookings.Expiry.{
  reject_payment, release_write, reprice_if, after_sweep_release, after_release, cancel_pending,
  release_pending_slot, announce_freed, sweep_one, release_slot_of, cancel_pending_row,
  cancel_if_pending, expire_data, confirm_payment_manual, attach_receipt, record_receipt_reading,
  record_pending_player_dni,
}
use padel_bot_api.Bookings.Repricing.{Clock}
use padel_bot_api.Bookings.Lifecycle.{Env}
use padel_bot_api.Bookings.Steps.{
  Steps, Steps-bind, Steps-gets, Steps-pure, Steps-transaction, Steps-or_raise, Steps-neutral,
  Steps-if, Commits-ok, Commits-last, Commits-err, Steps-raise_if, Steps-modify_db, Steps-whole,
}
use padel_bot_api.Bookings.Statements.Courts.{
  Steps-emit_booking_change, Steps-reprice_slot, Steps-emit_slot_freed, Steps-give_credit,
  Steps-update_booking, Steps-emit,
}
use padel_bot_api.Bookings.Transitions.{
  update_booking_if_cases, set_slot_status_cases, with_booking, release-Move,
}
use padel_bot_api.Bookings.Payments.{purge_receipts, PayerInfo}
use padel_bot_api.Bookings.Monad.{record_missing}
use padel_bot_api.Prelude.Text.{Text}

-- The row is still on the slot that was read with `b`.
abbrev pub IsOnSlotOf : Booking → Db → Type 0
IsOnSlotOf b db = (c : Booking) → find b.id db.bookings ≡ some c → c.slot_id ≡ b.slot_id

-- The transaction of `releasePendingSlot`, on any state of the database.
pub release_write-Steps : (b : Booking) (db : Db) → IsOnSlotOf b db → Steps db (release_write b)
unfolding release_write release_slot_of
release_write-Steps b db same_slot =
    Steps-transaction db _
      (elim (update_booking_if_cases b.id (λ c. is_pending c.status) expire_data db) [
        | inl missed ↦
            Commits-ok (view db) db _ _ false db missed
              (Commits-last (view db) db _ (Steps-pure db false).at)
        | inr (c, found, hit, written) ↦
            Commits-ok (view db) db _ _ true _ written
              (elim (set_slot_status_cases b.slot_id SlotStatus.available
                (with_booking b.id expire_data db)) [
                  | inl e ↦ Commits-err (view db) _ _ _ record_missing _ e
                  | inr (s, slot_found, e) ↦ Commits-ok (view db) _ _ _ tt _ e (
                      Commits-last (view db) _ _ (
                        Moves-trans
                          (next done (
                            release-Move b.id b.slot_id c expire_data db s found (same_slot c found)
                              slot_found (ground arith) (λ _. (refl, refl))))
                          (Steps-bind _ _ _ (Steps-give_credit _ b.player_id b.credit_applied_cents)
                            λ _ db2 _. Steps-pure db2 true).at))
                ])
      ])

reprice_if-Steps : (clock : Clock) (t : ℕ) (c : Bool) (db : Db) → Steps db (reprice_if clock t c)
unfolding reprice_if
reprice_if-Steps clock t false db = Steps-pure db false
reprice_if-Steps clock t true db =
    Steps-bind db _ _ (Steps-reprice_slot db clock t none) λ _ db1 _. Steps-pure db1 true

pub release_pending_slot-Steps :
    (env : Env) (b : Booking) (db : Db) → IsOnSlotOf b db → Steps db (release_pending_slot env b)
unfolding release_pending_slot
release_pending_slot-Steps env b db same_slot =
    Steps-bind db _ _ (release_write-Steps b db same_slot)
      λ c db1 _. reprice_if-Steps env.clock b.slot_id c db1

announce_freed-Steps : (b : Booking) (cents : ℕ) (db : Db) → Steps db (announce_freed b cents)
unfolding announce_freed
announce_freed-Steps b cents db =
    Steps-bind db _ _ (Steps-emit_booking_change db _ b)
      λ _ db1 _. Steps-emit_slot_freed db1 b.slot_id cents

after_release-Steps :
    (b : Booking) (cents : ℕ) (c : Bool) (db : Db) → Steps db (after_release b cents c)
unfolding after_release
after_release-Steps b cents false db = Steps-pure db none
after_release-Steps b cents true db =
    Steps-neutral db _ _ (unfold purge_receipts in refl) (unfold purge_receipts in refl)
      λ _ db1 _ _. Steps-bind db1 _ _ (announce_freed-Steps b cents db1) λ _ db2 _. Steps-pure db2 _

pub cancel_pending-Steps : (env : Env) (i : ℕ) (db : Db) → Steps db (cancel_pending env i)
unfolding cancel_pending
cancel_pending-Steps env i db = Steps-gets db _ _ (elim (Option-cases (find i db.bookings)) [
  | inl e ↦ rw e (unfold cancel_if_pending in Steps-pure db none)
  | inr (b, e) ↦ rw e (unfold cancel_if_pending in Steps-if db _ _ _ (row b e) (Steps-pure db none))
])
  where
    row : (b : Booking) → find i db.bookings ≡ some b → Steps db (cancel_pending_row env b)
    row b e =
        unfold cancel_pending_row in
        Steps-gets db _ _ (
          Steps-bind db _ _
            (release_pending_slot-Steps env b db
              (λ c f. ground (arith, find-key i db.bookings b e)))
            λ released db1 _. after_release-Steps b _ released db1)

pub reject_payment-Steps :
    (env : Env) (club_id i : ℕ) (db : Db) → Steps db (reject_payment env club_id i)
unfolding reject_payment
reject_payment-Steps env club_id i db = Steps-gets db _ _ (
    Steps-or_raise db _ _ _
      λ b _. Steps-if db _ _ _ (cancel_pending-Steps env i db) (Steps-pure db none))

after_sweep_release-Steps :
    (b : Booking) (cents : ℕ) (c : Bool) (db : Db) → Steps db (after_sweep_release b cents c)
unfolding after_sweep_release
after_sweep_release-Steps b cents false db = Steps-pure db none
after_sweep_release-Steps b cents true db =
    Steps-bind db _ _ (announce_freed-Steps b cents db) λ _ db2 _. Steps-pure db2 _

pub sweep_one-Steps :
    (env : Env) (b : Booking) (cents : ℕ) (db : Db)
    → IsOnSlotOf b db
    → Steps db (sweep_one env b cents)
unfolding sweep_one
sweep_one-Steps env b cents db same_slot =
    Steps-bind db _ _ (release_pending_slot-Steps env b db same_slot)
      λ c db1 _. after_sweep_release-Steps b cents c db1

pub confirm_payment_manual-Steps :
    (club_id i : ℕ) (payment_ref : Option Text) (payer : PayerInfo) (db : Db)
    → Steps db (confirm_payment_manual club_id i payment_ref payer)
unfolding confirm_payment_manual
confirm_payment_manual-Steps club_id i payment_ref payer db = Steps-gets db _ _ (
    Steps-or_raise db _ _ _ λ b _. Steps-gets db _ _ (
      Steps-gets db _ _ (
        Steps-if db _ _ _ (Steps-pure db none) (
          Steps-raise_if db _ _ _ λ _. Steps-raise_if db _ _ _ λ _.
            Steps-bind db _ _ (confirm_payment-Steps i payment_ref payer db)
              λ _ db1 _. Steps-pure db1 _))))

pub attach_receipt-Steps :
    (env : Env) (club_id i : ℕ) (file : Receipt) (db : Db)
    → Steps db (attach_receipt env club_id i file)
unfolding attach_receipt
attach_receipt-Steps env club_id i file db = Steps-gets db _ _ (
    Steps-or_raise db _ _ _ λ b _.
      Steps-bind db _ _
        (Steps-whole db _
          (Steps-modify_db db _ _ refl refl (Steps-update_booking _ i _ (λ _. refl) (λ _ _. refl))))
        λ _ db2 _. Steps-emit db2 _)

pub record_receipt_reading-Steps :
    (i : ℕ) (dni operation_ref : Option Text) (db : Db)
    → Steps db (record_receipt_reading i dni operation_ref)
unfolding record_receipt_reading
record_receipt_reading-Steps i dni operation_ref db =
    Steps-update_booking_if db i _ _ (λ _. refl) (λ _ _. refl)

pub record_pending_player_dni-Steps :
    (i : ℕ) (dni : Text) (db : Db) → Steps db (record_pending_player_dni i dni)
unfolding record_pending_player_dni
record_pending_player_dni-Steps i dni db =
    Steps-update_booking_if db i _ _ (λ _. refl) (λ _ _. refl)
