-- ===== src/Bookings/Expiry/Sweep.antt =====
-- The sweep of the expired bookings: no release changes the slot of a row, so that what was read
-- at its start stays true of the rows that are left.
use padel_bot_api.Prelude.{
  ℕ, ◌≡◌, refl, ap, ◌∙◌, inl, inr, Bool, true, false, Option, none, some, List, [], ◌∷◌, map, arith,
  All,
}
use mathlib.Core.Option
use padel_bot_api.Prelude.Table.{find, modify, find-modify, rows, rows-find, All-keep}
use padel_bot_api.Bookings.Model.{Db, SlotStatus, Booking, is_pending, slot_keyed, booking_keyed}
use padel_bot_api.Bookings.Courts.{view, Moves, done, Moves-trans}
use padel_bot_api.Bookings.Expiry.{
  release_write, reprice_if, after_sweep_release, release_pending_slot, announce_freed, sweep_one,
  release_slot_of, expire_data, with_price, find_and_cancel_expired_pending, sweep_from,
  CancelledPendingInfo, is_expired,
}
use padel_bot_api.Bookings.Repricing.{reprice_slot}
use padel_bot_api.Bookings.Lifecycle.{Env}
use padel_bot_api.Bookings.Steps.{Steps, Steps-gets}
use padel_bot_api.Bookings.Transitions.{
  update_booking_if_cases, set_slot_status_cases, with_booking,
}
use padel_bot_api.Bookings.Monad.{pure, transaction, ◌>>=◌, Result, continue, settle, ◌>>◌, ok, err}
use padel_bot_api.Bookings.Statements.{
  emit_booking_change, emit, emit_slot_freed, give_credit, increment_credit,
}
use padel_bot_api.Bookings.Expiry.Courts.{IsOnSlotOf, sweep_one-Steps}

-- The slot of a row, which no release changes.
abbrev slot_of : ℕ → List Booking → Option ℕ
slot_of i bs = Option.map (λ (b : Booking). b.slot_id) (find i bs)

expire-slot_of : (i j : ℕ) (bs : List Booking) → slot_of j (modify i expire_data bs) ≡ slot_of j bs
expire-slot_of i j bs = ground (arith, find-modify i j expire_data bs (λ b. refl))

credit-slot_of :
    (p : Option ℕ) (cents j : ℕ) (db db1 : Db)
    → slot_of j db1.bookings ≡ slot_of j db.bookings
    → slot_of j (settle db ((give_credit p cents >> pure true) db1)).1.bookings
      ≡ slot_of j db.bookings
unfolding give_credit increment_credit pure ◌>>=◌
credit-slot_of none cents j db db1 h = h
credit-slot_of (some p) cents j db db1 h = ground arith

release_write-slot_of :
    (b : Booking) (j : ℕ) (db : Db)
    → slot_of j (release_write b db).1.bookings ≡ slot_of j db.bookings
unfolding release_write release_slot_of transaction ◌>>=◌ pure
release_write-slot_of b j db =
    elim (update_booking_if_cases b.id (λ c. is_pending c.status) expire_data db) [
      | inl missed ↦ rw missed refl
      | inr (c, found, hit, written) ↦
          elim (set_slot_status_cases b.slot_id SlotStatus.available
            (with_booking b.id expire_data db)) [
              | inl e ↦ rw (written, e) refl
              | inr (s, slot_found, e) ↦
                  rw (written, e)
                    (credit-slot_of b.player_id b.credit_applied_cents j db _
                      (expire-slot_of b.id j db.bookings))
            ]
    ]

after_sweep_release-bookings :
    (b : Booking) (cents : ℕ) (c : Bool) (db : Db)
    → (after_sweep_release b cents c db).1.bookings ≡ db.bookings
unfolding after_sweep_release announce_freed emit_booking_change emit emit_slot_freed pure ◌>>=◌
after_sweep_release-bookings b cents false db = refl
after_sweep_release-bookings b cents true db = ground arith

unfoldable pub sweep_tail :
    Env → Booking → ℕ → Result Bool × Db → Result (Option CancelledPendingInfo) × Db
unfolding reprice_if
sweep_tail env b cents (r, db) =
    let (r2, db2) = continue r (λ c. reprice_if env.clock b.slot_id c) db in
    continue r2 (λ c. after_sweep_release b cents c) db2

pub sweep_tail-bookings :
    (env : Env) (b : Booking) (cents : ℕ) (r : Result Bool × Db)
    → (sweep_tail env b cents r).1.bookings ≡ r.1.bookings
unfolding sweep_tail reprice_if reprice_slot pure ◌>>=◌
sweep_tail-bookings env b cents (ok false, db) = after_sweep_release-bookings b cents false db
sweep_tail-bookings env b cents (ok true, db) = after_sweep_release-bookings b cents true _
sweep_tail-bookings env b cents (err e, db) = refl

sweep_one-slot_of :
    (env : Env) (b : Booking) (cents j : ℕ) (db : Db)
    → slot_of j (sweep_one env b cents db).1.bookings ≡ slot_of j db.bookings
unfolding sweep_one release_pending_slot ◌>>=◌ sweep_tail
sweep_one-slot_of env b cents j db =
    ap (slot_of j) (sweep_tail-bookings env b cents (release_write b db))
    ∙ release_write-slot_of b j db

-- The slots of all the rows that a sweep has read are what they were.
abbrev AreOnSlots : Db → List (Booking × ℕ) → Type 0
AreOnSlots db = All (λ p. slot_of p.0.id db.bookings ≡ some p.0.slot_id)

on_slot_of : (b : Booking) (db : Db) → slot_of b.id db.bookings ≡ some b.slot_id → IsOnSlotOf b db
on_slot_of b db h c found = ground arith

All-slot_of :
    (db db1 : Db) (bs : List (Booking × ℕ))
    → ((j : ℕ) → slot_of j db1.bookings ≡ slot_of j db.bookings)
    → AreOnSlots db bs
    → AreOnSlots db1 bs
All-slot_of db db1 [] same h = tt
All-slot_of db db1 ((b, cents) ∷ bs) same h = (same b.id ∙ h.0, All-slot_of db db1 bs same h.1)

pub sweep_from-db :
    (env : Env) (b : Booking) (cents : ℕ) (bs : List (Booking × ℕ)) (db : Db)
    → (sweep_from env ((b, cents) ∷ bs) db).1 ≡ (sweep_from env bs (sweep_one env b cents db).1).1
unfolding sweep_from
sweep_from-db env b cents bs db = ground arith

sweep_from-Moves :
    (env : Env) (bs : List (Booking × ℕ)) (db : Db)
    → AreOnSlots db bs
    → Moves (view db) (view (sweep_from env bs db).1)
unfolding sweep_from
sweep_from-Moves env [] db h = done
sweep_from-Moves env ((b, cents) ∷ bs) db h =
    let db1 = (sweep_one env b cents db).1 in
    let later =
      sweep_from-Moves env bs db1
        (All-slot_of db db1 bs (λ j. sweep_one-slot_of env b cents j db) h.1) in
    rw (sweep_from-db env b cents bs db)
      (Moves-trans (sweep_one-Steps env b cents db (on_slot_of b db h.0)).at later)

rows-on_slots :
    (db : Db) (bs : List Booking)
    → All (λ b. find b.id db.bookings ≡ some b) bs
    → AreOnSlots db (map (with_price db) bs)
rows-on_slots db [] h = tt
rows-on_slots db (b ∷ bs) h = (ground arith, rows-on_slots db bs h.1)

pub find_and_cancel_expired_pending-Steps :
    (env : Env) (db : Db) → Steps db (find_and_cancel_expired_pending env)
unfolding find_and_cancel_expired_pending
find_and_cancel_expired_pending-Steps env db = Steps-gets db _ _ (record {
  at = sweep_from-Moves env _ db (
      rows-on_slots db _
        (All-keep _ (is_expired env.now) (rows db.bookings) (rows-find db.bookings)));
})
