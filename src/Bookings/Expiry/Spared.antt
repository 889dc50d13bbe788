-- ===== src/Bookings/Expiry/Spared.antt =====
-- What a sweep leaves alone.
use padel_bot_api.Prelude.{
  ℕ, ◌≡◌, refl, ap, ◌∙◌, ◌≢◌, inl, inr, true, false, Option, none, some, List, [], ◌∷◌, map, arith,
  All,
}
use padel_bot_api.Prelude.Table.{find, find-modify, rows, rows-find, keep-All}
use padel_bot_api.Bookings.Model.{Db, SlotStatus, Booking, is_pending, slot_keyed, booking_keyed}
use padel_bot_api.Bookings.Expiry.Sweep.{sweep_tail-bookings, sweep_from-db, sweep_tail}
use padel_bot_api.Bookings.Expiry.{
  find_and_cancel_expired_pending, with_price, sweep_one, sweep_from, release_write,
  release_slot_of, release_pending_slot, is_expired, expire_data,
}
use padel_bot_api.Bookings.Statements.{give_credit, increment_credit}
use padel_bot_api.Bookings.Lifecycle.{Env}
use padel_bot_api.Bookings.Monad.{gets, pure, ◌>>=◌, transaction, settle, ◌>>◌}
use padel_bot_api.Bookings.Transitions.{
  update_booking_if_cases, set_slot_status_cases, with_booking,
}

credit-find :
    (p : Option ℕ) (cents j : ℕ) (db db1 : Db)
    → find j db1.bookings ≡ find j db.bookings
    → find j (settle db ((give_credit p cents >> pure true) db1)).1.bookings ≡ find j db.bookings
unfolding give_credit increment_credit pure ◌>>=◌
credit-find none cents j db db1 h = h
credit-find (some p) cents j db db1 h = ground arith

release_write-find :
    (b : Booking) (j : ℕ) (db : Db)
    → b.id ≢ j
    → find j (release_write b db).1.bookings ≡ find j db.bookings
unfolding release_write release_slot_of transaction ◌>>=◌ pure
release_write-find b j db differ =
    elim (update_booking_if_cases b.id (λ c. is_pending c.status) expire_data db) [
      | inl missed ↦ rw missed refl
      | inr (c, found, hit, written) ↦
          elim (set_slot_status_cases b.slot_id SlotStatus.available
            (with_booking b.id expire_data db)) [
              | inl e ↦ rw (written, e) refl
              | inr (s, slot_found, e) ↦
                  rw (written, e)
                    (credit-find b.player_id b.credit_applied_cents j db _
                      (ground (arith, find-modify b.id j expire_data db.bookings (λ x. refl))))
            ]
    ]

sweep_one-find :
    (env : Env) (b : Booking) (cents j : ℕ) (db : Db)
    → b.id ≢ j
    → find j (sweep_one env b cents db).1.bookings ≡ find j db.bookings
unfolding sweep_one release_pending_slot ◌>>=◌ sweep_tail
sweep_one-find env b cents j db differ =
    ap (find j) (sweep_tail-bookings env b cents (release_write b db))
    ∙ release_write-find b j db differ

sweep_from-find :
    (env : Env) (bs : List (Booking × ℕ)) (j : ℕ) (db : Db)
    → All (λ p. p.0.id ≢ j) bs
    → find j (sweep_from env bs db).1.bookings ≡ find j db.bookings
unfolding sweep_from
sweep_from-find env [] j db h = refl
sweep_from-find env ((b, cents) ∷ bs) j db h =
    ap (λ d. find j d.bookings) (sweep_from-db env b cents bs db)
    ∙ sweep_from-find env bs j (sweep_one env b cents db).1 h.1
    ∙ sweep_one-find env b cents j db h.0

others :
    (db : Db) (c : Booking) (j : ℕ) (bs : List Booking)
    → All (λ b. b.id ≢ j) bs
    → All (λ p. p.0.id ≢ j) (map (with_price db) bs)
others db c j [] h = tt
others db c j (b ∷ bs) h = (h.0, others db c j bs h.1)

-- The sweep leaves a booking as it was if its payment window is not over, it is no longer pending,
-- or its receipt waits for a review.
pub find_and_cancel_expired_pending-spares :
    (env : Env) (j : ℕ) (c : Booking) (db : Db)
    → find j db.bookings ≡ some c
    → is_expired env.now c ≡ false
    → find j (find_and_cancel_expired_pending env db).1.bookings ≡ some c
unfolding find_and_cancel_expired_pending gets ◌>>=◌
find_and_cancel_expired_pending-spares env j c db found alive =
    sweep_from-find env _ j db (
      others db c j _ (
        keep-All (is_expired env.now) (λ b here over e. ground arith) (rows db.bookings)
          (rows-find db.bookings)))
    ∙ found
