-- ===== src/Recurring/Apply/Safety.antt =====
-- The weekly bookings of a turno fijo never take a slot that is held.
use padel_bot_api.Prelude.{
  ℕ, ◌<◌, ◌≡◌, refl, ◌∙◌, inl, inr, true, Option, none, some, List, [], ◌∷◌, ◌++◌, arith,
  if◌then◌else◌, is_some, All,
}
use padel_bot_api.Prelude.Table.{find}
use padel_bot_api.Schedule.{ScheduleBand}
use padel_bot_api.Bookings.Model.{Db, Slot, SlotStatus, slot_keyed, booking_keyed}
use padel_bot_api.Bookings.Monad.{pure, gets, ◌>>=◌, modify_db, transaction}
use padel_bot_api.Bookings.Courts.{view, status_of, IsSafe, Moves-IsSafe}
use padel_bot_api.Bookings.Bands.Courts.{with_slots}
use padel_bot_api.Recurring.Weeks.{Occurrence, next_occurrences, next_days}
use padel_bot_api.Recurring.Apply.{
  FijoEnv, FijoDto, book_all, write_weeks, apply_to, apply_for_weeks_ahead, fate, to_create,
  to_book, Fate, last_start,
}
use padel_bot_api.Recurring.Apply.Takes.{
  has, IsDistinct, Fits, TakesTo, TakesTo-Moves, all_taken, taken-TakesTo, taken-status, has-append,
  append-IsDistinct, All-append, TakesTo,
}
use padel_bot_api.Recurring.Apply.Planned.{
  IsOnSaleAt, fate-flip, to_book-IsDistinct, to_book-on_sale, to_create-IsDistinct,
}
use padel_bot_api.Recurring.Apply.Courts.{
  ids_of, create_all-Created, flip_all-status, add_all-holding,
}
use padel_bot_api.Recurring.Apply.Distinct.{
  starts, days_from-IsDistinct, ids_of-IsDistinct, new_absent,
}

-- The identifiers of new rows are those of no row, and differ from each other; and the time zone keeps the order
-- of times.
pub record IsFreshEnv (e : FijoEnv) (db : Db) : Type 0 where
  pub slots : (t : ℕ) → find (e.fresh_slot t) db.slots ≡ none
  pub bookings : (s : ℕ) → find (e.fresh_booking s) db.bookings ≡ none
  pub slot_inj : (a b : ℕ) → e.fresh_slot a ≡ e.fresh_slot b → a ≡ b
  pub booking_inj : (a b : ℕ) → e.fresh_booking a ≡ e.fresh_booking b → a ≡ b
  pub zone : (x y : ℕ) → x < y → e.env.clock.to_utc x < e.env.clock.to_utc y

new_Fits :
    (e : FijoEnv) (db : Db) (os : List Occurrence)
    → IsFreshEnv e db
    → All (Fits e.fresh_booking (view db)) (ids_of e os)
new_Fits e db [] fresh = tt
new_Fits e db (o ∷ os) fresh = (
  (rw (fresh.bookings (e.fresh_slot o.starts_at)) refl, inr (rw (fresh.slots o.starts_at) refl)),
  new_Fits e db os fresh,
)

sale_Fits :
    (e : FijoEnv) (db : Db) (ids : List ℕ)
    → IsFreshEnv e db
    → All (λ j. (t : ℕ) × IsOnSaleAt db t j) ids
    → All (Fits e.fresh_booking (view db)) ids
sale_Fits e db [] fresh all = tt
sale_Fits e db (i ∷ ids) fresh all =
    let (t, (s, at, start, free)) = all.0 in
    ((rw (fresh.bookings i) refl, inl (ground arith)), sale_Fits e db ids fresh all.1)

still_there :
    (e : FijoEnv) (db : Db) (os : List Occurrence) (ss : List Slot) (ids : List ℕ)
    → ((t : ℕ)
        → status_of (find t ss)
          ≡ (if has t (ids_of e os) then some SlotStatus.booked else status_of (find t db.slots)))
    → All (λ j. (t : ℕ) × IsOnSaleAt db t j) ids
    → All (λ i. is_some (status_of (find i ss)) ≡ true) ids
still_there e db os ss [] made all = tt
still_there e db os ss (i ∷ ids) made all =
    let (t, (s, at, start, free)) = all.0 in
    (ground (arith, made i), still_there e db os ss ids made all.1)

-- After the batch of slots: the flips and the bookings are takes of free slots.
booked-TakesTo :
    (e : FijoEnv) (club_id rb : ℕ) (dto : FijoDto) (os : List Occurrence) (flips : List ℕ) (db : Db)
    (ss : List Slot)
    → IsFreshEnv e db
    → IsDistinct (starts os)
    → IsDistinct flips
    → All (λ j. (t : ℕ) × IsOnSaleAt db t j) flips
    → ((t : ℕ)
        → status_of (find t ss)
          ≡ (if has t (ids_of e os) then some SlotStatus.booked else status_of (find t db.slots)))
    → TakesTo
        (view (book_all e club_id rb dto flips (ids_of e os ++ flips) (with_slots db ss)))
        (view db)
unfolding book_all
booked-TakesTo e club_id rb dto os flips db ss fresh ds df on_sale made =
    let ids : List ℕ = ids_of e os ++ flips in
    taken-TakesTo e.fresh_booking ids (view db) _ fresh.booking_inj
      (append-IsDistinct (ids_of e os) flips (ids_of-IsDistinct e os fresh.slot_inj ds) df
        (new_absent e db os flips fresh.slots on_sale))
      (All-append (Fits e.fresh_booking (view db)) (ids_of e os) flips (new_Fits e db os fresh)
        (sale_Fits e db flips fresh on_sale))
      (λ i. add_all-holding e club_id rb dto ids db.bookings (view db) i (λ j. refl))
      (λ t.
        flip_all-status flips ss t (still_there e db os ss flips made on_sale)
        ∙ ground (
          arith,
          made t,
          has-append t (ids_of e os) flips,
          taken-status e.fresh_booking ids (view db) t,
        ))

write_weeks-TakesTo :
    (e : FijoEnv) (club_id rb : ℕ) (dto : FijoDto) (os : List Occurrence) (flips : List ℕ) (db : Db)
    → IsFreshEnv e db
    → IsDistinct (starts os)
    → IsDistinct flips
    → All (λ j. (t : ℕ) × IsOnSaleAt db t j) flips
    → TakesTo (view (write_weeks e club_id rb dto os flips db).1) (view db)
unfolding write_weeks transaction modify_db pure ◌>>=◌
write_weeks-TakesTo e club_id rb dto os flips db fresh ds df on_sale =
    elim (create_all-Created e club_id dto os db) [
      | inl (x, db', f) ↦ rw f (all_taken (λ i. refl) (λ t. refl))
      | inr (ss, f, made) ↦
          rw f (booked-TakesTo e club_id rb dto os flips db ss fresh ds df on_sale made)
    ]

apply_to-TakesTo :
    (e : FijoEnv) (club_id rb : ℕ) (dto : FijoDto) (os : List Occurrence) (db : Db)
    → IsFreshEnv e db
    → IsDistinct (starts os)
    → TakesTo (view (apply_to e club_id rb dto os db).1) (view db)
unfolding apply_to gets pure ◌>>=◌
apply_to-TakesTo e club_id rb dto [] db fresh d = all_taken (λ i. refl) (λ t. refl)
apply_to-TakesTo e club_id rb dto (o ∷ os) db fresh d =
    let f : (ℕ → Fate) = fate club_id rb dto o.starts_at (last_start (o ∷ os)) db in
    let sound : ((t i : ℕ) → f t ≡ Fate.flip i → IsOnSaleAt db t i) =
      fate-flip club_id rb dto o.starts_at (last_start (o ∷ os)) db in
    write_weeks-TakesTo e club_id rb dto (to_create f (o ∷ os)) (to_book f (o ∷ os)) db fresh
      (to_create-IsDistinct f (o ∷ os) d) (to_book-IsDistinct f db sound (o ∷ os) d)
      (to_book-on_sale f db sound (o ∷ os))

-- What the weekly bookings of a turno fijo do to the courts, whatever the method returns, is a
-- sequence of takes and nothing else: in each a booking that held no slot takes one that is on sale
-- or has no row yet. So it keeps every court free of double bookings. It is to run alone, the
-- identifiers given to new rows are to be new and to differ, and later wall-clock times of the time
-- zone are to be later instants.
pub apply_for_weeks_ahead-TakesTo :
    (e : FijoEnv) (club_id rb : ℕ) (dto : FijoDto) (band : ScheduleBand) (until : Option ℕ)
    (db : Db)
    → IsFreshEnv e db
    → TakesTo (view (apply_for_weeks_ahead e club_id rb dto band until db).1) (view db)
      × (IsSafe (view db) → IsSafe (view (apply_for_weeks_ahead e club_id rb dto band until db).1))
unfolding apply_for_weeks_ahead next_occurrences next_days
apply_for_weeks_ahead-TakesTo e club_id rb dto band until db fresh =
    let takes =
      apply_to-TakesTo e club_id rb dto _ db fresh
        (days_from-IsDistinct e.env.clock.to_utc band _ until _ fresh.zone) in
    (takes, λ safe. Moves-IsSafe (TakesTo-Moves takes) safe)
