-- ===== src/Bookings/Bands/Moves.antt =====
-- A player's move to another band: one change of slot, or nothing, whatever happened since the
-- booking was read.
use padel_bot_api.Prelude.{
  ℕ, ◌≡◌, refl, sym, subst, ◌≢◌, inl, inr, true, false, not, Option, none, some, List, arith, leb,
}
use padel_bot_api.Prelude.Text.{Text}
use padel_bot_api.Prelude.Table.{find, find-modify}
use padel_bot_api.Bookings.Model.{
  Db, Slot, SlotStatus, Booking, is_cancelled, slot_keyed, booking_keyed, court_keyed,
}
use padel_bot_api.Bookings.Courts.{view, status_of, Moves, Move, done, next, change, IsFree, IsSafe}
use padel_bot_api.Bookings.Bands.Courts.{Took, take_band_cases, with_slots}
use padel_bot_api.Bookings.Monad.{
  ok, err, conflict, not_found, bad_request, forbidden, record_missing, no_show_review_required,
  Action, Result,
}
use padel_bot_api.Bookings.Bands.{
  null_on_conflict, player_move_write, move_to_band, reschedule_to_band_by_player, BandSlot,
  player_move_data, move_if_open, or_none, find_players_booking, is_unmoved,
}
use padel_bot_api.Bookings.Transitions.{
  with_status, with_booking, status-with_status, update_booking_if_cases, set_slot_status_cases,
}
use padel_bot_api.Bookings.Lifecycle.{Env}
use padel_bot_api.Bookings.Steps.{
  Steps, Steps-transaction, Steps-bind, Commits-err, Steps-pure, Commits-ok, Steps-if, Steps-gets,
  Commits-raise_if, Committed,
}
use padel_bot_api.Bookings.Statements.Courts.{
  Steps-emit_booking_change, Steps-reprice_slot, Steps-emit_slot_freed,
}

-- The slot of an active booking is not the one that was free.
free-differs :
    (db : Db) (b c : Booking) (i : ℕ)
    → IsSafe (view db)
    → find b.id db.bookings ≡ some c
    → is_cancelled c.status ≡ false
    → c.slot_id ≡ b.slot_id
    → IsFree (status_of (find i db.slots))
    → b.slot_id ≢ i
free-differs db b c i safe found active on free e =
    let m = safe.marked b.id b.slot_id (ground arith) in
    elim free [ inl f ↦ ground arith | inr f ↦ ground arith ]

booking-Move :
    (b c : Booking) (i : ℕ) (ss : List Slot) (s : Slot) (db : Db)
    → Took db i ss
    → IsSafe (view db)
    → find b.id db.bookings ≡ some c
    → is_cancelled c.status ≡ false
    → c.slot_id ≡ b.slot_id
    → find b.slot_id ss ≡ some s
    → Move (view db) (
        view (
          with_status b.slot_id SlotStatus.available
            (with_booking b.id (player_move_data i) (with_slots db ss))))
booking-Move b c i ss s db took safe found active on old =
    let differ = free-differs db b c i safe found active on took.free in
    change b.id b.slot_id i (ground arith) differ took.free
      (λ j. ground (arith, find-modify b.id j (player_move_data i) db.bookings (λ x. refl)))
      (λ q. ground (
        arith,
        status-with_status b.slot_id q SlotStatus.available (with_slots db ss) s old,
        took.booked q,
      ))

-- Whatever happened since an active booking was read, on a database without a double booking the
-- transaction by which its player moves it does nothing to the courts but atomic takes, releases and
-- changes of free slots, if the identifier for a new slot is new.
pub player_move_write-Steps :
    (fresh_slot : ℕ) (t : BandSlot) (b : Booking) (db : Db)
    → find fresh_slot db.slots ≡ none
    → is_cancelled b.status ≡ false
    → IsSafe (view db)
    → Steps db (player_move_write fresh_slot t b)
unfolding player_move_write
player_move_write-Steps fresh_slot t b db new active safe =
    Steps-transaction db _ (elim (take_band_cases fresh_slot t db new) [
      | inl (x, e) ↦ Commits-err (view db) db _ _ x db e
      | inr (i, ss, e, took) ↦
          Commits-ok (view db) db _ _ i _ e
            (elim (update_booking_if_cases b.id (is_unmoved b) (player_move_data i)
              (with_slots db ss)) [
                | inl missed ↦
                    Commits-ok (view db) _ _ _ false _ missed
                      (Commits-raise_if (view db) _ (not false) conflict _ (λ h. cc))
                | inr (c, found, hit, written) ↦ Commits-ok (view db) _ _ _ true _ written (
                    Commits-raise_if (view db) _ (not true) conflict _ λ _.
                      elim (set_slot_status_cases b.slot_id SlotStatus.available
                        (with_booking b.id (player_move_data i) (with_slots db ss))) [
                          | inl gone ↦ record { at = subst (Committed (view db)) (sym gone) tt }
                          | inr (s, old, w) ↦ record {
                            at = subst (Committed (view db)) (sym w) (
                                next done (
                                  booking-Move b c i ss s db took safe found (ground arith)
                                    (ground arith) old));
                          }
                        ])
              ])
    ])

null_on_conflict-Steps :
    {A : Type 0} (db : Db) (m : Action (Option A)) → Steps db m → Steps db (null_on_conflict m)
unfolding null_on_conflict
null_on_conflict-Steps {A} db m s = record { at = caught (m db) s.at }
  where
    caught :
        (r : Result (Option A) × Db)
        → Moves (view db) (view r.1)
        → Moves (view db) (view (or_none r).1)
    caught (ok a, d) p = p
    caught (err not_found, d) p = p
    caught (err bad_request, d) p = p
    caught (err conflict, d) p = p
    caught (err forbidden, d) p = p
    caught (err record_missing, d) p = p
    caught (err (no_show_review_required n), d) p = p

move_to_band-Steps :
    (env : Env) (fresh_slot : ℕ) (t : BandSlot) (b : Booking) (db : Db)
    → find fresh_slot db.slots ≡ none
    → is_cancelled b.status ≡ false
    → IsSafe (view db)
    → Steps db (move_to_band env fresh_slot t b)
unfolding move_to_band
move_to_band-Steps env fresh_slot t b db new active safe = null_on_conflict-Steps db _ (
    Steps-bind db _ _ (player_move_write-Steps fresh_slot t b db new active safe) λ _ db1 _.
      Steps-bind db1 _ _ (Steps-emit_booking_change db1 _ b) λ _ db2 _.
        Steps-bind db2 _ _ (Steps-reprice_slot db2 env.clock b.slot_id (some t.club_id)) λ _ db3 _.
          Steps-gets db3 _ _ (
            Steps-bind db3 _ _ (Steps-emit_slot_freed db3 b.slot_id _) λ _ db4 _. Steps-pure db4 _))

pub reschedule_to_band_by_player-Steps :
    (env : Env) (fresh_slot club_id i : ℕ) (phone : Text) (court_id date_key : ℕ)
    (band_start : Text) (db : Db)
    → find fresh_slot db.slots ≡ none
    → IsSafe (view db)
    → Steps db
        (reschedule_to_band_by_player env fresh_slot club_id i phone court_id date_key band_start)
unfolding reschedule_to_band_by_player
reschedule_to_band_by_player-Steps env fresh_slot club_id i phone court_id date_key band_start db
      new safe =
    Steps-gets db _ _
      (Steps-gets db _ _ (moved _ _ (λ b e. players_booking-active club_id i phone db b e)))
  where
    moved :
        (o : Option Booking) (t : Option BandSlot)
        → ((b : Booking) → o ≡ some b → is_cancelled b.status ≡ false)
        → Steps db (move_if_open env fresh_slot o t)
    moved none t h = unfold move_if_open in Steps-pure db none
    moved (some b) none h = unfold move_if_open in Steps-pure db none
    moved (some b) (some t) h =
        unfold move_if_open in
        Steps-if db (leb t.starts_at env.now) _ _ (Steps-pure db none)
          (move_to_band-Steps env fresh_slot t b db new (h b refl) safe)

    players_booking-active :
        (club_id i : ℕ) (phone : Text) (db : Db) (b : Booking)
        → find_players_booking club_id i phone db ≡ some b
        → is_cancelled b.status ≡ false
    players_booking-active club_id i phone db b h = ground arith
