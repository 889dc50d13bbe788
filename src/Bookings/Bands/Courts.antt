-- ===== src/Bookings/Bands/Courts.antt =====
-- A booking of a band takes its slot, which may be a new row; a player's move changes slots.
use padel_bot_api.Prelude.{
  ℕ, ◌≡◌, refl, ◌⊎◌, inl, inr, Bool, false, Option, none, some, List, ◌∷◌, arith, ◌==◌,
  if◌then◌else◌, Option-cases,
}
use padel_bot_api.Prelude.Text.{Text}
use padel_bot_api.Prelude.Table.{find, modify, find-cons}
use padel_bot_api.Bookings.Model.{
  Db, Slot, SlotStatus, Booking, is_cancelled, slot_keyed, booking_keyed, court_keyed,
}
use padel_bot_api.Bookings.Courts.{view, status_of, done, next, take, IsFree}
use padel_bot_api.Bookings.Pending.Courts.{spend_lem, apply_player_policy-keeps, announce-Steps}
use padel_bot_api.Bookings.Bands.{
  book_band_pending, book_band, take_band, pending_band_write, take_row, band_write, BandSlot,
  BookBandInput, find_band_row, new_slot, dto_of,
}
use padel_bot_api.Bookings.Statements.{create_booking, create_booked_slot, find_band}
use padel_bot_api.Bookings.Monad.{gets, ◌>>=◌, Error, pure, err, ok, conflict}
use padel_bot_api.Bookings.Lifecycle.{Env, resolve_payment_plan}
use padel_bot_api.Bookings.Steps.{
  Commits, Commits-err, Steps, Commits-ok, Steps-transaction, Steps-gets, Commits-bind,
  Commits-last, Steps-or_raise, Steps-raise_if, Commits-gets, Steps-bind, Steps-neutral, Steps-pure,
}
use padel_bot_api.Bookings.Statements.Courts.{Steps-emit_booking_change}
use padel_bot_api.Bookings.Pending.{Policy, charge_for}
use padel_bot_api.Bookings.Methods.{Steps-upsert_bind}
use padel_bot_api.Bookings.Transitions.{lock_cases, mark, status-with_status}

abbrev pub with_slots : Db → List Slot → Db
with_slots db ss = record db { slots = ss }

-- What taking a band leaves: it throws and changes nothing, or one slot that was free is booked.
pub record Took (db : Db) (i : ℕ) (ss : List Slot) : Type 0 where
  pub free : IsFree (status_of (find i db.slots))
  pub booked :
      (t : ℕ)
      → status_of (find t ss)
        ≡ (if i == t then some SlotStatus.booked else status_of (find t db.slots))

pub take_row_cases :
    (fresh : ℕ) (t : BandSlot) (o : Option Slot) (db : Db)
    → find fresh db.slots ≡ none
    → ((e : Error) × (take_row fresh t o db ≡ (err e, db)))
      ⊎ ((i : ℕ) × (ss : List Slot) × (take_row fresh t o db ≡ (ok i, with_slots db ss))
          × Took db i ss)
unfolding take_row create_booked_slot ◌>>=◌ pure
take_row_cases fresh t none db new =
    elim (Option-cases (find_band t.court_id t.starts_at db.slots)) [
      | inr (s, e) ↦ inl (conflict, ground arith)
      | inl e ↦ inr (
        fresh,
        record (new_slot fresh t) { status = SlotStatus.booked } ∷ db.slots,
        ground arith,
        record {
          free = inr (ground arith);
          booked = λ q. ground (arith, find-cons q (new_slot fresh t) db.slots);
        },
      )
    ]
take_row_cases fresh t (some s) db new = elim (lock_cases s.id t.club_id db) [
  | inl e ↦ inl (conflict, rw e refl)
  | inr (x, found, free, _, e) ↦ inr (
    s.id,
    modify s.id (mark SlotStatus.booked) db.slots,
    rw e refl,
    record {
      free = inl (ground arith);
      booked = λ q. status-with_status s.id q SlotStatus.booked db x found;
    },
  )
]

pub take_band_cases :
    (fresh : ℕ) (t : BandSlot) (db : Db)
    → find fresh db.slots ≡ none
    → ((e : Error) × (take_band fresh t db ≡ (err e, db)))
      ⊎ ((i : ℕ) × (ss : List Slot) × (take_band fresh t db ≡ (ok i, with_slots db ss))
          × Took db i ss)
unfolding take_band gets ◌>>=◌
take_band_cases fresh t db new = take_row_cases fresh t (find_band_row t db) db new

-- The new booking is the one that holds the slot.
take_band-Commits :
    (fresh_slot : ℕ) (t : BandSlot) (b : ℕ → Booking) (db : Db)
    → find fresh_slot db.slots ≡ none
    → ((i : ℕ)
        → (find (b i).id db.bookings ≡ none)
          × ((b i).slot_id ≡ i)
          × (is_cancelled (b i).status ≡ false))
    → Commits (view db) db (take_band fresh_slot t >>= λ i. create_booking (b i))
unfolding create_booking
take_band-Commits fresh_slot t b db new row = elim (take_band_cases fresh_slot t db new) [
  | inl (x, e) ↦ Commits-err (view db) db _ _ x db e
  | inr (i, ss, e, took) ↦ Commits-ok (view db) db _ _ i _ e (
      Commits-last (view db) _ _ (
        next done (
          take (b i).id i (ground (arith, row i)) took.free
            (λ j. ground (arith, find-cons j (b i) db.bookings, row i)) took.booked)))
]

pub book_band-Steps :
    (env : Env) (fresh fresh_player fresh_slot club_id : ℕ) (input : BookBandInput) (db : Db)
    → find fresh db.bookings ≡ none
    → find fresh_slot db.slots ≡ none
    → Steps db (book_band env fresh fresh_player fresh_slot club_id input)
unfolding book_band band_write
book_band-Steps env fresh fresh_player fresh_slot club_id input db new new_slot =
    Steps-gets db _ _ (
      Steps-or_raise db _ _ _ λ court _. Steps-or_raise db _ _ _ λ t _. Steps-raise_if db _ _ _ λ _.
        Steps-upsert_bind db _ _ _ _ _ _ λ p players.
          Steps-bind _ _ _
            (Steps-transaction _ _
              (take_band-Commits fresh_slot t _ _ new_slot (λ _. (new, refl, refl))))
            λ b db2 _.
              Steps-bind db2 _ _ (Steps-emit_booking_change db2 _ b) λ _ db3 _. Steps-pure db3 b)

pub pending_band_write-Steps :
    (env : Env) (fresh fresh_slot : ℕ) (input : BookBandInput) (t : BandSlot) (policy : Policy)
    (round_amount : Bool) (known : Option Text) (db : Db)
    → find fresh db.bookings ≡ none
    → find fresh_slot db.slots ≡ none
    → Steps db (pending_band_write env fresh fresh_slot input t policy round_amount known)
unfolding pending_band_write
pending_band_write-Steps env fresh fresh_slot input t policy round_amount known db new new_slot =
    Steps-transaction db _ (
      Commits-bind (view db) db _ _ λ _ db1 e.
        let (ps, f) = spend_lem policy.player_id (charge_for policy).credit_applied db db1 e in
        rw f (
          Commits-gets (view db) _ _ _ (
            take_band-Commits fresh_slot t _ (record db { players = ps }) new_slot
              (λ _. (new, refl, ground arith)))))

pub book_band_pending-Steps :
    (env : Env) (fresh fresh_player fresh_slot club_id : ℕ) (input : BookBandInput) (db : Db)
    → find fresh db.bookings ≡ none
    → find fresh_slot db.slots ≡ none
    → Steps db (book_band_pending env fresh fresh_player fresh_slot club_id input)
unfolding book_band_pending resolve_payment_plan
book_band_pending-Steps env fresh fresh_player fresh_slot club_id input db new new_slot =
    Steps-gets db _ _ (
      Steps-or_raise db _ _ _ λ court _. Steps-or_raise db _ _ _ λ t _. Steps-raise_if db _ _ _ λ _.
        Steps-gets db _ _ (
          let keeps =
            apply_player_policy-keeps env fresh_player club_id t.price_cents (dto_of input 0) _
              db in
          Steps-neutral db _ _ keeps.0 keeps.1 λ policy db1 e s. Steps-gets db1 _ _ (
            Steps-bind db1 _ _
              (pending_band_write-Steps env fresh fresh_slot input t policy _ _ db1 (rw e new)
                (rw s new_slot))
              λ b db2 _. Steps-bind db2 _ _ (announce-Steps _ b db2) λ _ db3 _. Steps-pure db3 _)))
