-- ===== src/Recurring/Apply/Courts.antt =====
-- What `applyForWeeksAhead` does to the courts: it takes free slots, each for one new booking.
use padel_bot_api.Prelude.{
  ℕ, ◌≡◌, refl, sym, ◌∙◌, ◌⊎◌, inl, inr, true, some, List, [], ◌∷◌, map, arith, if◌then◌else◌,
  is_some, Option-cases, All,
}
use padel_bot_api.Prelude.Table.{find, modify, find-modify, find-cons}
use padel_bot_api.Service.Returns.{bind-return, bind-throw}
use padel_bot_api.Bookings.Model.{Db, Slot, SlotStatus, Booking, slot_keyed, booking_keyed}
use padel_bot_api.Bookings.Monad.{Error, Result, ok, err, conflict, pure}
use padel_bot_api.Bookings.Statements.{create_booked_slot, find_band}
use padel_bot_api.Bookings.Courts.{View, held_by, status_of}
use padel_bot_api.Bookings.Bands.Courts.{with_slots}
use padel_bot_api.Recurring.Weeks.{Occurrence}
use padel_bot_api.Recurring.Apply.{
  FijoEnv, FijoDto, fijo_slot, create_all, flip_all, fijo_booking, add_all,
}
use padel_bot_api.Recurring.Apply.Takes.{take_view, taken, has}

abbrev pub ids_of : FijoEnv → List Occurrence → List ℕ
ids_of e os = map (λ (o : Occurrence). e.fresh_slot o.starts_at) os

-- The batch throws, or creates all its slots as booked.
abbrev pub Created : FijoEnv → List Occurrence → Db → Result (List ℕ) × Db → Type 0
Created e os db r =
    ((x : Error) × (db' : Db) × (r ≡ (err x, db')))
    ⊎ ((ss : List Slot) × (r ≡ (ok (ids_of e os), with_slots db ss))
        × ((t : ℕ)
            → status_of (find t ss) ≡ (
                if has t (ids_of e os)
                then some SlotStatus.booked
                else status_of (find t db.slots))))

create_booked_slot_cases :
    (s : Slot) (db : Db)
    → (create_booked_slot s db ≡ (err conflict, db))
      ⊎ (create_booked_slot s db
          ≡ (ok s.id, with_slots db (record s { status = SlotStatus.booked } ∷ db.slots)))
unfolding create_booked_slot
create_booked_slot_cases s db = elim (Option-cases (find_band s.court_id s.starts_at db.slots)) [
  | inl e ↦ inr (ground arith)
  | inr (t, e) ↦ inl (ground arith)
]

pub create_all-Created :
    (e : FijoEnv) (club_id : ℕ) (dto : FijoDto) (os : List Occurrence) (db : Db)
    → Created e os db (create_all e club_id dto os db)
unfolding create_all pure
create_all-Created e club_id dto [] db = inr (db.slots, refl, λ t. refl)
create_all-Created e club_id dto (o ∷ os) db =
    elim (create_booked_slot_cases (fijo_slot e club_id dto o) db) [
      | inl thrown ↦ inl (conflict, db, bind-throw _ _ db db conflict thrown)
      | inr made ↦
          let db1 = with_slots db (fijo_slot e club_id dto o ∷ db.slots) in
          elim (create_all-Created e club_id dto os db1) [
            | inl (x, db2, f) ↦
                inl (x, db2, bind-return _ _ db db1 _ made ∙ bind-throw _ _ db1 db2 x f)
            | inr (ss, f, booked) ↦ inr (
              ss,
              bind-return _ _ db db1 _ made ∙ bind-return _ _ db1 (with_slots db1 ss) _ f,
              λ t. ground (arith, booked t, find-cons t (fijo_slot e club_id dto o) db.slots),
            )
          ]
    ]

exists_after :
    (i j : ℕ) (ss : List Slot)
    → is_some (status_of (find j ss)) ≡ true
    → is_some
        (status_of (find j (modify i (λ (s : Slot). record s { status = SlotStatus.booked }) ss)))
      ≡ true
exists_after i j ss h =
    ground (
      arith,
      find-modify i j (λ (s : Slot). record s { status = SlotStatus.booked }) ss (λ r. refl),
    )

exist_after :
    (i : ℕ) (ids : List ℕ) (ss : List Slot)
    → All (λ j. is_some (status_of (find j ss)) ≡ true) ids
    → All
        (λ j.
          is_some (
            status_of
              (find j (modify i (λ (s : Slot). record s { status = SlotStatus.booked }) ss)))
          ≡ true)
        ids
exist_after i [] ss h = tt
exist_after i (j ∷ ids) ss h = (exists_after i j ss h.0, exist_after i ids ss h.1)

pub flip_all-status :
    (ids : List ℕ) (ss : List Slot) (t : ℕ)
    → All (λ i. is_some (status_of (find i ss)) ≡ true) ids
    → status_of (find t (flip_all ids ss))
      ≡ (if has t ids then some SlotStatus.booked else status_of (find t ss))
unfolding flip_all
flip_all-status [] ss t h = refl
flip_all-status (i ∷ ids) ss t h =
    flip_all-status ids _ t (exist_after i ids ss h.1)
    ∙ ground (
      arith,
      find-modify i t (λ (s : Slot). record s { status = SlotStatus.booked }) ss (λ r. refl),
      h.0,
    )

-- The new bookings hold the slots that were taken for them.
pub add_all-holding :
    (e : FijoEnv) (club_id rb : ℕ) (dto : FijoDto) (ids : List ℕ) (bs : List Booking) (v : View)
    (j : ℕ)
    → ((i : ℕ) → v.holding i ≡ held_by (find i bs))
    → held_by (find j (add_all e club_id rb dto ids bs)) ≡ (taken e.fresh_booking ids v).holding j
unfolding add_all taken
add_all-holding e club_id rb dto [] bs v j h = sym (h j)
add_all-holding e club_id rb dto (i ∷ ids) bs v j h =
    add_all-holding e club_id rb dto ids (fijo_booking e club_id rb dto i ∷ bs)
      (take_view (e.fresh_booking i) i v) j
      (λ l. ground (arith, h l, find-cons l (fijo_booking e club_id rb dto i) bs))
