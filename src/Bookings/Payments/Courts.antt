-- ===== src/Bookings/Payments/Courts.antt =====
-- Confirming a booking moves no court; reviving an expired one takes its slot again.
use padel_bot_api.Prelude.{
  ℕ, ◌≡◌, refl, sym, subst, ◌⊎◌, inl, inr, Bool, true, false, Option, none, some, List, [], ◌∷◌,
  arith, Bool-cases, Option-cases, keep, All,
}
use padel_bot_api.Prelude.Table.{find, find-modify, rows, rows-find, All-keep, keep-All}
use padel_bot_api.Bookings.Model.{
  Db, Slot, SlotStatus, Booking, BookingStatus, is_available, is_cancelled, slot_keyed,
  booking_keyed,
}
use padel_bot_api.Bookings.Courts.{view, held_by, Moves, done, next, take, stay, Moves-trans, Move}
use padel_bot_api.Bookings.Payments.{
  confirm_chosen, revive_chosen, emit_payment_confirmed, after_confirm, confirm_payment,
  after_retake, PayerInfo, confirm_data, learn_payer, purge_receipts, confirm_payment_by_amount,
  revive_expired_candidate, single, choose_expired, expired_candidates, match_strictly,
  requires_dni, disambiguate_by_payer, match_dni,
}
use padel_bot_api.Bookings.Statements.{book_slot_if, update_booking, emit, update_booking_if}
use padel_bot_api.Bookings.Steps.{
  Steps, Steps-unchanged, Steps-bind, Steps-pure, Steps-neutral, Steps-gets, Steps-if,
}
use padel_bot_api.Bookings.Monad.{◌>>=◌, Action, ok, continue}
use padel_bot_api.Prelude.Text.{Text}
use padel_bot_api.Bookings.Transitions.{
  with_booking, with_status, update_booking_if_cases, status-with_status,
}
use padel_bot_api.Identity.{dni_from_identification}

-- A conditional update that keeps the key and what the row holds moves no court.
pub Steps-update_booking_if :
    (db : Db) (i : ℕ) (test : Booking → Bool) (f : Booking → Booking)
    → ((b : Booking) → (f b).id ≡ b.id)
    → ((b : Booking) → test b ≡ true → held_by (some (f b)) ≡ held_by (some b))
    → Steps db (update_booking_if i test f)
Steps-update_booking_if db i test f keyed held = record {
  at = elim (update_booking_if_cases i test f db) [
    | inl e ↦ subst (λ r. Moves (view db) (view r.1)) (sym e) done
    | inr (b, found, passed, e) ↦
        subst (λ r. Moves (view db) (view r.1)) (sym e)
          (next done
            (stay (λ j. ground (arith, find-modify i j f db.bookings keyed, held b)) (λ s. refl)))
  ];
}

emit_payment_confirmed-Steps :
    (i : ℕ) (r : Option Text) (db : Db) → Steps db (emit_payment_confirmed i r)
unfolding emit_payment_confirmed emit
emit_payment_confirmed-Steps i r db = Steps-unchanged db _ (ground arith) (ground arith)

after_confirm-Steps :
    (i : ℕ) (payment_ref : Option Text) (payer : PayerInfo) (hit : Bool) (db : Db)
    → Steps db (after_confirm i payment_ref payer hit)
unfolding after_confirm
after_confirm-Steps i payment_ref payer false db = Steps-pure db false
after_confirm-Steps i payment_ref payer true db =
    Steps-neutral db _ _ (unfold learn_payer in refl) (unfold learn_payer in refl) λ _ db1 _ _.
      Steps-neutral db1 _ _ (unfold purge_receipts in refl) (unfold purge_receipts in refl)
        λ _ db2 _ _.
          Steps-bind db2 _ _ (emit_payment_confirmed-Steps i payment_ref db2)
            λ _ db3 _. Steps-pure db3 true

pub confirm_payment-Steps :
    (i : ℕ) (payment_ref : Option Text) (payer : PayerInfo) (db : Db)
    → Steps db (confirm_payment i payment_ref payer)
unfolding confirm_payment
confirm_payment-Steps i payment_ref payer db =
    Steps-bind db _ _
      (Steps-update_booking_if db i _ (confirm_data payment_ref payer) (λ _. refl)
        (λ b e. ground arith))
      λ hit db1 _. after_confirm-Steps i payment_ref payer hit db1

pub confirm_chosen-Steps :
    (o : Option Booking) (payment_ref : Text) (payer : PayerInfo) (db : Db)
    → Steps db (confirm_chosen o payment_ref payer)
unfolding confirm_chosen
confirm_chosen-Steps none payment_ref payer db = Steps-pure db none
confirm_chosen-Steps (some c) payment_ref payer db =
    Steps-bind db _ _ (confirm_payment-Steps c.id (some payment_ref) payer db)
      λ done db1 _. Steps-pure db1 _

book_slot_cases :
    (i : ℕ) (db : Db)
    → (book_slot_if i (λ _. true) db ≡ (ok false, db))
      ⊎ ((s : Slot) × (find i db.slots ≡ some s)
          × (s.status ≡ SlotStatus.available)
          × (book_slot_if i (λ _. true) db ≡ (ok true, with_status i SlotStatus.booked db)))
unfolding book_slot_if
book_slot_cases i db = elim (Option-cases (find i db.slots)) [
  | inl e ↦ inl (ground arith)
  | inr (s, e) ↦ elim (Bool-cases (is_available s.status)) [
    | inl t ↦ inr (s, e, ground arith, ground arith)
    | inr f ↦ inl (ground arith)
  ]
]

-- A cancelled row takes its slot again, when the slot is on sale.
revive-Move :
    (i t : ℕ) (c : Booking) (f : Booking → Booking) (db : Db) (s : Slot)
    → find i db.bookings ≡ some c
    → c.slot_id ≡ t
    → find t db.slots ≡ some s
    → s.status ≡ SlotStatus.available
    → is_cancelled c.status ≡ true
    → ((b : Booking)
        → ((f b).id ≡ b.id) × ((f b).slot_id ≡ b.slot_id) × (is_cancelled (f b).status ≡ false))
    → Move (view db) (view (with_booking i f (with_status t SlotStatus.booked db)))
revive-Move i t c f db s found on slot_found free gone kept =
    take i t (ground arith) (inl (ground arith))
      (λ j. ground (arith, find-modify i j f db.bookings (λ b. (kept b).0), kept c))
      (λ q. status-with_status t q SlotStatus.booked db s slot_found)

update_booking_hit :
    (i : ℕ) (f : Booking → Booking) (db : Db) (b : Booking)
    → find i db.bookings ≡ some b
    → update_booking i f db ≡ (ok tt, with_booking i f db)
unfolding update_booking
update_booking_hit i f db b found = ground arith

abbrev pending_again : Booking → Booking
pending_again b = record b { status = BookingStatus.pending_payment }

module _ {A B : Type 0} (db : Db) where
  -- The rest of a method after a part whose outcome is known.
  Steps-from :
      (m : Action A) (f : A → Action B) (a : A) (db1 : Db)
      → m db ≡ (ok a, db1)
      → Moves (view db) (view db1)
      → Steps db1 (f a)
      → Steps db (m >>= f)
  unfolding ◌>>=◌
  Steps-from m f a db1 e p s = record {
    at = subst (λ r. Moves (view db) (view (continue r.0 f r.1).1)) (sym e) (Moves-trans p s.at);
  }

  -- Two parts that make one change together.
  Steps-with :
      {C : Type 0}
      → (m : Action A) (f : A → Action B) (a : A) (n : Action C) (g : C → Action B) (c : C)
        (db1 db2 : Db)
      → m db ≡ (ok a, db1)
      → f a ≡ (n >>= g)
      → n db1 ≡ (ok c, db2)
      → Moves (view db) (view db2)
      → Steps db2 (g c)
      → Steps db (m >>= f)
  unfolding ◌>>=◌
  Steps-with m f a n g c db1 db2 e h k p s = record {
    at =
        subst (λ r. Moves (view db) (view (continue r.0 f r.1).1)) (sym e)
          (subst (λ x. Moves (view db) (view (x db1).1)) (sym h)
            (subst (λ r. Moves (view db) (view (continue r.0 g r.1).1)) (sym k)
              (Moves-trans p s.at)));
  }

pub revive_chosen-Steps :
    (c : Booking) (payment_ref : Text) (payer : PayerInfo) (db : Db)
    → find c.id db.bookings ≡ some c
    → is_cancelled c.status ≡ true
    → Steps db (revive_chosen (some c) payment_ref payer)
unfolding revive_chosen after_retake
revive_chosen-Steps c payment_ref payer db found gone = elim (book_slot_cases c.slot_id db) [
  | inl e ↦ Steps-from db _ _ false db e done (Steps-pure db none)
  | inr (s, slot_found, free, e) ↦
      Steps-with db _ _ true _ _ tt _ _ e refl
        (update_booking_hit c.id pending_again (with_status c.slot_id SlotStatus.booked db) c found)
        (next done (
          revive-Move c.id c.slot_id c pending_again db s found refl slot_found free gone
            (λ _. (refl, refl, refl))))
        (confirm_chosen-Steps (some c) payment_ref payer _)
]

-- What holds of all candidates holds of the one that is chosen.
module _ (P : Booking → Type 0) where
  pub single-All : (cs : List Booking) (c : Booking) → All P cs → single cs ≡ some c → P c
  single-All [] c h e = cc
  single-All (b ∷ []) c h e = subst P (ground arith) h.0
  single-All (b ∷ d ∷ cs) c h e = cc

  pub choose_expired-All :
      (strict : Bool) (cs : List Booking) (payer : PayerInfo) (c : Booking)
      → All P cs
      → choose_expired strict cs payer ≡ some c
      → P c
  unfolding choose_expired match_strictly disambiguate_by_payer
  choose_expired-All true cs payer c h e =
      elim (Option-cases (dni_from_identification payer.cuit)) [
        | inl none_known ↦ ground arith
        | inr (d, known) ↦
            single-All (keep (match_dni false (some d)) cs) c (All-keep P _ cs h) (ground arith)
      ]
  choose_expired-All false cs payer c h e = single-All _ c (All-keep P _ cs h) e

abbrev IsRevivable : Db → Booking → Type 0
IsRevivable db c = (find c.id db.bookings ≡ some c) × (is_cancelled c.status ≡ true)

expired_candidates-All :
    (amount_cents paid_at : ℕ) (club_id : Option ℕ) (db : Db)
    → All (IsRevivable db) (expired_candidates amount_cents paid_at club_id db)
unfolding expired_candidates
expired_candidates-All amount_cents paid_at club_id db =
    keep-All _ (λ c found passed. (found, ground arith)) (rows db.bookings) (rows-find db.bookings)

revive_expired_candidate-Steps :
    (amount_cents : ℕ) (payment_ref : Text) (paid_at : ℕ) (club_id : Option ℕ) (payer : PayerInfo)
    (db : Db)
    → Steps db (revive_expired_candidate amount_cents payment_ref paid_at club_id payer)
unfolding revive_expired_candidate
revive_expired_candidate-Steps amount_cents payment_ref paid_at club_id payer db =
    Steps-gets db _ _ (
      Steps-gets db _ _
        (elim (Option-cases (
          choose_expired (requires_dni club_id db)
            (expired_candidates amount_cents paid_at club_id db) payer)) [
              | inl e ↦ rw e (unfold revive_chosen in Steps-pure db none)
              | inr (c, e) ↦
                  let h =
                    choose_expired-All (IsRevivable db) _ _ payer c
                      (expired_candidates-All amount_cents paid_at club_id db) e in
                  rw e (revive_chosen-Steps c payment_ref payer db h.0 h.1)
            ]))

pub confirm_payment_by_amount-Steps :
    (amount_cents : ℕ) (payment_ref : Text) (paid_at : ℕ) (club_id : Option ℕ) (payer : PayerInfo)
    (db : Db)
    → Steps db (confirm_payment_by_amount amount_cents payment_ref paid_at club_id payer)
unfolding confirm_payment_by_amount
confirm_payment_by_amount-Steps amount_cents payment_ref paid_at club_id payer db =
    Steps-gets db _ _ (
      Steps-gets db _ _ (
        Steps-gets db _ _ (
          Steps-if db _ _ _ (Steps-pure db none) (
            Steps-if db _ _ _
              (revive_expired_candidate-Steps amount_cents payment_ref paid_at club_id payer db)
              (confirm_chosen-Steps _ payment_ref payer db)))))
