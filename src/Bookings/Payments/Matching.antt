-- ===== src/Bookings/Payments/Matching.antt =====
-- What a transfer confirms.
use padel_bot_api.Prelude.{
  ℕ, ◌≡◌, refl, inl, inr, Bool, true, false, ◌&&◌, ◌||◌, Option, none, some, List, arith,
  if◌then◌else◌, is_none, Bool-cases, Option-cases, keep, All,
}
use padel_bot_api.Prelude.Text.{Text}
use padel_bot_api.Prelude.Table.{find, rows, rows-find, All-keep, keep-All}
use padel_bot_api.Bookings.Model.{Db, Booking, is_pending, is_cancelled, slot_keyed, booking_keyed}
use padel_bot_api.Bookings.Payments.Courts.{single-All, choose_expired-All}
use padel_bot_api.Bookings.Monad.{ok, err, gets, pure, ◌>>=◌, Result, continue}
use padel_bot_api.Bookings.Payments.{
  in_window, revive_chosen, choose_pending, confirm_payment_by_amount, confirm_chosen,
  expired_candidates, pending_candidates, in_scope, after_retake, match_strictly,
  disambiguate_by_payer, PayerInfo, is_used, single, requires_dni, same_text, confirmed_id,
  revive_expired_candidate, match_dni, is_empty, expects_identity, identity_matches,
}
use padel_bot_api.Identity.{dni_from_identification}

module _ (P : Booking → Type 0) where
  choose_pending-All :
      (strict : Bool) (payment_ref : Text) (cs : List Booking) (payer : PayerInfo) (c : Booking)
      → All P cs
      → choose_pending strict payment_ref cs payer ≡ some c
      → P c
  unfolding choose_pending match_strictly disambiguate_by_payer
  choose_pending-All strict payment_ref cs payer c h e =
      elim (Option-cases
        (single (keep (λ c. same_text c.receipt_operation_ref (some payment_ref)) cs))) [
          | inr (d, by_ref) ↦
              single-All P (keep (λ c. same_text c.receipt_operation_ref (some payment_ref)) cs) c
                (All-keep P _ cs h) (ground arith)
          | inl no_ref ↦ elim (Bool-cases strict) [
            | inr s ↦
                single-All P
                  (keep
                    (λ c. if expects_identity true c then identity_matches payer true c else true)
                    cs)
                  c (All-keep P _ cs h) (ground arith)
            | inl s ↦ elim (Option-cases (dni_from_identification payer.cuit)) [
              | inl unknown ↦ ground arith
              | inr (d, known) ↦
                  single-All P (keep (match_dni true (some d)) cs) c (All-keep P _ cs h)
                    (ground arith)
            ]
          ]
        ]

-- The row is in the table, waits for the amount in the window of the transfer and is in its scope;
-- it is pending, or was cancelled without a payment or a decision on its deposit.
abbrev pub IsMatched : ℕ → ℕ → Option ℕ → Db → Booking → Type 0
IsMatched amount_cents paid_at club_id db b =
    (find b.id db.bookings ≡ some b)
    × (in_window amount_cents paid_at b ≡ true)
    × (in_scope club_id db b ≡ true)
    × ((is_pending b.status
          || is_cancelled b.status && is_none b.mp_payment_id && is_none b.deposit_outcome)
        ≡ true)

pending-IsMatched :
    (amount_cents paid_at : ℕ) (club_id : Option ℕ) (db : Db)
    → All
        (IsMatched amount_cents paid_at club_id db)
        (pending_candidates amount_cents paid_at club_id db)
unfolding pending_candidates
pending-IsMatched amount_cents paid_at club_id db =
    keep-All _ (λ c found passed. (found, ground arith, ground arith, ground arith))
      (rows db.bookings) (rows-find db.bookings)

expired-IsMatched :
    (amount_cents paid_at : ℕ) (club_id : Option ℕ) (db : Db)
    → All
        (IsMatched amount_cents paid_at club_id db)
        (expired_candidates amount_cents paid_at club_id db)
unfolding expired_candidates
expired-IsMatched amount_cents paid_at club_id db =
    keep-All _ (λ c found passed. (found, ground arith, ground arith, ground arith))
      (rows db.bookings) (rows-find db.bookings)

-- The only id that a confirmation answers with is that of the chosen row.
confirm_chosen-id :
    (o : Option Booking) (payment_ref : Text) (payer : PayerInfo) (db : Db) (i : ℕ)
    → (confirm_chosen o payment_ref payer db).0 ≡ ok (some i)
    → (c : Booking) × (o ≡ some c) × (c.id ≡ i)
unfolding confirm_chosen pure ◌>>=◌
confirm_chosen-id none payment_ref payer db i h = absurd (ground arith)
confirm_chosen-id (some c) payment_ref payer db i h = (c, refl, id_of _ h)
  where
    id_of :
        (r : Result Bool × Db)
        → (continue r.0 (λ done. pure (confirmed_id c.id done)) r.1).0 ≡ ok (some i)
        → c.id ≡ i
    id_of (ok true, d) h = ground arith
    id_of (ok false, d) h = ground arith
    id_of (err e, d) h = ground arith

revive_chosen-id :
    (o : Option Booking) (payment_ref : Text) (payer : PayerInfo) (db : Db) (i : ℕ)
    → (revive_chosen o payment_ref payer db).0 ≡ ok (some i)
    → (c : Booking) × (o ≡ some c) × (c.id ≡ i)
unfolding revive_chosen after_retake pure ◌>>=◌
revive_chosen-id none payment_ref payer db i h = absurd (ground arith)
revive_chosen-id (some c) payment_ref payer db i h = (c, refl, retaken _ h)
  where
    confirmed :
        (r : Result (Unit {0}) × Db)
        → (continue r.0 (λ _. confirm_chosen (some c) payment_ref payer) r.1).0 ≡ ok (some i)
        → c.id ≡ i
    confirmed (ok tt, d) h =
        let (x, e, f) = confirm_chosen-id (some c) payment_ref payer d i h in ground arith
    confirmed (err e, d) h = absurd (ground arith)

    retaken :
        (r : Result Bool × Db)
        → (continue r.0 (after_retake c payment_ref payer) r.1).0 ≡ ok (some i)
        → c.id ≡ i
    retaken (ok true, d) h = confirmed _ h
    retaken (ok false, d) h = absurd (ground arith)
    retaken (err e, d) h = absurd (ground arith)

-- If a transfer confirms a booking, then no booking had used its reference before, and the booking
-- asked for exactly the amount transferred, in a window that contains the time of the transfer, at
-- a club that the transfer can pay; it waited for the payment, or had been cancelled with neither a
-- payment nor a decision on its deposit.
pub confirm_payment_by_amount-IsMatched :
    (amount_cents : ℕ) (payment_ref : Text) (paid_at : ℕ) (club_id : Option ℕ) (payer : PayerInfo)
    (db : Db) (i : ℕ)
    → (confirm_payment_by_amount amount_cents payment_ref paid_at club_id payer db).0 ≡ ok (some i)
    → (is_used payment_ref db ≡ false)
      × ((c : Booking) × (c.id ≡ i) × IsMatched amount_cents paid_at club_id db c)
unfolding confirm_payment_by_amount revive_expired_candidate gets ◌>>=◌
confirm_payment_by_amount-IsMatched amount_cents payment_ref paid_at club_id payer db i h =
    elim (Bool-cases (is_used payment_ref db)) [
      | inl used ↦ absurd (unfold pure in ground arith)
      | inr fresh ↦
          elim (Bool-cases (is_empty (pending_candidates amount_cents paid_at club_id db))) [
            | inl e ↦ (fresh, expired (ground arith))
            | inr e ↦ (fresh, pending (ground arith))
          ]
    ]
  where
    pending :
        (confirm_chosen
            (choose_pending
              (requires_dni club_id db)
              payment_ref
              (pending_candidates amount_cents paid_at club_id db)
              payer)
            payment_ref
            payer
            db).0
          ≡ ok (some i)
        → (c : Booking) × (c.id ≡ i) × IsMatched amount_cents paid_at club_id db c
    pending k =
        let (c, e, f) = confirm_chosen-id _ payment_ref payer db i k in
        (
          c,
          f,
          choose_pending-All (IsMatched amount_cents paid_at club_id db) _ payment_ref _ payer c
              (pending-IsMatched amount_cents paid_at club_id db) e,
        )

    expired :
        (revive_expired_candidate amount_cents payment_ref paid_at club_id payer db).0 ≡ ok (some i)
        → (c : Booking) × (c.id ≡ i) × IsMatched amount_cents paid_at club_id db c
    expired k =
        let (c, e, f) = revive_chosen-id _ payment_ref payer db i k in
        (
          c,
          f,
          choose_expired-All (IsMatched amount_cents paid_at club_id db) _ _ payer c
              (expired-IsMatched amount_cents paid_at club_id db) e,
        )
