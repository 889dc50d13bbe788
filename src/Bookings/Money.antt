-- ===== src/Bookings/Money.antt =====
-- What a cancellation does with the money of a booking.
use padel_bot_api.Prelude.{
  ℕ, ◌+◌, ◌*◌, ◌≡◌, refl, ap, ◌∙◌, ◌⊎◌, inl, inr, Bool, true, false, not, ◌&&◌, Option, none, some,
  arith, ltb, leb, ◌==◌, if◌then◌else◌, is_some, Bool-cases, Option-cases,
}
use padel_bot_api.Prelude.Table.{find, find-modify}
use padel_bot_api.Service.Returns.{return-bind, return-transaction}
use padel_bot_api.Players.{Player}
use padel_bot_api.Bookings.Model.{
  Db, Booking, Club, DepositOutcome, SlotStatus, is_confirmed_status, is_cancelled, same_status,
  booking_keyed, player_keyed, slot_keyed,
}
use padel_bot_api.Bookings.Monad.{Action, ok, conflict, raise_if, ◌>>=◌}
use padel_bot_api.Bookings.Statements.{
  update_booking_if, set_slot_status, increment_credit, give_credit,
}
use padel_bot_api.Bookings.Lifecycle.{hour_ms, cancellation_outcome, cancel_data, cancel_write}
use padel_bot_api.Bookings.Bill.{deposit_paid}

-- The instant from which a cancellation is too late for the club, 24 hours ahead by default.
abbrev pub window_hours : Option Club → ℕ
window_hours none = 24
window_hours (some c) = c.cancellation_window_hours

abbrev pub is_in_time : Option Club → ℕ → ℕ → Bool
is_in_time club now starts_at = leb (now + window_hours club * hour_ms) starts_at

-- The deposit of the booking has come in by a transfer.
abbrev pub has_paid : Booking → Bool
has_paid b = is_confirmed_status b.status && is_some b.transfer_amount_cents

-- What a cancellation owes: in time, all that the account of the booking shows as paid; late, nothing;
-- and only the credit applied if no deposit came in.
abbrev pub IsSettlement : Option Club → ℕ → ℕ → Booking → Option DepositOutcome → ℕ → Type 0
IsSettlement club now starts_at b outcome credit =
    ((outcome ≡ some DepositOutcome.credited)
      × ((has_paid b && is_in_time club now starts_at ≡ true) × (credit ≡ deposit_paid b)))
    ⊎ (((outcome ≡ some DepositOutcome.forfeited)
          × ((has_paid b && not (is_in_time club now starts_at) ≡ true) × (credit ≡ 0)))
        ⊎ ((outcome ≡ none) × ((has_paid b ≡ false) × (credit ≡ b.credit_applied_cents))))

cancellation_outcome-IsSettlement :
    (club : Option Club) (now starts_at : ℕ) (b : Booking)
    → IsSettlement club now starts_at b
        (cancellation_outcome club now b starts_at).deposit_outcome
        (cancellation_outcome club now b starts_at).credit_delta_cents
unfolding cancellation_outcome deposit_paid
cancellation_outcome-IsSettlement club now starts_at b =
    elim (Option-cases b.transfer_amount_cents) [
      | inl e ↦ inr (inr (ground (arith, e), (ground (arith, e), ground (arith, e))))
      | inr (t, e) ↦ elim (Bool-cases (is_confirmed_status b.status)) [
        | inr f ↦ inr (inr (ground (arith, e), (ground (arith, e), ground (arith, e))))
        | inl f ↦ elim (Bool-cases (is_in_time club now starts_at)) [
          | inl g ↦
              inl (ground (arith, e, f, g), (ground (arith, e, f, g), ground (arith, e, f, g)))
          | inr g ↦
              inr
                (inl (ground (arith, e, f, g), (ground (arith, e, f, g), ground (arith, e, f, g))))
        ]
      ]
    ]

abbrev credit_of : Option Player → ℕ
credit_of none = 0
credit_of (some p) = p.credit_cents

-- What a player has to spend.
abbrev pub credit_in : Db → ℕ → ℕ
credit_in db q = credit_of (find q db.players)

abbrev pub is_player : Option ℕ → ℕ → Bool
is_player none q = false
is_player (some p) q = p == q

give_credit-return :
    (o : Option ℕ) (amount : ℕ) (db u : Db)
    → give_credit o amount db ≡ (ok tt, u)
    → (u.bookings ≡ db.bookings)
      × ((q : ℕ) → credit_in u q ≡ credit_in db q + (if is_player o q then amount else 0))
unfolding give_credit increment_credit
give_credit-return none amount db u h = (ground arith, λ q. ground arith)
give_credit-return (some p) amount db u h = elim (Bool-cases (ltb 0 amount)) [
  | inr nothing ↦ (ground arith, λ q. ground arith)
  | inl much ↦ elim (Option-cases (find p db.players)) [
    | inl e ↦ absurd (ground arith)
    | inr (r, e) ↦ (
      ground arith,
      λ q. ground (
        arith,
        find-modify p q (λ (x : Player). record x { credit_cents = x.credit_cents + amount })
            db.players (λ x. refl),
      ),
    )
  ]
]

set_slot_status-return :
    (i : ℕ) (status : SlotStatus) (db u : Db)
    → set_slot_status i status db ≡ (ok tt, u)
    → (u.bookings ≡ db.bookings) × (u.players ≡ db.players)
unfolding set_slot_status
set_slot_status-return i status db u h = elim (Option-cases (find i db.slots)) [
  | inl e ↦ absurd (ground arith)
  | inr (s, e) ↦ (ground arith, ground arith)
]

update_booking_if-return :
    (i : ℕ) (test : Booking → Bool) (f : Booking → Booking) (hit : Bool) (db u : Db)
    → ((x : Booking) → (f x).id ≡ x.id)
    → not hit ≡ false
    → update_booking_if i test f db ≡ (ok hit, u)
    → (c : Booking) × (find i db.bookings ≡ some c)
      × (test c ≡ true)
      × (find i u.bookings ≡ some (f c))
      × (u.players ≡ db.players)
unfolding update_booking_if
update_booking_if-return i test f hit db u same done h = elim (Option-cases (find i db.bookings)) [
  | inl e ↦ absurd (ground arith)
  | inr (c, e) ↦ elim (Bool-cases (test c)) [
    | inr g ↦ absurd (ground arith)
    | inl g ↦ (c, e, g, ground (arith, find-modify i i f db.bookings same), ground arith)
  ]
]

return-allowed :
    (c : Bool) (f : Unit {0} → Action (Unit {0})) (db u : Db)
    → (raise_if c conflict >>= f) db ≡ (ok tt, u)
    → (c ≡ false) × (f tt db ≡ (ok tt, u))
unfolding raise_if ◌>>=◌
return-allowed true f db u h = absurd (ground arith)
return-allowed false f db u h = (refl, h)

-- When the transaction of a cancellation commits, on whatever the database is by then, the row keeps
-- the status that was read until it is cancelled. A booking whose deposit came in is credited in time,
-- and its player has all of the deposit more to spend; late it is forfeited, and nobody has more;
-- one whose deposit did not come in has no outcome, and its player gets back the credit applied.
-- Every other player has as much to spend as before.
pub cancel_write-IsSettlement :
    (club : Option Club) (now starts_at : ℕ) (b : Booking) (declined : Bool) (db after : Db)
    → cancel_write b (cancellation_outcome club now b starts_at) declined now db ≡ (ok tt, after)
    → (c : Booking) × (d : Booking) × (credit : ℕ) × (find b.id db.bookings ≡ some c)
      × (same_status b.status c.status ≡ true)
      × (find b.id after.bookings ≡ some d)
      × (is_cancelled d.status ≡ true)
      × IsSettlement club now starts_at b d.deposit_outcome credit
      × ((q : ℕ)
          → credit_in after q ≡ credit_in db q + (if is_player b.player_id q then credit else 0))
unfolding cancel_write
cancel_write-IsSettlement club now starts_at b declined db after h =
    let out = cancellation_outcome club now b starts_at in
    let (hit, u, e, rest) = return-bind _ _ db after tt (return-transaction _ db after tt h) in
    let (missed, more) = return-allowed (not hit) _ u after rest in
    let (marked, v, f, last) = return-bind _ _ u after tt more in
    let (c, found, same, row, players) =
      update_booking_if-return b.id (λ x. same_status b.status x.status)
        (cancel_data out.deposit_outcome declined now) hit db u (λ x. refl) missed e in
    let (kept, still) = set_slot_status-return b.slot_id SlotStatus.available u v f in
    let (rows, credits) = give_credit-return b.player_id out.credit_delta_cents v after last in
    (
      c,
      cancel_data out.deposit_outcome declined now c,
      out.credit_delta_cents,
      found,
      same,
      ap (find b.id) (rows ∙ kept) ∙ row,
      refl,
      cancellation_outcome-IsSettlement club now starts_at b,
      λ q.
          credits q
          ∙ ap
              (λ ps.
                credit_of (find q ps)
                + (if is_player b.player_id q then out.credit_delta_cents else 0))
              (still ∙ players),
    )
