-- ===== src/Bookings/Bill.antt =====
-- The account of the turno at the desk: what was paid at the mostrador, by whom, and whether it is settled.
use padel_bot_api.Prelude.{
  ℕ, ◌+◌, Bool, true, false, not, ◌&&◌, none, some, List, [], ◌∷◌, ◌++◌, ltb, ◌==◌, if◌then◌else◌,
  is_none, is_some, or_else, keep, any_of,
}
use padel_bot_api.Prelude.Text.{Text}
use padel_bot_api.Prelude.Table.{find}
use padel_bot_api.Account.{
  AccountLine, PlayerPaymentLine, AccountInput, BookingAccountView, compute_account,
  players_from_mask,
}
use padel_bot_api.Bookings.Model.{
  Db, Slot, Booking, BookingProduct, PlayerPayment, is_cancelled, is_confirmed_status,
  booking_keyed, slot_keyed, player_keyed, club_keyed,
}
use padel_bot_api.Bookings.Monad.{
  Action, not_found, bad_request, forbidden, pure, gets, or_raise, ◌>>=◌, ◌>>◌, raise_if, modify_db,
}
use padel_bot_api.Bookings.Statements.{update_booking, find_booking}
use padel_bot_api.Bookings.Lifecycle.{Env}

unfoldable pub set_local_payment : ℕ → ℕ → ℕ → Text → Action (Unit {0})
set_local_payment club_id i amount_cents method = do
  found ← gets (find_booking club_id i)
  b ← or_raise found not_found
  raise_if (is_cancelled b.status) bad_request
  update_booking i λ c. record c {
    local_payment_cents = amount_cents;
    local_payment_method = if ltb 0 amount_cents then some method else none;
  }

-- The deposit that a confirmed booking of the bot brought in.
unfoldable pub deposit_paid : Booking → ℕ
deposit_paid b =
    if is_confirmed_status b.status
    then or_else b.transfer_amount_cents 0 + b.credit_applied_cents
    else 0

abbrev pub lines_of : ℕ → List BookingProduct → List AccountLine
lines_of i [] = []
lines_of i (p ∷ ps) =
    if p.booking_id == i
    then record {
      unit_price_cents = p.unit_price_cents;
      quantity = p.quantity;
      players = players_from_mask p.player_mask;
    }
      ∷ lines_of i ps
    else lines_of i ps

abbrev pub payments_of : ℕ → List PlayerPayment → List PlayerPaymentLine
payments_of i [] = []
payments_of i (p ∷ ps) = if p.booking_id == i then p.line ∷ payments_of i ps else payments_of i ps

-- The input that `loadAccount` hands to `computeAccount`.
unfoldable pub account_input : Db → Slot → Booking → AccountInput
account_input db slot b = record {
  court_price_cents = slot.price_cents;
  lines = lines_of b.id db.products;
  payments = payments_of b.id db.payments;
  deposit_paid_cents = deposit_paid b;
  unassigned_paid_cents = b.local_payment_cents;
  settled_at = b.settled_at;
}

unfoldable pub load_account : ℕ → ℕ → Action BookingAccountView
load_account club_id i = do
  found ← gets (find_booking club_id i)
  b ← or_raise found not_found
  slot_found ← gets (λ db. find b.slot_id db.slots)
  slot ← or_raise slot_found not_found
  gets (λ db. compute_account (account_input db slot b))

abbrev pub should_be_settled : BookingAccountView → Bool
should_be_settled v = (v.remaining_cents == 0) && ltb 0 v.paid_cents

-- `refreshSettled`: `settledAt` follows the bill.
unfoldable pub settle_view : ℕ → ℕ → BookingAccountView → Action BookingAccountView
settle_view now i view =
    if should_be_settled view && is_none view.settled_at
    then (do
      update_booking i (λ c. record c { settled_at = some now })
      pure (record view { settled_at = some now }))
    else if not (should_be_settled view) && is_some view.settled_at
    then (do
      update_booking i (λ c. record c { settled_at = none })
      pure (record view { settled_at = none }))
    else pure view

unfoldable pub refresh_settled : Env → ℕ → ℕ → Action BookingAccountView
refresh_settled env club_id i = do view ← load_account club_id i; settle_view env.now i view

-- Without the split-payment module of the club's plan, a payment has to cover what is left.
unfoldable pub check_split : Bool → ℕ → ℕ → PlayerPaymentLine → Action (Unit {0})
check_split true club_id i line = pure tt
check_split false club_id i line = do
  view ← load_account club_id i
  raise_if (ltb line.amount_cents view.remaining_cents) forbidden

unfoldable pub add_player_payment :
    Env → Bool → ℕ → ℕ → PlayerPaymentLine → Action BookingAccountView
add_player_payment env can_split club_id i line = do
  found ← gets (find_booking club_id i)
  b ← or_raise found not_found
  raise_if (is_cancelled b.status) bad_request
  check_split can_split club_id i line
  modify_db (λ db. record db {
    payments = db.payments ++ record { booking_id = i; club_id = club_id; line = line } ∷ [];
  })
  refresh_settled env club_id i

abbrev pub is_payment : ℕ → ℕ → ℕ → PlayerPayment → Bool
is_payment club_id i payment_id p =
    (p.line.id == payment_id) && (p.booking_id == i) && (p.club_id == club_id)

unfoldable pub remove_player_payment : Env → ℕ → ℕ → ℕ → Action BookingAccountView
remove_player_payment env club_id i payment_id = do
  hit ← gets (λ db. any_of (is_payment club_id i payment_id) db.payments)
  raise_if (not hit) not_found
  modify_db (λ db. record db {
    payments = keep (λ p. not (is_payment club_id i payment_id p)) db.payments;
  })
  refresh_settled env club_id i
