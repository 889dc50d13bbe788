-- ===== src/Bookings/Amounts.antt =====
-- The amount that a pending booking is told to transfer: `resolvePendingTransferAmount` and
-- `allocateTransferAmount`.
use padel_bot_api.Prelude.{
  ℕ, zero, suc, ◌+◌, ◌-◌, ◌*◌, ◌/◌, Bool, false, not, ◌&&◌, ◌||◌, Option, none, some, List, [], ◌∷◌,
  leb, ◌==◌, if◌then◌else◌, is_some, or_else,
}
use padel_bot_api.Prelude.Text.{Text}
use padel_bot_api.Bookings.Model.{Db, Booking, is_pending, player_keyed, slot_keyed, booking_keyed}

-- `roundToWholePesos`: half a peso rounds up.
abbrev pub round_to_whole_pesos : ℕ → ℕ
round_to_whole_pesos cents = (cents + 50) / 100 * 100

abbrev pub in_bucket : ℕ → Booking → Bool
in_bucket whole_pesos b = elim b.transfer_amount_cents [
  | none ↦ false
  | some t ↦ is_pending b.status && leb whole_pesos t && leb t (whole_pesos + 99)
]

-- The amounts that pending bookings ask for.
abbrev pub taken_amounts : ℕ → List Booking → List ℕ
taken_amounts whole_pesos [] = []
taken_amounts whole_pesos (b ∷ bs) =
    if in_bucket whole_pesos b
    then or_else b.transfer_amount_cents 0 ∷ taken_amounts whole_pesos bs
    else taken_amounts whole_pesos bs

abbrev pub is_taken : ℕ → List ℕ → Bool
is_taken x [] = false
is_taken x (y ∷ ys) = (x == y) || is_taken x ys

-- `for (let tag = 0; tag <= 99; tag++)`, with the number of tags left.
unfoldable pub first_free_tag : ℕ → ℕ → ℕ → List ℕ → Option ℕ
first_free_tag zero tag whole_pesos taken = none
first_free_tag (suc n) tag whole_pesos taken =
    let rest = first_free_tag n (tag + 1) whole_pesos taken in
    if not (is_taken (whole_pesos + tag) taken) then some (whole_pesos + tag) else rest

-- `allocateTransferAmount`, on the amounts that are taken.
unfoldable pub allocate : ℕ → List ℕ → ℕ
allocate deposit_cents taken =
    let whole_pesos = deposit_cents / 100 * 100 in
    let preferred_tag = deposit_cents - whole_pesos in
    if not (is_taken (whole_pesos + preferred_tag) taken)
    then whole_pesos + preferred_tag
    else or_else (first_free_tag 100 0 whole_pesos taken) deposit_cents

unfoldable pub allocate_transfer_amount : ℕ → Db → ℕ
allocate_transfer_amount deposit_cents db =
    allocate deposit_cents (taken_amounts (deposit_cents / 100 * 100) db.bookings)

-- `resolvePendingTransferAmount`
unfoldable pub pending_transfer_amount : ℕ → Bool → Option Text → Db → ℕ
pending_transfer_amount deposit_cents round_amount known db =
    if round_amount || is_some known
    then round_to_whole_pesos deposit_cents
    else allocate_transfer_amount deposit_cents db
