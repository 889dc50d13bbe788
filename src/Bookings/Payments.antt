-- ===== src/Bookings/Payments.antt =====
-- Confirming a pending booking: by a transfer that MercadoPago reported, by hand, and with a receipt.
pub mod Courts
pub mod Matching
pub mod Confirmed
use padel_bot_api.Prelude.{
  ℕ, Bool, true, false, not, ◌&&◌, ◌||◌, Option, none, some, List, [], ◌∷◌, leb, ◌==◌,
  if◌then◌else◌, is_none, is_some, keep, any_of,
}
use padel_bot_api.Prelude.Text.{Text, text_eq}
use padel_bot_api.Prelude.Table.{find, modify, rows}
use padel_bot_api.Players.{Player, newer, non_empty}
use padel_bot_api.Identity.{dni_from_identification, dni_matches}
use padel_bot_api.Bookings.Model.{
  Db, Slot, Booking, BookingStatus, Club, VerificationMode, Receipt, Event, is_pending,
  is_cancelled, booking_keyed, slot_keyed, player_keyed, club_keyed,
}
use padel_bot_api.Bookings.Monad.{
  Action, Result, ok, err, not_found, bad_request, pure, gets, or_raise, ◌>>=◌, ◌>>◌, raise_if,
  modify_db, transaction,
}
use padel_bot_api.Bookings.Statements.{
  update_booking_if, update_booking, book_slot_if, emit, find_booking,
}
use padel_bot_api.Bookings.Lifecycle.{Env}

-- `PayerInfo`: who actually transferred, as MercadoPago tells it.
pub record PayerInfo : Type 0 where
  pub cuit : Option Text
  pub email : Option Text
  pub mp_user_id : Option Text

abbrev pub same_text : Option Text → Option Text → Bool
same_text none o = false
same_text (some x) none = false
same_text (some x) (some y) = text_eq x y

abbrev pub confirm_data : Option Text → PayerInfo → Booking → Booking
confirm_data payment_ref payer b = record b {
  status = BookingStatus.confirmed;
  mp_payment_id = payment_ref;
  payer_cuit = newer (non_empty payer.cuit) b.payer_cuit;
  payer_email = newer (non_empty payer.email) b.payer_email;
  payer_mp_user_id = newer (non_empty payer.mp_user_id) b.payer_mp_user_id;
}

-- The player of the booking learns the identity that paid.
unfoldable pub learn_payer : ℕ → Option Text → Action (Unit {0})
learn_payer i mp_user_id db = (
  ok tt,
  record db {
    players = elim (non_empty mp_user_id) [
      | none ↦ db.players
      | some m ↦ elim (find i db.bookings) [
        | none ↦ db.players
        | some b ↦ elim b.player_id [
          | none ↦ db.players
          | some p ↦ modify p (λ (q : Player). record q { payer_mp_user_id = some m }) db.players
        ]
      ]
    ];
  },
)

-- `purgeReceipts`: the rows; the bytes in storage are deleted on a best-effort basis.
unfoldable pub purge_receipts : ℕ → Action (Unit {0})
purge_receipts i db =
    (ok tt, record db { receipts = keep (λ (r : Receipt). not (r.booking_id == i)) db.receipts })

-- The live event, AUTO with a payment reference and MANUAL without.
unfoldable pub emit_payment_confirmed : ℕ → Option Text → Action (Unit {0})
emit_payment_confirmed i payment_ref db = elim (find i db.bookings) [
  | none ↦ (ok tt, db)
  | some b ↦ emit (Event.payment_confirmed b.club_id (is_some (non_empty payment_ref))) db
]

-- What follows the write of `confirmPayment`.
unfoldable pub after_confirm : ℕ → Option Text → PayerInfo → Bool → Action Bool
after_confirm i payment_ref payer false = pure false
after_confirm i payment_ref payer true = do
  learn_payer i payer.mp_user_id
  purge_receipts i
  emit_payment_confirmed i payment_ref
  pure true

unfoldable pub confirm_payment : ℕ → Option Text → PayerInfo → Action Bool
confirm_payment i payment_ref payer = do
  hit ← update_booking_if i (λ b. is_pending b.status) (confirm_data payment_ref payer)
  after_confirm i payment_ref payer hit

abbrev pub is_auto : VerificationMode → Bool
is_auto VerificationMode.auto = true
is_auto VerificationMode.receipt = false

-- The clubs that a transfer may confirm: the one whose account it came from, or, for the shared
-- account, those that connected none (`SHARED_ACCOUNT_CLUBS`).
abbrev pub in_scope : Option ℕ → Db → Booking → Bool
in_scope club_id db b = elim (find b.club_id db.clubs) [
  | none ↦ false
  | some c ↦ is_auto c.verification_mode && elim club_id [
    | none ↦ is_none c.mp_access_token && not c.is_sales_demo
    | some i ↦ b.club_id == i
  ]
]

-- The exact amount, transferred between the creation and the expiry of the booking.
abbrev pub in_window : ℕ → ℕ → Booking → Bool
in_window amount_cents paid_at b =
    elim b.transfer_amount_cents [ none ↦ false | some t ↦ t == amount_cents ]
    && leb b.created_at paid_at
    && elim b.payment_expires_at [ none ↦ false | some e ↦ leb paid_at e ]

unfoldable pub pending_candidates : ℕ → ℕ → Option ℕ → Db → List Booking
pending_candidates amount_cents paid_at club_id db =
    keep (λ b. in_scope club_id db b && is_pending b.status && in_window amount_cents paid_at b)
      (rows db.bookings)

-- The bookings that expiry cancelled and nobody paid.
unfoldable pub expired_candidates : ℕ → ℕ → Option ℕ → Db → List Booking
expired_candidates amount_cents paid_at club_id db =
    keep
      (λ b.
        in_scope club_id db b
        && is_cancelled b.status
        && is_none b.mp_payment_id
        && is_none b.deposit_outcome
        && in_window amount_cents paid_at b)
      (rows db.bookings)

-- The only element of a list.
abbrev pub single : List Booking → Option Booking
single [] = none
single (b ∷ []) = some b
single (b ∷ c ∷ bs) = none

abbrev pub identity_matches : PayerInfo → Bool → Booking → Bool
identity_matches payer with_receipt c =
    same_text payer.mp_user_id c.payer_mp_user_id
    || dni_matches c.player_dni (dni_from_identification payer.cuit)
    || (with_receipt && dni_matches c.receipt_payer_dni (dni_from_identification payer.cuit))

abbrev pub expects_identity : Bool → Booking → Bool
expects_identity with_receipt c =
    is_some c.payer_mp_user_id
    || is_some c.player_dni
    || (with_receipt && is_some (non_empty c.receipt_payer_dni))

-- `disambiguateByPayer`. The expired candidates are read without their receipt's DNI.
unfoldable pub disambiguate_by_payer : Bool → List Booking → PayerInfo → Option Booking
disambiguate_by_payer with_receipt candidates payer = single (
    keep
      (λ c. if expects_identity with_receipt c then identity_matches payer with_receipt c else true)
      candidates)

abbrev pub match_dni : Bool → Option Text → Booking → Bool
match_dni with_receipt payer_dni c =
    dni_matches c.player_dni payer_dni
    || (with_receipt && dni_matches c.receipt_payer_dni payer_dni)

-- The strict mode of a club that requires the payer's DNI.
unfoldable pub match_strictly : Bool → List Booking → PayerInfo → Option Booking
match_strictly with_receipt candidates payer = elim (dni_from_identification payer.cuit) [
  | none ↦ none
  | some d ↦ single (keep (match_dni with_receipt (some d)) candidates)
]

-- `clubRequiresDniMatch`, for a transfer of a club's own account.
abbrev pub requires_dni : Option ℕ → Db → Bool
requires_dni none db = false
requires_dni (some i) db = elim (find i db.clubs) [ none ↦ false | some c ↦ c.require_dni_match ]

unfoldable pub choose_expired : Bool → List Booking → PayerInfo → Option Booking
choose_expired strict candidates payer =
    if strict
    then match_strictly false candidates payer
    else disambiguate_by_payer false candidates payer

-- The operation number on the receipt is the strongest link, then the payer.
unfoldable pub choose_pending : Bool → Text → List Booking → PayerInfo → Option Booking
choose_pending strict payment_ref candidates payer =
    elim (single (keep (λ c. same_text c.receipt_operation_ref (some payment_ref)) candidates)) [
      | some c ↦ some c
      | none ↦
          if strict
          then match_strictly true candidates payer
          else disambiguate_by_payer true candidates payer
    ]

abbrev pub confirmed_id : ℕ → Bool → Option ℕ
confirmed_id i done = if done then some i else none

unfoldable pub confirm_chosen : Option Booking → Text → PayerInfo → Action (Option ℕ)
confirm_chosen none payment_ref payer = pure none
confirm_chosen (some c) payment_ref payer = do
  done ← confirm_payment c.id (some payment_ref) payer
  pure (confirmed_id c.id done)

-- Once the slot is taken again, the booking is pending again and confirmed the normal way.
unfoldable pub after_retake : Booking → Text → PayerInfo → Bool → Action (Option ℕ)
after_retake c payment_ref payer false = pure none
after_retake c payment_ref payer true = do
  update_booking c.id (λ b. record b { status = BookingStatus.pending_payment })
  confirm_chosen (some c) payment_ref payer

unfoldable pub revive_chosen : Option Booking → Text → PayerInfo → Action (Option ℕ)
revive_chosen none payment_ref payer = pure none
revive_chosen (some c) payment_ref payer = do
  hit ← book_slot_if c.slot_id (λ _. true)
  after_retake c payment_ref payer hit

unfoldable pub revive_expired_candidate : ℕ → Text → ℕ → Option ℕ → PayerInfo → Action (Option ℕ)
revive_expired_candidate amount_cents payment_ref paid_at club_id payer = do
  candidates ← gets (expired_candidates amount_cents paid_at club_id)
  strict ← gets (requires_dni club_id)
  revive_chosen (choose_expired strict candidates payer) payment_ref payer

abbrev pub is_empty : List Booking → Bool
is_empty [] = true
is_empty (b ∷ bs) = false

-- A movement confirms at most one booking.
abbrev pub is_used : Text → Db → Bool
is_used payment_ref db =
    any_of (λ (b : Booking). same_text b.mp_payment_id (some payment_ref)) (rows db.bookings)

unfoldable pub confirm_payment_by_amount : ℕ → Text → ℕ → Option ℕ → PayerInfo → Action (Option ℕ)
confirm_payment_by_amount amount_cents payment_ref paid_at club_id payer = do
  used ← gets (is_used payment_ref)
  candidates ← gets (pending_candidates amount_cents paid_at club_id)
  strict ← gets (requires_dni club_id)
  if used
      then pure none
      else if is_empty candidates
      then revive_expired_candidate amount_cents payment_ref paid_at club_id payer
      else confirm_chosen (choose_pending strict payment_ref candidates payer) payment_ref payer
