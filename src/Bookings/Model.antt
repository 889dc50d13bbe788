-- ===== src/Bookings/Model.antt =====
-- The rows that src/bookings/bookings.service.ts reads and writes, one record for each Prisma model.
-- Identifiers are numbers, since the code only compares them; instants are milliseconds.
use padel_bot_api.Prelude.{ℕ, Bool, true, false, Option, List}
use padel_bot_api.Prelude.Table.{Keyed}
use padel_bot_api.Prelude.Text.{Text}
use padel_bot_api.Account.{PlayerPaymentLine}
use padel_bot_api.Players.{Player}
use padel_bot_api.Pricing.{PriceRule}
use padel_bot_api.Schedule.{CourtSchedule}
use padel_bot_api.Stock.Model.{Kiosk}

pub data SlotStatus : Type 0 where
  available booked blocked : SlotStatus

pub data BookingStatus : Type 0 where
  pending_payment confirmed cancelled : BookingStatus

pub data DepositOutcome : Type 0 where
  credited forfeited refunded : DepositOutcome

-- `DepositMode`: NONE, DEPOSIT, FULL.
pub data DepositMode : Type 0 where
  no_deposit deposit full : DepositMode

-- `paymentVerificationMode`: AUTO, RECEIPT.
pub data VerificationMode : Type 0 where
  auto receipt : VerificationMode

pub data PlayerRescheduleMode : Type 0 where
  self request off : PlayerRescheduleMode

pub record Slot : Type 0 where
  pub id : ℕ
  pub court_id : ℕ
  pub club_id : ℕ
  pub starts_at : ℕ
  pub ends_at : ℕ
  pub price_cents : ℕ
  pub status : SlotStatus

-- The columns of a fijo's "¿venís?".
pub record Attendance : Type 0 where
  pub asked_at : Option ℕ
  pub is_confirmed : Option Bool
  pub answered_at : Option ℕ
  pub alert_sent_at : Option ℕ

pub record Booking : Type 0 where
  pub id : ℕ
  pub slot_id : ℕ
  pub club_id : ℕ
  pub player_name : Text
  pub player_phone : Option Text
  pub player_id : Option ℕ
  pub player_dni : Option Text
  pub receipt_payer_dni : Option Text
  pub receipt_operation_ref : Option Text
  pub status : BookingStatus
  pub notes : Option Text
  pub payer_cuit : Option Text
  pub payer_email : Option Text
  pub payer_mp_user_id : Option Text
  pub booked_by_user_id : Option ℕ
  pub recurring_booking_id : Option ℕ
  pub deposit_cents : ℕ
  pub transfer_amount_cents : Option ℕ
  pub credit_applied_cents : ℕ
  pub deposit_outcome : Option DepositOutcome
  pub local_payment_cents : ℕ
  pub local_payment_method : Option Text
  pub mp_payment_id : Option Text
  pub payment_expires_at : Option ℕ
  pub receipt_uploaded_at : Option ℕ
  pub settled_at : Option ℕ
  pub no_show_at : Option ℕ
  pub reminder_sent_at : Option ℕ
  pub attendance : Attendance
  pub reschedule_count : ℕ
  pub deleted_at : Option ℕ
  pub created_at : ℕ

pub record Club : Type 0 where
  pub id : ℕ
  pub deposit_mode : DepositMode
  pub deposit_percent : Option ℕ
  pub require_dni_match : Bool
  pub verification_mode : VerificationMode
  pub cancellation_window_hours : ℕ
  pub player_reschedule : PlayerRescheduleMode
  pub player_reschedule_cutoff_hours : Option ℕ
  pub max_player_reschedules : ℕ
  pub mp_access_token : Option Text
  pub is_sales_demo : Bool

-- `PaymentReceipt`, `BookingPlayerPayment` and `BookingProduct` rows, with the booking they hang on.
pub record Receipt : Type 0 where
  pub id : ℕ
  pub booking_id : ℕ
  pub club_id : ℕ
  pub storage_key : Text

pub record PlayerPayment : Type 0 where
  pub booking_id : ℕ
  pub club_id : ℕ
  pub line : PlayerPaymentLine

pub record BookingProduct : Type 0 where
  pub booking_id : ℕ
  pub product_id : ℕ
  pub quantity : ℕ
  pub unit_price_cents : ℕ
  pub player_mask : ℕ

pub record Court : Type 0 where
  pub id : ℕ
  pub club_id : ℕ
  pub price_cents : ℕ
  pub price_rules : List PriceRule
  pub schedule : CourtSchedule

pub record RecurringBooking : Type 0 where
  pub id : ℕ
  pub club_id : ℕ
  pub court_id : ℕ
  pub day_of_week : ℕ
  pub slot_start : Text
  pub slot_end : Text
  pub player_name : Text
  pub player_phone : Text
  pub price_cents : ℕ
  pub notes : Option Text
  pub until_date : Option ℕ
  pub is_active : Bool
  pub created_by_user_id : ℕ

pub data BookingAction : Type 0 where
  created cancelled rescheduled attendance : BookingAction

-- What the service broadcasts to the club.
pub data Event : Type 0 where
  booking_changed : ℕ → BookingAction → ℕ → Event
  slot_freed : ℕ → ℕ → ℕ → ℕ → ℕ → Event
  payment_confirmed : ℕ → Bool → Event
  payment_receipt : ℕ → ℕ → Event

pub record Db : Type 0 where
  pub slots : List Slot
  pub bookings : List Booking
  pub players : List Player
  pub clubs : List Club
  pub courts : List Court
  pub recurring : List RecurringBooking
  pub receipts : List Receipt
  pub payments : List PlayerPayment
  pub products : List BookingProduct
  pub kiosk : Kiosk
  pub events : List Event

instance abbrev pub slot_keyed : Keyed Slot
slot_keyed = record { key = λ r. r.id }

instance abbrev pub booking_keyed : Keyed Booking
booking_keyed = record { key = λ r. r.id }

instance abbrev pub player_keyed : Keyed Player
player_keyed = record { key = λ r. r.id }

instance abbrev pub club_keyed : Keyed Club
club_keyed = record { key = λ r. r.id }

instance abbrev pub court_keyed : Keyed Court
court_keyed = record { key = λ r. r.id }

instance abbrev pub recurring_keyed : Keyed RecurringBooking
recurring_keyed = record { key = λ r. r.id }

abbrev pub is_available : SlotStatus → Bool
is_available SlotStatus.available = true
is_available SlotStatus.booked = false
is_available SlotStatus.blocked = false

abbrev pub is_pending : BookingStatus → Bool
is_pending BookingStatus.pending_payment = true
is_pending BookingStatus.confirmed = false
is_pending BookingStatus.cancelled = false

abbrev pub is_confirmed_status : BookingStatus → Bool
is_confirmed_status BookingStatus.pending_payment = false
is_confirmed_status BookingStatus.confirmed = true
is_confirmed_status BookingStatus.cancelled = false

abbrev pub is_cancelled : BookingStatus → Bool
is_cancelled BookingStatus.pending_payment = false
is_cancelled BookingStatus.confirmed = false
is_cancelled BookingStatus.cancelled = true

abbrev pub same_status : BookingStatus → BookingStatus → Bool
same_status BookingStatus.pending_payment t = is_pending t
same_status BookingStatus.confirmed t = is_confirmed_status t
same_status BookingStatus.cancelled t = is_cancelled t
