-- ===== src/Bookings/Desk/Courts.antt =====
-- The desk's records of a booking move no court, but for a fijo that declines, which cancels.
use padel_bot_api.Prelude.{
  ℕ, refl, inl, inr, Bool, true, false, Option, none, some, Option-cases, is_none, is_some, not,
  ◌&&◌, arith,
}
use padel_bot_api.Bookings.Model.{Db, booking_keyed, slot_keyed, player_keyed, Booking}
use padel_bot_api.Bookings.Desk.{
  unmark_no_show, unmark_row, mark_no_show, mark_row, count_no_show, confirm_attendance,
  set_attendance, uncount_no_show, announce_attendance, attending, emit_attendance,
}
use padel_bot_api.Bookings.Bill.{
  set_local_payment, remove_player_payment, settle_view, refresh_settled, add_player_payment,
  load_account, should_be_settled, check_split,
}
use padel_bot_api.Bookings.Monad.{gets, raise_if, Error, ◌>>=◌, pure}
use padel_bot_api.Account.{BookingAccountView, PlayerPaymentLine}
use padel_bot_api.Prelude.Text.{Text}
use padel_bot_api.Bookings.Lifecycle.{Env}
use padel_bot_api.Bookings.Steps.{
  Steps, Steps-pure, Steps-if, Steps-find_one, Steps-bind, Steps-gets, Steps-unchanged,
  Steps-raise_if, Steps-or_raise, Steps-modify_db, Steps-whole,
}
use padel_bot_api.Bookings.Statements.Courts.{Steps-update_booking, Steps-emit_booking_change}
use padel_bot_api.Bookings.Payments.Courts.{Steps-update_booking_if}
use padel_bot_api.Bookings.Methods.{cancel-Steps}
use padel_bot_api.Bookings.Statements.{update_booking}
use padel_bot_api.Prelude.Table.{find}

module _ {A : Type 0} (db : Db) where
  -- A read, when it is the whole method.
  Steps-read : (g : Db → A) → Steps db (gets g)
  unfolding gets
  Steps-read g = Steps-unchanged db _ refl refl

count_no_show-Steps : (p : Option ℕ) (db : Db) → Steps db (count_no_show p)
unfolding count_no_show
count_no_show-Steps none db = Steps-unchanged db _ refl refl
count_no_show-Steps (some p) db = Steps-unchanged db _ (ground arith) (ground arith)

uncount_no_show-Steps : (p : Option ℕ) (db : Db) → Steps db (uncount_no_show p)
unfolding uncount_no_show
uncount_no_show-Steps none db = Steps-unchanged db _ refl refl
uncount_no_show-Steps (some p) db = Steps-unchanged db _ refl refl

mark_row-Steps : (env : Env) (b : Booking) (db : Db) → Steps db (mark_row env b)
unfolding mark_row
mark_row-Steps env b db = elim (Option-cases b.no_show_at) [
  | inr (t, e) ↦ rw e (Steps-pure db t)
  | inl e ↦ rw e (
      Steps-bind db _ _
        (Steps-whole db _ (
          Steps-bind db _ _ (Steps-update_booking db b.id _ (λ _. refl) (λ _ _. refl))
            λ _ db1 _. count_no_show-Steps b.player_id db1))
        λ _ db2 _. Steps-pure db2 _)
]

pub mark_no_show-Steps :
    (env : Env) (club_id i : ℕ) (db : Db) → Steps db (mark_no_show env club_id i)
unfolding mark_no_show
mark_no_show-Steps env club_id i db =
    Steps-gets db _ _
      (Steps-or_raise db _ _ _ λ b _. Steps-raise_if db _ _ _ λ _. mark_row-Steps env b db)

unmark_row-Steps : (b : Booking) (db : Db) → Steps db (unmark_row b)
unfolding unmark_row
unmark_row-Steps b db = elim (Option-cases b.no_show_at) [
  | inl e ↦ rw e (Steps-pure db tt)
  | inr (t, e) ↦ rw e (
      Steps-whole db _ (
        Steps-bind db _ _ (Steps-update_booking db b.id _ (λ _. refl) (λ _ _. refl))
          λ _ db1 _. uncount_no_show-Steps b.player_id db1))
]

pub unmark_no_show-Steps : (club_id i : ℕ) (db : Db) → Steps db (unmark_no_show club_id i)
unfolding unmark_no_show
unmark_no_show-Steps club_id i db =
    Steps-gets db _ _ (Steps-or_raise db _ _ _ λ b _. unmark_row-Steps b db)

announce_attendance-Steps : (i : ℕ) (c : Bool) (db : Db) → Steps db (announce_attendance i c)
announce_attendance-Steps i false db = Steps-pure db false
announce_attendance-Steps i true db =
    Steps-gets db _ _
      (Steps-bind db _ _ (emitted (find i db.bookings)) λ _ db1 _. Steps-pure db1 true)
  where
    emitted : (o : Option Booking) → Steps db (emit_attendance o)
    emitted none = Steps-pure db tt
    emitted (some b) = Steps-emit_booking_change db _ b

pub confirm_attendance-Steps :
    (env : Env) (club_id i : ℕ) (db : Db) → Steps db (confirm_attendance env club_id i)
unfolding confirm_attendance
confirm_attendance-Steps env club_id i db =
    Steps-bind db _ _ (Steps-update_booking_if db i _ (attending env.now) (λ _. refl) (λ _ _. refl))
      λ c db1 _. announce_attendance-Steps i c db1

raise_if-Steps : (c : Bool) (e : Error) (db : Db) → Steps db (raise_if c e)
unfolding raise_if
raise_if-Steps true e db = Steps-unchanged db _ refl refl
raise_if-Steps false e db = Steps-unchanged db _ refl refl

pub set_attendance-Steps :
    (env : Env) (club_id i : ℕ) (coming : Bool) (db : Db)
    → Steps db (set_attendance env club_id i coming)
unfolding set_attendance
set_attendance-Steps env club_id i coming db = Steps-find_one db club_id i _ λ b found.
    Steps-raise_if db _ _ _ λ _. Steps-raise_if db _ _ _ λ _. Steps-gets db _ _ (
      Steps-or_raise db _ _ _ λ slot _.
        Steps-if db coming _ _
          (Steps-bind db _ _ (confirm_attendance-Steps env club_id i db)
            λ c db1 _. raise_if-Steps _ _ db1)
          (Steps-raise_if db _ _ _ λ _. cancel-Steps env club_id i true db))

pub set_local_payment-Steps :
    (club_id i amount_cents : ℕ) (method : Text) (db : Db)
    → Steps db (set_local_payment club_id i amount_cents method)
unfolding set_local_payment
set_local_payment-Steps club_id i amount_cents method db = Steps-gets db _ _ (
    Steps-or_raise db _ _ _
      λ b _. Steps-raise_if db _ _ _ λ _. Steps-update_booking db i _ (λ _. refl) (λ _ _. refl))

load_account-Steps : (club_id i : ℕ) (db : Db) → Steps db (load_account club_id i)
unfolding load_account
load_account-Steps club_id i db = Steps-gets db _ _ (
    Steps-or_raise db _ _ _
      λ b _. Steps-gets db _ _ (Steps-or_raise db _ _ _ λ slot _. Steps-read db _))

settle_view-Steps : (now i : ℕ) (v : BookingAccountView) (db : Db) → Steps db (settle_view now i v)
unfolding settle_view
settle_view-Steps now i v db =
    Steps-if db (should_be_settled v && is_none v.settled_at) _ _ (stamp (some now)) (
      Steps-if db (not (should_be_settled v) && is_some v.settled_at) _ _ (stamp none)
        (Steps-pure db v))
  where
    stamp :
        (o : Option ℕ)
        → Steps db (
            update_booking i (λ c. record c { settled_at = o }) >>= λ _.
            pure (record v { settled_at = o }))
    stamp o =
        Steps-bind db _ _ (Steps-update_booking db i _ (λ _. refl) (λ _ _. refl))
          λ _ db1 _. Steps-pure db1 (record v { settled_at = o })

pub refresh_settled-Steps :
    (env : Env) (club_id i : ℕ) (db : Db) → Steps db (refresh_settled env club_id i)
unfolding refresh_settled
refresh_settled-Steps env club_id i db =
    Steps-bind db _ _ (load_account-Steps club_id i db) λ v db1 _. settle_view-Steps env.now i v db1

check_split-Steps :
    (c : Bool) (club_id i : ℕ) (line : PlayerPaymentLine) (db : Db)
    → Steps db (check_split c club_id i line)
unfolding check_split
check_split-Steps true club_id i line db = Steps-pure db tt
check_split-Steps false club_id i line db =
    Steps-bind db _ _ (load_account-Steps club_id i db) λ v db1 _. raise_if-Steps _ _ db1

pub add_player_payment-Steps :
    (env : Env) (can_split : Bool) (club_id i : ℕ) (line : PlayerPaymentLine) (db : Db)
    → Steps db (add_player_payment env can_split club_id i line)
unfolding add_player_payment
add_player_payment-Steps env can_split club_id i line db = Steps-gets db _ _ (
    Steps-or_raise db _ _ _ λ b _. Steps-raise_if db _ _ _ λ _.
      Steps-bind db _ _ (check_split-Steps can_split club_id i line db)
        λ _ db1 _. Steps-modify_db db1 _ _ refl refl (refresh_settled-Steps env club_id i _))

pub remove_player_payment-Steps :
    (env : Env) (club_id i payment_id : ℕ) (db : Db)
    → Steps db (remove_player_payment env club_id i payment_id)
unfolding remove_player_payment
remove_player_payment-Steps env club_id i payment_id db = Steps-gets db _ _ (
    Steps-raise_if db _ _ _
      λ _. Steps-modify_db db _ _ refl refl (refresh_settled-Steps env club_id i _))
