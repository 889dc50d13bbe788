-- ===== src/Bookings/Pending/Courts.antt =====
-- A booking of the bot takes the slot that it names, or nothing.
use padel_bot_api.Prelude.{ℕ, ◌≡◌, refl, ap, Bool, true, false, Option, none, some, List, arith}
use padel_bot_api.Prelude.Table.{find}
use padel_bot_api.Bookings.Model.{booking_keyed, slot_keyed, player_keyed, Db, Booking}
use padel_bot_api.Bookings.Courts.{view}
use padel_bot_api.Bookings.Pending.{
  book_pending, pending_write, spend, consume_credit, apply_player_policy, Policy, charge_for,
  policy_for, announce,
}
use padel_bot_api.Bookings.Monad.{pure, ok, raise, gets, ◌>>=◌}
use padel_bot_api.Bookings.Lifecycle.{
  Env, resolve_payment_plan, CreateBookingDto, upsert_player, PaymentPlan,
}
use padel_bot_api.Prelude.Text.{Text}
use padel_bot_api.Bookings.Steps.{
  Steps, Steps-transaction, Commits-bind, Commits-gets, Steps-gets, Steps-or_raise, Steps-raise_if,
  Steps-neutral, Steps-pure, Steps-bind,
}
use padel_bot_api.Bookings.Statements.Courts.{Steps-emit_booking_change}
use padel_bot_api.Players.{Player, upsert_for_booking, standing_for_phone}
use padel_bot_api.Bookings.Transitions.{take-Commits}

pub spend_lem :
    (p : Option ℕ) (n : ℕ) (db db' : Db)
    → spend p n db ≡ (ok tt, db')
    → (ps : List Player) × (db' ≡ record db { players = ps })
unfolding pure consume_credit
spend_lem p n db db' e = (db'.players, ground arith)

pub pending_write-Steps :
    (env : Env) (fresh club_id : ℕ) (dto : CreateBookingDto) (policy : Policy) (round_amount : Bool)
    (known : Option Text) (db : Db)
    → find fresh db.bookings ≡ none
    → Steps db (pending_write env fresh club_id dto policy round_amount known)
unfolding pending_write
pending_write-Steps env fresh club_id dto policy round_amount known db new =
    Steps-transaction db _ (
      Commits-bind (view db) db _ _ λ _ db1 e.
        let (ps, f) = spend_lem policy.player_id (charge_for policy).credit_applied db db1 e in
        rw f (
          Commits-gets (view db) _ _ _ (
            take-Commits dto.slot_id club_id _ (record db { players = ps }) new refl
              (ground arith))))

policy_for-keeps :
    (threshold price : ℕ) (plan : PaymentPlan) (i : Option ℕ) (p : Option Player) (db : Db)
    → (policy_for threshold price plan i p db).1 ≡ db
unfolding policy_for pure raise
policy_for-keeps threshold price plan none p db = refl
policy_for-keeps threshold price plan (some i) none db = ground arith
policy_for-keeps threshold price plan (some i) (some p) db = ground arith

pub apply_player_policy-keeps :
    (env : Env) (fresh_player club_id price : ℕ) (dto : CreateBookingDto) (plan : PaymentPlan)
    (db : Db)
    → let db' = (apply_player_policy env fresh_player club_id dto price plan db).1 in
      (db'.bookings ≡ db.bookings) × (db'.slots ≡ db.slots)
unfolding apply_player_policy upsert_player gets ◌>>=◌
apply_player_policy-keeps env fresh_player club_id price dto plan db =
    let (i, players) =
      upsert_for_booking fresh_player club_id dto.player_phone (some dto.player_name) dto.player_dni
        db.players in
    let standing = standing_for_phone club_id dto.player_phone players in
    let e =
      policy_for-keeps env.no_show_full_threshold price plan i standing
        (record db { players = players }) in
    (ap (λ d. d.bookings) e, ap (λ d. d.slots) e)

pub announce-Steps : (c : Bool) (b : Booking) (db : Db) → Steps db (announce c b)
announce-Steps true b db = Steps-emit_booking_change db _ b
announce-Steps false b db = Steps-pure db tt

pub book_pending-Steps :
    (env : Env) (fresh fresh_player club_id : ℕ) (dto : CreateBookingDto) (db : Db)
    → find fresh db.bookings ≡ none
    → Steps db (book_pending env fresh fresh_player club_id dto)
unfolding book_pending resolve_payment_plan
book_pending-Steps env fresh fresh_player club_id dto db new = Steps-gets db _ _ (
    Steps-or_raise db _ _ _ λ slot _. Steps-raise_if db _ _ _ λ _. Steps-gets db _ _ (
      let keeps = apply_player_policy-keeps env fresh_player club_id slot.price_cents dto _ db in
      Steps-neutral db _ _ keeps.0 keeps.1 λ policy db1 e _. Steps-gets db1 _ _ (
        Steps-bind db1 _ _ (pending_write-Steps env fresh club_id dto policy _ _ db1 (rw e new))
          λ b db2 _. Steps-bind db2 _ _ (announce-Steps _ b db2) λ _ db3 _. Steps-pure db3 _)))
