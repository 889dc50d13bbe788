-- ===== src/Bookings/Methods.antt =====
-- Every method of the desk is a sequence of changes of the abstract courts.
use padel_bot_api.Prelude.Table.{find, find-key}
use padel_bot_api.Prelude.{ℕ, ◌≡◌, refl, Bool, Option, none, some, List, arith}
use padel_bot_api.Bookings.Lifecycle.{
  book, cancel, reschedule, remove, Env, resolve_payment_plan, upsert_player, CreateBookingDto,
}
use padel_bot_api.Bookings.Transitions.{take_slot-Steps, cancel_write-Steps, reschedule_write-Steps}
use padel_bot_api.Bookings.Model.{Db, booking_keyed, slot_keyed}
use padel_bot_api.Bookings.Steps.{
  Steps, Steps-gets, Steps-find_one, Steps-raise_if, Steps-or_raise, Steps-bind, Steps-pure,
}
use padel_bot_api.Bookings.Statements.Courts.{
  Steps-emit_booking_change, Steps-reprice_slot, Steps-emit_slot_freed, Steps-update_booking,
}
use padel_bot_api.Bookings.Monad.{◌>>=◌, Action}
use padel_bot_api.Prelude.Text.{Text}
use padel_bot_api.Players.{Player, upsert_for_booking}

module _ {B : Type 0} (db : Db) where
  -- An upsert of a player changes nothing but the table of players.
  pub Steps-upsert_bind :
      (fresh c : ℕ) (phone name dni : Option Text) (f : Option ℕ → Action B)
      → ((p : Option ℕ) (players : List Player) → Steps (record db { players = players }) (f p))
      → Steps db (upsert_player fresh c phone name dni >>= f)
  unfolding upsert_player ◌>>=◌
  Steps-upsert_bind fresh c phone name dni f rest =
      let (p, players) = upsert_for_booking fresh c phone name dni db.players in
      record { at = (rest p players).at }

pub book-Steps :
    (env : Env) (fresh fresh_player club_id : ℕ) (dto : CreateBookingDto) (user_id : Option ℕ)
    (db : Db)
    → find fresh db.bookings ≡ none
    → Steps db (book env fresh fresh_player club_id dto user_id)
unfolding book resolve_payment_plan
book-Steps env fresh fresh_player club_id dto user_id db new = Steps-gets db _ _ (
    Steps-or_raise db _ _ _ λ slot _. Steps-raise_if db _ _ _ λ _. Steps-gets db _ _ (
      Steps-upsert_bind db _ _ _ _ _ _ λ p players.
        Steps-bind _ _ _ (take_slot-Steps dto.slot_id club_id _ _ new refl (ground arith))
          λ b db' _.
            Steps-bind db' _ _ (Steps-emit_booking_change db' _ b) λ _ db2 _. Steps-pure db2 b))

pub cancel-Steps :
    (env : Env) (club_id i : ℕ) (declined : Bool) (db : Db)
    → Steps db (cancel env club_id i declined)
unfolding cancel
cancel-Steps env club_id i declined db = Steps-find_one db club_id i _ λ b found.
    Steps-raise_if db _ _ _ λ active. Steps-gets db _ _ (
      Steps-or_raise db _ _ _ λ slot _. Steps-gets db _ _ (
        Steps-bind db _ _
          (cancel_write-Steps b _ declined env.now db active
            (λ c e. ground (arith, find-key i db.bookings b found)))
          λ _ db1 _.
            Steps-bind db1 _ _ (Steps-reprice_slot db1 env.clock b.slot_id (some club_id))
              λ price db2 _.
                Steps-bind db2 _ _ (Steps-emit_booking_change db2 _ b)
                  λ _ db3 _. Steps-emit_slot_freed db3 b.slot_id _))

pub reschedule-Steps :
    (env : Env) (club_id i new_slot_id : ℕ) (db : Db)
    → Steps db (reschedule env club_id i new_slot_id)
unfolding reschedule
reschedule-Steps env club_id i new_slot_id db = Steps-find_one db club_id i _ λ b found.
    Steps-raise_if db _ _ _ λ active. Steps-raise_if db _ _ _ λ differ. Steps-gets db _ _ (
      Steps-or_raise db _ _ _ λ target _. Steps-raise_if db _ _ _ λ _.
        Steps-bind db _ _
          (reschedule_write-Steps b new_slot_id club_id db (ground arith) λ c e. (
            ground (arith, find-key i db.bookings b found),
            ground (arith, find-key i db.bookings b found),
          ))
          λ _ db1 _.
            Steps-bind db1 _ _ (Steps-reprice_slot db1 env.clock b.slot_id (some club_id))
              λ _ db2 _. Steps-emit_booking_change db2 _ b)

pub remove-Steps : (env : Env) (club_id i : ℕ) (db : Db) → Steps db (remove env club_id i)
unfolding remove
remove-Steps env club_id i db =
    Steps-find_one db club_id i _
      λ b found. Steps-raise_if db _ _ _ λ _. Steps-update_booking db i _ (λ _. refl) (λ _ _. refl)
