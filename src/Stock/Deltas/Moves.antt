-- ===== src/Stock/Deltas/Moves.antt =====
-- The levels after all the movements of a bill.
use padel_bot_api.Prelude.{ℕ, ◌≡◌, refl, ap, subst, ◌∙◌, false, Option, none, some, List, [], ◌∷◌}
use padel_bot_api.Prelude.Int.{ℤ, pos, ◌-ℤ◌, int_laws}
use padel_bot_api.Service.{ok, pure}
use padel_bot_api.Service.Returns.{return-bind}
use padel_bot_api.Stock.Model.{MovementInput, Kiosk, StockEnv, Alert}
use padel_bot_api.Stock.Ledger.Levels.{level, shifted, shifted_twice, move-level}
use padel_bot_api.Stock.Deltas.{Quantities, move_all, ConsumoChange, apply_consumos, consumo_deltas}
use padel_bot_api.Stock.Deltas.Net.{delta_of, delta_of-sort, consumo_deltas_net, units}

shifted_nothing : (o : Option ℤ) → o ≡ shifted (pos 0) o
shifted_nothing none = refl
shifted_nothing (some q) = ap some (omega int_laws)

pub move_all-level :
    (env : StockEnv) (club_id : ℕ) (input : ℤ → MovementInput) (m : Quantities) (k : Kiosk) (i : ℕ)
    (alerts : List Alert) (k' : Kiosk)
    → move_all env club_id input false m k ≡ (ok alerts, k')
    → level i k' ≡ shifted (delta_of i m) (level i k)
unfolding move_all delta_of pure
move_all-level env club_id input [] k i alerts k' h =
    subst (λ r. level i r.1 ≡ shifted (pos 0) (level i k)) h (shifted_nothing (level i k))
move_all-level env club_id input ((j, d) ∷ m) k i alerts k' h =
    let (a, s, first, rest) = return-bind _ _ k k' alerts h in
    let (bs, t, others, last) = return-bind _ _ s k' alerts rest in
    subst (λ u. level i u ≡ shifted (delta_of i ((j, d) ∷ m)) (level i k)) {x = t}
      (ap (λ r. r.1) last)
      (move_all-level env club_id input m s i bs t others
        ∙ ap (shifted (delta_of i m)) (move-level env club_id j d (input d) k i a s first)
        ∙ shifted_twice _ _ (level i k))

-- A change of a bill that goes through gives back the units that were on the old bill and takes
-- those on the new one.
pub apply_consumos-level :
    (env : StockEnv) (input : ConsumoChange) (k : Kiosk) (i : ℕ) (alerts : List Alert) (k' : Kiosk)
    → apply_consumos env input k ≡ (ok alerts, k')
    → level i k' ≡ shifted (pos (units i input.before) -ℤ pos (units i input.after)) (level i k)
unfolding apply_consumos
apply_consumos-level env input k i alerts k' h =
    move_all-level env input.club_id _ _ k i alerts k' h
    ∙ ap (λ d. shifted d (level i k))
        (delta_of-sort i (consumo_deltas input.before input.after)
          ∙ consumo_deltas_net i input.before input.after)
