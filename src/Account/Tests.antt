-- ===== src/Account/Tests.antt =====
-- Runs of the bill on inputs that can be followed in the source, and instances of its theorems.
use padel_bot_api.Prelude.{◌+◌, ◌≤◌, ◌≡◌, refl, none, [], ◌∷◌, arith, length, sum}
use padel_bot_api.Account.{
  AccountInput, compute_account, owes_by_player, split_equally, players_from_mask, player_mask,
  line_total, consumos_total, charge_lines, charge_players, add_to_player, add_at, shares_from,
  collect_payments,
}
use padel_bot_api.Account.Shares.{split_equally_lem}
use padel_bot_api.Account.Balance.{
  assigned_total, remaining_of, sum-owes_by_player, paid_cents_lem, remaining-le,
}
use padel_bot_api.Account.Mask.{contains, contains-players_from_mask}

-- A court of $100.01, two waters of $5 shared by J1, J3 and J4, and two payments.
abbrev bill : AccountInput
bill = record {
  court_price_cents = 10001;
  lines = record { unit_price_cents = 500; quantity = 2; players = 1 ∷ 3 ∷ 4 ∷ [] } ∷ [];
  payments =
      record { id = 1; player_slot = 2; amount_cents = 2500; method = []; created_at = 5 }
      ∷ record { id = 2; player_slot = 3; amount_cents = 4000; method = []; created_at = 6 }
      ∷ [];
  deposit_paid_cents = 2500;
  unassigned_paid_cents = 100;
  settled_at = none;
}

owes-bill : owes_by_player bill ≡ 2835 ∷ 2500 ∷ 2833 ∷ 2833 ∷ []
unfolding owes_by_player charge_lines charge_players add_to_player split_equally shares_from
    line_total
owes-bill = refl

remaining-bill : (compute_account bill).remaining_cents ≡ 1901
unfolding compute_account add_at collect_payments add_to_player consumos_total line_total
remaining-bill = refl

split_equally_example : length (split_equally 1000 3) ≡ 3
split_equally_example = (split_equally_lem 1000 3 (omega arith)).0

sum-owes_by_player_example : sum (owes_by_player bill) ≡ (compute_account bill).total_cents
sum-owes_by_player_example =
    (sum-owes_by_player bill ((omega arith, (refl, (refl, (refl, tt)))), tt)).0

paid_cents_example :
    (compute_account bill).paid_cents
    ≡ bill.deposit_paid_cents + assigned_total bill.payments + bill.unassigned_paid_cents
paid_cents_example = paid_cents_lem bill

remaining-le_example :
    (compute_account bill).remaining_cents ≤ remaining_of (compute_account bill).players
remaining-le_example = remaining-le bill ((omega arith, (refl, (refl, (refl, tt)))), tt)

contains-players_from_mask_example :
    contains 3 (players_from_mask (player_mask (1 ∷ 3 ∷ []))) ≡ contains 3 (1 ∷ 3 ∷ [])
contains-players_from_mask_example =
    contains-players_from_mask (1 ∷ 3 ∷ []) 3 (refl, (refl, tt)) refl
