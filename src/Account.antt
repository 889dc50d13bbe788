-- ===== src/Account.antt =====
-- src/bookings/lib/account.ts: the bill of a turno, split over the four player positions.
-- Money is in cents, never negative, so the source's `Math.max(0, a - b)` is `a - b` on ℕ.
pub mod Shares
pub mod Balance
pub mod Mask
mod Tests
use Prim.Native.Nat.{bit_and, bit_or}
use padel_bot_api.Prelude.{
  ℕ, zero, suc, ◌+◌, ◌-◌, ◌*◌, ◌/◌, ◌^◌, Bool, ◌&&◌, Option, List, [], ◌∷◌, if◌then◌else◌, ltb, leb,
  ◌==◌, length, sum,
}
use padel_bot_api.Prelude.Text.{Text}

pub record AccountLine : Type 0 where
  pub unit_price_cents : ℕ
  pub quantity : ℕ
  pub players : List ℕ

pub record PlayerPaymentLine : Type 0 where
  pub id : ℕ
  pub player_slot : ℕ
  pub amount_cents : ℕ
  pub method : Text
  pub created_at : ℕ

pub record PlayerAccount : Type 0 where
  pub slot : ℕ
  pub owes_cents : ℕ
  pub paid_cents : ℕ
  pub remaining_cents : ℕ
  pub deposit_credited_cents : ℕ

pub record BookingAccountView : Type 0 where
  pub court_price_cents : ℕ
  pub consumos_total_cents : ℕ
  pub total_cents : ℕ
  pub deposit_paid_cents : ℕ
  pub unassigned_paid_cents : ℕ
  pub paid_cents : ℕ
  pub remaining_cents : ℕ
  pub settled_at : Option ℕ
  pub players : List PlayerAccount
  pub payments : List PlayerPaymentLine

pub record AccountInput : Type 0 where
  pub court_price_cents : ℕ
  pub lines : List AccountLine
  pub payments : List PlayerPaymentLine
  pub deposit_paid_cents : ℕ
  pub unassigned_paid_cents : ℕ
  pub settled_at : Option ℕ

-- The entries `i`, `i + 1`, … of the array that `splitEqually` builds, `n` of them.
pub shares_from : ℕ → ℕ → ℕ → ℕ → List ℕ
shares_from base remainder i zero = []
shares_from base remainder i (suc n) =
    (base + (if ltb i remainder then 1 else 0)) ∷ shares_from base remainder (i + 1) n

pub split_equally : ℕ → ℕ → List ℕ
split_equally total_cents n =
    let base = total_cents / n in
    let remainder = total_cents - base * n in if n == 0 then [] else shares_from base remainder 0 n

-- `xs[i] += amount`
pub add_at : ℕ → ℕ → List ℕ → List ℕ
add_at i amount [] = []
add_at zero amount (x ∷ xs) = (x + amount) ∷ xs
add_at (suc i) amount (x ∷ xs) = x ∷ add_at i amount xs

-- A position is one of J1 … J4.
abbrev pub is_position : ℕ → Bool
is_position player = leb 1 player && leb player 4

-- `if (player >= 1 && player <= 4) xs[player - 1] += amount`
pub add_to_player : ℕ → ℕ → List ℕ → List ℕ
unfolding add_at
add_to_player player amount xs = if is_position player then add_at (player - 1) amount xs else xs

-- `line.players.forEach((player, i) => …)`
pub charge_players : List ℕ → List ℕ → List ℕ → List ℕ
charge_players [] shares owes = owes
charge_players (p ∷ ps) [] owes = owes
charge_players (p ∷ ps) (s ∷ ss) owes = charge_players ps ss (add_to_player p s owes)

pub line_total : AccountLine → ℕ
line_total line = line.unit_price_cents * line.quantity

pub charge_lines : List AccountLine → List ℕ → List ℕ
charge_lines [] owes = owes
charge_lines (line ∷ lines) owes =
    charge_lines lines
      (charge_players line.players (split_equally (line_total line) (length line.players)) owes)

pub consumos_total : List AccountLine → ℕ
consumos_total [] = 0
consumos_total (line ∷ lines) = line_total line + consumos_total lines

pub collect_payments : List PlayerPaymentLine → List ℕ → List ℕ
collect_payments [] paid = paid
collect_payments (p ∷ ps) paid =
    collect_payments ps (add_to_player p.player_slot p.amount_cents paid)

-- `owes.map((owesCents, i) => …)` from index `i` on.
pub player_rows : ℕ → ℕ → List ℕ → List ℕ → List PlayerAccount
player_rows deposit i [] paid = []
player_rows deposit i (o ∷ owes) [] = []
player_rows deposit i (o ∷ owes) (p ∷ paid) =
    record {
      slot = i + 1;
      owes_cents = o;
      paid_cents = p;
      remaining_cents = o - p;
      deposit_credited_cents = if i == 0 then deposit else 0;
    }
    ∷ player_rows deposit (i + 1) owes paid

pub owes_by_player : AccountInput → List ℕ
owes_by_player input = charge_lines input.lines (split_equally input.court_price_cents 4)

pub paid_by_player : AccountInput → List ℕ
paid_by_player input =
    add_at 0 input.deposit_paid_cents (collect_payments input.payments (0 ∷ 0 ∷ 0 ∷ 0 ∷ []))

pub compute_account : AccountInput → BookingAccountView
unfolding owes_by_player paid_by_player
compute_account input =
    let owes = owes_by_player input in
    let paid_by = paid_by_player input in
    let total = input.court_price_cents + consumos_total input.lines in
    let paid = sum paid_by + input.unassigned_paid_cents in
    record {
      court_price_cents = input.court_price_cents;
      consumos_total_cents = consumos_total input.lines;
      total_cents = total;
      deposit_paid_cents = input.deposit_paid_cents;
      unassigned_paid_cents = input.unassigned_paid_cents;
      paid_cents = paid;
      remaining_cents = total - paid;
      settled_at = input.settled_at;
      players = player_rows input.deposit_paid_cents 0 owes paid_by;
      payments = input.payments;
    }

-- bookings.service.ts `playersFromMask`: the positions `position`, …, of the set bits, `n` of them.
pub positions_from : ℕ → ℕ → ℕ → List ℕ
positions_from mask position zero = []
positions_from mask position (suc n) =
    let rest = positions_from mask (position + 1) n in
    if bit_and mask (2 ^ (position - 1)) == 0 then rest else position ∷ rest

pub players_from_mask : ℕ → List ℕ
unfolding positions_from
players_from_mask mask = positions_from mask 1 4

-- `item.players.reduce((mask, player) => mask | (1 << (player - 1)), 0)`
pub mask_from : ℕ → List ℕ → ℕ
mask_from mask [] = mask
mask_from mask (player ∷ players) = mask_from (bit_or mask (2 ^ (player - 1))) players

pub player_mask : List ℕ → ℕ
unfolding mask_from
player_mask = mask_from 0
