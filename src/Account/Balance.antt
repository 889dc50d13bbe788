-- ===== src/Account/Balance.antt =====
-- Where the money of a bill goes: what the players owe, what they paid, and what is left.
use padel_bot_api.Prelude.{
  ℕ, zero, suc, ◌+◌, ◌-◌, ◌≤◌, ◌<◌, ◌≡◌, refl, sym, ◌∙◌, true, List, [], ◌∷◌, arith, if◌then◌else◌,
  length, All, sum,
}
use padel_bot_api.Account.{
  AccountLine, PlayerPaymentLine, PlayerAccount, AccountInput, add_at, is_position, add_to_player,
  charge_players, line_total, charge_lines, consumos_total, collect_payments, player_rows,
  split_equally, owes_by_player, paid_by_player, compute_account,
}
use padel_bot_api.Account.Shares.{length-split_equally, sum-split_equally}

-- A line is shared when somebody shares it, and all who do hold one of the four positions.
abbrev pub IsShared : AccountLine → Type 0
IsShared line = (0 < length line.players) × All (λ p. is_position p ≡ true) line.players

sum-add_at : (i x : ℕ) (xs : List ℕ) → i < length xs → sum (add_at i x xs) ≡ sum xs + x
unfolding add_at
sum-add_at i x [] h = absurd (omega arith)
sum-add_at zero x (y ∷ ys) h = omega arith
sum-add_at (suc i) x (y ∷ ys) h = omega (arith, sum-add_at i x ys)

length-add_at : (i x : ℕ) (xs : List ℕ) → length (add_at i x xs) ≡ length xs
unfolding add_at
length-add_at i x [] = refl
length-add_at zero x (y ∷ ys) = refl
length-add_at (suc i) x (y ∷ ys) = omega (arith, length-add_at i x ys)

length-add_to_player : (p x : ℕ) (xs : List ℕ) → length (add_to_player p x xs) ≡ length xs
unfolding add_to_player
length-add_to_player p x xs = ground (arith, length-add_at (p - 1) x xs)

-- An amount for a position is added, and one for anybody else is dropped.
sum-add_to_player :
    (p x : ℕ) (xs : List ℕ)
    → length xs ≡ 4
    → sum (add_to_player p x xs) ≡ sum xs + (if is_position p then x else 0)
unfolding add_to_player
sum-add_to_player p x xs h = ground (arith, sum-add_at (p - 1) x xs)

length-charge_players : (ps ss owes : List ℕ) → length (charge_players ps ss owes) ≡ length owes
unfolding charge_players
length-charge_players [] ss owes = refl
length-charge_players (p ∷ ps) [] owes = refl
length-charge_players (p ∷ ps) (s ∷ ss) owes =
    length-charge_players ps ss (add_to_player p s owes) ∙ length-add_to_player p s owes

sum-charge_players :
    (ps ss owes : List ℕ)
    → length owes ≡ 4
    → length ps ≡ length ss
    → All (λ p. is_position p ≡ true) ps
    → sum (charge_players ps ss owes) ≡ sum owes + sum ss
unfolding charge_players
sum-charge_players [] [] owes h e v = omega arith
sum-charge_players [] (s ∷ ss) owes h e v = absurd (omega arith)
sum-charge_players (p ∷ ps) [] owes h e v = absurd (omega arith)
sum-charge_players (p ∷ ps) (s ∷ ss) owes h e v = ground (
  arith,
  length-add_to_player p s owes,
  sum-add_to_player p s owes h,
  sum-charge_players ps ss (add_to_player p s owes),
)

sum-charge_lines :
    (lines : List AccountLine) (owes : List ℕ)
    → length owes ≡ 4
    → All IsShared lines
    → sum (charge_lines lines owes) ≡ sum owes + consumos_total lines
unfolding charge_lines consumos_total
sum-charge_lines [] owes h v = omega arith
sum-charge_lines (line ∷ lines) owes h v =
    let shares = split_equally (line_total line) (length line.players) in
    omega (
      arith,
      length-split_equally (line_total line) (length line.players),
      sum-split_equally (line_total line) (length line.players) v.0.0,
      length-charge_players line.players shares owes,
      sum-charge_players line.players shares owes h
          (sym (length-split_equally (line_total line) (length line.players))) v.0.1,
      sum-charge_lines lines (charge_players line.players shares owes)
          (length-charge_players line.players shares owes ∙ h) v.1,
    )

length-charge_lines :
    (lines : List AccountLine) (owes : List ℕ) → length (charge_lines lines owes) ≡ length owes
unfolding charge_lines
length-charge_lines [] owes = refl
length-charge_lines (line ∷ lines) owes =
    let shares = split_equally (line_total line) (length line.players) in
    length-charge_lines lines (charge_players line.players shares owes)
    ∙ length-charge_players line.players shares owes

pub length-owes_by_player : (input : AccountInput) → length (owes_by_player input) ≡ 4
unfolding owes_by_player
length-owes_by_player input =
    length-charge_lines input.lines (split_equally input.court_price_cents 4)
    ∙ length-split_equally input.court_price_cents 4

-- The bill is divided without loss: when every line is shared among positions, what the four
-- players owe adds up to the court price and all consumos, to the cent.
pub sum-owes_by_player :
    (input : AccountInput)
    → All IsShared input.lines
    → (sum (owes_by_player input) ≡ (compute_account input).total_cents)
      × (length (owes_by_player input) ≡ 4)
unfolding owes_by_player compute_account
sum-owes_by_player input v = (
  omega (
    arith,
    sum-split_equally input.court_price_cents 4 (omega arith),
    sum-charge_lines input.lines (split_equally input.court_price_cents 4)
        (length-split_equally input.court_price_cents 4) v,
  ),
  length-owes_by_player input,
)

-- The amounts of the payments that name a position.
abbrev pub assigned_total : List PlayerPaymentLine → ℕ
assigned_total [] = 0
assigned_total (p ∷ ps) =
    (if is_position p.player_slot then p.amount_cents else 0) + assigned_total ps

length-collect_payments :
    (ps : List PlayerPaymentLine) (paid : List ℕ) → length (collect_payments ps paid) ≡ length paid
unfolding collect_payments
length-collect_payments [] paid = refl
length-collect_payments (p ∷ ps) paid =
    length-collect_payments ps (add_to_player p.player_slot p.amount_cents paid)
    ∙ length-add_to_player p.player_slot p.amount_cents paid

sum-collect_payments :
    (ps : List PlayerPaymentLine) (paid : List ℕ)
    → length paid ≡ 4
    → sum (collect_payments ps paid) ≡ sum paid + assigned_total ps
unfolding collect_payments
sum-collect_payments [] paid h = omega arith
sum-collect_payments (p ∷ ps) paid h = omega (
  arith,
  sum-add_to_player p.player_slot p.amount_cents paid h,
  sum-collect_payments ps (add_to_player p.player_slot p.amount_cents paid)
      (length-add_to_player p.player_slot p.amount_cents paid ∙ h),
)

pub length-paid_by_player : (input : AccountInput) → length (paid_by_player input) ≡ 4
unfolding paid_by_player
length-paid_by_player input =
    length-add_at 0 input.deposit_paid_cents (collect_payments input.payments (0 ∷ 0 ∷ 0 ∷ 0 ∷ []))
    ∙ length-collect_payments input.payments (0 ∷ 0 ∷ 0 ∷ 0 ∷ [])

-- Every cent that came in is on the bill once: the paid total is the deposit, the payments that
-- name a position and the collection that names none.
pub paid_cents_lem :
    (input : AccountInput)
    → (compute_account input).paid_cents
      ≡ input.deposit_paid_cents + assigned_total input.payments + input.unassigned_paid_cents
unfolding compute_account paid_by_player
paid_cents_lem input =
    let zeros : List ℕ = 0 ∷ 0 ∷ 0 ∷ 0 ∷ [] in
    omega (
      arith,
      sum-add_at 0 input.deposit_paid_cents (collect_payments input.payments zeros)
          (omega (arith, length-collect_payments input.payments zeros)),
      sum-collect_payments input.payments zeros refl,
    )

-- What the rows of the bill still ask for, together.
abbrev pub remaining_of : List PlayerAccount → ℕ
remaining_of [] = 0
remaining_of (r ∷ rs) = r.remaining_cents + remaining_of rs

remaining-player_rows :
    (deposit i : ℕ) (owes paid : List ℕ)
    → length owes ≡ length paid
    → sum owes ≤ remaining_of (player_rows deposit i owes paid) + sum paid
unfolding player_rows
remaining-player_rows deposit i [] paid h = omega arith
remaining-player_rows deposit i (o ∷ owes) [] h = absurd (omega arith)
remaining-player_rows deposit i (o ∷ owes) (p ∷ paid) h =
    omega (arith, remaining-player_rows deposit (i + 1) owes paid)

-- A club that collects what each player still owes is paid in full: when every line is shared
-- among positions, what the turno still asks for is at most the sum of the players' remainders.
pub remaining-le :
    (input : AccountInput)
    → All IsShared input.lines
    → (compute_account input).remaining_cents ≤ remaining_of (compute_account input).players
unfolding compute_account
remaining-le input v = omega (
  arith,
  (sum-owes_by_player input v).0,
  remaining-player_rows input.deposit_paid_cents 0 (owes_by_player input) (paid_by_player input)
      (length-owes_by_player input ∙ sym (length-paid_by_player input)),
)
