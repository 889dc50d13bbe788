-- ===== src/Bookings/Pending/Amounts.antt =====
-- The amounts of a pending booking: what credit pays, and the amount that tells transfers apart.
use padel_bot_api.Prelude.{
  ℕ, zero, suc, ◌+◌, ◌-◌, ◌*◌, ◌/◌, ◌≤◌, ◌<◌, ◌≡◌, refl, sym, ap, ◌∙◌, ◌↔◌, ◌⊎◌, inl, inr, Bool,
  true, false, ◌&&◌, ◌||◌, ◌%◌, Option, is_some, none, some, List, [], ◌∷◌, arith, leb, ◌==◌,
  Bool-cases, Option-cases, any_of,
}
use padel_bot_api.Prelude.Table.{find, modify, find-modify}
use padel_bot_api.Prelude.Text.{Text}
use padel_bot_api.Players.{Player}
use padel_bot_api.Bookings.Model.{Db, Booking, is_pending, player_keyed}
use padel_bot_api.Bookings.Pending.{consume_credit, charge_for, Policy, transfer_for}
use padel_bot_api.Bookings.Amounts.{
  allocate_transfer_amount, pending_transfer_amount, is_taken, allocate, first_free_tag,
  taken_amounts,
}
use padel_bot_api.Bookings.Statements.{increment_credit}
use padel_bot_api.Bookings.Monad.{ok}

-- Player credit and the rest to transfer make up the deposit, no more credit is used than there is,
-- and the booking is confirmed on the spot exactly when there is nothing left to transfer.
pub charge_for_lem :
    (policy : Policy)
    → ((charge_for policy).credit_applied + (charge_for policy).remaining_cents
        ≡ policy.deposit_cents)
      × ((charge_for policy).credit_applied ≤ policy.available_credit_cents)
      × (((charge_for policy).confirmed_now ≡ true) ↔ ((charge_for policy).remaining_cents ≡ 0))
unfolding charge_for
charge_for_lem policy = (ground arith, ground arith, (λ h. ground arith, λ h. ground arith))

-- The search for a free tag finds one, or all the tags that it tried are taken.
first_free_tag_cases :
    (n tag w : ℕ) (taken : List ℕ)
    → ((k : ℕ) × (k < n)
        × (first_free_tag n tag w taken ≡ some (w + (tag + k)))
        × (is_taken (w + (tag + k)) taken ≡ false))
      ⊎ ((first_free_tag n tag w taken ≡ none)
          × ((k : ℕ) → k < n → is_taken (w + (tag + k)) taken ≡ true))
unfolding first_free_tag
first_free_tag_cases zero tag w taken = inr (refl, λ k h. absurd (omega arith))
first_free_tag_cases (suc n) tag w taken = elim (Bool-cases (is_taken (w + tag) taken)) [
  | inr free ↦ inl (0, omega arith, ground arith, ground arith)
  | inl hit ↦ elim (first_free_tag_cases n (tag + 1) w taken) [
    | inl (k, h, e, f) ↦ inl (k + 1, omega arith, ground arith, ground arith)
    | inr (e, f) ↦ inr (ground arith, λ k h. later k h hit f)
  ]
]
  where
    later :
        (k : ℕ)
        → k < suc n
        → is_taken (w + tag) taken ≡ true
        → ((k : ℕ) → k < n → is_taken (w + (tag + 1 + k)) taken ≡ true)
        → is_taken (w + (tag + k)) taken ≡ true
    later zero h hit f = ground arith
    later (suc k) h hit f = ground (arith, f k (omega arith))

-- The allocated amount is in the whole peso of the deposit and not taken, or all hundred amounts of
-- that peso are taken.
allocate_cases :
    (deposit_cents : ℕ) (taken : List ℕ)
    → ((allocate deposit_cents taken / 100 ≡ deposit_cents / 100)
        × (is_taken (allocate deposit_cents taken) taken ≡ false))
      ⊎ ((k : ℕ) → k < 100 → is_taken (deposit_cents / 100 * 100 + k) taken ≡ true)
unfolding allocate
allocate_cases deposit_cents taken =
    elim (Bool-cases
      (is_taken (deposit_cents / 100 * 100 + (deposit_cents - deposit_cents / 100 * 100)) taken)) [
        | inr free ↦ inl (ground arith, ground arith)
        | inl hit ↦ elim (first_free_tag_cases 100 0 (deposit_cents / 100 * 100) taken) [
          | inl (k, h, e, f) ↦ inl (ground arith, ground arith)
          | inr (e, f) ↦ inr λ k h. ground (arith, f k h)
        ]
      ]

-- The bookings that wait for exactly this amount.
abbrev pub asks_for : ℕ → Booking → Bool
asks_for x b =
    is_pending b.status && elim b.transfer_amount_cents [ none ↦ false | some t ↦ t == x ]

is_taken-any_of :
    (x w : ℕ) (bs : List Booking)
    → w ≤ x
    → x ≤ w + 99
    → is_taken x (taken_amounts w bs) ≡ any_of (asks_for x) bs
is_taken-any_of x w [] h k = refl
is_taken-any_of x w (b ∷ bs) h k = elim (Option-cases b.transfer_amount_cents) [
  | inl e ↦ ground (arith, is_taken-any_of x w bs h k)
  | inr (t, e) ↦ ground (arith, is_taken-any_of x w bs h k)
]

-- The allocated amount lies in the whole peso of the deposit, and no pending booking asks for the
-- same amount, unless all the hundred amounts of that peso are asked for.
allocate_transfer_amount_lem :
    (deposit_cents : ℕ) (db : Db)
    → ((allocate_transfer_amount deposit_cents db / 100 ≡ deposit_cents / 100)
        × (any_of (asks_for (allocate_transfer_amount deposit_cents db)) db.bookings ≡ false))
      ⊎ ((k : ℕ) → k < 100 → any_of (asks_for (deposit_cents / 100 * 100 + k)) db.bookings ≡ true)
unfolding allocate_transfer_amount
allocate_transfer_amount_lem deposit_cents db =
    let w = deposit_cents / 100 * 100 in
    let taken = taken_amounts w db.bookings in
    elim (allocate_cases deposit_cents taken) [
      | inl (e, f) ↦ inl (
        e,
        sym (
              is_taken-any_of (allocate deposit_cents taken) w db.bookings (omega arith)
                (omega arith))
            ∙ f,
      )
      | inr full ↦
          inr λ k h.
            sym (is_taken-any_of (w + k) w db.bookings (omega arith) (omega arith)) ∙ full k h
    ]

-- The allocated amount is near the deposit also when all amounts are asked for.
allocate_near :
    (deposit_cents : ℕ) (taken : List ℕ)
    → (allocate deposit_cents taken ≤ deposit_cents + 99)
      × (deposit_cents ≤ allocate deposit_cents taken + 99)
unfolding allocate
allocate_near deposit_cents taken =
    elim (Bool-cases
      (is_taken (deposit_cents / 100 * 100 + (deposit_cents - deposit_cents / 100 * 100)) taken)) [
        | inr free ↦ (ground arith, ground arith)
        | inl hit ↦ elim (first_free_tag_cases 100 0 (deposit_cents / 100 * 100) taken) [
          | inl (k, h, e, f) ↦ (ground arith, ground arith)
          | inr (e, f) ↦ (ground arith, ground arith)
        ]
      ]

-- Without credit there are two kinds of amount: a whole number of pesos, and a tagged one, which no
-- pending booking asks for unless all those of the peso are asked for.
abbrev pub IsWholeOrTagged : ℕ → Bool → Option Text → Db → ℕ → Type 0
IsWholeOrTagged deposit_cents round_amount known db x =
    ((round_amount || is_some known ≡ true) × (x % 100 ≡ 0))
    ⊎ ((round_amount || is_some known ≡ false)
        × (((x / 100 ≡ deposit_cents / 100) × (any_of (asks_for x) db.bookings ≡ false))
            ⊎ ((k : ℕ)
                → k < 100
                → any_of (asks_for (deposit_cents / 100 * 100 + k)) db.bookings ≡ true)))

pending_transfer_amount_lem :
    (deposit_cents : ℕ) (round_amount : Bool) (known : Option Text) (db : Db)
    → (pending_transfer_amount deposit_cents round_amount known db ≤ deposit_cents + 99)
      × (deposit_cents ≤ pending_transfer_amount deposit_cents round_amount known db + 99)
      × IsWholeOrTagged deposit_cents round_amount known db
          (pending_transfer_amount deposit_cents round_amount known db)
unfolding pending_transfer_amount allocate_transfer_amount
pending_transfer_amount_lem deposit_cents round_amount known db =
    elim (Bool-cases (round_amount || is_some known)) [
      | inl whole ↦ rw whole (omega arith, omega arith, inl (refl, omega arith))
      | inr tagged ↦
          let (above, below) =
            allocate_near deposit_cents (taken_amounts (deposit_cents / 100 * 100) db.bookings) in
          rw tagged (above, below, inr (refl, allocate_transfer_amount_lem deposit_cents db))
    ]

remaining_positive :
    (policy : Policy)
    → (charge_for policy).confirmed_now ≡ false
    → 1 ≤ (charge_for policy).remaining_cents
remaining_positive policy later = elim (Bool-cases ((charge_for policy).remaining_cents == 0)) [
  | inl e ↦ absurd (not_both _ ((charge_for_lem policy).2.1 (ground (arith, e))) later)
  | inr e ↦ ground (arith, e)
]
  where
    not_both : (b : Bool) → b ≡ true → b ≡ false → ⊥
    not_both true h k = cc
    not_both false h k = cc

-- The amount that the player of a new pending booking is told to transfer: there is none exactly
-- when credit covers the deposit or the deposit is nothing; else the amount and the credit applied
-- make up the deposit, but for less than a peso. The amount is exactly the rest where credit was
-- applied; else whole pesos where the club rounds or the payer is known; else in the peso of the
-- deposit and asked for by no pending booking, if any of its hundred amounts is left.
pub transfer_for_lem :
    (policy : Policy) (round_amount : Bool) (known : Option Text) (db : Db)
    → ((transfer_for policy round_amount known db ≡ none)
        × ((charge_for policy).credit_applied ≡ policy.deposit_cents))
      ⊎ ((x : ℕ) × (transfer_for policy round_amount known db ≡ some x)
          × ((charge_for policy).credit_applied < policy.deposit_cents)
          × (x + (charge_for policy).credit_applied ≤ policy.deposit_cents + 99)
          × (policy.deposit_cents ≤ x + (charge_for policy).credit_applied + 99)
          × (((1 ≤ (charge_for policy).credit_applied)
                × (x + (charge_for policy).credit_applied ≡ policy.deposit_cents))
              ⊎ (((charge_for policy).credit_applied ≡ 0)
                  × IsWholeOrTagged policy.deposit_cents round_amount known db x)))
transfer_for_lem policy round_amount known db =
    let (sum_up, enough, covered) = charge_for_lem policy in
    elim (Bool-cases (charge_for policy).confirmed_now) [
      | inl now ↦ inl (rw now refl, omega (arith, sum_up, covered.0 now))
      | inr later ↦
          elim (Bool-cases ((charge_for policy).remaining_cents == policy.deposit_cents)) [
            | inr part ↦ inr (
              (charge_for policy).remaining_cents,
              rw later (rw part refl),
              omega (arith, sum_up, remaining_positive policy later),
              omega (arith, sum_up),
              omega (arith, sum_up),
              inl (ground (arith, sum_up, part), omega (arith, sum_up)),
            )
            | inl whole ↦
                let all_paid : (charge_for policy).credit_applied ≡ 0 =
                  ground (arith, sum_up, whole) in
                let near = pending_transfer_amount_lem policy.deposit_cents round_amount known db in
                inr (
                  pending_transfer_amount policy.deposit_cents round_amount known db,
                  rw later (rw whole refl),
                  omega (arith, sum_up, remaining_positive policy later),
                  omega (arith, sum_up, near.0, all_paid),
                  omega (arith, near.1),
                  inr (all_paid, near.2),
                )
          ]
    ]

abbrev less : ℕ → Player → Player
less amount p = record p { credit_cents = p.credit_cents - amount }

abbrev more : ℕ → Player → Player
more amount p = record p { credit_cents = p.credit_cents + amount }

consume_credit_cases :
    (p amount : ℕ) (db db1 : Db)
    → consume_credit p amount db ≡ (ok tt, db1)
    → (r : Player) × (find p db.players ≡ some r)
      × (amount ≤ r.credit_cents)
      × (db1.players ≡ modify p (less amount) db.players)
unfolding consume_credit
consume_credit_cases p amount db db1 h = elim (Option-cases (find p db.players)) [
  | inl e ↦ absurd (ground arith)
  | inr (r, e) ↦ elim (Bool-cases (leb amount r.credit_cents)) [
    | inl c ↦ (r, e, ground arith, ground arith)
    | inr c ↦ absurd (ground arith)
  ]
]

more-less : (amount : ℕ) (r : Player) → amount ≤ r.credit_cents → more amount (less amount r) ≡ r
more-less amount r h = ap (λ c. record r { credit_cents = c }) (omega arith)

-- Credit that a booking could spend and that is given back leaves every player as before.
pub increment_credit-consume_credit :
    (p amount : ℕ) (db db1 : Db) (q : ℕ)
    → consume_credit p amount db ≡ (ok tt, db1)
    → find q (increment_credit p amount db1).1.players ≡ find q db.players
unfolding increment_credit
increment_credit-consume_credit p amount db db1 q h =
    let (r, found, enough, e) = consume_credit_cases p amount db db1 h in
    ground (
      arith,
      find-modify p p (less amount) db.players (λ x. refl),
      find-modify p q (less amount) db.players (λ x. refl),
      find-modify p q (more amount) db1.players (λ x. refl),
      more-less amount r enough,
    )
