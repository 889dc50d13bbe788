-- ===== src/Stock/Ledger/Restores.antt =====
-- Counts and looks at the flag make it right again, also for a product whose minimum was changed.
use padel_bot_api.Prelude.{
  ℕ, ◌≡◌, refl, sym, subst, inl, inr, Bool, true, Option, none, some, arith, ◌==◌, if◌then◌else◌,
  same_bool, is_some, Bool-cases,
}
use padel_bot_api.Prelude.Int.{ℤ}
use padel_bot_api.Prelude.Table.{find}
use padel_bot_api.Prelude.Text.{Text}
use padel_bot_api.Service.{pure, ◌>>=◌}
use padel_bot_api.Service.Keeps.{
  Keeps, Keeps-pure, Keeps-bind, Ends, Ends-bind, Ends-pure, Ends-if, Ends-whole,
}
use padel_bot_api.Stock.Model.{Product, Kiosk, StockEnv, product_keyed, is_low_stock, is_low}
use padel_bot_api.Stock.Ledger.{
  update_product, untracked, set_locked, set_quantity, refresh_low_stock_flag, flagged,
}
use padel_bot_api.Stock.Ledger.Accounts.{
  Ends-lock_product, IsKept, IsKept-IsLoose, IsLoose, Keeps-lock_product, tight, update_product_lem,
  write_quietly, write_stock-restores,
}

set_locked-restores :
    (env : StockEnv) (club_id : ℕ) (p : Product) (q : Option ℤ) (remark : Option Text)
    (user : Option ℕ) (k : Kiosk)
    → find p.id k.products ≡ some p
    → IsLoose p.id k
    → IsKept (set_locked env club_id p q remark user k).1
unfolding set_locked is_low_stock ◌>>=◌ pure
set_locked-restores env club_id p none remark user k found loose =
    rw (update_product_lem p.id untracked k p found) (
      write_quietly p untracked k found (λ q. refl)
        (record { balance = λ q s. ground arith; flag = refl }) loose)
set_locked-restores env club_id p (some q) remark user k found loose =
    write_stock-restores env club_id p q _ _ k found loose

-- A count makes the flag right, even one that was wrong.
pub set_quantity-restores :
    (env : StockEnv) (club_id i : ℕ) (q : Option ℤ) (remark : Option Text) (user : Option ℕ)
    (k : Kiosk)
    → IsLoose i k
    → Ends IsKept k (set_quantity env club_id i q remark user)
unfolding set_quantity
set_quantity-restores env club_id i q remark user k loose =
    Ends-lock_product k club_id i _ (λ p found e. Ends-bind k _ _ (λ a s h. Ends-pure s _ (
      subst (λ r. IsKept r.1) h
        (set_locked-restores env club_id p q remark user k found (rw e loose)))))

pub set_quantity-IsKept :
    (env : StockEnv) (club_id i : ℕ) (q : Option ℤ) (remark : Option Text) (user : Option ℕ)
    (k : Kiosk)
    → Keeps IsKept k (set_quantity env club_id i q remark user)
unfolding set_quantity
set_quantity-IsKept env club_id i q remark user k = Keeps-lock_product k club_id i _ (λ p found e.
    Keeps-bind k _ _
      (record {
        at = λ kept.
            set_locked-restores env club_id p q remark user k found (IsKept-IsLoose p.id k kept);
      })
      (λ a s h. Keeps-pure s _))

is_some_if : (b : Bool) (n : ℕ) → is_some (if b then some n else none) ≡ b
is_some_if b n = ground arith

refresh_locked-restores :
    (env : StockEnv) (i : ℕ) (p : Product) (k : Kiosk)
    → find p.id k.products ≡ some p
    → p.id ≡ i
    → IsLoose i k
    → IsKept (update_product i (flagged env.now (is_low p)) k).1
refresh_locked-restores env i p k found e loose = rw (sym e) (
    rw (update_product_lem p.id (flagged env.now (is_low p)) k p found) (
      write_quietly p (flagged env.now (is_low p)) k found (λ q. refl)
        (record { balance = (loose p.id p found).0; flag = is_some_if (is_low p) env.now })
        (rw e loose)))

-- The row that is looked at is right as it stands.
IsLoose-IsKept :
    (i : ℕ) (k : Kiosk) (p : Product)
    → find i k.products ≡ some p
    → is_some p.low_stock_notified_at ≡ is_low p
    → IsLoose i k
    → IsKept k
IsLoose-IsKept i k p found flag loose j r h = elim (Bool-cases (j == i)) [
  | inl hit ↦ record { balance = (loose j r h).0; flag = ground arith }
  | inr miss ↦ tight (ground arith) (loose j r h)
]

same_iff : (a b : Bool) → same_bool a b ≡ true → b ≡ a
same_iff a b h = ground arith

pub refresh_low_stock_flag-restores :
    (env : StockEnv) (club_id i : ℕ) (k : Kiosk)
    → IsLoose i k
    → Ends IsKept k (refresh_low_stock_flag env club_id i)
unfolding refresh_low_stock_flag
refresh_low_stock_flag-restores env club_id i k loose =
    Ends-lock_product k club_id i _ (λ p found e.
      Ends-if k (same_bool (is_low p) (is_some p.low_stock_notified_at)) _ _
        (λ right.
          Ends-pure k tt (IsLoose-IsKept i k p (rw (sym e) found) (same_iff _ _ right) loose))
        (λ wrong. Ends-whole k _ (refresh_locked-restores env i p k found e loose)))
