-- ===== src/Stock/Ledger/Accounts.antt =====
-- What the building blocks keep: the ledger ends with the stock, and the flag says who is low.
use padel_bot_api.Prelude.{
  ℕ, ◌≡◌, refl, sym, subst, ◌≢◌, inl, inr, Bool, Option, none, some, List, [], ◌∷◌, arith, ◌==◌,
  if◌then◌else◌, is_some, Bool-cases,
}
use padel_bot_api.Prelude.Int.{ℤ}
use padel_bot_api.Prelude.Table.{find, modify, find-modify, find-key}
use padel_bot_api.Service.{Method, ok, not_found, pure, gets, ◌>>=◌, modify_db}
use padel_bot_api.Service.Keeps.{Keeps, Keeps-pure, Keeps-or_raise, Keeps-if, Ends, Ends-or_raise}
use padel_bot_api.Stock.Model.{
  Product, MovementInput, StockMovement, Kiosk, StockEnv, product_keyed, is_low_stock, is_low,
}
use padel_bot_api.Stock.Ledger.{
  update_product, find_product, lock_product, flag_after, movement_row, write_stock, move_locked,
  move, alert_for, flagged,
}

-- The stock after the newest movement of a product.
unfoldable pub last_stock : ℕ → List StockMovement → Option ℤ
last_stock i [] = none
last_stock i (m ∷ ms) = if m.product_id == i then some m.stock_after else last_stock i ms

-- A product with a quantity has the one that its ledger ends with, and the mark that its owner was
-- told is set exactly when it is low.
pub record Agrees (ms : List StockMovement) (p : Product) : Type 0 where
  pub balance : (q : ℤ) → p.stock_quantity ≡ some q → last_stock p.id ms ≡ some q
  pub flag : is_some p.low_stock_notified_at ≡ is_low p

-- Every product of the kiosk agrees with its ledger.
abbrev pub IsKept : Kiosk → Type 0
IsKept k = (i : ℕ) (p : Product) → find i k.products ≡ some p → Agrees k.movements p

written :
    (now : ℕ) (next : ℤ) (flagged : Option ℕ) (ms : List StockMovement) (m : StockMovement)
    (q : Product)
    → m.product_id ≡ q.id
    → m.stock_after ≡ next
    → Agrees (m ∷ ms) (record q {
      stock_quantity = some next;
      low_stock_notified_at =
          flag_after now (is_low_stock (some next) q.low_stock_threshold) flagged;
    })
unfolding last_stock is_low_stock
written now next flagged ms m q e h = record { balance = λ r s. ground arith; flag = ground arith }

-- As `IsKept`, but for the flag of one product.
abbrev pub IsLoose : ℕ → Kiosk → Type 0
IsLoose i k =
    (j : ℕ) (p : Product)
    → find j k.products ≡ some p
    → ((q : ℤ) → p.stock_quantity ≡ some q → last_stock p.id k.movements ≡ some q)
      × (j ≢ i → is_some p.low_stock_notified_at ≡ is_low p)

pub IsKept-IsLoose : (i : ℕ) (k : Kiosk) → IsKept k → IsLoose i k
IsKept-IsLoose i k kept j p h = ((kept j p h).balance, λ ne. (kept j p h).flag)

other_movement :
    (ms : List StockMovement) (m : StockMovement) (p : Product)
    → m.product_id ≢ p.id
    → Agrees ms p
    → Agrees (m ∷ ms) p
unfolding last_stock
other_movement ms m p ne a = record {
  balance = λ q s. ground (arith, a.balance q s);
  flag = a.flag;
}

-- A write under the lock puts the new quantity and the new flag in the row, and its line in front.
pub write_stock_lem :
    (env : StockEnv) (club_id : ℕ) (p : Product) (next delta : ℤ) (input : MovementInput)
    (k : Kiosk)
    → find p.id k.products ≡ some p
    → write_stock env club_id p next delta input k ≡ (
      ok (alert_for p next (is_low_stock (some next) p.low_stock_threshold)),
      record k {
        products =
            modify p.id
              (λ (q : Product). record q {
                stock_quantity = some next;
                low_stock_notified_at =
                    flag_after env.now
                      (is_low_stock (some next) p.low_stock_threshold)
                      p.low_stock_notified_at;
              })
              k.products;
        movements = movement_row club_id p.id delta next input ∷ k.movements;
      },
    )
unfolding write_stock update_product modify_db pure ◌>>=◌
write_stock_lem env club_id p next delta input k found = ground arith

pub tight :
    {i j : ℕ} {ms : List StockMovement} {p : Product}
    → j ≢ i
    → ((q : ℤ) → p.stock_quantity ≡ some q → last_stock p.id ms ≡ some q)
      × (j ≢ i → is_some p.low_stock_notified_at ≡ is_low p)
    → Agrees ms p
tight ne (b, f) = record { balance = b; flag = f ne }

-- One product is written, the others stay.
write_one :
    (p : Product) (f : Product → Product) (m : StockMovement) (k : Kiosk)
    → find p.id k.products ≡ some p
    → ((q : Product) → (f q).id ≡ q.id)
    → m.product_id ≡ p.id
    → Agrees (m ∷ k.movements) (f p)
    → IsLoose p.id k
    → IsKept (record k { products = modify p.id f k.products; movements = m ∷ k.movements })
write_one p f m k found same e written loose i r h = elim (Bool-cases (p.id == i)) [
  | inl hit ↦
      subst (Agrees (m ∷ k.movements)) (ground (arith, find-modify p.id i f k.products same))
        written
  | inr miss ↦
      other_movement k.movements m r
        (ground (arith, find-key i k.products r, find-modify p.id i f k.products same))
        (tight (ground arith) (loose i r (ground (arith, find-modify p.id i f k.products same))))
]

pub write_stock-restores :
    (env : StockEnv) (club_id : ℕ) (p : Product) (next delta : ℤ) (input : MovementInput)
    (k : Kiosk)
    → find p.id k.products ≡ some p
    → IsLoose p.id k
    → IsKept (write_stock env club_id p next delta input k).1
write_stock-restores env club_id p next delta input k found loose =
    rw (write_stock_lem env club_id p next delta input k found) (
      write_one p _ _ k found (λ q. refl) refl
        (written env.now next p.low_stock_notified_at k.movements _ p refl refl) loose)

write_stock-IsKept :
    (env : StockEnv) (club_id : ℕ) (p : Product) (next delta : ℤ) (input : MovementInput)
    (k : Kiosk)
    → find p.id k.products ≡ some p
    → Keeps IsKept k (write_stock env club_id p next delta input)
write_stock-IsKept env club_id p next delta input k found = record {
  at = λ kept.
      write_stock-restores env club_id p next delta input k found (IsKept-IsLoose p.id k kept);
}

-- A row is written without a line in the ledger.
pub write_quietly :
    (p : Product) (f : Product → Product) (k : Kiosk)
    → find p.id k.products ≡ some p
    → ((q : Product) → (f q).id ≡ q.id)
    → Agrees k.movements (f p)
    → IsLoose p.id k
    → IsKept (record k { products = modify p.id f k.products })
write_quietly p f k found same written loose i r h = elim (Bool-cases (p.id == i)) [
  | inl hit ↦
      subst (Agrees k.movements) (ground (arith, find-modify p.id i f k.products same)) written
  | inr miss ↦
      tight (ground arith) (loose i r (ground (arith, find-modify p.id i f k.products same)))
]

pub update_product_lem :
    (i : ℕ) (f : Product → Product) (k : Kiosk) (p : Product)
    → find i k.products ≡ some p
    → update_product i f k ≡ (ok tt, record k { products = modify i f k.products })
unfolding update_product
update_product_lem i f k p found = ground arith

found_key :
    (club_id i : ℕ) (k : Kiosk) (p : Product)
    → find_product club_id i k ≡ some p
    → (find i k.products ≡ some p) × (p.id ≡ i)
found_key club_id i k p h = (ground arith, ground (arith, find-key i k.products p))

-- A row that is read is found by its own key.
pub own_row :
    (club_id i : ℕ) (k : Kiosk) (p : Product)
    → find_product club_id i k ≡ some p
    → find p.id k.products ≡ some p
own_row club_id i k p h =
    let (at_i, same) = found_key club_id i k p h in
    subst (λ j. find j k.products ≡ some p) (sym same) at_i

pub own_key :
    (club_id i : ℕ) (k : Kiosk) (p : Product) → find_product club_id i k ≡ some p → p.id ≡ i
own_key club_id i k p h = (found_key club_id i k p h).1

-- The row that is locked is that of the table.
pub Keeps-lock_product :
    {B : Type 0} {P : Kiosk → Type 0} (k : Kiosk) (club_id i : ℕ) (f : Product → Method Kiosk B)
    → ((p : Product) → find p.id k.products ≡ some p → p.id ≡ i → Keeps P k (f p))
    → Keeps P k (lock_product club_id i >>= f)
unfolding lock_product gets ◌>>=◌
Keeps-lock_product k club_id i f rest = record {
  at =
      (Keeps-or_raise k (find_product club_id i k) not_found f
        (λ p e. rest p (own_row club_id i k p e) (own_key club_id i k p e))).at;
}

pub Ends-lock_product :
    {B : Type 0} {P : Kiosk → Type 0} (k : Kiosk) (club_id i : ℕ) (f : Product → Method Kiosk B)
    → ((p : Product) → find p.id k.products ≡ some p → p.id ≡ i → Ends P k (f p))
    → Ends P k (lock_product club_id i >>= f)
unfolding lock_product gets ◌>>=◌
Ends-lock_product k club_id i f rest = record {
  at =
      (Ends-or_raise k (find_product club_id i k) not_found f
        (λ p e. rest p (own_row club_id i k p e) (own_key club_id i k p e))).at;
}

move_locked-IsKept :
    (env : StockEnv) (club_id : ℕ) (p : Product) (delta : ℤ) (input : MovementInput) (start : Bool)
    (k : Kiosk)
    → find p.id k.products ≡ some p
    → Keeps IsKept k (move_locked env club_id p delta input start)
unfolding move_locked
move_locked-IsKept env club_id p delta input start k found =
    Keeps-if k _ _ _ (Keeps-pure k none) (write_stock-IsKept env club_id p _ delta input k found)

pub move-IsKept :
    (env : StockEnv) (club_id i : ℕ) (delta : ℤ) (input : MovementInput) (start : Bool) (k : Kiosk)
    → Keeps IsKept k (move env club_id i delta input start)
unfolding move
move-IsKept env club_id i delta input start k =
    Keeps-lock_product k club_id i _
      (λ p found e. move_locked-IsKept env club_id p delta input start k found)
