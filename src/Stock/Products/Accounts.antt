-- ===== src/Stock/Products/Accounts.antt =====
-- The catalog's operations keep the ledger's account of the stock.
use padel_bot_api.Prelude.{
  ℕ, ◌≡◌, refl, sym, subst, ◌∙◌, ◌≢◌, ◌⊎◌, inl, inr, Bool, true, false, not, Option, none, some,
  List, [], ◌∷◌, arith, ◌==◌, if◌then◌else◌, is_some, or_else, Bool-cases, keep,
}
use padel_bot_api.Prelude.Int.{ℤ}
use padel_bot_api.Prelude.Table.{find, modify, find-modify, find-key, find-keep}
use padel_bot_api.Prelude.Text.{Text}
use padel_bot_api.Service.{pure, not_found, conflict, ok}
use padel_bot_api.Service.Keeps.{
  Keeps, Keeps-pure, Keeps-bind, Keeps-gets, Keeps-or_raise, Keeps-guard, Keeps-if,
  Keeps-transaction, Keeps-modify_db, Keeps-settled, Ends, Ends-pure, Ends-if, Ends-then, Ends-ok,
}
use padel_bot_api.Stock.Model.{
  StockMovement, Kiosk, StockEnv, product_keyed, Product, is_low_stock, is_low,
}
use padel_bot_api.Stock.Ledger.Accounts.{
  IsKept, Agrees, last_stock, write_quietly, IsLoose, IsKept-IsLoose, update_product_lem, own_row,
}
use padel_bot_api.Stock.Ledger.Restores.{
  set_quantity-IsKept, set_quantity-restores, refresh_low_stock_flag-restores,
}
use padel_bot_api.Stock.Counter.{assert_can_start_tracking}
use padel_bot_api.Stock.Counter.Accounts.{assert_can_start_tracking-stays}
use padel_bot_api.Stock.Products.{
  CreateProductDto, UpdateProductDto, assert_barcode_free, new_product, start_stock, create_product,
  edited, same_quantity, refresh_if, restock, starts_tracking, update_write, update_product_row,
  delete_product, remove_product,
}

assert_barcode_free-stays :
    {P : Kiosk → Type 0} (club_id : ℕ) (code : Option Text) (except : Option ℕ) (k : Kiosk)
    → Keeps P k (assert_barcode_free club_id code except)
unfolding assert_barcode_free
assert_barcode_free-stays club_id none except k = Keeps-pure k tt
assert_barcode_free-stays club_id (some []) except k = Keeps-pure k tt
assert_barcode_free-stays club_id (some (c ∷ cs)) except k =
    Keeps-gets k _ _ (Keeps-guard k _ conflict)

start_stock-IsKept :
    (env : StockEnv) (club_id i : ℕ) (q user : Option ℕ) (k : Kiosk)
    → Keeps IsKept k (start_stock env club_id i q user)
unfolding start_stock
start_stock-IsKept env club_id i none user k = Keeps-pure k tt
start_stock-IsKept env club_id i (some q) user k =
    Keeps-bind k _ _ (set_quantity-IsKept env club_id i _ _ user k) (λ a s e. Keeps-pure s tt)

-- A product without a quantity agrees with any ledger.
new_row :
    (i club_id : ℕ) (dto : CreateProductDto) (k : Kiosk)
    → IsKept k
    → IsKept (record k { products = new_product i club_id dto ∷ k.products })
unfolding find is_low_stock
new_row i club_id dto k kept j p h = elim (Bool-cases (i == j)) [
  | inl hit ↦
      subst (Agrees k.movements) {x = new_product i club_id dto} (ground arith)
        (record { balance = λ q s. ground arith; flag = refl })
  | inr miss ↦ kept j p (ground arith)
]

pub create_product-IsKept :
    (env : StockEnv) (i club_id : ℕ) (dto : CreateProductDto) (user : Option ℕ) (k : Kiosk)
    → Keeps IsKept k (create_product env i club_id dto user)
unfolding create_product
create_product-IsKept env i club_id dto user k =
    Keeps-bind k _ _
      (Keeps-if k _ _ _ (assert_can_start_tracking-stays env club_id none k) (Keeps-pure k tt))
      (λ a s e. Keeps-bind s _ _ (assert_barcode_free-stays club_id dto.barcode none s) (λ b t f.
        Keeps-transaction t _ (
          Keeps-modify_db t _ _ (new_row i club_id dto t)
            (start_stock-IsKept env club_id i dto.stock_quantity user _))))

refresh_if-restores :
    (env : StockEnv) (club_id i : ℕ) (c : Bool) (k : Kiosk)
    → (c ≡ false → IsKept k)
    → IsLoose i k
    → Ends IsKept k (refresh_if env club_id i c)
unfolding refresh_if
refresh_if-restores env club_id i true k kept loose =
    refresh_low_stock_flag-restores env club_id i k loose
refresh_if-restores env club_id i false k kept loose = Ends-pure k tt (kept refl)

restock-restores :
    (env : StockEnv) (club_id : ℕ) (p : Product) (dto : UpdateProductDto) (q : Option (Option ℕ))
    (user : Option ℕ) (k : Kiosk)
    → (is_some dto.low_stock_threshold ≡ false → IsKept k)
    → IsLoose p.id k
    → Ends IsKept k (restock env club_id p dto q user)
unfolding restock
restock-restores env club_id p dto none user k kept loose =
    refresh_if-restores env club_id p.id _ k kept loose
restock-restores env club_id p dto (some q) user k kept loose =
    Ends-if k (same_quantity q p.stock_quantity) _ _
      (λ e. refresh_if-restores env club_id p.id _ k kept loose)
      (λ e.
        Ends-then k _ _ (set_quantity-restores env club_id p.id _ _ user k loose)
          (λ a s kept'. Ends-pure s tt kept'))

-- A new minimum may put the flag out of step until the stock is looked at.
edited-IsLoose :
    (p : Product) (dto : UpdateProductDto) (k : Kiosk)
    → find p.id k.products ≡ some p
    → IsKept k
    → IsLoose p.id (record k { products = modify p.id (edited dto) k.products })
edited-IsLoose p dto k found kept j r h = elim (Bool-cases (p.id == j)) [
  | inl hit ↦
      subst
        (λ (x : Product).
          ((q : ℤ) → x.stock_quantity ≡ some q → last_stock x.id k.movements ≡ some q)
          × (j ≢ p.id → is_some x.low_stock_notified_at ≡ is_low x))
        {x = edited dto p} {y = r}
        (ground (arith, find-modify p.id j (edited dto) k.products (λ q. refl)))
        ((kept p.id p found).balance, λ ne. absurd (ne (ground arith)))
  | inr miss ↦
      IsKept-IsLoose p.id k kept j r
        (ground (arith, find-modify p.id j (edited dto) k.products (λ q. refl)))
]

-- Without a new minimum nothing that the account reads is edited.
edited-IsKept :
    (p : Product) (dto : UpdateProductDto) (k : Kiosk)
    → find p.id k.products ≡ some p
    → IsKept k
    → is_some dto.low_stock_threshold ≡ false
    → IsKept (record k { products = modify p.id (edited dto) k.products })
unfolding is_low_stock
edited-IsKept p dto k found kept quiet =
    write_quietly p (edited dto) k found (λ q. refl)
      (record {
        balance = (kept p.id p found).balance;
        flag = (kept p.id p found).flag ∙ ground arith;
      })
      (IsKept-IsLoose p.id k kept)

update_write-IsKept :
    (env : StockEnv) (club_id : ℕ) (p : Product) (dto : UpdateProductDto) (user : Option ℕ)
    (k : Kiosk)
    → (IsKept k → find p.id k.products ≡ some p)
    → Keeps IsKept k (update_write env club_id p dto user)
unfolding update_write
update_write-IsKept env club_id p dto user k at = Keeps-settled k _ (λ kept.
    Ends-ok k _ _ tt (record k { products = modify p.id (edited dto) k.products })
      (update_product_lem p.id (edited dto) k p (at kept))
      (restock-restores env club_id p dto dto.stock_quantity user _
        (edited-IsKept p dto k (at kept) kept) (edited-IsLoose p dto k (at kept) kept)))

-- The guards of an update change nothing.
guards :
    (env : StockEnv) (club_id : ℕ) (c : Bool) (code : Option Text) (except : Option ℕ)
    (k s t : Kiosk) (a b : Unit {0})
    → (if c then assert_can_start_tracking env club_id none else pure tt) k ≡ (ok a, s)
    → assert_barcode_free club_id code except s ≡ (ok b, t)
    → t ≡ k
guards env club_id c code except k s t a b e f =
    subst (λ r. r.1 ≡ k) f
      ((assert_barcode_free-stays {P = λ x. x ≡ k} club_id code except s).at (
        subst (λ r. r.1 ≡ k) e
          ((Keeps-if {P = λ x. x ≡ k} k c _ _ (assert_can_start_tracking-stays env club_id none k)
              (Keeps-pure k tt)).at
            refl)))

pub update_product_row-IsKept :
    (env : StockEnv) (club_id i : ℕ) (dto : UpdateProductDto) (user : Option ℕ) (k : Kiosk)
    → Keeps IsKept k (update_product_row env club_id i dto user)
unfolding update_product_row
update_product_row-IsKept env club_id i dto user k = Keeps-gets k _ _ (
    Keeps-or_raise k _ not_found _ (λ p e.
      Keeps-bind k _ _
        (Keeps-if k _ _ _ (assert_can_start_tracking-stays env club_id none k) (Keeps-pure k tt))
        (λ a s f. Keeps-bind s _ _ (assert_barcode_free-stays club_id _ _ s) (λ b t g.
          update_write-IsKept env club_id p dto user t (λ kept.
            rw
              (guards env club_id (starts_tracking dto.stock_quantity p.stock_quantity)
                (or_else dto.barcode none) (some i) k s t a b f g)
              (own_row club_id i k p e))))))

last_stock-without :
    (i j : ℕ) (ms : List StockMovement)
    → j ≢ i
    → last_stock j (keep (λ (m : StockMovement). not (m.product_id == i)) ms) ≡ last_stock j ms
unfolding last_stock
last_stock-without i j [] ne = refl
last_stock-without i j (m ∷ ms) ne = ground (arith, last_stock-without i j ms ne)

abbrev without_product : ℕ → Kiosk → Kiosk
without_product i k = record k {
  products = keep (λ (p : Product). not (p.id == i)) k.products;
  movements = keep (λ (m : StockMovement). not (m.product_id == i)) k.movements;
}

delete_product_cases :
    (i : ℕ) (on_bill : Bool) (k : Kiosk)
    → ((delete_product i on_bill k).1 ≡ k) ⊎ ((delete_product i on_bill k).1 ≡ without_product i k)
unfolding delete_product
delete_product_cases i on_bill k = ground arith

without_product-IsKept : (i : ℕ) (k : Kiosk) → IsKept k → IsKept (without_product i k)
without_product-IsKept i k kept j p h =
    let there : find j k.products ≡ some p = ground (arith, find-keep i j k.products) in
    let other : p.id ≢ i =
      ground (arith, find-keep i j k.products, find-key j k.products p there) in
    record {
      balance = λ q st. last_stock-without i p.id k.movements other ∙ (kept j p there).balance q st;
      flag = (kept j p there).flag;
    }

delete_product-IsKept :
    (i : ℕ) (on_bill : Bool) (k : Kiosk) → Keeps IsKept k (delete_product i on_bill)
delete_product-IsKept i on_bill k = record {
  at = λ kept. elim (delete_product_cases i on_bill k) [
    | inl e ↦ subst IsKept (sym e) kept
    | inr e ↦ subst IsKept (sym e) (without_product-IsKept i k kept)
  ];
}

pub remove_product-IsKept :
    (club_id i : ℕ) (on_bill : Bool) (k : Kiosk) → Keeps IsKept k (remove_product club_id i on_bill)
unfolding remove_product
remove_product-IsKept club_id i on_bill k =
    Keeps-gets k _ _ (Keeps-or_raise k _ not_found _ (λ p e. delete_product-IsKept i on_bill k))
