-- ===== src/Bookings/Consumos/Balance.antt =====
-- Saving the consumos of a booking: the bill and the shelf.
use padel_bot_api.Prelude.{
  ℕ, ◌≡◌, refl, sym, ap, subst, ◌∙◌, inl, inr, Bool, true, false, not, Option, none, some, List, [],
  ◌∷◌, ◌++◌, map, arith, ◌==◌, Bool-cases, keep, All,
}
use padel_bot_api.Prelude.Int.{ℤ, pos, ◌+ℤ◌, ◌-ℤ◌, int_laws}
use padel_bot_api.Bookings.Model.{Db, Booking, BookingProduct, booking_keyed}
use padel_bot_api.Bookings.Monad.{
  Method, Result, ok, not_found, pure, gets, or_raise, ◌>>=◌, modify_db,
}
use padel_bot_api.Service.Returns.{return-bind, return-transaction, return-raise_if}
use padel_bot_api.Bookings.Statements.{update_booking_if, find_one, find_live}
use padel_bot_api.Stock.Model.{Kiosk, StockEnv, Alert}
use padel_bot_api.Stock.Deltas.{apply_consumos}
use padel_bot_api.Stock.Deltas.Net.{units}
use padel_bot_api.Stock.Deltas.Moves.{apply_consumos-level}
use padel_bot_api.Stock.Ledger.Levels.{level, shifted}
use padel_bot_api.Stock.Sales.{price_by_id}
use padel_bot_api.Bookings.Consumos.{
  ConsumoItem, on_kiosk, stock_line, row_line, is_of, bill_lines, consumo_rows, replace_bill,
  with_row, consumo_row, save_bill, set_booking_products,
}

-- The rows that are to be created are those of the booking, one for each item.
abbrev AreRowsOf : ℕ → List ConsumoItem → List BookingProduct → Type 0
AreRowsOf i items rows =
    (map row_line rows ≡ map stock_line items) × All (λ r. is_of i r ≡ true) rows

consumo_rows_lem :
    (club_id i : ℕ) (k : Kiosk) (items : List ConsumoItem) (rows : List BookingProduct)
    → consumo_rows club_id i k items ≡ some rows
    → AreRowsOf i items rows
unfolding consumo_rows
consumo_rows_lem club_id i k [] [] h = (refl, tt)
consumo_rows_lem club_id i k [] (r ∷ rows) h = cc
consumo_rows_lem club_id i k (item ∷ items) rows h =
    added (price_by_id club_id k item.product_id) (consumo_rows club_id i k items)
      (consumo_rows_lem club_id i k items) h
  where
    added :
        (price : Option ℕ) (rest : Option (List BookingProduct))
        → ((rs : List BookingProduct) → rest ≡ some rs → AreRowsOf i items rs)
        → with_row i item price rest ≡ some rows
        → AreRowsOf i (item ∷ items) rows
    added none rest ih e = cc
    added (some price) none ih e = cc
    added (some price) (some rs) ih e =
        subst (AreRowsOf i (item ∷ items)) {x = consumo_row i item price ∷ rs} (ground arith)
          (ap (λ ls. stock_line item ∷ ls) (ih rs refl).0, (ground arith, (ih rs refl).1))

own_rows :
    (i : ℕ) (ps rows : List BookingProduct)
    → All (λ r. is_of i r ≡ true) rows
    → keep (is_of i) (keep (λ r. not (is_of i r)) ps ++ rows) ≡ rows
own_rows i [] [] h = refl
own_rows i [] (r ∷ rows) h = rw (h.0) (ap (λ rs. r ∷ rs) (own_rows i [] rows h.1))
own_rows i (p ∷ ps) rows h = elim (Bool-cases (is_of i p)) [
  | inl e ↦ rw e (own_rows i ps rows h)
  | inr e ↦ rw e (rw e (own_rows i ps rows h))
]

other_rows :
    (i j : ℕ) (ps rows : List BookingProduct)
    → (j == i) ≡ false
    → All (λ r. is_of i r ≡ true) rows
    → keep (is_of j) (keep (λ r. not (is_of i r)) ps ++ rows) ≡ keep (is_of j) ps
other_rows i j [] [] ne h = refl
other_rows i j [] (r ∷ rows) ne h = ground (arith, other_rows i j [] rows ne h.1, h.0)
other_rows i j (p ∷ ps) rows ne h = ground (arith, other_rows i j ps rows ne h)

-- Steps of the method that leave the bills and the kiosk alone.
abbrev SameShelf : Db → Db → Type 0
SameShelf a b = (b.products ≡ a.products) × (b.kiosk ≡ a.kiosk)

touch :
    (i : ℕ) (test : Booking → Bool) (db db' : Db) (hit : Bool)
    → update_booking_if i test (λ b. b) db ≡ (ok hit, db')
    → SameShelf db db'
unfolding update_booking_if
touch i test db db' hit h = (ground arith, ground arith)

-- What a saved bill looks like, from the database before to the database after.
pub record IsSaved (i : ℕ) (items : List ConsumoItem) (db db' : Db) : Type 0 where
  pub own : bill_lines i db'.products ≡ map stock_line items
  pub others : (j : ℕ) → (j == i) ≡ false → bill_lines j db'.products ≡ bill_lines j db.products
  pub shelf :
      (product : ℕ)
      → level product db'.kiosk
        ≡ shifted
            (pos (units product (bill_lines i db.products))
              -ℤ pos (units product (bill_lines i db'.products)))
            (level product db.kiosk)

on_kiosk_lem :
    {A : Type 0} (m : Method Kiosk A) (db db' : Db) (a : A)
    → on_kiosk m db ≡ (ok a, db')
    → (m db.kiosk ≡ (ok a, db'.kiosk)) × (db'.products ≡ db.products)
unfolding on_kiosk
on_kiosk_lem {A} m db db' a h = (pair (m db.kiosk) h, ap (λ r. r.1.products) (sym h))
  where
    pair :
        (r : Result A × Kiosk)
        → ◌≡◌ {A = Result A × Db} (r.0, record db { kiosk = r.1 }) (ok a, db')
        → r ≡ (ok a, db'.kiosk)
    pair (x, k) e = cc

-- The rows are replaced and the stock moved by the change.
moved-IsSaved :
    (env : StockEnv) (club_id i : ℕ) (items : List ConsumoItem) (rows : List BookingProduct)
    (user : Option ℕ) (db db' : Db) (alerts : List Alert)
    → AreRowsOf i items rows
    → on_kiosk
        (apply_consumos env (record {
          club_id = club_id;
          booking_id = i;
          user_id = user;
          before = bill_lines i db.products;
          after = map stock_line items;
        }))
        (replace_bill i rows db)
      ≡ (ok alerts, db')
    → IsSaved i items db db'
moved-IsSaved env club_id i items rows user db db' alerts are h =
    let (moved, same) = on_kiosk_lem _ (replace_bill i rows db) db' alerts h in
    let saved : bill_lines i db'.products ≡ map stock_line items =
      unfold bill_lines in
      ap (λ ps. map row_line (keep (is_of i) ps)) same
      ∙ ap (map row_line) (own_rows i db.products rows are.1)
      ∙ are.0 in
    record {
      own = saved;
      others = λ j ne.
          unfold bill_lines in
          ap (λ ps. map row_line (keep (is_of j) ps)) same
          ∙ ap (map row_line) (other_rows i j db.products rows ne are.1);
      shelf = λ product.
          subst
            (λ ls.
              level product db'.kiosk
              ≡ shifted (pos (units product (bill_lines i db.products)) -ℤ pos (units product ls))
                  (level product db.kiosk))
            (sym saved) (apply_consumos-level env _ db.kiosk product alerts db'.kiosk moved);
    }

IsSaved-same :
    (i : ℕ) (items : List ConsumoItem) (a b c d : Db)
    → SameShelf a b
    → SameShelf c d
    → IsSaved i items b c
    → IsSaved i items a d
IsSaved-same i items a b c d (p, k) (q, l) s = record {
  own = rw q s.own;
  others = λ j ne. rw⁻¹ p (rw q (s.others j ne));
  shelf = λ product. rw⁻¹ (p, k) (rw (q, l) (s.shelf product));
}

save_bill-IsSaved :
    (env : StockEnv) (club_id i : ℕ) (items : List ConsumoItem) (rows : List BookingProduct)
    (user : Option ℕ) (db db' : Db) (alerts : List Alert)
    → AreRowsOf i items rows
    → save_bill env club_id i items rows user db ≡ (ok alerts, db')
    → IsSaved i items db db'
unfolding save_bill
save_bill-IsSaved env club_id i items rows user db db' alerts are h =
    let (hit, d1, e1, h1) = return-bind _ _ db db' alerts (return-transaction _ db db' alerts h) in
    let h2 = return-raise_if _ _ _ d1 db' alerts h1 in
    IsSaved-same i items db d1 db' db' (touch i _ db d1 hit e1) (refl, refl)
      (moved-IsSaved env club_id i items rows user d1 db' alerts are
        (unfold gets modify_db ◌>>=◌ in h2))

same_found :
    (club_id i : ℕ) (db db' : Db) (b : Booking)
    → find_one club_id i db ≡ (ok b, db')
    → SameShelf db db'
unfolding find_one gets or_raise ◌>>=◌
same_found club_id i db db' b h = looked (find_live club_id i db) h
  where
    looked : (o : Option Booking) → or_raise o not_found db ≡ (ok b, db') → SameShelf db db'
    looked none e = cc
    looked (some c) e = (ground arith, ground arith)

-- After the rows were priced.
priced-IsSaved :
    (env : StockEnv) (club_id i : ℕ) (items : List ConsumoItem) (user : Option ℕ) (db db' : Db)
    (r : Booking × List Alert) (rows : List BookingProduct)
    → AreRowsOf i items rows
    → (save_bill env club_id i items rows user >>= λ alerts.
          find_one club_id i >>= λ b. pure (b, alerts))
        db
      ≡ (ok r, db')
    → IsSaved i items db db'
unfolding pure
priced-IsSaved env club_id i items user db db' r rows are h =
    let (alerts, d1, e1, h1) = return-bind _ _ db db' r h in
    let (b, d2, e2, h2) = return-bind _ _ d1 db' r h1 in
    subst (IsSaved i items db) (ap (λ x. x.1) h2) (
      IsSaved-same i items db db d1 d2 (refl, refl) (same_found club_id i d1 d2 b e2)
        (save_bill-IsSaved env club_id i items rows user db d1 alerts are e1))

set_booking_products-IsSaved :
    (env : StockEnv) (club_id i : ℕ) (items : List ConsumoItem) (user : Option ℕ) (db db' : Db)
    (r : Booking × List Alert)
    → set_booking_products env club_id i items user db ≡ (ok r, db')
    → IsSaved i items db db'
unfolding set_booking_products gets or_raise ◌>>=◌
set_booking_products-IsSaved env club_id i items user db db' r h =
    priced (consumo_rows club_id i db.kiosk items) refl h
  where
    priced :
        (o : Option (List BookingProduct))
        → consumo_rows club_id i db.kiosk items ≡ o
        → (or_raise o not_found >>= λ rows. save_bill env club_id i items rows user >>= λ alerts.
              find_one club_id i >>= λ b. pure (b, alerts))
            db
          ≡ (ok r, db')
        → IsSaved i items db db'
    priced none f e = cc
    priced (some rows) f e =
        priced-IsSaved env club_id i items user db db' r rows
          (consumo_rows_lem club_id i db.kiosk items rows f) e

-- Shifted by a difference, a quantity and what was subtracted make up what was there.
balanced :
    (o o' : Option ℤ) (a b : ℕ)
    → o' ≡ shifted (pos a -ℤ pos b) o
    → ((q : ℤ) → o ≡ some q → (q' : ℤ) × (o' ≡ some q') × (q' +ℤ pos b ≡ q +ℤ pos a))
      × (o ≡ none → o' ≡ none)
balanced none o' a b e = (λ q f. cc, λ f. e)
balanced (some p) o' a b e =
    (λ q f. (p +ℤ (pos a -ℤ pos b), e, sums p q a b (ground arith)), λ f. cc)
  where
    sums : (p q : ℤ) (a b : ℕ) → p ≡ q → (p +ℤ (pos a -ℤ pos b)) +ℤ pos b ≡ q +ℤ pos a
    sums p q a b e = grind int_laws

-- Saving the consumos of a booking, when it goes through, leaves the lines that were sent as its
-- bill and the bills of all other bookings as they were, and moves the stock of every product by the
-- difference: the quantity of a product that has one plus the units on the bill is the same after
-- as before, and a product without one stays without.
pub set_booking_products_lem :
    (env : StockEnv) (club_id i : ℕ) (items : List ConsumoItem) (user : Option ℕ) (db db' : Db)
    (r : Booking × List Alert)
    → set_booking_products env club_id i items user db ≡ (ok r, db')
    → (bill_lines i db'.products ≡ map stock_line items)
      × ((j : ℕ) → (j == i) ≡ false → bill_lines j db'.products ≡ bill_lines j db.products)
      × ((product : ℕ) (q : ℤ)
          → level product db.kiosk ≡ some q
          → (q' : ℤ) × (level product db'.kiosk ≡ some q')
            × (q' +ℤ pos (units product (bill_lines i db'.products))
                ≡ q +ℤ pos (units product (bill_lines i db.products))))
      × ((product : ℕ) → level product db.kiosk ≡ none → level product db'.kiosk ≡ none)
set_booking_products_lem env club_id i items user db db' r h =
    let s = set_booking_products-IsSaved env club_id i items user db db' r h in
    (
      s.own,
      s.others,
      λ product. (balanced _ _ _ _ (s.shelf product)).0,
      λ product. (balanced _ _ _ _ (s.shelf product)).1,
    )
