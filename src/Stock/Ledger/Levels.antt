-- ===== src/Stock/Ledger/Levels.antt =====
-- What the movements do to the quantities on hand.
use padel_bot_api.Prelude.{
  ℕ, ◌≡◌, refl, sym, ap, subst, ◌∙◌, inl, inr, Bool, true, false, Option, none, some, List, arith,
  ◌==◌, if◌then◌else◌, Option-cases,
}
use padel_bot_api.Prelude.Int.{ℤ, pos, ◌+ℤ◌, int_laws}
use padel_bot_api.Prelude.Table.{find, modify, find-modify}
use padel_bot_api.Service.{ok, not_found, pure, gets, or_raise, ◌>>=◌}
use padel_bot_api.Stock.Model.{Product, MovementInput, Kiosk, StockEnv, product_keyed, Alert}
use padel_bot_api.Stock.Ledger.{find_product, lock_product, write_stock, move_locked, move}
use padel_bot_api.Stock.Ledger.Accounts.{write_stock_lem, own_row, own_key}

-- The quantity of a product, if it is there and has one.
abbrev pub level : ℕ → Kiosk → Option ℤ
level i k = elim (find i k.products) [ none ↦ none | some p ↦ p.stock_quantity ]

abbrev pub shifted : ℤ → Option ℤ → Option ℤ
shifted d none = none
shifted d (some q) = some (q +ℤ d)

shifted_zero : (o : Option ℤ) → shifted (pos 0) o ≡ o
shifted_zero none = refl
shifted_zero (some q) = ap some (omega int_laws)

pub shifted_twice : (a b : ℤ) (o : Option ℤ) → shifted b (shifted a o) ≡ shifted (a +ℤ b) o
shifted_twice a b none = refl
shifted_twice a b (some q) = ap some (omega int_laws)

level-modify :
    (i : ℕ) (p : Product) (f : Product → Product) (next : ℤ) (ps : List Product)
    → find p.id ps ≡ some p
    → ((q : Product) → (f q).id ≡ q.id)
    → (f p).stock_quantity ≡ some next
    → elim (find i (modify p.id f ps)) [ none ↦ none | some r ↦ r.stock_quantity ] ≡ (
        if p.id == i
        then some next
        else elim (find i ps) [ none ↦ none | some r ↦ r.stock_quantity ])
level-modify i p f next ps found same e = ground (arith, find-modify p.id i f ps same)

write_stock-level :
    (env : StockEnv) (club_id : ℕ) (p : Product) (next d : ℤ) (input : MovementInput) (k : Kiosk)
    (i : ℕ)
    → find p.id k.products ≡ some p
    → level i (write_stock env club_id p next d input k).1
      ≡ (if p.id == i then some next else level i k)
write_stock-level env club_id p next d input k i found =
    rw (write_stock_lem env club_id p next d input k found)
      (level-modify i p _ next k.products found (λ q. refl) refl)

-- The level of the product that was read.
at_hit :
    (p : Product) (k : Kiosk) (i : ℕ)
    → find p.id k.products ≡ some p
    → p.id == i ≡ true
    → level i k ≡ p.stock_quantity
at_hit p k i found hit = ground arith

shifted_if :
    (b : Bool) (q d : ℤ) (o : Option ℤ)
    → (b ≡ true → o ≡ some q)
    → (if b then some (q +ℤ d) else o) ≡ shifted (if b then d else pos 0) o
shifted_if true q d o h = rw (h refl) refl
shifted_if false q d o h = sym (shifted_zero o)

untouched :
    (b : Bool) (d : ℤ) (o : Option ℤ)
    → (b ≡ true → o ≡ none)
    → o ≡ shifted (if b then d else pos 0) o
untouched true d o h = rw (h refl) refl
untouched false d o h = sym (shifted_zero o)

move_locked-level :
    (env : StockEnv) (club_id : ℕ) (p : Product) (d : ℤ) (input : MovementInput) (k : Kiosk) (i : ℕ)
    → find p.id k.products ≡ some p
    → level i (move_locked env club_id p d input false k).1
      ≡ shifted (if p.id == i then d else pos 0) (level i k)
move_locked-level env club_id p d input k i found = elim (Option-cases p.stock_quantity) [
  | inl e ↦
      unfold move_locked pure write_stock in
      rw e (untouched (p.id == i) d (level i k) (λ hit. at_hit p k i found hit ∙ e))
  | inr (q, e) ↦
      unfold move_locked pure write_stock in
      rw e (
        write_stock-level env club_id p (q +ℤ d) d input k i found
        ∙ shifted_if (p.id == i) q d (level i k) (λ hit. at_hit p k i found hit ∙ e))
]

-- A movement of a product that the club sells shifts its level, if it has one, and no other.
pub move-level :
    (env : StockEnv) (club_id j : ℕ) (d : ℤ) (input : MovementInput) (k : Kiosk) (i : ℕ)
    (a : Option Alert) (k' : Kiosk)
    → move env club_id j d input false k ≡ (ok a, k')
    → level i k' ≡ shifted (if j == i then d else pos 0) (level i k)
unfolding move lock_product gets or_raise ◌>>=◌
move-level env club_id j d input k i a k' e = locked (find_product club_id j k) refl e
  where
    locked :
        (o : Option Product)
        → find_product club_id j k ≡ o
        → (or_raise o not_found >>= λ p. move_locked env club_id p d input false) k ≡ (ok a, k')
        → level i k' ≡ shifted (if j == i then d else pos 0) (level i k)
    locked none there f = cc
    locked (some p) there f =
        subst (λ r. level i r.1 ≡ shifted (if j == i then d else pos 0) (level i k)) f
          (subst
            (λ n.
              level i (move_locked env club_id p d input false k).1
              ≡ shifted (if n == i then d else pos 0) (level i k))
            (own_key club_id j k p there)
            (move_locked-level env club_id p d input k i (own_row club_id j k p there)))
