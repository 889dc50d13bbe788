-- ===== src/Stock/Deltas/Net.antt =====
-- The quantities of the source's maps are the sums of the lines, and sorting keeps them.
use padel_bot_api.Prelude.{
  ℕ, ◌+◌, ◌≡◌, refl, sym, subst, ◌∙◌, ◌↔◌, inl, inr, Bool, false, ◌||◌, List, [], ◌∷◌, arith, ◌==◌,
  if◌then◌else◌, Bool-cases, keep, any_of, All,
}
use padel_bot_api.Prelude.Int.{ℤ, pos, ◌+ℤ◌, ◌-ℤ◌, is_zero, int_laws, zero_of_is_zero}
use padel_bot_api.Stock.Model.{StockLine}
use padel_bot_api.Stock.Deltas.{
  Quantities, add_to, add_lines, subtract_lines, is_change, consumo_deltas, insert_by_product,
  sort_by_product, merge_by_product,
}

-- The units of a product on the lines of a bill.
unfoldable pub units : ℕ → List StockLine → ℕ
units i [] = 0
units i (l ∷ ls) = (if l.product_id == i then l.quantity else 0) + units i ls

-- What a map of quantities says of a product, repeated entries summed.
unfoldable pub delta_of : ℕ → Quantities → ℤ
delta_of i [] = pos 0
delta_of i ((j, q) ∷ m) = (if j == i then q else pos 0) +ℤ delta_of i m

add_to_lem :
    (i j : ℕ) (q : ℤ) (m : Quantities)
    → delta_of i (add_to j q m) ≡ (if j == i then q else pos 0) +ℤ delta_of i m
unfolding add_to delta_of
add_to_lem i j q [] = refl
add_to_lem i j q ((a, r) ∷ m) = grind (int_laws, add_to_lem i j q m)

add_lines_lem :
    (i : ℕ) (ls : List StockLine) (m : Quantities)
    → delta_of i (add_lines ls m) ≡ pos (units i ls) +ℤ delta_of i m
unfolding add_lines units
add_lines_lem i [] m = omega int_laws
add_lines_lem i (l ∷ ls) m = grind (
  int_laws,
  add_lines_lem i ls (add_to l.product_id (pos l.quantity) m),
  add_to_lem i l.product_id (pos l.quantity) m,
)

subtract_lines_lem :
    (i : ℕ) (ls : List StockLine) (m : Quantities)
    → delta_of i (subtract_lines ls m) ≡ delta_of i m -ℤ pos (units i ls)
unfolding subtract_lines units
subtract_lines_lem i [] m = omega int_laws
subtract_lines_lem i (l ∷ ls) m = grind (
  int_laws,
  subtract_lines_lem i ls (add_to l.product_id (pos 0 -ℤ pos l.quantity) m),
  add_to_lem i l.product_id (pos 0 -ℤ pos l.quantity) m,
)

delta_of-keep : (i : ℕ) (m : Quantities) → delta_of i (keep is_change m) ≡ delta_of i m
unfolding delta_of
delta_of-keep i [] = refl
delta_of-keep i ((j, q) ∷ m) = elim (Bool-cases (is_zero q)) [
  | inl z ↦ rw z (delta_of-keep i m ∙ nothing (j == i) q (zero_of_is_zero q z) _)
  | inr nz ↦ rw nz (rw (delta_of-keep i m) refl)
]
  where
    nothing : (b : Bool) (q : ℤ) → q ≡ pos 0 → (r : ℤ) → r ≡ (if b then q else pos 0) +ℤ r
    nothing b q e r = grind int_laws

delta_of-insert :
    (i : ℕ) (p : ℕ × ℤ) (m : Quantities)
    → delta_of i (insert_by_product p m) ≡ (if p.0 == i then p.1 else pos 0) +ℤ delta_of i m
unfolding delta_of insert_by_product
delta_of-insert i p [] = refl
delta_of-insert i p (q ∷ m) = grind (int_laws, delta_of-insert i p m)

pub delta_of-sort : (i : ℕ) (m : Quantities) → delta_of i (sort_by_product m) ≡ delta_of i m
unfolding delta_of sort_by_product
delta_of-sort i [] = refl
delta_of-sort i (p ∷ m) = delta_of-insert i p (sort_by_product m) ∙ rw (delta_of-sort i m) refl

-- What `consumoDeltas` says of a product is the units on the old bill less those on the new one.
pub consumo_deltas_net :
    (i : ℕ) (before after : List StockLine)
    → delta_of i (consumo_deltas before after) ≡ pos (units i before) -ℤ pos (units i after)
unfolding consumo_deltas delta_of
consumo_deltas_net i before after =
    delta_of-keep i (subtract_lines after (add_lines before []))
    ∙ grind (int_laws, subtract_lines_lem i after (add_lines before []), add_lines_lem i before [])

pub merge_by_product_net :
    (i : ℕ) (items : List StockLine) → delta_of i (merge_by_product items) ≡ pos (units i items)
unfolding merge_by_product delta_of
merge_by_product_net i items =
    delta_of-sort i (add_lines items []) ∙ grind (int_laws, add_lines_lem i items [])

-- No product stands in the map twice.
unfoldable pub IsDistinct : Quantities → Type 0
IsDistinct [] = Unit
IsDistinct (p ∷ m) = (any_of (λ (q : ℕ × ℤ). q.0 == p.0) m ≡ false) × IsDistinct m

add_to-has :
    (a i : ℕ) (q : ℤ) (m : Quantities)
    → any_of (λ (p : ℕ × ℤ). p.0 == a) (add_to i q m)
      ≡ (i == a) || any_of (λ (p : ℕ × ℤ). p.0 == a) m
unfolding add_to
add_to-has a i q [] = ground arith
add_to-has a i q ((j, r) ∷ m) = ground (arith, add_to-has a i q m)

add_to-IsDistinct : (i : ℕ) (q : ℤ) (m : Quantities) → IsDistinct m → IsDistinct (add_to i q m)
unfolding add_to IsDistinct
add_to-IsDistinct i q [] h = (refl, tt)
add_to-IsDistinct i q ((j, r) ∷ m) h = elim (Bool-cases (j == i)) [
  | inl e ↦ rw e h
  | inr e ↦ rw e (ground (arith, add_to-has j i q m), add_to-IsDistinct i q m h.1)
]

add_lines-IsDistinct :
    (ls : List StockLine) (m : Quantities) → IsDistinct m → IsDistinct (add_lines ls m)
unfolding add_lines
add_lines-IsDistinct [] m h = h
add_lines-IsDistinct (l ∷ ls) m h =
    add_lines-IsDistinct ls _ (add_to-IsDistinct l.product_id (pos l.quantity) m h)

subtract_lines-IsDistinct :
    (ls : List StockLine) (m : Quantities) → IsDistinct m → IsDistinct (subtract_lines ls m)
unfolding subtract_lines
subtract_lines-IsDistinct [] m h = h
subtract_lines-IsDistinct (l ∷ ls) m h =
    subtract_lines-IsDistinct ls _ (add_to-IsDistinct l.product_id (pos 0 -ℤ pos l.quantity) m h)

keep-has :
    (a : ℕ) (m : Quantities)
    → any_of (λ (p : ℕ × ℤ). p.0 == a) m ≡ false
    → any_of (λ (p : ℕ × ℤ). p.0 == a) (keep is_change m) ≡ false
keep-has a [] h = refl
keep-has a (p ∷ m) h = ground (arith, keep-has a m)

-- The changes of a map stand in it once each, and none is zero.
unfoldable pub IsTidy : Quantities → Type 0
unfolding IsDistinct
IsTidy m = IsDistinct m × All (λ (p : ℕ × ℤ). is_zero p.1 ≡ false) m

keep-IsTidy : (m : Quantities) → IsDistinct m → IsTidy (keep is_change m)
unfolding IsTidy IsDistinct
keep-IsTidy [] h = (tt, tt)
keep-IsTidy (p ∷ m) h = elim (Bool-cases (is_zero p.1)) [
  | inl z ↦ rw z (keep-IsTidy m h.1)
  | inr nz ↦ rw nz ((keep-has p.0 m h.0, (keep-IsTidy m h.1).0), (nz, (keep-IsTidy m h.1).1))
]

absent :
    (i : ℕ) (m : Quantities) → any_of (λ (p : ℕ × ℤ). p.0 == i) m ≡ false → delta_of i m ≡ pos 0
unfolding delta_of
absent i [] h = refl
absent i ((j, q) ∷ m) h = grind (int_laws, absent i m)

empty_of_IsTidy : (m : Quantities) → IsTidy m → ((i : ℕ) → delta_of i m ≡ pos 0) → m ≡ []
unfolding IsTidy IsDistinct delta_of
empty_of_IsTidy [] t h = refl
empty_of_IsTidy ((j, q) ∷ m) t h = absurd (clash q t.1.0 (grind (int_laws, h j, absent j m t.0.0)))
  where
    clash : (q : ℤ) → is_zero q ≡ false → ¬ (q ≡ pos 0)
    clash q nz e = ground arith

-- The net change of a bill says of every product the units before less the units after, names
-- a product at most once and never with nothing, and so is empty exactly when every product has
-- as many units before and after, as when a bill is saved untouched or its lines are only split
-- or shared differently.
pub consumo_deltas_lem :
    (before after : List StockLine)
    → ((i : ℕ)
        → delta_of i (consumo_deltas before after) ≡ pos (units i before) -ℤ pos (units i after))
      × IsTidy (consumo_deltas before after)
      × ((consumo_deltas before after ≡ []) ↔ ((i : ℕ) → units i before ≡ units i after))
unfolding consumo_deltas delta_of
consumo_deltas_lem before after = (
  λ i. consumo_deltas_net i before after,
  tidy,
  (
    λ e i. even (units i before) (units i after) (
        sym (
          subst (λ m. delta_of i m ≡ pos (units i before) -ℤ pos (units i after)) e
            (consumo_deltas_net i before after))),
    λ same.
        empty_of_IsTidy _ tidy
          (λ i. consumo_deltas_net i before after ∙ rw (same i) omega int_laws),
  ),
)
  where
    tidy : IsTidy (consumo_deltas before after)
    tidy = keep-IsTidy _ (
        subtract_lines-IsDistinct after _
          (add_lines-IsDistinct before [] (unfold IsDistinct in tt)))

    even : (a b : ℕ) → pos a -ℤ pos b ≡ pos 0 → a ≡ b
    even a b h = grind int_laws
