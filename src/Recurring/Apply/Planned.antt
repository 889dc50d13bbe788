-- ===== src/Recurring/Apply/Planned.antt =====
-- What the loop of `applyForWeeksAhead` decides: only free slots, each once.
use padel_bot_api.Prelude.{
  ℕ, ◌≡◌, refl, subst, inl, inr, Bool, true, false, Option, none, some, List, [], ◌∷◌, map, arith,
  if◌then◌else◌, Bool-cases, find_first, any_of, All,
}
use padel_bot_api.Prelude.Table.{find, rows, rows-find}
use padel_bot_api.Bookings.Model.{Db, Slot, SlotStatus, slot_keyed, is_available}
use padel_bot_api.Recurring.Weeks.{Occurrence}
use padel_bot_api.Recurring.Apply.{
  FijoDto, Fate, fate, fate_of_row, is_existing, is_skip, to_create, to_book, push_create,
  push_book,
}
use padel_bot_api.Recurring.Apply.Takes.{has, IsDistinct}

-- A row that is found by a test passes it, and has what every row has.
found_first {κ} :
    {A : Type 0} (P : A → Type κ) (p : A → Bool) (xs : List A) (x : A)
    → All P xs
    → find_first p xs ≡ some x
    → P x × (p x ≡ true)
found_first P p [] x h e = cc
found_first P p (y ∷ ys) x h e = elim (Bool-cases (p y)) [
  | inl hit ↦ subst (λ z. P z × (p z ≡ true)) {x = y} {y = x} (ground arith) (h.0, hit)
  | inr miss ↦ found_first P p ys x h.1 (ground arith)
]

-- The slot that an occurrence flips is on sale and starts with it.
abbrev pub IsOnSaleAt : Db → ℕ → ℕ → Type 0
IsOnSaleAt db t i =
    (s : Slot) × (find i db.slots ≡ some s) × (s.starts_at ≡ t) × (s.status ≡ SlotStatus.available)

available_of : (st : SlotStatus) → is_available st ≡ true → st ≡ SlotStatus.available
available_of SlotStatus.available h = refl
available_of SlotStatus.booked h = cc
available_of SlotStatus.blocked h = cc

fate_of_row-flip :
    (o : Option Slot) (i : ℕ)
    → fate_of_row o ≡ Fate.flip i
    → (s : Slot) × (o ≡ some s) × (s.id ≡ i) × (s.status ≡ SlotStatus.available)
fate_of_row-flip none i h = cc
fate_of_row-flip (some s) i h = elim (Bool-cases (is_available s.status)) [
  | inl e ↦ (s, refl, ground arith, available_of s.status e)
  | inr e ↦ absurd (ground arith)
]

pub fate-flip :
    (club_id rb : ℕ) (dto : FijoDto) (lo hi : ℕ) (db : Db) (t i : ℕ)
    → fate club_id rb dto lo hi db t ≡ Fate.flip i
    → IsOnSaleAt db t i
unfolding fate
fate-flip club_id rb dto lo hi db t i h =
    let (s, e, same, free) =
      fate_of_row-flip _ i (row (any_of (is_skip club_id rb lo hi t db.slots) db.bookings) h) in
    let (at, test) =
      found_first (λ x. find x.id db.slots ≡ some x) (is_existing club_id dto.court_id lo hi t)
        (rows db.slots) s (rows-find db.slots) e in
    (s, subst (λ j. find j db.slots ≡ some s) same at, ground arith, free)
  where
    row :
        (c : Bool)
        → (if c
            then Fate.leave
            else fate_of_row
                (find_first (is_existing club_id dto.court_id lo hi t) (rows db.slots)))
          ≡ Fate.flip i
        → fate_of_row (find_first (is_existing club_id dto.court_id lo hi t) (rows db.slots))
          ≡ Fate.flip i
    row true k = cc
    row false k = k

module _ (f : ℕ → Fate) (db : Db) (sound : (t i : ℕ) → f t ≡ Fate.flip i → IsOnSaleAt db t i) where
  -- The slot of one start is not among those of others.
  not_booked :
      (t i : ℕ) (os : List Occurrence)
      → IsOnSaleAt db t i
      → has t (map (λ (o : Occurrence). o.starts_at) os) ≡ false
      → has i (to_book f os) ≡ false
  unfolding to_book
  not_booked t i [] s new = refl
  not_booked t i (o ∷ os) s new = pushed (not_booked t i os s) (f o.starts_at) refl
    where
      pushed :
          (has t (map (λ (p : Occurrence). p.starts_at) os) ≡ false → has i (to_book f os) ≡ false)
          → (x : Fate) → f o.starts_at ≡ x
          → has i (push_book x (to_book f os)) ≡ false
      pushed rest Fate.leave e = rest (ground arith)
      pushed rest Fate.new_row e = rest (ground arith)
      pushed rest (Fate.flip j) e =
          let (r, at, start, free) = sound o.starts_at j e in
          let (r', at', start', free') = s in ground (arith, rest)

  pub to_book-IsDistinct :
      (os : List Occurrence)
      → IsDistinct (map (λ (o : Occurrence). o.starts_at) os)
      → IsDistinct (to_book f os)
  unfolding to_book IsDistinct
  to_book-IsDistinct [] d = tt
  to_book-IsDistinct (o ∷ os) d = pushed (to_book-IsDistinct os d.1) (f o.starts_at) refl
    where
      pushed :
          IsDistinct (to_book f os)
          → (x : Fate) → f o.starts_at ≡ x
          → IsDistinct (push_book x (to_book f os))
      pushed rest Fate.leave e = rest
      pushed rest Fate.new_row e = rest
      pushed rest (Fate.flip i) e = (not_booked o.starts_at i os (sound o.starts_at i e) d.0, rest)

  -- All that is flipped is on sale.
  pub to_book-on_sale :
      (os : List Occurrence) → All (λ i. (t : ℕ) × IsOnSaleAt db t i) (to_book f os)
  unfolding to_book
  to_book-on_sale [] = tt
  to_book-on_sale (o ∷ os) = pushed (to_book-on_sale os) (f o.starts_at) refl
    where
      pushed :
          All (λ i. (t : ℕ) × IsOnSaleAt db t i) (to_book f os)
          → (x : Fate) → f o.starts_at ≡ x
          → All (λ i. (t : ℕ) × IsOnSaleAt db t i) (push_book x (to_book f os))
      pushed rest Fate.leave e = rest
      pushed rest Fate.new_row e = rest
      pushed rest (Fate.flip i) e = ((o.starts_at, sound o.starts_at i e), rest)

-- What is created is a part of the occurrences.
created_has :
    (f : ℕ → Fate) (t : ℕ) (os : List Occurrence)
    → has t (map (λ (o : Occurrence). o.starts_at) os) ≡ false
    → has t (map (λ (o : Occurrence). o.starts_at) (to_create f os)) ≡ false
unfolding to_create
created_has f t [] h = refl
created_has f t (o ∷ os) h = pushed (created_has f t os) (f o.starts_at)
  where
    pushed :
        (has t (map (λ (p : Occurrence). p.starts_at) os) ≡ false
          → has t (map (λ (p : Occurrence). p.starts_at) (to_create f os)) ≡ false)
        → (x : Fate)
        → has t (map (λ (p : Occurrence). p.starts_at) (push_create x o (to_create f os))) ≡ false
    pushed rest Fate.leave = rest (ground arith)
    pushed rest Fate.new_row = ground (arith, rest)
    pushed rest (Fate.flip i) = rest (ground arith)

pub to_create-IsDistinct :
    (f : ℕ → Fate) (os : List Occurrence)
    → IsDistinct (map (λ (o : Occurrence). o.starts_at) os)
    → IsDistinct (map (λ (o : Occurrence). o.starts_at) (to_create f os))
unfolding to_create IsDistinct
to_create-IsDistinct f [] d = tt
to_create-IsDistinct f (o ∷ os) d = pushed (to_create-IsDistinct f os d.1) (f o.starts_at)
  where
    pushed :
        IsDistinct (map (λ (p : Occurrence). p.starts_at) (to_create f os))
        → (x : Fate)
        → IsDistinct (map (λ (p : Occurrence). p.starts_at) (push_create x o (to_create f os)))
    pushed rest Fate.leave = rest
    pushed rest Fate.new_row = (created_has f o.starts_at os d.0, rest)
    pushed rest (Fate.flip i) = rest
