-- ===== src/Competitions/Bracket/Swaps.antt =====
-- `avoidGroupClashes`: its swaps keep every entrant, and keep the byes off the first places.
use padel_bot_api.Prelude.{
  ℕ, zero, suc, ◌+◌, ◌%◌, ◌≡◌, refl, ap, ◌∙◌, ◌≢◌, inl, inr, true, Option, none, some, List, [],
  ◌∷◌, map, arith, ltb, is_some, Bool-cases, length, sum,
}
use padel_bot_api.Competitions.Bracket.{
  BracketEntrant, same_group, entry, set_entry, can_swap, swap, swap_from, part, avoid_from,
  avoid_group_clashes,
}
use padel_bot_api.Competitions.Bracket.Seeds.{Firsts}

abbrev pub IsEntrant : Option BracketEntrant → Type 0
IsEntrant e = is_some e ≡ true

-- The new draw has the entrants of the old one, and one at every even place if the old one had.
abbrev pub KeepsDraw : List (Option BracketEntrant) → List (Option BracketEntrant) → Type 0
KeepsDraw draw new =
    ((g : Option BracketEntrant → ℕ) → sum (map g new) ≡ sum (map g draw))
    × (Firsts IsEntrant draw → Firsts IsEntrant new)

KeepsDraw-trans :
    (a b c : List (Option BracketEntrant)) → KeepsDraw a b → KeepsDraw b c → KeepsDraw a c
KeepsDraw-trans a b c ab bc = (λ g. bc.0 g ∙ ab.0 g, λ h. bc.1 (ab.1 h))

set_entry-sum :
    (g : Option BracketEntrant → ℕ) (i : ℕ) (e : Option BracketEntrant) (x : BracketEntrant)
    (draw : List (Option BracketEntrant))
    → entry i draw ≡ some x
    → sum (map g (set_entry i e draw)) + g (some x) ≡ sum (map g draw) + g e
unfolding entry set_entry
set_entry-sum g i e x [] h = absurd (cc)
set_entry-sum g zero e x (d ∷ draw) h = omega (arith, ap g h)
set_entry-sum g (suc i) e x (d ∷ draw) h = omega (arith, set_entry-sum g i e x draw h)

entry-set_entry :
    (i j : ℕ) (e : Option BracketEntrant) (draw : List (Option BracketEntrant))
    → i ≢ j
    → entry i (set_entry j e draw) ≡ entry i draw
unfolding entry set_entry
entry-set_entry i j e [] h = refl
entry-set_entry zero zero e (d ∷ draw) h = absurd (h refl)
entry-set_entry zero (suc j) e (d ∷ draw) h = refl
entry-set_entry (suc i) zero e (d ∷ draw) h = refl
entry-set_entry (suc i) (suc j) e (d ∷ draw) h =
    entry-set_entry i j e draw (λ same. h (ap (λ n. suc n) same))

set_entry-Firsts :
    (i : ℕ) (e : Option BracketEntrant) (draw : List (Option BracketEntrant))
    → i % 2 ≡ 1
    → Firsts IsEntrant draw
    → Firsts IsEntrant (set_entry i e draw)
unfolding set_entry
set_entry-Firsts i e [] odd h = h
set_entry-Firsts zero e (d ∷ draw) odd h = absurd (omega arith)
set_entry-Firsts (suc i) e (d ∷ []) odd h = h
set_entry-Firsts (suc zero) e (d ∷ c ∷ draw) odd h = h
set_entry-Firsts (suc (suc i)) e (d ∷ c ∷ draw) odd h =
    (h.0, set_entry-Firsts i e draw (omega arith) h.1)

swap-KeepsDraw :
    (m other : ℕ) (x y : BracketEntrant) (draw : List (Option BracketEntrant))
    → m % 2 ≡ 0
    → other % 2 ≡ 0
    → m ≢ other
    → entry (m + 1) draw ≡ some x
    → entry (other + 1) draw ≡ some y
    → KeepsDraw draw (swap m other draw)
unfolding swap
swap-KeepsDraw m other x y draw em eo ne hx hy = (
  λ g. omega (
    arith,
    set_entry-sum g (m + 1) (entry (other + 1) draw) x
        (set_entry (other + 1) (entry (m + 1) draw) draw)
        (entry-set_entry (m + 1) (other + 1) (entry (m + 1) draw) draw (λ same. ne (omega arith))
          ∙ hx),
    set_entry-sum g (other + 1) (entry (m + 1) draw) y draw hy,
    ap g hx,
    ap g hy,
  ),
  λ h.
      set_entry-Firsts (m + 1) _ _ (omega arith)
        (set_entry-Firsts (other + 1) _ draw (omega arith) h),
)

some_of_same_group :
    (x y : Option BracketEntrant) → same_group x y ≡ true → (b : BracketEntrant) × (y ≡ some b)
unfolding same_group
some_of_same_group (some a) (some b) h = (b, refl)
some_of_same_group (some a) none h = absurd (cc)
some_of_same_group none y h = absurd (cc)

of_can_swap :
    (m other : ℕ) (draw : List (Option BracketEntrant))
    → can_swap m other draw ≡ true
    → (m ≢ other) × ((y : BracketEntrant) × (entry (other + 1) draw ≡ some y))
of_can_swap m other draw can =
    (λ same. ground (arith, can, same), there (entry (other + 1) draw) (ground (arith, can)) refl)
  where
    there :
        (o : Option BracketEntrant)
        → is_some o ≡ true
        → entry (other + 1) draw ≡ o
        → (y : BracketEntrant) × (entry (other + 1) draw ≡ some y)
    there (some y) h same = (y, same)
    there none h same = absurd (cc)

swap_from-KeepsDraw :
    (n m other : ℕ) (x : BracketEntrant) (draw : List (Option BracketEntrant))
    → m % 2 ≡ 0
    → other % 2 ≡ 0
    → entry (m + 1) draw ≡ some x
    → KeepsDraw draw (swap_from n m other draw)
unfolding swap_from
swap_from-KeepsDraw zero m other x draw em eo hx = (λ g. refl, λ h. h)
swap_from-KeepsDraw (suc n) m other x draw em eo hx = elim (Bool-cases (ltb other (length draw))) [
  | inl e ↦ rw e (elim (Bool-cases (can_swap m other draw)) [
    | inl can ↦ rw can (
        let (ne, (y, hy)) = of_can_swap m other draw can in
        swap-KeepsDraw m other x y draw em eo ne hx hy)
    | inr cannot ↦ rw cannot (swap_from-KeepsDraw n m (other + 2) x draw em (omega arith) hx)
  ])
  | inr e ↦ rw e (λ g. refl, λ h. h)
]

part-KeepsDraw :
    (m : ℕ) (draw : List (Option BracketEntrant)) → m % 2 ≡ 0 → KeepsDraw draw (part m draw)
unfolding part
part-KeepsDraw m draw em = elim (Bool-cases (same_group (entry m draw) (entry (m + 1) draw))) [
  | inl e ↦ rw e (
      let (x, hx) = some_of_same_group (entry m draw) (entry (m + 1) draw) e in
      swap_from-KeepsDraw (length draw) m 0 x draw em refl hx)
  | inr e ↦ rw e (λ g. refl, λ h. h)
]

avoid_from-KeepsDraw :
    (n m : ℕ) (draw : List (Option BracketEntrant))
    → m % 2 ≡ 0
    → KeepsDraw draw (avoid_from n m draw)
unfolding avoid_from
avoid_from-KeepsDraw zero m draw em = (λ g. refl, λ h. h)
avoid_from-KeepsDraw (suc n) m draw em = elim (Bool-cases (ltb m (length draw))) [
  | inl e ↦ rw e (
      KeepsDraw-trans draw (part m draw) (avoid_from n (m + 2) (part m draw))
        (part-KeepsDraw m draw em) (avoid_from-KeepsDraw n (m + 2) (part m draw) (omega arith)))
  | inr e ↦ rw e (λ g. refl, λ h. h)
]

pub avoid_group_clashes-KeepsDraw :
    (draw : List (Option BracketEntrant)) → KeepsDraw draw (avoid_group_clashes draw)
unfolding avoid_group_clashes
avoid_group_clashes-KeepsDraw draw = avoid_from-KeepsDraw (length draw) 0 draw refl
