-- ===== src/Competitions/Bracket/Seeds.antt =====
-- `seedOrder`: every seed stands in the order once, and the stronger half at the even places.
use padel_bot_api.Prelude.{
  ℕ, zero, suc, ◌+◌, ◌-◌, ◌*◌, ◌≤◌, ◌<◌, ◌≡◌, refl, sym, ap, subst, ◌∙◌, ◌⊎◌, inl, inr, List, [],
  ◌∷◌, map, arith, ltb, Bool-cases, length, All, sum,
}
use padel_bot_api.Competitions.Bracket.{couples, order_from, seed_order}
use padel_bot_api.Competitions.Bracket.Sizes.{power, power-positive, power-gap}

-- The sum of `f` over 1, …, n.
abbrev pub up_to : (ℕ → ℕ) → ℕ → ℕ
up_to f zero = 0
up_to f (suc n) = up_to f n + f (suc n)

pub at_same : (f : ℕ → ℕ) (a b : ℕ) → a ≡ b → f a ≡ f b
at_same f a b same = ap f same

pub up_to-same :
    (f g : ℕ → ℕ) (n : ℕ) → ((s : ℕ) → suc s ≤ n → f (suc s) ≡ g (suc s)) → up_to f n ≡ up_to g n
up_to-same f g zero h = refl
up_to-same f g (suc n) h =
    omega (arith, up_to-same f g n (λ s le. h s (omega arith)), h n (omega arith))

-- The numbers after n, counted from above.
up_to-above : (f : ℕ → ℕ) (n k : ℕ) → up_to f (n + k) ≡ up_to f n + up_to (λ s. f (n + k + 1 - s)) k
up_to-above f n zero = at_same (up_to f) (n + 0) n (omega arith) ∙ omega arith
up_to-above f n (suc k) =
    let shift : n + suc k ≡ suc n + k = omega arith in
    let last : f (n + suc k + 1 - suc k) ≡ f (suc n) = ap f (omega arith) in
    let rest : up_to (λ s. f (n + suc k + 1 - s)) k ≡ up_to (λ s. f (suc n + k + 1 - s)) k =
      up_to-same (λ s. f (n + suc k + 1 - s)) (λ s. f (suc n + k + 1 - s)) k
        (λ s le. at_same f (n + suc k + 1 - suc s) (suc n + k + 1 - suc s) (omega arith)) in
    ap (up_to f) shift ∙ omega (arith, up_to-above f (suc n) k, last, rest)

pub up_to-first : (f : ℕ → ℕ) (n : ℕ) → up_to f (suc n) ≡ f 1 + up_to (λ s. f (suc s)) n
up_to-first f zero = omega arith
up_to-first f (suc n) = omega (arith, up_to-first f n)

-- The list has each of the numbers 1, …, n once: every sum over it is the sum over these.
abbrev pub HasSeeds : ℕ → List ℕ → Type 0
HasSeeds n order = (f : ℕ → ℕ) → sum (map f order) ≡ up_to f n

couples-sum :
    (f : ℕ → ℕ) (total : ℕ) (order : List ℕ)
    → sum (map f (couples total order)) ≡ sum (map f order) + sum (map (λ s. f (total - s)) order)
unfolding couples
couples-sum f total [] = refl
couples-sum f total (s ∷ ss) = omega (arith, couples-sum f total ss)

length-couples : (total : ℕ) (order : List ℕ) → length (couples total order) ≡ length order * 2
unfolding couples
length-couples total [] = refl
length-couples total (s ∷ ss) = omega (arith, length-couples total ss)

couples-HasSeeds :
    (n total : ℕ) (order : List ℕ)
    → total ≡ n * 2 + 1
    → HasSeeds n order
    → HasSeeds (n * 2) (couples total order)
couples-HasSeeds n total order same has f =
    let double : up_to f (n * 2) ≡ up_to f (n + n) = ap (up_to f) (omega arith) in
    let upper : up_to (λ s. f (total - s)) n ≡ up_to (λ s. f (n + n + 1 - s)) n =
      up_to-same (λ s. f (total - s)) (λ s. f (n + n + 1 - s)) n
        (λ s le. at_same f (total - suc s) (n + n + 1 - suc s) (omega arith)) in
    omega (
      arith,
      couples-sum f total order,
      has f,
      has (λ s. f (total - s)),
      double,
      upper,
      up_to-above f n n,
    )

-- The order doubles up to the size.
order_from-HasSeeds :
    (n k j : ℕ) (order : List ℕ)
    → length order ≡ power k
    → power k ≤ power j
    → power j ≤ power k + n
    → HasSeeds (power k) order
    → HasSeeds (power j) (order_from n order (power j))
unfolding order_from
order_from-HasSeeds zero k j order len le enough has =
    subst (λ m. HasSeeds m order) (omega arith) has
order_from-HasSeeds (suc n) k j order len le enough has =
    elim (Bool-cases (ltb (length order) (power j))) [
      | inl e ↦ rw e (
          order_from-HasSeeds n (suc k) j (couples (length order * 2 + 1) order)
            (length-couples _ order ∙ omega arith) (power-gap k j (ground arith))
            (omega (arith, power-positive k))
            (couples-HasSeeds (power k) (length order * 2 + 1) order (omega arith) has))
      | inr e ↦ rw e (subst (λ m. HasSeeds m order) (ground arith) has)
    ]

pub seed_order-HasSeeds : (k : ℕ) → HasSeeds (power k) (seed_order (power k))
unfolding seed_order
seed_order-HasSeeds k =
    order_from-HasSeeds (power k) 0 k (1 ∷ []) refl (power-positive k) (omega arith)
      (λ f. omega arith)

-- What holds at the even places of a list.
abbrev pub Firsts {ℓ} : {A : Type ℓ} → (A → Type 0) → List A → Type 0
Firsts P [] = Unit
Firsts P (x ∷ []) = P x
Firsts P (x ∷ y ∷ xs) = P x × Firsts P xs

pub Firsts-map {ℓ κ} :
    {A : Type ℓ} {B : Type κ} (P : A → Type 0) (Q : B → Type 0) (f : A → B) (xs : List A)
    → ((x : A) → P x → Q (f x))
    → Firsts P xs
    → Firsts Q (map f xs)
Firsts-map P Q f [] h ps = tt
Firsts-map P Q f (x ∷ []) h ps = h x ps
Firsts-map P Q f (x ∷ y ∷ xs) h ps = (h x ps.0, Firsts-map P Q f xs h ps.1)

abbrev pub InRange : ℕ → ℕ → Type 0
InRange n s = (1 ≤ s) × (s ≤ n)

-- The stronger half of the seeds.
abbrev pub IsStrong : ℕ → ℕ → Type 0
IsStrong n s = (1 ≤ s) × (s * 2 ≤ n)

couples-InRange :
    (n : ℕ) (order : List ℕ)
    → All (InRange n) order
    → All (InRange (n * 2)) (couples (n * 2 + 1) order)
unfolding couples
couples-InRange n [] all = tt
couples-InRange n (s ∷ ss) all = (
  (all.0.0, omega (arith, all.0.1)),
  ((omega (arith, all.0.1), omega (arith, all.0.0)), couples-InRange n ss all.1),
)

couples-Firsts :
    (n total : ℕ) (order : List ℕ)
    → All (InRange n) order
    → Firsts (IsStrong (n * 2)) (couples total order)
unfolding couples
couples-Firsts n total [] all = tt
couples-Firsts n total (s ∷ ss) all =
    ((all.0.0, omega (arith, all.0.1)), couples-Firsts n total ss all.1)

-- One step puts the stronger half at the even places.
order_from-Firsts :
    (n k j : ℕ) (order : List ℕ)
    → length order ≡ power k
    → power k ≤ power j
    → All (InRange (power k)) order
    → Firsts (IsStrong (power k)) order ⊎ ((power k < power j) × (1 ≤ n))
    → power j ≤ power k + n
    → Firsts (IsStrong (power j)) (order_from n order (power j))
unfolding order_from
order_from-Firsts zero k j order len le all (inl firsts) enough =
    subst (λ m. Firsts (IsStrong m) order) (omega arith) firsts
order_from-Firsts zero k j order len le all (inr more) enough = absurd (omega (arith, more.1))
order_from-Firsts (suc n) k j order len le all start enough =
    elim (Bool-cases (ltb (length order) (power j))) [
      | inl e ↦ rw e (
          order_from-Firsts n (suc k) j (couples (length order * 2 + 1) order)
            (length-couples _ order ∙ omega arith) (power-gap k j (ground arith))
            (subst (λ m. All (InRange (power k * 2)) (couples (m * 2 + 1) order)) (sym len)
              (couples-InRange (power k) order all))
            (inl (couples-Firsts (power k) (length order * 2 + 1) order all))
            (omega (arith, power-positive k)))
      | inr e ↦ rw e (elim start [
        | inl firsts ↦ subst (λ m. Firsts (IsStrong m) order) (ground arith) firsts
        | inr more ↦ absurd (ground (arith, more.0))
      ])
    ]

pub seed_order-Firsts : (k : ℕ) → Firsts (IsStrong (power (suc k))) (seed_order (power (suc k)))
unfolding seed_order
seed_order-Firsts k =
    order_from-Firsts (power (suc k)) 0 (suc k) (1 ∷ []) refl (omega (arith, power-positive k))
      ((omega arith, omega arith), tt)
      (inr (omega (arith, power-positive k), omega (arith, power-positive k))) (omega arith)
