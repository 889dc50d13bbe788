-- ===== src/Prelude/Table.antt =====
-- A table of the database: rows with a numeric primary key, looked up and updated by key.
use Prim.Native.Nat.{ℕ}
use mathlib.Core.Path.{◌≡◌, refl}
use mathlib.Core.Option.{Option, none, some}
use mathlib.Core.Option
use mathlib.Core.List.{List, [], ◌∷◌}
use native.Mathlib.Omega.{arith}
use padel_bot_api.Prelude.Tests.{◌==◌, if◌then◌else◌, Bool-cases}
use padel_bot_api.Prelude.Lists.{keep, All}
use mathlib.Core.Bool.{Bool, true, not}
use mathlib.Core.Logic.{inl, inr}

-- The primary key of a row.
pub record Keyed (A : Type 0) : Type 0 where
  pub key : A → ℕ

module _ {A : Type 0} ⦃k : Keyed A⦄ where
  -- `findUnique({ where: { id } })`
  unfoldable pub find : ℕ → List A → Option A
  find i [] = none
  find i (r ∷ rs) = if k.key r == i then some r else find i rs

  -- `update({ where: { id }, data })`
  unfoldable pub modify : ℕ → (A → A) → List A → List A
  modify i f [] = []
  modify i f (r ∷ rs) = (if k.key r == i then f r else r) ∷ modify i f rs

  pub find-key : (i : ℕ) (rs : List A) (r : A) → find i rs ≡ some r → k.key r ≡ i
  unfolding find
  find-key i [] r h = cc
  find-key i (x ∷ rs) r h = ground (arith, find-key i rs r)

  -- An update that keeps keys changes the row of its key and no other.
  pub find-modify :
      (i j : ℕ) (f : A → A) (rs : List A)
      → ((r : A) → k.key (f r) ≡ k.key r)
      → find j (modify i f rs) ≡ (if i == j then Option.map f (find j rs) else find j rs)
  unfolding find modify
  find-modify i j f [] h = ground arith
  find-modify i j f (r ∷ rs) h = ground (arith, h r, find-modify i j f rs h)

  pub find-cons :
      (i : ℕ) (r : A) (rs : List A) → find i (r ∷ rs) ≡ (if k.key r == i then some r else find i rs)
  unfolding find
  find-cons i r rs = refl

  -- A row that is deleted is not found, and the others are.
  pub find-keep :
      (i j : ℕ) (rs : List A)
      → find j (keep (λ r. not (k.key r == i)) rs) ≡ (if j == i then none else find j rs)
  unfolding find
  find-keep i j [] = ground arith
  find-keep i j (r ∷ rs) = ground (arith, find-keep i j rs)

  -- `findMany`: the rows of the table, one for each key.
  unfoldable pub rows : List A → List A
  rows [] = []
  rows (r ∷ rs) = r ∷ keep (λ x. not (k.key x == k.key r)) (rows rs)

  pub All-keep {κ} : (P : A → Type κ) (p : A → Bool) (xs : List A) → All P xs → All P (keep p xs)
  All-keep P p [] h = tt
  All-keep P p (x ∷ xs) h = elim (Bool-cases (p x)) [
    | inl e ↦ rw e (h.0, All-keep P p xs h.1)
    | inr e ↦ rw e (All-keep P p xs h.1)
  ]

  -- What passes a test has what the test tells of it.
  pub keep-All {κ ι} :
      {P : A → Type κ} {Q : A → Type ι} (p : A → Bool)
      → ((x : A) → P x → p x ≡ true → Q x)
      → (xs : List A) → All P xs
      → All Q (keep p xs)
  keep-All p f [] h = tt
  keep-All p f (x ∷ xs) h = elim (Bool-cases (p x)) [
    | inl e ↦ rw e (f x h.0 e, keep-All p f xs h.1)
    | inr e ↦ rw e (keep-All p f xs h.1)
  ]

  found_later :
      (r : A) (rs xs : List A)
      → All (λ x. find (k.key x) rs ≡ some x) xs
      → All (λ x. find (k.key x) (r ∷ rs) ≡ some x) (keep (λ x. not (k.key x == k.key r)) xs)
  unfolding find
  found_later r rs [] h = tt
  found_later r rs (x ∷ xs) h = elim (Bool-cases (k.key x == k.key r)) [
    | inl e ↦ rw e (found_later r rs xs h.1)
    | inr e ↦ rw e (ground arith, found_later r rs xs h.1)
  ]

  -- What `findMany` returns is what a lookup by key finds.
  pub rows-find : (rs : List A) → All (λ x. find (k.key x) rs ≡ some x) (rows rs)
  unfolding rows
  rows-find [] = tt
  rows-find (r ∷ rs) = (unfold find in ground arith, found_later r rs (rows rs) (rows-find rs))
