-- ===== src/Recurring/Apply/Takes.antt =====
-- Bookings that take free slots, one after the other, seen through the courts.
use padel_bot_api.Prelude.{
  ℕ, ◌≡◌, refl, ◌∙◌, Bool, false, ◌||◌, none, some, List, [], ◌∷◌, ◌++◌, arith, ◌==◌, if◌then◌else◌,
  any_of, All,
}
use padel_bot_api.Bookings.Model.{SlotStatus}
use padel_bot_api.Bookings.Courts.{View, IsFree, Moves, done, next, stay, take, Moves-trans}

-- The booking takes the slot.
abbrev pub take_view : ℕ → ℕ → View → View
take_view i s v = record {
  holding = λ j. if i == j then some s else v.holding j;
  status = λ t. if s == t then some SlotStatus.booked else v.status t;
}

-- The slots of the list, each by its booking.
unfoldable pub taken : (ℕ → ℕ) → List ℕ → View → View
taken fb [] v = v
taken fb (s ∷ ss) v = taken fb ss (take_view (fb s) s v)

abbrev pub has : ℕ → List ℕ → Bool
has s ss = any_of (λ t. t == s) ss

unfoldable pub IsDistinct : List ℕ → Type 0
IsDistinct [] = Unit
IsDistinct (s ∷ ss) = (has s ss ≡ false) × IsDistinct ss

-- A slot is free, and the booking that is to take it holds none.
abbrev pub Fits : (ℕ → ℕ) → View → ℕ → Type 0
Fits fb v s = (v.holding (fb s) ≡ none) × IsFree (v.status s)

take_view-Fits :
    (fb : ℕ → ℕ) (s : ℕ) (ss : List ℕ) (v : View)
    → ((a b : ℕ) → fb a ≡ fb b → a ≡ b)
    → has s ss ≡ false
    → All (Fits fb v) ss
    → All (Fits fb (take_view (fb s) s v)) ss
take_view-Fits fb s [] v inj new h = tt
take_view-Fits fb s (t ∷ ts) v inj new h = (
  (ground (arith, inj s t, h.0.0), ground (arith, h.0.1)),
  take_view-Fits fb s ts v inj (ground arith) h.1,
)

-- Only takes: one after the other, a booking that held nothing takes a free slot, until the courts
-- look like the view `w`.
pub data TakesTo (w : View) : View → Type 0 where
  all_taken :
      {v : View}
      → ((i : ℕ) → w.holding i ≡ v.holding i)
      → ((t : ℕ) → w.status t ≡ v.status t)
      → TakesTo w v
  take_next :
      {v : View} (i s : ℕ)
      → v.holding i ≡ none
      → IsFree (v.status s)
      → TakesTo w (take_view i s v)
      → TakesTo w v

pub TakesTo-Moves : {w v : View} → TakesTo w v → Moves v w
TakesTo-Moves (all_taken h k) = next done (stay h k)
TakesTo-Moves (take_next i s held free rest) =
    Moves-trans (next done (take i s held free (λ j. refl) (λ t. refl))) (TakesTo-Moves rest)

-- Distinct free slots can be taken by distinct new bookings.
pub taken-TakesTo :
    (fb : ℕ → ℕ) (ss : List ℕ) (v w : View)
    → ((a b : ℕ) → fb a ≡ fb b → a ≡ b)
    → IsDistinct ss
    → All (Fits fb v) ss
    → ((i : ℕ) → w.holding i ≡ (taken fb ss v).holding i)
    → ((t : ℕ) → w.status t ≡ (taken fb ss v).status t)
    → TakesTo w v
unfolding taken IsDistinct
taken-TakesTo fb [] v w inj d h same marked = all_taken same marked
taken-TakesTo fb (s ∷ ss) v w inj d h same marked = take_next (fb s) s h.0.0 h.0.1 (
    taken-TakesTo fb ss (take_view (fb s) s v) w inj d.1 (take_view-Fits fb s ss v inj d.0 h.1) same
      marked)

pub taken-status :
    (fb : ℕ → ℕ) (ss : List ℕ) (v : View) (t : ℕ)
    → (taken fb ss v).status t ≡ (if has t ss then some SlotStatus.booked else v.status t)
unfolding taken
taken-status fb [] v t = refl
taken-status fb (s ∷ ss) v t = taken-status fb ss (take_view (fb s) s v) t ∙ ground arith

pub has-append : (s : ℕ) (xs ys : List ℕ) → has s (xs ++ ys) ≡ (has s xs || has s ys)
has-append s [] ys = refl
has-append s (x ∷ xs) ys = ground (arith, has-append s xs ys)

pub append-IsDistinct :
    (xs ys : List ℕ)
    → IsDistinct xs
    → IsDistinct ys
    → All (λ x. has x ys ≡ false) xs
    → IsDistinct (xs ++ ys)
unfolding IsDistinct
append-IsDistinct [] ys d e h = e
append-IsDistinct (x ∷ xs) ys d e h =
    (ground (arith, has-append x xs ys, d.0, h.0), append-IsDistinct xs ys d.1 e h.1)

pub All-append {κ} : (P : ℕ → Type κ) (xs ys : List ℕ) → All P xs → All P ys → All P (xs ++ ys)
All-append P [] ys h k = k
All-append P (x ∷ xs) ys h k = (h.0, All-append P xs ys h.1 k)
