-- ===== src/Account/Mask.antt =====
-- The bit mask in which a consumo line keeps the positions that share it.
use Prim.Native.Nat.{bit_or}
use padel_bot_api.Prelude.{
  ltb→lt, subst, ◌-◌, ℕ, zero, suc, ◌+◌, ◌^◌, ◌<◌, ◌≡◌, refl, Bool, true, false, not, ◌&&◌, ◌||◌,
  List, [], ◌∷◌, arith, ltb, ◌==◌, All, if◌then◌else◌,
}
use padel_bot_api.Account.{is_position, players_from_mask, mask_from, player_mask}

-- `xs.includes(x)`
abbrev pub contains : ℕ → List ℕ → Bool
contains x [] = false
contains x (y ∷ ys) = (x == y) || contains x ys

holds_upto : (ℕ → Bool) → ℕ → Bool
holds_upto test zero = true
holds_upto test (suc bound) = if test bound then holds_upto test bound else false

holds_upto-at :
    (test : ℕ → Bool) (i bound : ℕ) → i < bound → holds_upto test bound ≡ true → test i ≡ true
unfolding holds_upto
holds_upto-at test i zero small all = absurd (omega arith)
holds_upto-at test i (suc bound) small all = ground (arith, holds_upto-at test i bound)

same : Bool → Bool → Bool
same true b = b
same false b = not b

eq_of_same : (a b : Bool) → same a b ≡ true → a ≡ b
unfolding same
eq_of_same a b h = ground arith

-- One step of the mask: setting the bit of position `p + 1` adds that position and no other.
step_row : ℕ → ℕ → ℕ → Bool
unfolding same players_from_mask
step_row m p q =
    ltb (bit_or m (2 ^ p)) 16
    && same (contains (q + 1) (players_from_mask (bit_or m (2 ^ p))))
        ((q == p) || contains (q + 1) (players_from_mask m))

abbrev step_rows : ℕ → ℕ → Bool
step_rows m p = holds_upto (λ q. step_row m p q) 4

step_table : holds_upto (λ m. holds_upto (step_rows m) 4) 16 ≡ true
unfolding holds_upto step_row
step_table = refl

step_lem : (m p q : ℕ) → m < 16 → p < 4 → q < 4 → step_row m p q ≡ true
step_lem m p q hm hp hq =
    let of_mask = holds_upto-at (λ m. holds_upto (step_rows m) 4) m 16 hm step_table in
    let of_bit = holds_upto-at (step_rows m) p 4 hp of_mask in
    holds_upto-at (λ q. step_row m p q) q 4 hq of_bit

and_parts : (a b : Bool) → a && b ≡ true → (a ≡ true) × (b ≡ true)
and_parts a b h = ground arith

step_facts :
    (m p q : ℕ)
    → m < 16
    → p < 4
    → q < 4
    → (bit_or m (2 ^ p) < 16)
      × (contains (q + 1) (players_from_mask (bit_or m (2 ^ p)))
          ≡ ((q == p) || contains (q + 1) (players_from_mask m)))
unfolding step_row
step_facts m p q hm hp hq =
    let (small, equal) = and_parts _ _ (step_lem m p q hm hp hq) in
    (ltb→lt _ _ small, eq_of_same _ _ equal)

contains-mask_from :
    (ps : List ℕ) (m q : ℕ)
    → m < 16
    → q < 4
    → All (λ p. is_position p ≡ true) ps
    → contains (q + 1) (players_from_mask (mask_from m ps))
      ≡ (contains (q + 1) ps || contains (q + 1) (players_from_mask m))
unfolding mask_from
contains-mask_from [] m q hm hq v = refl
contains-mask_from (p ∷ ps) m q hm hq v =
    let (small, equal) = step_facts m (p - 1) q hm (ground arith) hq in
    ground (arith, equal, contains-mask_from ps (bit_or m (2 ^ (p - 1))) q small hq v.1)

-- Stored and read back, the positions that share a consumo are the same: for a list of valid
-- positions, a position is read from the mask exactly when it was in the list.
pub contains-players_from_mask :
    (ps : List ℕ) (p : ℕ)
    → All (λ p. is_position p ≡ true) ps
    → is_position p ≡ true
    → contains p (players_from_mask (player_mask ps)) ≡ contains p ps
unfolding player_mask players_from_mask
contains-players_from_mask ps p v h =
    let e : p - 1 + 1 ≡ p = ground arith in
    subst (λ t. contains t (players_from_mask (mask_from 0 ps)) ≡ contains t ps) e
      (at_successor (p - 1) (ground arith))
  where
    none_yet : (q : ℕ) → contains (q + 1) (players_from_mask 0) ≡ false
    none_yet q = refl

    at_successor :
        (q : ℕ)
        → q < 4
        → contains (q + 1) (players_from_mask (mask_from 0 ps)) ≡ contains (q + 1) ps
    at_successor q hq = ground (arith, contains-mask_from ps 0 q (omega arith) hq v, none_yet q)
