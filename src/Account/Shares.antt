-- ===== src/Account/Shares.antt =====
-- How `splitEqually` divides an amount.
use padel_bot_api.Prelude.{
  ℕ, zero, suc, ◌+◌, ◌-◌, ◌*◌, ◌/◌, ◌≤◌, ◌<◌, min, ◌≡◌, refl, some, arith, ltb, if◌then◌else◌,
  length, get_elem?, sum,
}
use padel_bot_api.Account.{shares_from, split_equally}

sum-shares_from : (b r i n : ℕ) → sum (shares_from b r i n) ≡ n * b + min n (r - i)
unfolding shares_from
sum-shares_from b r i zero = omega arith
sum-shares_from b r i (suc n) = ground (arith, sum-shares_from b r (i + 1) n)

length-shares_from : (b r i n : ℕ) → length (shares_from b r i n) ≡ n
unfolding shares_from
length-shares_from b r i zero = refl
length-shares_from b r i (suc n) = omega (arith, length-shares_from b r (i + 1) n)

pub length-split_equally : (total n : ℕ) → length (split_equally total n) ≡ n
unfolding split_equally
length-split_equally total n =
    ground (arith, length-shares_from (total / n) (total - total / n * n) 0 n)

pub sum-split_equally : (total n : ℕ) → 0 < n → sum (split_equally total n) ≡ total
unfolding split_equally
sum-split_equally total n h = grind (arith, sum-shares_from (total / n) (total - total / n * n) 0 n)

get-shares_from :
    (b r i n k x : ℕ)
    → get_elem? (shares_from b r i n) k ≡ some x
    → x ≡ b + (if ltb (i + k) r then 1 else 0)
unfolding shares_from
get-shares_from b r i zero k x h = cc
get-shares_from b r i (suc n) zero x h = ground arith
get-shares_from b r i (suc n) (suc k) x h = ground (arith, get-shares_from b r (i + 1) n k x h)

split_equally_pos :
    (total n : ℕ)
    → 0 < n
    → split_equally total n ≡ shares_from (total / n) (total - total / n * n) 0 n
unfolding split_equally
split_equally_pos total n h = ground arith

-- Nobody pays more than one cent above another, and the extra cents fall on the first ones.
get-split_equally :
    (total n i j x y : ℕ)
    → 0 < n
    → get_elem? (split_equally total n) i ≡ some x
    → get_elem? (split_equally total n) j ≡ some y
    → i ≤ j
    → (y ≤ x) × (x ≤ y + 1)
get-split_equally total n i j x y pos h k l =
    let b = total / n in
    let r = total - b * n in
    ground (
      arith,
      get-shares_from b r 0 n i x (rw (split_equally_pos total n pos) at h),
      get-shares_from b r 0 n j y (rw (split_equally_pos total n pos) at k),
    )

-- `splitEqually` over at least one player gives one share each, loses no cent, and orders the
-- shares from the largest down with at most one cent between any two.
pub split_equally_lem :
    (total n : ℕ)
    → 0 < n
    → (length (split_equally total n) ≡ n)
      × (sum (split_equally total n) ≡ total)
      × ((i j x y : ℕ)
          → get_elem? (split_equally total n) i ≡ some x
          → get_elem? (split_equally total n) j ≡ some y
          → i ≤ j
          → (y ≤ x) × (x ≤ y + 1))
split_equally_lem total n h = (
  length-split_equally total n,
  sum-split_equally total n h,
  λ i j x y p q l. get-split_equally total n i j x y h p q l,
)
