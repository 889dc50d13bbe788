-- ===== src/Pricing/Priority.antt =====
-- Which exception sets the price of a band.
use padel_bot_api.Prelude.{
  ℕ, ◌≡◌, refl, ap, ◌∙◌, ◌⊎◌, inl, inr, Bool, true, false, ◌&&◌, Option, none, some, List, [], ◌∷◌,
  ◌++◌, arith, if◌then◌else◌, is_none, any_of, Bool-cases,
}
use padel_bot_api.Prelude.Text.{Text, text_eq}
use padel_bot_api.Pricing.{
  PriceRule, is_for_day, match_rule, match_rules, chosen_price, resolve_band_price_cents,
}

-- The rules that speak of the band on the weekday, and those that do on every day.
abbrev pub is_day_rule : ℕ → Text → PriceRule → Bool
is_day_rule weekday start r = text_eq r.start_time start && is_for_day weekday r

abbrev pub is_all_days_rule : Text → PriceRule → Bool
is_all_days_rule start r = text_eq r.start_time start && is_none r.day_of_week

-- The rule passes the test, and none after it does.
abbrev pub IsLast : (PriceRule → Bool) → PriceRule → List PriceRule → Type 0
IsLast p r rules =
    (before : List PriceRule) × (after : List PriceRule) × (rules ≡ before ++ r ∷ after)
    × (p r ≡ true)
    × (any_of p after ≡ false)

-- The last rule that passes a test, or else a given one.
abbrev last_or : (PriceRule → Bool) → Option PriceRule → List PriceRule → Option PriceRule
last_or p o [] = o
last_or p o (x ∷ xs) = last_or p (if p x then some x else o) xs

last_or_cases :
    (p : PriceRule → Bool) (o : Option PriceRule) (rules : List PriceRule)
    → ((r : PriceRule) × (last_or p o rules ≡ some r) × IsLast p r rules)
      ⊎ ((last_or p o rules ≡ o) × (any_of p rules ≡ false))
last_or_cases p o [] = inr (refl, refl)
last_or_cases p o (x ∷ xs) = elim (last_or_cases p (if p x then some x else o) xs) [
  | inl (r, e, (before, after, same, pass, later)) ↦
      inl (r, e, (x ∷ before, after, ap (λ l. x ∷ l) same, pass, later))
  | inr (e, absent) ↦ elim (Bool-cases (p x)) [
    | inl t ↦ inl (x, ground arith, ([], xs, refl, t, absent))
    | inr f ↦ inr (ground arith, ground arith)
  ]
]

match_rules_lem :
    (weekday : ℕ) (start : Text) (rs : List PriceRule) (day all : Option PriceRule)
    → match_rules weekday start rs (record { day_rule = day; all_days_rule = all }) ≡ record {
      day_rule = last_or (is_day_rule weekday start) day rs;
      all_days_rule = last_or (is_all_days_rule start) all rs;
    }
unfolding match_rules match_rule
match_rules_lem weekday start [] day all = refl
match_rules_lem weekday start (r ∷ rs) day all = ground (
  arith,
  match_rules_lem weekday start rs day all,
  match_rules_lem weekday start rs (some r) all,
  match_rules_lem weekday start rs day (some r),
)

-- The price of a band is that of the last exception for its start on that weekday; if there is none,
-- that of the last exception for its start on every day; if there is none either, the court's
-- default.
pub resolve_band_price_cents_lem :
    (default weekday : ℕ) (rules : List PriceRule) (start : Text)
    → ((r : PriceRule) × IsLast (is_day_rule weekday start) r rules
        × (resolve_band_price_cents default rules weekday start ≡ r.price_cents))
      ⊎ (((r : PriceRule) × (any_of (is_day_rule weekday start) rules ≡ false)
            × IsLast (is_all_days_rule start) r rules
            × (resolve_band_price_cents default rules weekday start ≡ r.price_cents))
          ⊎ ((any_of (is_day_rule weekday start) rules ≡ false)
              × (any_of (is_all_days_rule start) rules ≡ false)
              × (resolve_band_price_cents default rules weekday start ≡ default)))
unfolding resolve_band_price_cents
resolve_band_price_cents_lem default weekday rules start =
    let found = ap (chosen_price default) (match_rules_lem weekday start rules none none) in
    elim (last_or_cases (is_day_rule weekday start) none rules) [
      | inl (r, e, last) ↦ inl (r, last, found ∙ ground (arith, e))
      | inr (e, absent) ↦ elim (last_or_cases (is_all_days_rule start) none rules) [
        | inl (r, f, last) ↦ inr (inl (r, absent, last, found ∙ ground (arith, e, f)))
        | inr (f, empty) ↦ inr (inr (absent, empty, found ∙ ground (arith, e, f)))
      ]
    ]
