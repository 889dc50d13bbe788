-- ===== src/Pricing.antt =====
-- src/availability/lib/pricing.ts: the price of a band, from the court's default and its exceptions.
-- The weekday of the date comes in as a number, 0 for Sunday.
pub mod Priority
pub mod Tests
use padel_bot_api.Prelude.{
  ℕ, Bool, false, not, Option, none, some, List, [], ◌∷◌, ◌==◌, if◌then◌else◌, is_none,
}
use padel_bot_api.Prelude.Text.{Text, text_eq}

pub record PriceRule : Type 0 where
  pub day_of_week : Option ℕ
  pub start_time : Text
  pub price_cents : ℕ

-- `rule.dayOfWeek === weekday`
abbrev pub is_for_day : ℕ → PriceRule → Bool
is_for_day weekday r = elim r.day_of_week [ none ↦ false | some d ↦ d == weekday ]

-- The two rules that the loop keeps, the day's and the one for all days.
pub record Matched : Type 0 where
  pub day_rule : Option PriceRule
  pub all_days_rule : Option PriceRule

pub match_rule : ℕ → Text → PriceRule → Matched → Matched
match_rule weekday band_start r found =
    if not (text_eq r.start_time band_start)
    then found
    else if is_for_day weekday r
    then record found { day_rule = some r }
    else if is_none r.day_of_week
    then record found { all_days_rule = some r }
    else found

pub match_rules : ℕ → Text → List PriceRule → Matched → Matched
match_rules weekday band_start [] found = found
match_rules weekday band_start (r ∷ rs) found =
    match_rules weekday band_start rs (match_rule weekday band_start r found)

-- `(dayRule ?? allDaysRule)?.priceCents ?? defaultPriceCents`
abbrev pub chosen_price : ℕ → Matched → ℕ
chosen_price default m = elim m.day_rule [
  | some r ↦ r.price_cents
  | none ↦ elim m.all_days_rule [ some r ↦ r.price_cents | none ↦ default ]
]

unfoldable pub resolve_band_price_cents : ℕ → List PriceRule → ℕ → Text → ℕ
unfolding match_rules match_rule
resolve_band_price_cents default_price_cents rules weekday band_start =
    chosen_price default_price_cents
      (match_rules weekday band_start rules (record { day_rule = none; all_days_rule = none }))
