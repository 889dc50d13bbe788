-- ===== src/Pricing/Tests.antt =====
-- A run of the price list, and an instance of its theorem.
use padel_bot_api.Prelude.{◌⊎◌, any_of, false, ◌≡◌, refl, none, some, List, [], ◌∷◌}
use padel_bot_api.Prelude.Text.{codes, text_eq}
use padel_bot_api.Pricing.{PriceRule, resolve_band_price_cents, match_rules, match_rule}
use padel_bot_api.Pricing.Priority.{
  resolve_band_price_cents_lem, IsLast, is_day_rule, is_all_days_rule,
}

-- A price for every day at 20:00 and one for Fridays.
abbrev rules : List PriceRule
rules =
    record { day_of_week = some 5; start_time = codes "20:00"; price_cents = 900000 }
    ∷ record { day_of_week = none; start_time = codes "20:00"; price_cents = 850000 }
    ∷ []

resolve_band_price_cents_lem_example :
    ((r : PriceRule) × IsLast (is_day_rule 5 (codes "20:00")) r rules
      × (resolve_band_price_cents 800000 rules 5 (codes "20:00") ≡ r.price_cents))
    ⊎ (((r : PriceRule) × (any_of (is_day_rule 5 (codes "20:00")) rules ≡ false)
          × IsLast (is_all_days_rule (codes "20:00")) r rules
          × (resolve_band_price_cents 800000 rules 5 (codes "20:00") ≡ r.price_cents))
        ⊎ ((any_of (is_day_rule 5 (codes "20:00")) rules ≡ false)
            × (any_of (is_all_days_rule (codes "20:00")) rules ≡ false)
            × (resolve_band_price_cents 800000 rules 5 (codes "20:00") ≡ 800000)))
resolve_band_price_cents_lem_example = resolve_band_price_cents_lem 800000 5 rules (codes "20:00")

friday : resolve_band_price_cents 800000 rules 5 (codes "20:00") ≡ 900000
unfolding resolve_band_price_cents match_rules match_rule text_eq
friday = refl
