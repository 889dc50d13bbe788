-- ===== src/Subscription/Tests.antt =====
-- Instances of the theorems on subscriptions: a trial that ended at the time 1000.
use padel_bot_api.Prelude.{ℕ, ◌+◌, ◌*◌, ◌≤◌, ◌<◌, ◌≡◌, refl, true, none, some, arith}
use padel_bot_api.Subscription.{
  SubscriptionFields, SubscriptionStatus, subscription_state, day_ms, warning, trial_state,
  graced_state,
}
use padel_bot_api.Subscription.Decay.{
  end_for, subscription_state-earlier, subscription_state-warned,
}

abbrev on_trial : SubscriptionFields
on_trial = record {
  status = SubscriptionStatus.trial;
  trial_ends_at = some 1000;
  current_period_end = none;
}

subscription_state-earlier_example : (subscription_state 7 on_trial 500).bot_allowed ≡ true
subscription_state-earlier_example =
    subscription_state-earlier 7 500 2000 on_trial (omega arith)
      (unfold subscription_state trial_state graced_state in refl)

subscription_state-warned_example :
    (e : ℕ) × (end_for SubscriptionStatus.trial on_trial ≡ some e)
    × (e + 7 * day_ms ≤ 700000000)
    × ((t : ℕ)
        → e ≤ t
        → t < e + 7 * day_ms
        → ((subscription_state 7 on_trial t).severity ≡ warning)
          × ((subscription_state 7 on_trial t).bot_allowed ≡ true))
subscription_state-warned_example =
    subscription_state-warned 7 700000000 on_trial (λ e. cc)
      (unfold subscription_state trial_state graced_state in refl)
