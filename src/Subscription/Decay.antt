-- ===== src/Subscription/Decay.antt =====
-- The bot is never cut without a warning.
use padel_bot_api.Prelude.{
  ℕ, ◌+◌, ◌*◌, ◌≤◌, ◌<◌, ◌≡◌, refl, ◌≢◌, inl, inr, true, false, Option, none, some, arith,
  Option-cases,
}
use padel_bot_api.Subscription.{
  SubscriptionStatus, SubscriptionFields, subscription_state, trial_state, period_state,
  graced_state, trial, active, past_due, cancelled, day_ms, warning, state_for,
}

-- The end of the phase that a club is in, if it has one.
abbrev pub end_for : SubscriptionStatus → SubscriptionFields → Option ℕ
end_for trial c = c.trial_ends_at
end_for active c = c.current_period_end
end_for past_due c = c.current_period_end
end_for cancelled c = none

-- A club's bot that is allowed at one time was allowed at all times before.
pub subscription_state-earlier :
    (grace_days now later : ℕ) (club : SubscriptionFields)
    → now ≤ later
    → (subscription_state grace_days club later).bot_allowed ≡ true
    → (subscription_state grace_days club now).bot_allowed ≡ true
unfolding subscription_state trial_state period_state graced_state
subscription_state-earlier grace_days now later club h allowed = earlier club.status allowed
  where
    ends :
        (s : SubscriptionStatus) (o : Option ℕ)
        → (period_state grace_days s o later).bot_allowed ≡ true
        → (period_state grace_days s o now).bot_allowed ≡ true
    ends s none k = refl
    ends s (some e) k = ground arith

    trials :
        (o : Option ℕ)
        → (trial_state grace_days o later).bot_allowed ≡ true
        → (trial_state grace_days o now).bot_allowed ≡ true
    trials none k = refl
    trials (some e) k = ground arith

    earlier :
        (s : SubscriptionStatus)
        → (state_for grace_days s club later).bot_allowed ≡ true
        → (state_for grace_days s club now).bot_allowed ≡ true
    earlier trial k = trials club.trial_ends_at k
    earlier active k = ends active club.current_period_end k
    earlier past_due k = ends past_due club.current_period_end k
    earlier cancelled k = k

-- A club that did not cancel and whose bot is blocked has had its whole time of grace: its phase
-- ended that many days ago or more, and at every time between the end and the end of the grace the
-- bot was allowed, with a warning.
pub subscription_state-warned :
    (grace_days now : ℕ) (club : SubscriptionFields)
    → club.status ≢ SubscriptionStatus.cancelled
    → (subscription_state grace_days club now).bot_allowed ≡ false
    → (e : ℕ) × (end_for club.status club ≡ some e)
      × (e + grace_days * day_ms ≤ now)
      × ((t : ℕ)
          → e ≤ t
          → t < e + grace_days * day_ms
          → ((subscription_state grace_days club t).severity ≡ warning)
            × ((subscription_state grace_days club t).bot_allowed ≡ true))
unfolding subscription_state trial_state period_state graced_state
subscription_state-warned grace_days now club differ blocked_now =
    warned club.status differ blocked_now
  where
    warned :
        (s : SubscriptionStatus)
        → s ≢ SubscriptionStatus.cancelled
        → (state_for grace_days s club now).bot_allowed ≡ false
        → (e : ℕ) × (end_for s club ≡ some e)
          × (e + grace_days * day_ms ≤ now)
          × ((t : ℕ)
              → e ≤ t
              → t < e + grace_days * day_ms
              → ((state_for grace_days s club t).severity ≡ warning)
                × ((state_for grace_days s club t).bot_allowed ≡ true))
    warned trial d k = elim (Option-cases club.trial_ends_at) [
      | inl o ↦ absurd (ground arith)
      | inr (e, o) ↦ (e, o, ground arith, λ t l r. (ground arith, ground arith))
    ]
    warned active d k = elim (Option-cases club.current_period_end) [
      | inl o ↦ absurd (ground arith)
      | inr (e, o) ↦ (e, o, ground arith, λ t l r. (ground arith, ground arith))
    ]
    warned past_due d k = elim (Option-cases club.current_period_end) [
      | inl o ↦ absurd (ground arith)
      | inr (e, o) ↦ (e, o, ground arith, λ t l r. (ground arith, ground arith))
    ]
    warned cancelled d k = absurd (d refl)
