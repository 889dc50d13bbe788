-- ===== src/Subscription.antt =====
-- src/clubs/lib/subscription.ts: what a club may do, from its subscription and the time. Instants
-- are milliseconds; the days of grace are an argument (SUBSCRIPTION_GRACE_DAYS).
pub mod Decay
pub mod Tests
use padel_bot_api.Prelude.{
  ℕ, ◌+◌, ◌-◌, ◌*◌, ◌/◌, Bool, true, false, Option, none, some, ltb, if◌then◌else◌,
}

pub data SubscriptionStatus : Type 0 where
  trial active past_due cancelled : SubscriptionStatus

pub record SubscriptionFields : Type 0 where
  pub status : SubscriptionStatus
  pub trial_ends_at : Option ℕ
  pub current_period_end : Option ℕ

pub data Severity : Type 0 where
  fine trial_running warning blocked : Severity

pub record SubscriptionState : Type 0 where
  pub severity : Severity
  pub bot_allowed : Bool
  pub days_left : Option ℕ

abbrev pub day_ms : ℕ
day_ms = 86400000

-- `Math.max(0, Math.ceil((d - now) / DAY_MS))`
abbrev days_until : ℕ → ℕ → ℕ
days_until d now = (d - now + 86399999) / 86400000

unfoldable pub graced_state : ℕ → ℕ → ℕ → SubscriptionState
graced_state grace_days phase_end now =
    let grace_end = phase_end + grace_days * day_ms in
    if ltb now grace_end
    then record {
      severity = warning;
      bot_allowed = true;
      days_left = some (days_until grace_end now);
    }
    else record { severity = blocked; bot_allowed = false; days_left = none }

abbrev pub period_severity : SubscriptionStatus → Severity
period_severity past_due = warning
period_severity trial = fine
period_severity active = fine
period_severity cancelled = fine

unfoldable pub trial_state : ℕ → Option ℕ → ℕ → SubscriptionState
trial_state grace_days none now = record {
  severity = trial_running;
  bot_allowed = true;
  days_left = none;
}
trial_state grace_days (some e) now =
    if ltb now e
    then record {
      severity = trial_running;
      bot_allowed = true;
      days_left = some (days_until e now);
    }
    else graced_state grace_days e now

unfoldable pub period_state : ℕ → SubscriptionStatus → Option ℕ → ℕ → SubscriptionState
period_state grace_days status none now = record {
  severity = period_severity status;
  bot_allowed = true;
  days_left = none;
}
period_state grace_days status (some e) now =
    if ltb now e
    then record { severity = period_severity status; bot_allowed = true; days_left = none }
    else graced_state grace_days e now

abbrev pub state_for : ℕ → SubscriptionStatus → SubscriptionFields → ℕ → SubscriptionState
state_for grace_days cancelled club now = record {
  severity = blocked;
  bot_allowed = false;
  days_left = none;
}
state_for grace_days trial club now = trial_state grace_days club.trial_ends_at now
state_for grace_days active club now = period_state grace_days active club.current_period_end now
state_for grace_days past_due club now =
    period_state grace_days past_due club.current_period_end now

unfoldable pub subscription_state : ℕ → SubscriptionFields → ℕ → SubscriptionState
subscription_state grace_days club now = state_for grace_days club.status club now
