-- ===== src/Monitoring.antt =====
-- The alerts of the application (apps/monitoring/models.py, alerts.py, notifications.py): the rules,
-- the events, and the logs that the rules look at. Times are seconds; rates and their threshold are
-- ten-thousandths, compared exactly. Texts, the values of events and Langfuse are left out.
pub mod Evaluation
pub mod Firing
pub mod Calm
pub mod Cooldown
pub mod Tests
use smart_stock_ai.Prelude.{ℕ, Bool, true, false, Option, none, some, List}

-- The names of the two rules.
pub data RuleName : Type 0 where
  daily_token_spend_cap agent_success_rate_alert : RuleName

pub data AlertSeverity : Type 0 where
  info warning critical : AlertSeverity

pub record AlertRule : Type 0 where
  pub severity : AlertSeverity
  pub threshold : ℕ
  pub evaluation_window_minutes : ℕ
  pub enabled : Bool
  pub cooldown_minutes : ℕ

pub data AlertStatus : Type 0 where
  pending firing resolved : AlertStatus

pub record AlertEvent : Type 0 where
  pub id : ℕ
  pub rule : RuleName
  pub status : AlertStatus
  pub email_sent : Bool
  pub dashboard_notified : Bool
  pub resolved_at : Option ℕ
  pub created_at : ℕ

pub record TokenUsageLog : Type 0 where
  pub total_tokens : ℕ
  pub logged_at : ℕ

pub record AgentRunLog : Type 0 where
  pub success : Bool
  pub created_at : ℕ

-- The tables and the clock, the settings, the events that mail was queued for, and those that a banner
-- was made for. `broker_up` and `dashboard_up` say whether queueing mail and writing a banner with its
-- notice succeed.
pub record Monitor : Type 0 where
  pub token_rule : Option AlertRule
  pub agent_rule : Option AlertRule
  pub events : List AlertEvent
  pub next_event : ℕ
  pub usage : List TokenUsageLog
  pub runs : List AgentRunLog
  pub now : ℕ
  pub daily_token_budget_alert : ℕ
  pub agent_success_rate_minimum : ℕ
  pub recipients : List ℕ
  pub broker_up : Bool
  pub dashboard_up : Bool
  pub mail : List ℕ
  pub banners : List ℕ

abbrev pub event_key : AlertEvent → ℕ
event_key e = e.id
