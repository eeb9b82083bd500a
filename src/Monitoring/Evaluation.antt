-- ===== src/Monitoring/Evaluation.antt =====
-- The evaluation of the alerts (apps/monitoring/alerts.py), with the notices that it sends
-- (apps/monitoring/notifications.py).
use smart_stock_ai.Prelude.{
  ℕ, ◌+◌, ◌*◌, ◌/◌, Bool, true, false, not, ◌&&◌, Option, none, some, List, [], ◌∷◌, ◌++◌,
  if◌then◌else◌, ◌==◌, ltb, leb, length, select,
}
use smart_stock_ai.Prelude.Table.{update}
use smart_stock_ai.Monitoring.{
  RuleName, daily_token_spend_cap, agent_success_rate_alert, AlertSeverity, AlertRule, AlertStatus,
  AlertEvent, TokenUsageLog, AgentRunLog, Monitor, event_key,
}

abbrev pub same_rule : RuleName → RuleName → Bool
same_rule daily_token_spend_cap daily_token_spend_cap = true
same_rule agent_success_rate_alert agent_success_rate_alert = true
same_rule _ _ = false

abbrev pub is_firing : AlertStatus → Bool
is_firing AlertStatus.firing = true
is_firing _ = false

abbrev pub is_firing_for : RuleName → AlertEvent → Bool
is_firing_for rule e = same_rule e.rule rule && is_firing e.status

abbrev pub newer_event : AlertEvent → Option AlertEvent → AlertEvent
newer_event e none = e
newer_event e (some other) = if ltb e.created_at other.created_at then other else e

-- `filter(rule=rule, status=FIRING).order_by('-created_at').first()`
abbrev pub last_firing : RuleName → List AlertEvent → Option AlertEvent
last_firing rule [] = none
last_firing rule (e ∷ es) =
    let rest = last_firing rule es in
    if is_firing_for rule e then some (newer_event e rest) else rest

-- `send_alert_email`
unfoldable pub send_alert_email : ℕ → Monitor → Bool × Monitor
send_alert_email event m =
    if leb (length m.recipients) 0
    then (false, m)
    else if m.broker_up
    then (true, record m { mail = m.mail ++ event ∷ [] })
    else (false, m)

-- `send_dashboard_notification`
unfoldable pub send_dashboard_notification : ℕ → Monitor → Bool × Monitor
send_dashboard_notification event m =
    if m.dashboard_up then (true, record m { banners = m.banners ++ event ∷ [] }) else (false, m)

abbrev pub fired_event : RuleName → Bool → Bool → Monitor → AlertEvent
fired_event rule email_sent dashboard_notified m = record {
  id = m.next_event;
  rule = rule;
  status = AlertStatus.firing;
  email_sent = email_sent;
  dashboard_notified = dashboard_notified;
  resolved_at = none;
  created_at = m.now;
}

-- `_fire_alert`: the event is written as it is after both notices.
unfoldable pub fire_alert : RuleName → Monitor → Monitor
unfolding send_alert_email send_dashboard_notification
fire_alert rule m =
    let (email_sent, mailed) = send_alert_email m.next_event m in
    let (dashboard_notified, shown) = send_dashboard_notification m.next_event mailed in
    record shown {
      events = m.events ++ fired_event rule email_sent dashboard_notified m ∷ [];
      next_event = m.next_event + 1;
    }

abbrev pub resolved_event : ℕ → AlertEvent → AlertEvent
resolved_event now e = record e { status = AlertStatus.resolved; resolved_at = some now }

abbrev pub resolve_event : Option AlertEvent → Monitor → Monitor
resolve_event none m = m
resolve_event (some e) m =
    let (dashboard_notified, shown) = send_dashboard_notification e.id m in
    record shown { events = update event_key e.id (resolved_event m.now) m.events }

-- `_resolve_if_was_firing`
unfoldable pub resolve_if_was_firing : RuleName → Monitor → Monitor
unfolding send_dashboard_notification
resolve_if_was_firing rule m = resolve_event (last_firing rule m.events) m

-- Whether the newest firing event keeps the rule from firing again.
abbrev pub cooling : AlertRule → ℕ → Option AlertEvent → Bool
cooling r now none = false
cooling r now (some e) = ltb now (e.created_at + 60 * r.cooldown_minutes)

-- `_evaluate_rule`; the Boolean says whether an event is returned.
unfoldable pub evaluate_rule : RuleName → AlertRule → Bool → Monitor → Bool × Monitor
unfolding fire_alert resolve_if_was_firing
evaluate_rule rule r exceeds m =
    if not r.enabled
    then (false, m)
    else if exceeds
    then (if cooling r m.now (last_firing rule m.events)
        then (false, m)
        else (true, fire_alert rule m))
    else (false, resolve_if_was_firing rule m)

abbrev pub token_defaults : AlertRule
token_defaults = record {
  severity = AlertSeverity.warning;
  threshold = 1000000;
  evaluation_window_minutes = 60;
  enabled = true;
  cooldown_minutes = 60;
}

abbrev pub agent_defaults : AlertRule
agent_defaults = record {
  severity = AlertSeverity.critical;
  threshold = 8000;
  evaluation_window_minutes = 30;
  enabled = true;
  cooldown_minutes = 15;
}

-- `get_or_create`, and the threshold of the settings written to the rule.
abbrev pub with_threshold : ℕ → AlertRule → AlertRule
with_threshold threshold r = record r { threshold = threshold }

abbrev pub rule_or : AlertRule → Option AlertRule → AlertRule
rule_or defaults none = defaults
rule_or defaults (some r) = r

-- The tokens of a day; a day has 86400 seconds.
unfoldable pub daily_total : ℕ → List TokenUsageLog → ℕ
daily_total day [] = 0
daily_total day (u ∷ us) = (if u.logged_at == day then u.total_tokens else 0) + daily_total day us

unfoldable pub evaluate_token_spend : Monitor → Bool × Monitor
evaluate_token_spend m =
    let threshold = m.daily_token_budget_alert in
    let r = with_threshold threshold (rule_or token_defaults m.token_rule) in
    evaluate_rule daily_token_spend_cap r (ltb threshold (daily_total (m.now / 86400) m.usage))
      (record m { token_rule = some r })

-- `created_at__gte=window_start`
abbrev pub in_window : ℕ → ℕ → AgentRunLog → Bool
in_window now minutes run = leb now (run.created_at + 60 * minutes)

abbrev pub recent_runs : AlertRule → Monitor → List AgentRunLog
recent_runs r m = select (in_window m.now r.evaluation_window_minutes) m.runs

abbrev pub successes : List AgentRunLog → ℕ
successes runs = length (select (λ run. run.success) runs)

-- `successes / total < threshold`
abbrev pub is_below : ℕ → List AgentRunLog → Bool
is_below threshold runs = ltb (10000 * successes runs) (threshold * length runs)

abbrev pub judge_runs : ℕ → List AgentRunLog → Monitor → Bool × Monitor
judge_runs threshold [] m = (false, m)
judge_runs threshold (run ∷ runs) m =
    if is_below threshold (run ∷ runs)
    then (true, fire_alert agent_success_rate_alert m)
    else (false, resolve_if_was_firing agent_success_rate_alert m)

abbrev pub agent_rule_of : Monitor → AlertRule
agent_rule_of m = with_threshold m.agent_success_rate_minimum (rule_or agent_defaults m.agent_rule)

unfoldable pub evaluate_agent_success_rate : Monitor → Bool × Monitor
evaluate_agent_success_rate m =
    judge_runs m.agent_success_rate_minimum (recent_runs (agent_rule_of m) m)
      (record m { agent_rule = some (agent_rule_of m) })

-- The two results, 'fired' or 'ok'.
unfoldable pub evaluate_all_alerts : Monitor → (Bool × Bool) × Monitor
evaluate_all_alerts m =
    let (tokens, after) = evaluate_token_spend m in
    let (agents, last) = evaluate_agent_success_rate after in ((tokens, agents), last)
