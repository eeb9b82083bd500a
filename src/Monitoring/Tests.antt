-- ===== src/Monitoring/Tests.antt =====
-- A day with too many tokens, and half an hour in which most runs fail.
use smart_stock_ai.Prelude.{Bool, true, false, none, [], ◌∷◌, ◌≡◌, ◌↔◌, refl, arith}
use smart_stock_ai.Monitoring.{daily_token_spend_cap, agent_success_rate_alert, Monitor}
use smart_stock_ai.Monitoring.Evaluation.{
  send_alert_email, send_dashboard_notification, fire_alert, resolve_if_was_firing, evaluate_rule,
  daily_total, evaluate_token_spend, evaluate_agent_success_rate,
}
use smart_stock_ai.Monitoring.Firing.{firing_count, IsValid, Counted}
use smart_stock_ai.Monitoring.Calm.{
  is_bad, is_calm, expected, start, next, evaluate_agent_success_rate-Counted, CalmRun-clear,
}
use smart_stock_ai.Monitoring.Cooldown.{
  IsDue, spend_count, token_rule_of, exceeds_budget, evaluate_token_spend-Counted,
}

abbrev quiet : Monitor
quiet = record {
  token_rule = none;
  agent_rule = none;
  events = [];
  next_event = 1;
  usage = record { total_tokens = 1200; logged_at = 2 } ∷ [];
  runs = record { success = false; created_at = 199000 } ∷ [];
  now = 200000;
  daily_token_budget_alert = 1000;
  agent_success_rate_minimum = 8000;
  recipients = 7 ∷ [];
  broker_up = true;
  dashboard_up = true;
  mail = [];
  banners = [];
}

quiet-IsValid : IsValid quiet
quiet-IsValid = (tt, tt)

-- The alert on tokens waits for the end of its cooldown, the other one does not.
abbrev tokens_twice : Bool
tokens_twice = (evaluate_token_spend (evaluate_token_spend quiet).1).0

tokens_wait : tokens_twice ≡ false
unfolding evaluate_token_spend evaluate_rule fire_alert send_alert_email send_dashboard_notification
    daily_total
tokens_wait = refl

abbrev alarmed : Monitor
alarmed = (evaluate_agent_success_rate (evaluate_agent_success_rate quiet).1).1

agents_fire_twice : firing_count agent_success_rate_alert alarmed.events ≡ 2
unfolding evaluate_agent_success_rate fire_alert send_alert_email send_dashboard_notification
agents_fire_twice = refl

-- After one calm evaluation the older event still fires.
abbrev recovered : Monitor
recovered = record alarmed { runs = record { success = true; created_at = 199500 } ∷ [] }

one_left :
    firing_count agent_success_rate_alert (evaluate_agent_success_rate recovered).1.events ≡ 1
unfolding evaluate_agent_success_rate fire_alert resolve_if_was_firing send_alert_email
    send_dashboard_notification
one_left = refl

abbrev calm : Monitor
calm = record quiet { runs = record { success = true; created_at = 199500 } ∷ [] }

evaluate_agent_success_rate-Counted_example :
    ((evaluate_agent_success_rate quiet).0 ≡ is_bad quiet)
    × Counted agent_success_rate_alert
        (expected (is_bad quiet) (is_calm quiet) 0)
        quiet
        (evaluate_agent_success_rate quiet).1
evaluate_agent_success_rate-Counted_example =
    evaluate_agent_success_rate-Counted quiet quiet-IsValid

CalmRun-clear_example :
    firing_count agent_success_rate_alert (evaluate_agent_success_rate calm).1.events ≡ 0
CalmRun-clear_example =
    CalmRun-clear {m = calm} {n = 1} quiet-IsValid (next start calm refl refl refl) (omega arith)

evaluate_token_spend-Counted_example :
    ((evaluate_token_spend quiet).0 ≡ true ↔ IsDue quiet)
    × Counted daily_token_spend_cap
        (spend_count
          (evaluate_token_spend quiet).0
          (token_rule_of quiet).enabled
          (exceeds_budget quiet)
          0)
        quiet
        (evaluate_token_spend quiet).1
evaluate_token_spend-Counted_example = evaluate_token_spend-Counted quiet quiet-IsValid
