-- ===== src/Monitoring/Firing.antt =====
-- How many events of a rule are firing, before and after an evaluation (apps/monitoring/alerts.py).
use smart_stock_ai.Prelude.{
  ℕ, ◌+◌, ◌-◌, true, false, none, some, List, [], ◌∷◌, ◌++◌, ◌≡◌, refl, ◌∙◌, arith, inl, inr,
  Option-cases, if◌then◌else◌, length, select,
}
use smart_stock_ai.Prelude.Table.{
  find, update, IsBelow, IsBelow-append, find_fresh, IsBelow-find, IsBelow-update, update_const,
}
use smart_stock_ai.Prelude.Keys.{IsDistinct, IsDistinct-update, IsDistinct-append}
use smart_stock_ai.Monitoring.{RuleName, AlertStatus, AlertEvent, Monitor, event_key}
use smart_stock_ai.Monitoring.Evaluation.{
  same_rule, is_firing_for, last_firing, resolved_event, resolve_event, fired_event, fire_alert,
  resolve_if_was_firing, send_alert_email, send_dashboard_notification,
}

abbrev pub firing_count : RuleName → List AlertEvent → ℕ
firing_count rule es = length (select (is_firing_for rule) es)

-- The keys of the events are distinct and below the next key.
abbrev pub IsValid : Monitor → Type 0
IsValid m = IsDistinct event_key m.events × IsBelow event_key m.next_event m.events

last_firing-found :
    (rule : RuleName) (es : List AlertEvent) (e : AlertEvent)
    → IsDistinct event_key es
    → last_firing rule es ≡ some e
    → (find event_key e.id es ≡ some e) × (is_firing_for rule e ≡ true)
last_firing-found rule [] e d h = cc h
last_firing-found rule (x ∷ xs) e d h = elim (Option-cases (last_firing rule xs)) [
  | inl nothing ↦ ground (arith, h, nothing)
  | inr (r, found) ↦ ground (arith, h, found, last_firing-found rule xs r d.1 found)
]

last_firing-none :
    (rule : RuleName) (es : List AlertEvent) → last_firing rule es ≡ none → firing_count rule es ≡ 0
last_firing-none rule [] h = refl
last_firing-none rule (x ∷ xs) h = ground (arith, last_firing-none rule xs)

count-append :
    (rule : RuleName) (es : List AlertEvent) (e : AlertEvent)
    → firing_count rule (es ++ e ∷ [])
      ≡ firing_count rule es + (if is_firing_for rule e then 1 else 0)
count-append rule [] e = ground arith
count-append rule (x ∷ xs) e = ground (arith, count-append rule xs e)

count-resolved :
    (rule : RuleName) (now : ℕ) (es : List AlertEvent) (e : AlertEvent)
    → find event_key e.id es ≡ some e
    → is_firing_for rule e ≡ true
    → firing_count rule (update event_key e.id (resolved_event now) es) + 1 ≡ firing_count rule es
count-resolved rule now [] e h f = cc h
count-resolved rule now (x ∷ xs) e h f = ground (arith, h, f, count-resolved rule now xs e)

same_rule-eq : (r s : RuleName) → same_rule r s ≡ true → r ≡ s
same_rule-eq RuleName.daily_token_spend_cap RuleName.daily_token_spend_cap h = refl
same_rule-eq RuleName.daily_token_spend_cap RuleName.agent_success_rate_alert h = cc h
same_rule-eq RuleName.agent_success_rate_alert RuleName.daily_token_spend_cap h = cc h
same_rule-eq RuleName.agent_success_rate_alert RuleName.agent_success_rate_alert h = refl

-- Another rule has as many firing events when an event of this one is resolved.
count-untouched :
    (rule other : RuleName) (now : ℕ) (es : List AlertEvent) (e : AlertEvent)
    → find event_key e.id es ≡ some e
    → is_firing_for rule e ≡ true
    → same_rule rule other ≡ false
    → firing_count other (update event_key e.id (resolved_event now) es) ≡ firing_count other es
count-untouched rule other now [] e h f n = refl
count-untouched rule other now (x ∷ xs) e h f n =
    ground (arith, h, f, n, same_rule-eq e.rule rule, count-untouched rule other now xs e)

same_rule_self : (rule : RuleName) → same_rule rule rule ≡ true
same_rule_self RuleName.daily_token_spend_cap = refl
same_rule_self RuleName.agent_success_rate_alert = refl

-- The event that `fire_alert` adds.
abbrev pub Fires : RuleName → Monitor → Monitor → Type 0
Fires rule m m' =
    (e : AlertEvent) × (e.id ≡ m.next_event)
    × (e.rule ≡ rule)
    × (e.status ≡ AlertStatus.firing)
    × (e.created_at ≡ m.now)
    × (m'.events ≡ m.events ++ e ∷ [])
    × (m'.next_event ≡ m.next_event + 1)

pub fire_alert-Fires : (rule : RuleName) (m : Monitor) → Fires rule m (fire_alert rule m)
unfolding fire_alert send_alert_email send_dashboard_notification
fire_alert-Fires rule m =
    let (email_sent, mailed) = send_alert_email m.next_event m in
    let (notified, shown) = send_dashboard_notification m.next_event mailed in
    (fired_event rule email_sent notified m, refl, refl, refl, refl, refl, ground arith)

-- An evaluation that leaves valid events, and changes the number of one rule's firing events.
abbrev pub Counted : RuleName → ℕ → Monitor → Monitor → Type 0
Counted rule n m m' =
    IsValid m'
    × (firing_count rule m'.events ≡ n)
    × ((other : RuleName)
        → same_rule rule other ≡ false
        → firing_count other m'.events ≡ firing_count other m.events)

pub Fires-Counted :
    (rule : RuleName) (m m' : Monitor)
    → IsValid m
    → Fires rule m m'
    → Counted rule (firing_count rule m.events + 1) m m'
Fires-Counted rule m m' v (e, key, name, status, time, events, next) =
    let mine : is_firing_for rule e ≡ true = rw (name, status, same_rule_self rule) refl in
    rw (events, next)
      (
        (
          IsDistinct-append event_key e m.events
              (rw key (find_fresh event_key m.next_event m.events v.1)) v.0,
          IsBelow-append event_key m.next_event e m.events key v.1,
        ),
        count-append rule m.events e ∙ rw mine refl,
        λ other n.
            let theirs : is_firing_for other e ≡ false = rw (name, n) refl in
            count-append other m.events e ∙ rw theirs (omega arith),
      )

pub resolve-Counted :
    (rule : RuleName) (m : Monitor)
    → IsValid m
    → Counted rule (firing_count rule m.events - 1) m (resolve_if_was_firing rule m)
unfolding resolve_if_was_firing send_dashboard_notification
resolve-Counted rule m v = elim (Option-cases (last_firing rule m.events)) [
  | inl nothing ↦
      rw (resolve_event, nothing)
        (v, ground (arith, last_firing-none rule m.events nothing), λ other n. refl)
  | inr (e, found) ↦
      let (there, mine) = last_firing-found rule m.events e v.0 found in
      let counted = count-resolved rule m.now m.events e there mine in
      let events : (resolve_if_was_firing rule m).events
          ≡ update event_key e.id (resolved_event m.now) m.events =
        ground (arith, found) in
      let next : (resolve_if_was_firing rule m).next_event ≡ m.next_event = ground (arith, found) in
      let once = update_const event_key e.id (resolved_event m.now) m.events {r = e} there in
      rw (events, next)
        (
          (
            rw once (
                IsDistinct-update event_key e.id (resolved_event m.now e) m.events {x = e} refl
                  there v.0),
            rw once (
                IsBelow-update event_key m.next_event e.id (resolved_event m.now e) m.events
                  (IsBelow-find event_key m.next_event e.id m.events {r = e} v.1 there) v.1),
          ),
          omega arith,
          λ other n. count-untouched rule other m.now m.events e there mine n,
        )
]
