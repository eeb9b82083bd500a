-- ===== src/Monitoring/Cooldown.antt =====
-- The alert on the tokens of a day (apps/monitoring/alerts.py): when it fires.
use smart_stock_ai.Prelude.{
  ℕ, ◌+◌, ◌-◌, ◌*◌, ◌/◌, ◌≤◌, Bool, true, false, not, ◌&&◌, Option, none, some, List, [], ◌∷◌, ◌≡◌,
  refl, arith, inl, inr, Bool-cases, if◌then◌else◌, ltb, All, ◌↔◌,
}
use smart_stock_ai.Monitoring.{RuleName, daily_token_spend_cap, AlertRule, AlertEvent, Monitor}
use smart_stock_ai.Monitoring.Evaluation.{
  is_firing_for, newer_event, last_firing, cooling, fire_alert, evaluate_rule, with_threshold,
  rule_or, token_defaults, daily_total, evaluate_token_spend,
}
use smart_stock_ai.Monitoring.Firing.{
  firing_count, IsValid, Counted, fire_alert-Fires, Fires-Counted, resolve-Counted,
}

-- Every firing event of the rule is at least as old as the cooldown.
abbrev pub IsCooled : RuleName → AlertRule → ℕ → List AlertEvent → Type 0
IsCooled rule r now es =
    All (λ e. is_firing_for rule e ≡ true → e.created_at + 60 * r.cooldown_minutes ≤ now) es

cooling-newer_event :
    (r : AlertRule) (now : ℕ) (x : AlertEvent) (o : Option AlertEvent)
    → (cooling r now (some (newer_event x o)) ≡ false)
      ↔ ((x.created_at + 60 * r.cooldown_minutes ≤ now) × (cooling r now o ≡ false))
cooling-newer_event r now x none = ground arith
cooling-newer_event r now x (some e) = ground arith

cooling_iff :
    (rule : RuleName) (r : AlertRule) (now : ℕ) (es : List AlertEvent)
    → (cooling r now (last_firing rule es) ≡ false) ↔ IsCooled rule r now es
cooling_iff rule r now [] = (λ h. tt, λ h. refl)
cooling_iff rule r now (x ∷ xs) =
    let rest = cooling_iff rule r now xs in
    let both = cooling-newer_event r now x (last_firing rule xs) in
    elim (Bool-cases (is_firing_for rule x)) [
      | inl firing ↦ (
        λ h. let (here, later) = both.0 (rw firing at h) in (λ f. here, rest.0 later),
        λ h. rw firing (both.1 (h.0 firing, rest.1 h.1)),
      )
      | inr other ↦ (λ h. (λ f. cc (f, other), rest.0 (rw other at h)), λ h. rw other (rest.1 h.1))
    ]

-- The rule as an evaluation leaves it, and whether the budget is exceeded.
abbrev pub token_rule_of : Monitor → AlertRule
token_rule_of m = with_threshold m.daily_token_budget_alert (rule_or token_defaults m.token_rule)

abbrev pub exceeds_budget : Monitor → Bool
exceeds_budget m = ltb m.daily_token_budget_alert (daily_total (m.now / 86400) m.usage)

-- The rule is enabled, the budget is exceeded, and every firing event of the rule is old enough.
abbrev pub IsDue : Monitor → Type 0
IsDue m =
    ((token_rule_of m).enabled ≡ true)
    × (exceeds_budget m ≡ true)
    × IsCooled daily_token_spend_cap (token_rule_of m) m.now m.events

-- What becomes of the number of firing events.
abbrev pub spend_count : Bool → Bool → Bool → ℕ → ℕ
spend_count fired enabled exceeds n =
    if fired then n + 1 else if enabled && not exceeds then n - 1 else n

evaluate_rule-Counted :
    (r : AlertRule) (exceeds : Bool) (m : Monitor)
    → IsValid m
    → let out = evaluate_rule daily_token_spend_cap r exceeds m in
      ((out.0 ≡ true)
        ↔ ((r.enabled ≡ true) × (exceeds ≡ true) × IsCooled daily_token_spend_cap r m.now m.events))
      × Counted daily_token_spend_cap
          (spend_count out.0 r.enabled exceeds (firing_count daily_token_spend_cap m.events))
          m
          out.1
unfolding evaluate_rule
evaluate_rule-Counted r exceeds m v = elim (Bool-cases r.enabled) [
  | inr disabled ↦ rw disabled ((λ h. cc h, λ h. cc h.0), (v, refl, λ other n. refl))
  | inl enabled ↦ rw enabled (elim (Bool-cases exceeds) [
    | inr fine ↦ rw fine ((λ h. cc h, λ h. cc h.1), resolve-Counted daily_token_spend_cap m v)
    | inl over ↦
        let cooled = cooling_iff daily_token_spend_cap r m.now m.events in
        rw over (elim (Bool-cases (cooling r m.now (last_firing daily_token_spend_cap m.events))) [
          | inl waits ↦
              rw waits ((λ h. cc h, λ h. cc (waits, cooled.1 h.2)), (v, refl, λ other n. refl))
          | inr free ↦ rw free (
            (λ h. (refl, refl, cooled.0 free), λ h. refl),
            Fires-Counted daily_token_spend_cap m (fire_alert daily_token_spend_cap m) v
                (fire_alert-Fires daily_token_spend_cap m),
          )
        ])
  ])
]

-- If the keys of the events are distinct and below the next key, an evaluation of the day's
-- tokens fires exactly if the rule is enabled, the budget is exceeded, and every firing event of
-- the rule is at least as old as the cooldown. The rule then has one more firing event; it has
-- one less, if any, if it is enabled and the budget is kept, and else as many as before.
pub evaluate_token_spend-Counted :
    (m : Monitor)
    → IsValid m
    → ((evaluate_token_spend m).0 ≡ true ↔ IsDue m)
      × Counted daily_token_spend_cap
          (spend_count
            (evaluate_token_spend m).0
            (token_rule_of m).enabled
            (exceeds_budget m)
            (firing_count daily_token_spend_cap m.events))
          m
          (evaluate_token_spend m).1
unfolding evaluate_token_spend
evaluate_token_spend-Counted m v =
    evaluate_rule-Counted (token_rule_of m) (exceeds_budget m)
      (record m { token_rule = some (token_rule_of m) }) v
