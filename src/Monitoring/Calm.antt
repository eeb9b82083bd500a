-- ===== src/Monitoring/Calm.antt =====
-- The alert on the agents' success rate (apps/monitoring/alerts.py): what an evaluation does to its
-- firing events, and how long they take to be resolved.
use smart_stock_ai.Prelude.{
  ℕ, zero, suc, ◌+◌, ◌-◌, ◌≤◌, Bool, true, false, not, some, List, [], ◌∷◌, ◌≡◌, refl, ◌∙◌, arith,
  inl, inr, Bool-cases, if◌then◌else◌,
}
use smart_stock_ai.Monitoring.{agent_success_rate_alert, AgentRunLog, Monitor}
use smart_stock_ai.Monitoring.Evaluation.{
  fire_alert, judge_runs, is_below, recent_runs, agent_rule_of, evaluate_agent_success_rate,
}
use smart_stock_ai.Monitoring.Firing.{
  firing_count, IsValid, Counted, fire_alert-Fires, Fires-Counted, resolve-Counted,
}

-- The runs that an evaluation looks at fall short; there are some, and they are enough.
abbrev pub falls_short : ℕ → List AgentRunLog → Bool
falls_short threshold [] = false
falls_short threshold (run ∷ runs) = is_below threshold (run ∷ runs)

abbrev pub suffices : ℕ → List AgentRunLog → Bool
suffices threshold [] = false
suffices threshold (run ∷ runs) = not (is_below threshold (run ∷ runs))

abbrev pub is_bad : Monitor → Bool
is_bad m = falls_short m.agent_success_rate_minimum (recent_runs (agent_rule_of m) m)

abbrev pub is_calm : Monitor → Bool
is_calm m = suffices m.agent_success_rate_minimum (recent_runs (agent_rule_of m) m)

abbrev pub expected : Bool → Bool → ℕ → ℕ
expected bad calm n = if bad then n + 1 else if calm then n - 1 else n

judge-Counted :
    (threshold : ℕ) (runs : List AgentRunLog) (m : Monitor)
    → IsValid m
    → ((judge_runs threshold runs m).0 ≡ falls_short threshold runs)
      × Counted agent_success_rate_alert
          (expected
            (falls_short threshold runs)
            (suffices threshold runs)
            (firing_count agent_success_rate_alert m.events))
          m
          (judge_runs threshold runs m).1
judge-Counted threshold [] m v = (refl, (v, refl, λ other n. refl))
judge-Counted threshold (run ∷ runs) m v = elim (Bool-cases (is_below threshold (run ∷ runs))) [
  | inl low ↦ rw low (
    refl,
    Fires-Counted agent_success_rate_alert m (fire_alert agent_success_rate_alert m) v
        (fire_alert-Fires agent_success_rate_alert m),
  )
  | inr enough ↦ rw enough (refl, resolve-Counted agent_success_rate_alert m v)
]

-- If the keys of the events are distinct and below the next key, an evaluation of the success
-- rate fires exactly if there are recent runs and too few of them succeeded; then the rule has
-- one more firing event, also if it is disabled or has just fired. It has one less, if any, after
-- recent runs that were enough, and as many as before if there are none. The other rule has as
-- many as before, and the keys remain so.
pub evaluate_agent_success_rate-Counted :
    (m : Monitor)
    → IsValid m
    → ((evaluate_agent_success_rate m).0 ≡ is_bad m)
      × Counted agent_success_rate_alert
          (expected (is_bad m) (is_calm m) (firing_count agent_success_rate_alert m.events))
          m
          (evaluate_agent_success_rate m).1
unfolding evaluate_agent_success_rate
evaluate_agent_success_rate-Counted m v =
    judge-Counted m.agent_success_rate_minimum (recent_runs (agent_rule_of m) m)
      (record m { agent_rule = some (agent_rule_of m) }) v

-- Evaluations, before each of which the clock, the runs and the settings change in any way that
-- leaves it calm.
pub data CalmRun (m : Monitor) : ℕ → Monitor → Type 0 where
  start : CalmRun m zero m
  next :
      {n : ℕ} {m' : Monitor}
      → CalmRun m n m'
      → (k : Monitor) → k.events ≡ m'.events
      → k.next_event ≡ m'.next_event
      → is_calm k ≡ true
      → CalmRun m (suc n) (evaluate_agent_success_rate k).1

suffices-fine :
    (threshold : ℕ) (runs : List AgentRunLog)
    → suffices threshold runs ≡ true
    → falls_short threshold runs ≡ false
suffices-fine threshold [] h = refl
suffices-fine threshold (run ∷ runs) h = ground arith

CalmRun-Counted :
    {m m' : Monitor} {n : ℕ}
    → IsValid m
    → CalmRun m n m'
    → IsValid m'
      × (firing_count agent_success_rate_alert m'.events
          ≡ firing_count agent_success_rate_alert m.events - n)
CalmRun-Counted v start = (v, omega arith)
CalmRun-Counted {m} v (next {n} {m'} run k events keys calm) =
    let (v', counted) = CalmRun-Counted v run in
    let valid : IsValid k = rw (events, keys) v' in
    let (fired, (w, after, others)) = evaluate_agent_success_rate-Counted k valid in
    (
      w,
      after
          ∙ rw
              (
                suffices-fine k.agent_success_rate_minimum (recent_runs (agent_rule_of k) k) calm,
                calm,
                events,
                counted,
              )
              (omega arith),
    )

-- If the keys of the events are distinct and below the next key, as many evaluations of the
-- success rate with enough recent successes as the rule has firing events, or more, leave none of
-- them firing; the clock, the runs and the settings may change in between.
pub CalmRun-clear :
    {m m' : Monitor} {n : ℕ}
    → IsValid m
    → CalmRun m n m'
    → firing_count agent_success_rate_alert m.events ≤ n
    → firing_count agent_success_rate_alert m'.events ≡ 0
CalmRun-clear v run enough = let (w, counted) = CalmRun-Counted v run in omega arith
