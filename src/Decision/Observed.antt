-- ===== src/Decision/Observed.antt =====
-- What the decision agent (ai/agents/decision_agent.py) has observed when it decides on a SKU: the
-- retries of `_run_tool`, and the observations of `_observe_sku`.
use smart_stock_ai.Prelude.{
  ℕ, zero, suc, ◌+◌, ◌<◌, ◌≤◌, Bool, true, false, Option, none, some, ◌≡◌, ◌↔◌, inl, inr, refl,
  arith, Bool-cases, if◌then◌else◌, String,
}
use smart_stock_ai.Prelude.Action.{Action, Result, ok, err, >>=-pure}
use smart_stock_ai.Orders.Service.{get_open_po_status_by_sku}
use smart_stock_ai.Inventory.Decisions.{StockData, get_decision_stock_data_by_sku}
use smart_stock_ai.Forecasting.{Store, on_db}
use smart_stock_ai.Forecasting.Service.{ForecastData, get_decision_forecast_data_by_sku}
use smart_stock_ai.Decision.Tools.{
  Observation, stock_level, ToolCall, stock_level_read, forecast_read, po_status_check,
  run_sku_tool, attempts, or_next, run_tool, Observations, nothing_observed, observe,
  observe_result, days_or_seven,
}
use smart_stock_ai.Decision.Agent.{
  Dialogue, finishes, fails, calls, aim, Observed, require_all, converse, observe_sku,
}

-- Some round from `i` on, of `n`, reaches the database.
abbrev pub Reached : ℕ → ℕ → (ℕ → Bool) → Type 0
Reached n i outage = (j : ℕ) × (i ≤ j) × (j < i + n) × (outage j ≡ false)

later_round : (n i : ℕ) (outage : ℕ → Bool) → Reached n (suc i) outage → Reached (suc n) i outage
later_round n i outage (j, l, u, e) = (j, omega arith, omega arith, e)

module _ {A : Type 0} where
  attempts_ok :
      (n i : ℕ) (outage : ℕ → Bool) (r : Result A) (a : A)
      → attempts n i outage r ≡ ok a
      → (r ≡ ok a) × Reached n i outage
  unfolding attempts
  attempts_ok zero i outage r a h = cc h
  attempts_ok (suc n) i outage r a h = by_round (outage i) refl r h (attempts_ok n (suc i) outage)
    where
      by_round :
          (b : Bool)
          → outage i ≡ b
          → (r : Result A)
          → (if b then attempts n (suc i) outage r else or_next r (attempts n (suc i) outage r))
            ≡ ok a
          → ((r : Result A) (a : A)
              → attempts n (suc i) outage r ≡ ok a
              → (r ≡ ok a) × Reached n (suc i) outage)
          → (r ≡ ok a) × Reached (suc n) i outage
      by_round true e r h again =
          let (known, reached) = again r a h in (known, later_round n i outage reached)
      by_round false e (ok x) h again = (h, (i, omega arith, omega arith, e))
      by_round false e (err x) h again = cc ((again (err x) a h).0)

  attempts-Reached :
      (n i : ℕ) (outage : ℕ → Bool) (a : A) → Reached n i outage → attempts n i outage (ok a) ≡ ok a
  unfolding attempts
  attempts-Reached zero i outage a (j, l, u, e) = absurd (omega arith)
  attempts-Reached (suc n) i outage a (j, l, u, e) = elim (Bool-cases (outage i)) [
    | inl down ↦
        rw down (attempts-Reached n (suc i) outage a (j, later i j outage down e l, omega arith, e))
    | inr up ↦ rw up refl
  ]
    where
      later : (i j : ℕ) (outage : ℕ → Bool) → outage i ≡ true → outage j ≡ false → i ≤ j → suc i ≤ j
      later i j outage d e l = grind arith

  -- A tool of `_run_tool` returns a value exactly if the tool returns it from the store and one of
  -- the `tool_retries + 1` rounds reaches the database.
  pub run_tool_lem :
      (tool_retries : ℕ) (outage : ℕ → Bool) (tool : Action Store A) (w : Store) (a : A)
      → (run_tool tool_retries outage tool w ≡ ok a)
        ↔ (((tool w).0 ≡ ok a) × Reached (tool_retries + 1) 0 outage)
  unfolding run_tool
  run_tool_lem n outage tool w a = (
    λ h. attempts_ok (n + 1) 0 outage (tool w).0 a h,
    λ (e, reached). rw e (attempts-Reached (n + 1) 0 outage a reached),
  )

module _ (sku : ℕ) (w : Store) where
  -- What the tools return for the SKU.
  abbrev SeesStock : Option StockData → Type 0
  SeesStock none = Unit
  SeesStock (some s) = (get_decision_stock_data_by_sku sku w.db).0 ≡ ok s

  abbrev SeesForecast : Option ForecastData → Type 0
  SeesForecast none = Unit
  SeesForecast (some f) = (days : ℕ) × ((get_decision_forecast_data_by_sku sku days w).0 ≡ ok f)

  abbrev SeesStatus : Option (Bool × Option ℕ) → Type 0
  SeesStatus none = Unit
  SeesStatus (some p) = p ≡ get_open_po_status_by_sku sku w.db

  abbrev Sees : Observations → Type 0
  Sees o = SeesStock o.stock × SeesForecast o.forecast × SeesStatus o.po_status

  -- What the agent has observed of the SKU when it decides.
  abbrev pub SeesAll : Observed → Type 0
  SeesAll o =
      ((get_decision_stock_data_by_sku sku w.db).0 ≡ ok o.stock)
      × ((days : ℕ) × ((get_decision_forecast_data_by_sku sku days w).0 ≡ ok o.forecast))
      × (o.po_status ≡ get_open_po_status_by_sku sku w.db)

  -- An output of a tool is one of the SKU, whichever the model names.
  abbrev Answers : Observation → Type 0
  Answers (stock_level s) = (get_decision_stock_data_by_sku sku w.db).0 ≡ ok s
  Answers (Observation.forecast f) =
      (days : ℕ) × ((get_decision_forecast_data_by_sku sku days w).0 ≡ ok f)
  Answers (Observation.po_status p) = p ≡ get_open_po_status_by_sku sku w.db

  run_sku_tool-Answers :
      (call : ToolCall) (x : Observation) → (run_sku_tool (aim sku call) w).0 ≡ ok x → Answers x
  unfolding run_sku_tool
  run_sku_tool-Answers (stock_level_read named) x h =
      let (s, e, k) = >>=-pure (on_db (get_decision_stock_data_by_sku sku)) stock_level w h in
      rw (← k) e
  run_sku_tool-Answers (forecast_read named days) x h =
      let (f, e, k) =
        (>>=-pure (get_decision_forecast_data_by_sku sku (days_or_seven days)) Observation.forecast
          w h) in
      rw (← k) (days_or_seven days, e)
  run_sku_tool-Answers (po_status_check named) x h = ground (arith, h)

  observe-Sees : (x : Observation) (o : Observations) → Answers x → Sees o → Sees (observe x o)
  observe-Sees (stock_level s) o a h = (a, h.1, h.2)
  observe-Sees (Observation.forecast f) o a h = (h.0, a, h.2)
  observe-Sees (Observation.po_status p) o a h = (h.0, h.1, a)

  observe_result-Sees :
      (call : ToolCall) (outage : ℕ → Bool) (tool_retries : ℕ) (o : Observations)
      → Sees o
      → Sees (observe_result (run_tool tool_retries outage (run_sku_tool (aim sku call)) w) o)
  observe_result-Sees call outage n o h =
      by_result (run_tool n outage (run_sku_tool (aim sku call)) w) refl
    where
      by_result :
          (r : Result Observation)
          → run_tool n outage (run_sku_tool (aim sku call)) w ≡ r
          → Sees (observe_result r o)
      by_result (ok x) e =
          let known = (run_tool_lem n outage (run_sku_tool (aim sku call)) w x).0 e in
          observe-Sees x o (run_sku_tool-Answers call x known.0) h
      by_result (err x) e = h

  require_all-SeesAll :
      (s : Option StockData) (f : Option ForecastData) (p : Option (Bool × Option ℕ))
      (answer : String) (seen : Observed)
      → SeesStock s
      → SeesForecast f
      → SeesStatus p
      → require_all s f p answer ≡ ok seen
      → SeesAll seen
  require_all-SeesAll (some s) (some f) (some p) answer seen a b c e = ground (arith, a, b, c)
  require_all-SeesAll (some s) (some f) none answer seen a b c e = cc e
  require_all-SeesAll (some s) none p answer seen a b c e = cc e
  require_all-SeesAll none f p answer seen a b c e = cc e

  module _ (tool_retries : ℕ) where
    converse-SeesAll :
        (dialogue : Dialogue) (o : Observations) (seen : Observed)
        → Sees o
        → converse tool_retries (λ call. run_sku_tool (aim sku call)) dialogue o w ≡ ok seen
        → SeesAll seen
    unfolding converse
    converse-SeesAll (finishes answer) o seen h e =
        require_all-SeesAll o.stock o.forecast o.po_status answer seen h.0 h.1 h.2 e
    converse-SeesAll fails o seen h e = cc e
    converse-SeesAll (calls call outage next) o seen h e =
        let tool = run_sku_tool (aim sku call) in
        let r = run_tool tool_retries outage tool w in
        converse-SeesAll (next r) (observe_result r o) seen
          (observe_result-Sees call outage tool_retries o h) e

    -- Whatever tools the model calls, for whatever SKU, what is observed in the end is of this one.
    pub observe_sku-SeesAll :
        (dialogue : Dialogue) (seen : Observed)
        → observe_sku tool_retries sku dialogue w ≡ ok seen
        → SeesAll seen
    unfolding observe_sku
    observe_sku-SeesAll dialogue seen e =
        converse-SeesAll dialogue nothing_observed seen (tt, tt, tt) e
