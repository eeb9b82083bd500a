-- ===== src/Decision/Tools.antt =====
-- The tools of the decision agent (ai/agents/tools/stock_level_read*.py, forecast_read*.py and
-- po_status_check*.py), the retries of `_run_tool`, and what the agent has observed.
use smart_stock_ai.Prelude.{ℕ, zero, suc, ◌+◌, Bool, Option, none, some, if◌then◌else◌, ◌==◌}
use smart_stock_ai.Prelude.Action.{Action, Result, ok, err, other_error, ◌>>=◌, gets, pure}
use smart_stock_ai.Orders.Service.{get_open_po_status, get_open_po_status_by_sku}
use smart_stock_ai.Inventory.Decisions.{
  StockData, get_decision_stock_data, get_decision_stock_data_by_sku,
}
use smart_stock_ai.Forecasting.{Store, on_db}
use smart_stock_ai.Forecasting.Service.{
  ForecastData, get_decision_forecast_data, get_decision_forecast_data_by_sku,
}

pub data Observation : Type 0 where
  stock_level : StockData → Observation
  forecast : ForecastData → Observation
  po_status : Bool × Option ℕ → Observation

-- A call that the model makes of a tool, with its arguments: a product or SKU, and a horizon.
pub data ToolCall : Type 0 where
  stock_level_read : ℕ → ToolCall
  forecast_read : ℕ → ℕ → ToolCall
  po_status_check : ℕ → ToolCall

-- `int(input.get('forecast_days') or 7)`
abbrev pub days_or_seven : ℕ → ℕ
days_or_seven days = if days == 0 then 7 else days

-- `run` of the three tools for a product.
unfoldable pub run_product_tool : ToolCall → Action Store Observation
run_product_tool (stock_level_read product) =
    on_db (get_decision_stock_data product) >>= λ s. pure (stock_level s)
run_product_tool (forecast_read product days) =
    get_decision_forecast_data product (days_or_seven days) >>= λ f. pure (forecast f)
run_product_tool (po_status_check product) = gets (λ w. po_status (get_open_po_status product w.db))

-- `run` of the three tools for a SKU.
unfoldable pub run_sku_tool : ToolCall → Action Store Observation
run_sku_tool (stock_level_read sku) =
    on_db (get_decision_stock_data_by_sku sku) >>= λ s. pure (stock_level s)
run_sku_tool (forecast_read sku days) =
    get_decision_forecast_data_by_sku sku (days_or_seven days) >>= λ f. pure (forecast f)
run_sku_tool (po_status_check sku) = gets (λ w. po_status (get_open_po_status_by_sku sku w.db))

abbrev pub or_next : {A : Type 0} → Result A → Result A → Result A
or_next (ok a) rest = ok a
or_next (err e) rest = rest

-- The rounds of `_run_tool` from round `i` on, `n` of them: one fails if the database cannot be
-- reached in it, or if the tool raises.
unfoldable pub attempts : {A : Type 0} → ℕ → ℕ → (ℕ → Bool) → Result A → Result A
attempts zero i outage r = err other_error
attempts (suc n) i outage r =
    let rest = attempts n (suc i) outage r in if outage i then rest else or_next r rest

-- `_run_tool`; the tools read the store and do not change it.
unfoldable pub run_tool : {A : Type 0} → ℕ → (ℕ → Bool) → Action Store A → Store → Result A
run_tool tool_retries outage tool w = attempts (tool_retries + 1) 0 outage (tool w).0

-- `observations`: the last output of each tool.
pub record Observations : Type 0 where
  pub stock : Option StockData
  pub forecast : Option ForecastData
  pub po_status : Option (Bool × Option ℕ)

abbrev pub nothing_observed : Observations
nothing_observed = record { stock = none; forecast = none; po_status = none }

abbrev pub observe : Observation → Observations → Observations
observe (stock_level s) o = record o { stock = some s }
observe (Observation.forecast f) o = record o { forecast = some f }
observe (Observation.po_status p) o = record o { po_status = some p }

-- An output is recorded only if the tool returns one.
abbrev pub observe_result : Result Observation → Observations → Observations
observe_result (ok x) o = observe x o
observe_result (err e) o = o
