-- ===== src/Decision/Agent.antt =====
-- DecisionAgent (ai/agents/decision_agent.py). The language model and the loop of the package
-- langchain are a dialogue: what it calls depends on what the calls returned. Traces, timings and the
-- monitoring task are left out.
use text.Mathlib.Text.{◌==◌ as str_eq}
use smart_stock_ai.Prelude.{
  ℕ, suc, Bool, not, ◌&&◌, Option, none, some, List, [], ◌∷◌, String, if◌then◌else◌, ◌==◌, any,
}
use smart_stock_ai.Prelude.Double.{Double, add_double, double_of_int}
use smart_stock_ai.Prelude.Int.{eqb_ℤ, pos, ℤ, ltb_ℤ}
use smart_stock_ai.Prelude.Action.{
  Action, Result, Error, ok, err, other_error, value_error, ◌>>=◌, pure, raise,
}
use smart_stock_ai.Inventory.Decisions.{StockData}
use smart_stock_ai.Forecasting.{ReorderFlag, Store}
use smart_stock_ai.Forecasting.Repository.{FlagData}
use smart_stock_ai.Forecasting.Service.{ForecastData, persist_reorder_flag}
use smart_stock_ai.Decision.Tools.{
  Observation, ToolCall, stock_level_read, forecast_read, po_status_check, run_product_tool,
  run_sku_tool, run_tool, Observations, nothing_observed, observe_result,
}

-- What `agent.invoke` does: it returns, raises, or calls a tool; each call comes with the rounds of
-- `_run_tool` in which the database cannot be reached.
pub data Dialogue : Type 0 where
  finishes : String → Dialogue
  fails : Dialogue
  calls : ToolCall → (ℕ → Bool) → (Result Observation → Dialogue) → Dialogue

-- `_target_sku_id` takes the place of the SKU that the model names.
abbrev pub aim : ℕ → ToolCall → ToolCall
aim sku (stock_level_read named) = stock_level_read sku
aim sku (forecast_read named days) = forecast_read sku days
aim sku (po_status_check named) = po_status_check sku

-- What the agent observed, and its answer.
pub record Observed : Type 0 where
  pub stock : StockData
  pub forecast : ForecastData
  pub po_status : Bool × Option ℕ
  pub agent_result : String

abbrev pub require_all :
    Option StockData → Option ForecastData → Option (Bool × Option ℕ) → String → Result Observed
require_all (some s) (some f) (some p) answer =
    ok (record { stock = s; forecast = f; po_status = p; agent_result = answer })
require_all (some s) (some f) none answer = err other_error
require_all (some s) none p answer = err other_error
require_all none f p answer = err other_error

-- `_require_observations` and `_require_sku_observations`
abbrev pub require_observations : Observations → String → Result Observed
require_observations o answer = require_all o.stock o.forecast o.po_status answer

pub record Decision : Type 0 where
  pub sku_id : Option ℕ
  pub product_id : ℕ
  pub sku_code : String
  pub quantity_available : ℤ
  pub reorder_point : ℤ
  pub lead_time_days : ℤ
  pub forecast_days : ℤ
  pub total_predicted_demand : Double
  pub safety_stock : ℤ
  pub threshold : Double
  pub has_open_po : Bool
  pub open_po_id : Option ℕ
  pub formula_requires_reorder : Bool
  pub reorder_required : Bool
  pub agent_result : String
  pub reasoning : String
  pub reorder_flag_id : Option ℕ

abbrev pub threshold_of : Observed → Double
threshold_of o = add_double o.forecast.total_predicted_demand (double_of_int o.stock.safety_stock)

abbrev pub formula_of : Observed → Bool
formula_of o = ltb_ℤ (double_of_int o.stock.quantity_available) (threshold_of o)

-- `decision`, before its reasoning. `lead_time_days` and `forecast_days` fall back on numbers other
-- than 0.
abbrev pub decide : Option ℕ → ℕ → Observed → Decision
decide sku_id product_id o =
    let lead = if eqb_ℤ o.stock.lead_time_days (pos 0) then pos 7 else o.stock.lead_time_days in
    record {
      sku_id = sku_id;
      product_id = product_id;
      sku_code = if str_eq o.stock.sku_code "" then o.forecast.sku_code else o.stock.sku_code;
      quantity_available = o.stock.quantity_available;
      reorder_point = o.stock.reorder_point;
      lead_time_days = lead;
      forecast_days = if o.forecast.forecast_days == 0 then lead else pos o.forecast.forecast_days;
      total_predicted_demand = o.forecast.total_predicted_demand;
      safety_stock = o.stock.safety_stock;
      threshold = threshold_of o;
      has_open_po = o.po_status.0;
      open_po_id = o.po_status.1;
      formula_requires_reorder = formula_of o;
      reorder_required = formula_of o && not o.po_status.0;
      agent_result = o.agent_result;
      reasoning = "";
      reorder_flag_id = none;
    }

abbrev pub flag_data : Decision → FlagData
flag_data d = record {
  quantity_available = d.quantity_available;
  total_predicted_demand = d.total_predicted_demand;
  safety_stock = d.safety_stock;
  lead_time_days = d.lead_time_days;
  forecast_days = d.forecast_days;
  reorder_required = d.reorder_required;
  has_open_po = d.has_open_po;
  open_po_id = d.open_po_id;
  reasoning = d.reasoning;
}

-- The model's explanation of a decision, none if asking it raises, the text for that case, and the
-- filter `prompt_injection_filter` (ai/llm/chain.py).
pub record Reasoner : Type 0 where
  pub explain : Decision → Option String
  pub fallback : Decision → String
  pub is_safe : String → Bool

-- `DecisionReasoner.generate`
abbrev pub generate_reasoning : Reasoner → Decision → String
generate_reasoning r d = elim (r.explain d) [ some text ↦ text | none ↦ r.fallback d ]

-- The context of `DecisionAgent.run`; none for a number that `int` does not read.
pub record Context : Type 0 where
  pub product_id : Option (Option ℕ)
  pub product_ids : Option (List (Option ℕ))
  pub products : List (Option (Option ℕ))
  pub texts : List String

abbrev pub read_ids : List (Option ℕ) → Result (List ℕ)
read_ids [] = ok []
read_ids (none ∷ ids) = err value_error
read_ids (some id ∷ ids) = elim (read_ids ids) [ ok rest ↦ ok (id ∷ rest) | err e ↦ err e ]

-- The entries that are dicts with a product_id.
abbrev pub with_product_id : List (Option (Option ℕ)) → List (Option ℕ)
with_product_id [] = []
with_product_id (none ∷ ps) = with_product_id ps
with_product_id (some id ∷ ps) = id ∷ with_product_id ps

abbrev pub listed_ids : Option (List (Option ℕ)) → List (Option (Option ℕ)) → Result (List ℕ)
listed_ids (some ids) products = read_ids ids
listed_ids none products = read_ids (with_product_id products)

unfoldable pub extract_product_ids : Context → Result (List ℕ)
extract_product_ids c = elim c.product_id [
  | some id ↦ read_ids (id ∷ [])
  | none ↦ listed_ids c.product_ids c.products
]

pub record Output : Type 0 where
  pub error : Option Error
  pub results : List Decision
  pub flags_created : ℕ

abbrev pub count_flags : List Decision → ℕ
count_flags [] = 0
count_flags (d ∷ ds) =
    let rest = count_flags ds in
    elim d.reorder_flag_id [ none ↦ rest | some id ↦ if id == 0 then rest else suc rest ]

abbrev pub failed : Error → Output
failed e = record { error = some e; results = []; flags_created = 0 }

module _ (tool_retries : ℕ) where
  -- `agent.invoke` with the tools that `tool` runs.
  unfoldable pub converse :
      (ToolCall → Action Store Observation) → Dialogue → Observations → Store → Result Observed
  converse tool (finishes answer) o w = require_observations o answer
  converse tool fails o w = err other_error
  converse tool (calls call outage next) o w =
      let r = run_tool tool_retries outage (tool call) w in
      converse tool (next r) (observe_result r o) w

  -- `_observe_product` and `_observe_sku`
  unfoldable pub observe_product : Dialogue → Store → Result Observed
  observe_product dialogue = converse run_product_tool dialogue nothing_observed

  unfoldable pub observe_sku : ℕ → Dialogue → Store → Result Observed
  observe_sku sku dialogue =
      converse (λ call. run_sku_tool (aim sku call)) dialogue nothing_observed

abbrev pub with_flag : Decision → ReorderFlag → Action Store Decision
with_flag d f = pure (record d { reorder_flag_id = some f.id })

-- The end of an evaluation: the flag of a decision that requires one.
abbrev pub raise_flag : Decision → Action Store Decision
raise_flag d = persist_reorder_flag d.sku_id d.sku_code (flag_data d) >>= with_flag d

abbrev pub conclude : Decision → Action Store Decision
conclude d w = if d.reorder_required then raise_flag d w else (ok d, w)

abbrev pub for_product : ℕ → Observed → Decision
for_product product_id o = decide none product_id o

abbrev pub for_sku : ℕ → Observed → Decision
for_sku sku_id o = decide (some sku_id) o.stock.product_id o

module _ (reasoner : Reasoner) where
  abbrev pub explained : Decision → Decision
  explained d = record d { reasoning = generate_reasoning reasoner d }

  -- An exception while observing ends the evaluation.
  abbrev pub decide_on : (Observed → Decision) → Result Observed → Action Store Decision
  decide_on decision (err e) = raise e
  decide_on decision (ok o) = conclude (explained (decision o))

  module _ (tool_retries : ℕ) where
    unfoldable pub evaluate_product : ℕ → Dialogue → Action Store Decision
    evaluate_product product_id dialogue w =
        decide_on (for_product product_id) (observe_product tool_retries dialogue w) w

    unfoldable pub evaluate_sku : ℕ → Dialogue → Action Store Decision
    evaluate_sku sku_id dialogue w =
        decide_on (for_sku sku_id) (observe_sku tool_retries sku_id dialogue w) w

    -- One evaluation after the other; the first exception ends them.
    unfoldable pub evaluate_all : (ℕ → Dialogue) → List ℕ → Action Store (List Decision)
    evaluate_all model [] = pure []
    evaluate_all model (p ∷ ps) = do
      d ← evaluate_product p (model p)
      ds ← evaluate_all model ps
      pure (d ∷ ds)

    abbrev pub summarize : Result (List Decision) → Output
    summarize (ok ds) = record { error = none; results = ds; flags_created = count_flags ds }
    summarize (err e) = failed e

    abbrev pub evaluate_listed : (ℕ → Dialogue) → Result (List ℕ) → Action Store (List Decision)
    evaluate_listed model (ok ids) = evaluate_all model ids
    evaluate_listed model (err e) = raise e

    -- `run` never raises: an exception becomes a result without decisions.
    unfoldable pub run : (ℕ → Dialogue) → Context → Store → Output × Store
    run model c w =
        if any (λ text. not (reasoner.is_safe text)) c.texts
        then (failed other_error, w)
        else (let (r, t) = evaluate_listed model (extract_product_ids c) w in (summarize r, t))
