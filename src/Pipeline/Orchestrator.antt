-- ===== src/Pipeline/Orchestrator.antt =====
-- AgentPipelineOrchestrator (apps/forecasting/pipeline_orchestrator.py). The Celery workers and the
-- threads of an executor take their tasks in orders of their own; each task is one step.
use smart_stock_ai.Prelude.{
  ℕ, suc, Bool, false, not, ◌&&◌, ◌||◌, Option, none, some, List, [], ◌∷◌, String, map,
  if◌then◌else◌, ◌==◌, ltb, select, length,
}
use smart_stock_ai.Prelude.Int.{ℤ}
use smart_stock_ai.Prelude.Action.{Action, Result, Error, ok, err, other_error}
use smart_stock_ai.Prelude.Table.{find}
use smart_stock_ai.Prelude.Sorting.{sort}
use smart_stock_ai.Database.{Db, Sku, Product}
use smart_stock_ai.Orders.Repository.{product_key}
use smart_stock_ai.Agent.Tools.{Environment}
use smart_stock_ai.Agent.Purchasing.{Settings}
use smart_stock_ai.Forecasting.{ReorderFlag, Store}
use smart_stock_ai.Forecasting.Repository.{is_open}
use smart_stock_ai.Forecasting.Service.{EngineResult, run_forecast}
use smart_stock_ai.Decision.Agent.{Dialogue, Decision, Reasoner, evaluate_sku}
use smart_stock_ai.Pipeline.Creator.{Answer, Counts, no_flags, process_flags}

-- `SKU.objects.filter(product__is_active=True)`
abbrev pub is_active_product : Option Product → Bool
is_active_product none = false
is_active_product (some p) = p.is_active

abbrev pub has_active_product : Db → Sku → Bool
has_active_product d s = is_active_product (find product_key s.product d.products.rows)

abbrev pub active_skus : Db → List ℕ
active_skus d = map (λ (s : Sku). s.id) (select (has_active_product d) d.skus.rows)

-- `order_by('-created_at', '-id')`, the order of the table.
abbrev pub newer_flag : ReorderFlag → ReorderFlag → Bool
newer_flag a b = ltb b.created_at a.created_at || (a.created_at == b.created_at && ltb b.id a.id)

abbrev pub is_pending : ReorderFlag → Bool
is_pending f = is_open f.status && (f.reorder_required && not f.has_open_po)

unfoldable pub pending_flags : Store → List ReorderFlag
pending_flags w = sort newer_flag (select is_pending w.flags.rows)

pub record Decisions : Type 0 where
  pub skus_processed : ℕ
  pub reorder_flags_created : ℕ
  pub errors : List (ℕ × Error)

pub record Output : Type 0 where
  pub dispatched : ℕ
  pub decision : Decisions
  pub po_creation : Counts

-- The status of the AgentRun that the run is filed under.
pub data RunStatus : Type 0 where
  completed run_failed : RunStatus

abbrev pub nothing_decided : Decisions
nothing_decided = record { skus_processed = 0; reorder_flags_created = 0; errors = [] }

-- What the pipeline meets outside the store.
pub record World : Type 0 where
  pub predict : ℕ → Store → Result (Option EngineResult)  -- the data frame and the engine
  pub broker_up : Bool  -- whether Celery takes the tasks
  pub finished : List ℕ → List ℕ  -- the forecasts that are done before the time is up, in order
  pub taken : List ℕ → List ℕ  -- the order in which the threads evaluate
  pub reasoner : Reasoner
  pub tool_retries : ℕ
  pub model : ℕ → Dialogue
  pub env : Environment
  pub settings : Settings
  pub ask : ReorderFlag → Answer
  pub text_of : ℤ → String
  pub system_user_id : Option ℕ

module _ (world : World) where
  -- `run_forecast_single_sku` of each SKU; an exception fails its task only.
  unfoldable pub forecast_tasks : List ℕ → Store → Store
  forecast_tasks [] w = w
  forecast_tasks (sku ∷ skus) w = forecast_tasks skus (run_forecast world.predict (some sku) w).1

  abbrev pub dispatch : List ℕ → Action Store (List ℕ)
  dispatch [] w = (ok [], w)
  dispatch (s ∷ ss) w =
      if world.broker_up
      then (ok (s ∷ ss), forecast_tasks (world.finished (s ∷ ss)) w)
      else (err other_error, w)

  -- `_run_forecast_step`: the SKUs, none for `{'dispatched': 0}`.
  unfoldable pub run_forecast_step : Action Store (List ℕ)
  run_forecast_step w = dispatch (active_skus w.db) w

  abbrev pub add_decision : ℕ → Result Decision → Decisions → Decisions
  add_decision sku (ok d) n = record {
    skus_processed = suc n.skus_processed;
    reorder_flags_created = elim d.reorder_flag_id [
      | none ↦ n.reorder_flags_created
      | some id ↦ if id == 0 then n.reorder_flags_created else suc n.reorder_flags_created
    ];
    errors = n.errors;
  }
  add_decision sku (err e) n = record {
    skus_processed = suc n.skus_processed;
    reorder_flags_created = n.reorder_flags_created;
    errors = (sku, e) ∷ n.errors;
  }

  unfoldable pub decide_each : List ℕ → Store → Decisions × Store
  decide_each [] w = (nothing_decided, w)
  decide_each (sku ∷ skus) w =
      let (r, t) = evaluate_sku world.reasoner world.tool_retries sku (world.model sku) w in
      let (n, u) = decide_each skus t in (add_decision sku r n, u)

  -- `_run_decision_step`; an exception of one evaluation is an entry of the errors.
  unfoldable pub run_decision_step : List ℕ → Store → Decisions × Store
  run_decision_step skus w = decide_each (world.taken skus) w

  -- `_run_po_creation_step`
  unfoldable pub run_po_creation_step : Store → Counts × Store
  run_po_creation_step w =
      process_flags world.env world.settings world.ask world.text_of world.system_user_id
        (pending_flags w) w

  abbrev pub after_forecast : Result (List ℕ) → Store → (RunStatus × Result Output) × Store
  after_forecast (err e) w = ((run_failed, err e), w)
  after_forecast (ok []) w = (
    (completed, ok (record { dispatched = 0; decision = nothing_decided; po_creation = no_flags })),
    w,
  )
  after_forecast (ok (s ∷ ss)) w =
      let (decided, t) = run_decision_step (s ∷ ss) w in
      let (counts, u) = run_po_creation_step t in
      (
        (
          completed,
          ok (record { dispatched = length (s ∷ ss); decision = decided; po_creation = counts }),
        ),
        u,
      )

  -- `run`: the status of the run, and the output or the exception that is raised again.
  unfoldable pub run_pipeline : Store → (RunStatus × Result Output) × Store
  run_pipeline w = let (r, t) = run_forecast_step w in after_forecast r t
