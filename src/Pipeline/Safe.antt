-- ===== src/Pipeline/Safe.antt =====
-- The daily pipeline (apps/forecasting/pipeline_orchestrator.py) approves nothing and mails nobody.
use smart_stock_ai.Prelude.{
  ℕ, Bool, true, false, Option, none, some, List, [], ◌∷◌, ◌≡◌, refl, ap, ◌∙◌, String,
  if◌then◌else◌,
}
use smart_stock_ai.Prelude.Int.{ℤ}
use smart_stock_ai.Prelude.Action.{Result, ok, err, does_not_exist, other_error, ◌>>=◌, pure}
use smart_stock_ai.Prelude.Keeps.{Keeps, >>=-Keeps, catch-Keeps, or_raise-Keeps}
use smart_stock_ai.Prelude.Table.{find}
use smart_stock_ai.Database.{Db, PurchaseOrder, EmailTask, Sku, Product, Supplier}
use smart_stock_ai.Orders.Repository.{sku_key, product_key}
use smart_stock_ai.Orders.Released.{released}
use smart_stock_ai.Inventory.Decisions.{supplier_of}
use smart_stock_ai.Agent.Tools.{Environment, Context}
use smart_stock_ai.Agent.Purchasing.{Settings, Outcome, OutcomeStatus, run}
use smart_stock_ai.Agent.Gated.{Gated, run-Gated}
use smart_stock_ai.Forecasting.{ReorderFlag, Store, on_db}
use smart_stock_ai.Forecasting.Repository.{get_sku}
use smart_stock_ai.Forecasting.Service.{run_forecast}
use smart_stock_ai.Forecasting.Reports.{run_forecast-Keeps}
use smart_stock_ai.Decision.Agent.{evaluate_sku}
use smart_stock_ai.Decision.Kept.{evaluate_sku-Keeps}
use smart_stock_ai.Pipeline.Creator.{
  Answer, raises, invalid_json, chooses, Choice, Field, missing, unreadable, number, failed, settle,
  settle_as, context, order_now, order_fields, on_answer, with_supplier, product_of, order_product,
  order_sku, process_single_flag, Counts, count, process_from, process_flags, no_flags,
}
use smart_stock_ai.Pipeline.Orchestrator.{
  World, pending_flags, dispatch, forecast_tasks, run_forecast_step, decide_each, run_decision_step,
  run_po_creation_step, after_forecast, run_pipeline, active_skus,
}

-- The orders that someone has approved, and the mail that is queued.
abbrev pub released_in : Store → List PurchaseOrder × List EmailTask
released_in w = released w.db

settle_as-Keeps :
    (flag : ReorderFlag) (po_id : Option ℕ) (s : OutcomeStatus)
    → Keeps released_in (settle_as flag po_id s)
settle_as-Keeps flag po_id OutcomeStatus.failed = λ w. refl
settle_as-Keeps flag po_id OutcomeStatus.rejected = λ w. refl
settle_as-Keeps flag po_id OutcomeStatus.timeout = λ w. refl
settle_as-Keeps flag po_id OutcomeStatus.pending_approval = λ w. refl
settle_as-Keeps flag po_id OutcomeStatus.confirmed = λ w. refl

Gated-released : (d : Db) (r : Result Outcome × Db) → Gated d r → released r.1 ≡ released d
Gated-released d (ok o, t) g = g.1
Gated-released d (err e, t) g = g

module _ (env : Environment) (settings : Settings) (ask : ReorderFlag → Answer)
    (text_of : ℤ → String) (system_user_id : Option ℕ) (flag : ReorderFlag) where
  order_now-Keeps :
      (c : Context)
      → c.auto_approve ≡ false
      → c.approval_callback ≡ none
      → Keeps released_in (order_now env settings ask text_of system_user_id flag c)
  order_now-Keeps c auto alone =
      catch-Keeps released_in (on_db (run env settings c) >>= settle flag) (λ e. pure failed)
        (>>=-Keeps released_in (on_db (run env settings c)) (settle flag)
          (λ w.
            Gated-released w.db (run env settings c w.db)
              (run-Gated env settings c auto alone w.db))
          (λ o. settle_as-Keeps flag o.po_id o.status))
        (λ e w. refl)

  order_fields-Keeps :
      (price : Option ℕ) (c : Choice) (k : Field ℕ) (q : Field ℤ)
      → Keeps released_in (order_fields env settings ask text_of system_user_id flag price c k q)
  order_fields-Keeps price c missing q = λ w. refl
  order_fields-Keeps price c unreadable missing = λ w. refl
  order_fields-Keeps price c (number supplier_id) missing = λ w. refl
  order_fields-Keeps none c unreadable unreadable = λ w. refl
  order_fields-Keeps none c (number supplier_id) unreadable = λ w. refl
  order_fields-Keeps (some u) c unreadable unreadable = λ w. refl
  order_fields-Keeps (some u) c (number supplier_id) unreadable = λ w. refl
  order_fields-Keeps price c unreadable (number quantity) = λ w. refl
  order_fields-Keeps price c (number supplier_id) (number quantity) =
      order_now-Keeps
        (context env settings ask text_of system_user_id flag supplier_id quantity c price) refl
        refl

  on_answer-Keeps :
      (price : Option ℕ) (a : Answer)
      → Keeps released_in (on_answer env settings ask text_of system_user_id flag price a)
  on_answer-Keeps price raises = λ w. refl
  on_answer-Keeps price invalid_json = λ w. refl
  on_answer-Keeps price (chooses c) = order_fields-Keeps price c c.supplier_id c.quantity

  with_supplier-Keeps :
      (product : Product) (s : Option Supplier)
      → Keeps released_in (with_supplier env settings ask text_of system_user_id flag product s)
  with_supplier-Keeps product none = λ w. refl
  with_supplier-Keeps product (some s) = on_answer-Keeps product.unit_price (ask flag)

  order_sku-Keeps :
      (sku : Sku) → Keeps released_in (order_sku env settings ask text_of system_user_id flag sku)
  order_sku-Keeps sku =
      >>=-Keeps released_in (product_of env settings ask text_of system_user_id sku)
        (order_product env settings ask text_of system_user_id flag)
        (λ w.
          or_raise-Keeps released_in (find product_key sku.product w.db.products.rows)
            does_not_exist w)
        (λ product w. with_supplier-Keeps product (supplier_of product w.db) w)

  process_single_flag-Keeps :
      Keeps released_in (process_single_flag env settings ask text_of system_user_id flag)
  unfolding process_single_flag get_sku
  process_single_flag-Keeps =
      >>=-Keeps released_in (get_sku flag.sku)
        (order_sku env settings ask text_of system_user_id flag)
        (λ w. or_raise-Keeps released_in (find sku_key flag.sku w.db.skus.rows) does_not_exist w)
        order_sku-Keeps

module _ (world : World) where
  process_from-released :
      (n : Counts) (fs : List ReorderFlag) (w : Store)
      → released_in
          (process_from world.env world.settings world.ask world.text_of world.system_user_id n fs
            w).1
        ≡ released_in w
  unfolding process_from
  process_from-released n [] w = refl
  process_from-released n (f ∷ fs) w =
      let step =
        process_single_flag world.env world.settings world.ask world.text_of world.system_user_id f
          w in
      process_from-released (count step.0 n) fs step.1
      ∙ process_single_flag-Keeps world.env world.settings world.ask world.text_of
          world.system_user_id f w

  decide_each-released :
      (skus : List ℕ) (w : Store) → released_in (decide_each world skus w).1 ≡ released_in w
  unfolding decide_each
  decide_each-released [] w = refl
  decide_each-released (s ∷ ss) w =
      decide_each-released ss (evaluate_sku world.reasoner world.tool_retries s (world.model s) w).1
      ∙ ap released (evaluate_sku-Keeps world.reasoner world.tool_retries s (world.model s) w)

  forecast_tasks-released :
      (skus : List ℕ) (w : Store) → released_in (forecast_tasks world skus w) ≡ released_in w
  unfolding forecast_tasks
  forecast_tasks-released [] w = refl
  forecast_tasks-released (s ∷ ss) w =
      forecast_tasks-released ss (run_forecast world.predict (some s) w).1
      ∙ ap (λ o. released o.0) (run_forecast-Keeps world.predict (some s) w)

  dispatch-released :
      (skus : List ℕ) (w : Store) → released_in (dispatch world skus w).1 ≡ released_in w
  dispatch-released [] w = refl
  dispatch-released (s ∷ ss) w = by_broker world.broker_up
    where
      by_broker :
          (b : Bool)
          → released_in
              (if◌then◌else◌ {A = Result (List ℕ) × Store} b
                (ok (s ∷ ss), forecast_tasks world (world.finished (s ∷ ss)) w)
                (err other_error, w)).1
            ≡ released_in w
      by_broker true = forecast_tasks-released (world.finished (s ∷ ss)) w
      by_broker false = refl

  after_forecast-released :
      (r : Result (List ℕ)) (w : Store) → released_in (after_forecast world r w).1 ≡ released_in w
  unfolding run_decision_step run_po_creation_step process_flags
  after_forecast-released (err e) w = refl
  after_forecast-released (ok []) w = refl
  after_forecast-released (ok (s ∷ ss)) w =
      let t = (decide_each world (world.taken (s ∷ ss)) w).1 in
      process_from-released no_flags (pending_flags t) t
      ∙ decide_each-released (world.taken (s ∷ ss)) w

  -- A run of the daily pipeline, also one that raises, leaves the orders that someone has approved and
  -- the queue of mail as they were: it approves, mails and confirms nothing.
  pub run_pipeline-released : (w : Store) → released_in (run_pipeline world w).1 ≡ released_in w
  unfolding run_pipeline run_forecast_step
  run_pipeline-released w =
      let step = dispatch world (active_skus w.db) w in
      after_forecast-released step.0 step.1 ∙ dispatch-released (active_skus w.db) w
