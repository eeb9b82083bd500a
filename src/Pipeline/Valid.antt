-- ===== src/Pipeline/Valid.antt =====
-- The daily pipeline (apps/forecasting/pipeline_orchestrator.py) leaves a valid table of flags.
use smart_stock_ai.Prelude.{
  ℕ, ◌≤◌, Bool, true, false, none, some, List, [], ◌∷◌, ◌≡◌, refl, ap, arith, length, All,
  if◌then◌else◌, ◌∙◌,
}
use smart_stock_ai.Prelude.Action.{Result, ok, err, other_error}
use smart_stock_ai.Prelude.Table.{find, IsBelow}
use smart_stock_ai.Forecasting.{ReorderFlag, Store, flag_key}
use smart_stock_ai.Forecasting.Service.{run_forecast}
use smart_stock_ai.Forecasting.Flags.{IsDistinct, IsValid, IsCalledFor, open_flags}
use smart_stock_ai.Forecasting.Reports.{others, run_forecast-Keeps}
use smart_stock_ai.Decision.Agent.{evaluate_sku}
use smart_stock_ai.Decision.Flagged.{of_sku, evaluate-IsValid}
use smart_stock_ai.Pipeline.Creator.{
  FlagResult, Answer, created, skipped_no_supplier, failed, process_single_flag, Counts, count,
  process_from, process_flags, no_flags,
}
use smart_stock_ai.Agent.Tools.{Environment}
use smart_stock_ai.Agent.Purchasing.{Settings}
use smart_stock_ai.Pipeline.Consumed.{with_consumed, Settles, process_single_flag-Settles}
use smart_stock_ai.Pipeline.Orchestrator.{
  World, pending_flags, dispatch, forecast_tasks, run_forecast_step, decide_each, run_decision_step,
  run_po_creation_step, after_forecast, run_pipeline, active_skus,
}

consumed-IsDistinct :
    (id : ℕ) (fs : List ReorderFlag) → IsDistinct fs → IsDistinct (with_consumed id fs)
consumed-IsDistinct id [] d = tt
consumed-IsDistinct id (x ∷ xs) d =
    ground (arith, find_consumed x.id id xs, consumed-IsDistinct id xs d.1)
  where
    find_consumed :
        (k id : ℕ) (fs : List ReorderFlag)
        → find flag_key k fs ≡ none
        → find flag_key k (with_consumed id fs) ≡ none
    find_consumed k id [] e = refl
    find_consumed k id (x ∷ xs) e = ground (arith, find_consumed k id xs)

consumed-IsBelow :
    (n id : ℕ) (fs : List ReorderFlag)
    → IsBelow flag_key n fs
    → IsBelow flag_key n (with_consumed id fs)
consumed-IsBelow n id [] b = tt
consumed-IsBelow n id (x ∷ xs) b = ground (arith, consumed-IsBelow n id xs b.1)

consumed-IsCalledFor :
    (id : ℕ) (fs : List ReorderFlag) → All IsCalledFor fs → All IsCalledFor (with_consumed id fs)
consumed-IsCalledFor id [] a = tt
consumed-IsCalledFor id (x ∷ xs) a = ground (arith, consumed-IsCalledFor id xs a.1)

open_flags-consumed :
    (sku id : ℕ) (fs : List ReorderFlag)
    → length (open_flags sku (with_consumed id fs)) ≤ length (open_flags sku fs)
open_flags-consumed sku id [] = omega arith
open_flags-consumed sku id (x ∷ xs) = ground (arith, open_flags-consumed sku id xs)

-- Validity of the rows and the next key.
abbrev ValidTable : List ReorderFlag → ℕ → Type 0
ValidTable rows next_id =
    IsDistinct rows
    × IsBelow flag_key next_id rows
    × ((sku : ℕ) → length (open_flags sku rows) ≤ 1)
    × All IsCalledFor rows

consumed-ValidTable :
    (id n : ℕ) (fs : List ReorderFlag) → ValidTable fs n → ValidTable (with_consumed id fs) n
consumed-ValidTable id n fs (d, b, one, c) = (
  consumed-IsDistinct id fs d,
  consumed-IsBelow n id fs b,
  λ sku. omega (arith, open_flags-consumed sku id fs, one sku),
  consumed-IsCalledFor id fs c,
)

Settles-IsValid :
    (env : Environment) (settings : Settings) (ask : ReorderFlag → Answer) (f : ReorderFlag)
    (w : Store) (r : Result FlagResult × Store)
    → Settles env settings ask f w r
    → IsValid w
    → IsValid r.1
Settles-IsValid env settings ask f w (ok (created po s), t) h v =
    rw (h.1, h.2) (consumed-ValidTable f.id w.flags.next_id w.flags.rows v)
Settles-IsValid env settings ask f w (ok skipped_no_supplier, t) h v = rw h v
Settles-IsValid env settings ask f w (ok failed, t) h v = rw h v
Settles-IsValid env settings ask f w (err e, t) h v = rw h v

module _ (world : World) where
  process_from-IsValid :
      (n : Counts) (fs : List ReorderFlag) (w : Store)
      → IsValid w
      → IsValid
          (process_from world.env world.settings world.ask world.text_of world.system_user_id n fs
            w).1
  unfolding process_from
  process_from-IsValid n [] w v = v
  process_from-IsValid n (f ∷ fs) w v =
      let env = world.env in
      let settled =
        process_single_flag world.env world.settings world.ask world.text_of world.system_user_id f
          w in
      process_from-IsValid (count settled.0 n) fs settled.1 (
        Settles-IsValid world.env world.settings world.ask f w settled
          (process_single_flag-Settles world.env world.settings world.ask f w world.text_of
            world.system_user_id)
          v)

  decide_each-IsValid :
      (skus : List ℕ) (w : Store) → IsValid w → IsValid (decide_each world skus w).1
  unfolding decide_each
  decide_each-IsValid [] w v = v
  decide_each-IsValid (s ∷ ss) w v =
      decide_each-IsValid ss (evaluate_sku world.reasoner world.tool_retries s (world.model s) w).1
        (evaluate-IsValid world.reasoner world.tool_retries (of_sku s (world.model s)) w v)

  forecast_tasks-others :
      (skus : List ℕ) (w : Store) → others (forecast_tasks world skus w) ≡ others w
  unfolding forecast_tasks
  forecast_tasks-others [] w = refl
  forecast_tasks-others (s ∷ ss) w =
      forecast_tasks-others ss (run_forecast world.predict (some s) w).1
      ∙ run_forecast-Keeps world.predict (some s) w

  forecast_tasks-IsValid :
      (skus : List ℕ) (w : Store) → IsValid w → IsValid (forecast_tasks world skus w)
  forecast_tasks-IsValid skus w v = rw (ap (λ o. o.1) (forecast_tasks-others skus w)) v

  after_forecast-IsValid :
      (r : Result (List ℕ)) (w : Store) → IsValid w → IsValid (after_forecast world r w).1
  unfolding run_decision_step run_po_creation_step process_flags
  after_forecast-IsValid (err e) w v = v
  after_forecast-IsValid (ok []) w v = v
  after_forecast-IsValid (ok (s ∷ ss)) w v =
      let t = (decide_each world (world.taken (s ∷ ss)) w).1 in
      process_from-IsValid no_flags (pending_flags t) t
        (decide_each-IsValid (world.taken (s ∷ ss)) w v)

  dispatch-IsValid : (skus : List ℕ) (w : Store) → IsValid w → IsValid (dispatch world skus w).1
  dispatch-IsValid [] w v = v
  dispatch-IsValid (s ∷ ss) w v = by_broker world.broker_up
    where
      by_broker :
          (b : Bool)
          → IsValid
              (if◌then◌else◌ {A = Result (List ℕ) × Store} b
                (ok (s ∷ ss), forecast_tasks world (world.finished (s ∷ ss)) w)
                (err other_error, w)).1
      by_broker true = forecast_tasks-IsValid (world.finished (s ∷ ss)) w v
      by_broker false = v

  -- A run of the pipeline, also one that raises, leaves a valid table of flags valid.
  pub run_pipeline-IsValid : (w : Store) → IsValid w → IsValid (run_pipeline world w).1
  unfolding run_pipeline run_forecast_step
  run_pipeline-IsValid w v =
      let step = dispatch world (active_skus w.db) w in
      after_forecast-IsValid step.0 step.1 (dispatch-IsValid (active_skus w.db) w v)
