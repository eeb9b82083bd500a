-- ===== src/Pipeline/Tests.antt =====
-- The daily pipeline on a small store.
use smart_stock_ai.Prelude.{true, false, none, [], ◌∷◌, ◌≡◌, refl, arith, ◌+◌}
use smart_stock_ai.Prelude.Double.{double_of_int}
use smart_stock_ai.Prelude.Int.{pos}
use smart_stock_ai.Prelude.Action.{ok}
use smart_stock_ai.Agent.Tools.{Environment}
use smart_stock_ai.Forecasting.{ReorderFlag, FlagStatus, Store}
use smart_stock_ai.Forecasting.Flags.{IsValid}
use smart_stock_ai.Decision.Tests.{shop, terse, diligent}
use smart_stock_ai.Pipeline.Creator.{Answer, chooses, number}
use smart_stock_ai.Pipeline.Consumed.{Settles, process_single_flag-Settles}
use smart_stock_ai.Pipeline.Creator.{process_single_flag}
use smart_stock_ai.Pipeline.Counted.{open_count}
use smart_stock_ai.Pipeline.Pending.{run_po_creation_step-open}
use smart_stock_ai.Pipeline.Safe.{released_in, run_pipeline-released}
use smart_stock_ai.Pipeline.Valid.{run_pipeline-IsValid}
use smart_stock_ai.Pipeline.Orchestrator.{World, run_po_creation_step, run_pipeline}

abbrev calm : Environment
calm = record {
  user_exists = λ id. true;
  str_of = λ e. "error";
  not_sendable = λ po s. "not sendable";
  not_received = λ attempts. "Confirmation not received";
  random = 7;
  is_safe = λ text. true;
  is_production = false;
  sleep = λ delay d. d;
}

abbrev low : ReorderFlag
low = record {
  id = 1;
  sku = 1;
  quantity_available = pos 6;
  total_predicted_demand = double_of_int (pos 6);
  safety_stock = pos 2;
  lead_time_days = pos 5;
  forecast_days = pos 2;
  reorder_required = true;
  has_open_po = false;
  open_po_id = none;
  reasoning = "short";
  status = FlagStatus.opened;
  created_at = 90;
}

abbrev flagged : Store
flagged = record shop { flags = record { rows = low ∷ []; next_id = 2 } }

abbrev ten_of_acme : Answer
ten_of_acme =
    chooses (record { supplier_id = number 1; quantity = number (pos 10); reasoning = none })

abbrev world : World
world = record {
  predict = λ sku w. ok none;
  broker_up = true;
  finished = λ skus. skus;
  taken = λ skus. skus;
  reasoner = terse;
  tool_retries = 1;
  model = diligent;
  env = calm;
  settings = record { initial_delay = 60; max_delay = 3600; max_attempts = 2 };
  ask = λ f. ten_of_acme;
  text_of = λ n. "25.00";
  system_user_id = none;
}

flagged-IsValid : IsValid flagged
flagged-IsValid = ((refl, tt), (omega arith, tt), λ sku. ground arith, ((refl, refl), tt))

process_single_flag-Settles_example :
    Settles calm world.settings world.ask low flagged
      (process_single_flag calm world.settings world.ask world.text_of none low flagged)
process_single_flag-Settles_example =
    process_single_flag-Settles calm world.settings world.ask low flagged world.text_of none

run_po_creation_step-open_example :
    let (n, t) = run_po_creation_step world flagged in open_count t.flags.rows + n.created ≡ 1
run_po_creation_step-open_example = run_po_creation_step-open world flagged (refl, tt)

run_pipeline-IsValid_example : IsValid (run_pipeline world flagged).1
run_pipeline-IsValid_example = run_pipeline-IsValid world flagged flagged-IsValid

run_pipeline-released_example : released_in (run_pipeline world flagged).1 ≡ ([], [])
run_pipeline-released_example = run_pipeline-released world flagged
