-- ===== src/Decision/Tests.antt =====
-- The decision agent on a small store.
use smart_stock_ai.Prelude.{ℕ, true, false, none, [], ◌∷◌, ◌≡◌, refl, arith, ◌↔◌, Bool, ltb}
use smart_stock_ai.Prelude.Int.{pos, ◌-ℤ◌, ◌+ℤ◌}
use smart_stock_ai.Prelude.Action.{ok}
use smart_stock_ai.Database.{StockLevel}
use smart_stock_ai.Database.Sample.{store}
use smart_stock_ai.Orders.Service.{get_open_po_status_by_sku, get_open_po_status}
use smart_stock_ai.Orders.Repository.{get_open_for_sku, get_open_for_product, latest}
use smart_stock_ai.Inventory.Decisions.{
  get_by_sku_id, quantity_available, get_decision_stock_data_by_sku, get_decision_stock_data,
  get_by_product_id,
}
use smart_stock_ai.Forecasting.{ForecastResult, Store}
use smart_stock_ai.Forecasting.Repository.{
  get_next_for_sku, get_next_for_product, get_sku, get_sku_by_code, upsert_open_reorder_flag,
}
use smart_stock_ai.Forecasting.Service.{
  get_decision_forecast_data_by_sku, get_decision_forecast_data, persist_reorder_flag,
  total_predicted,
}
use smart_stock_ai.Prelude.Double.{
  sum_doubles, sum_from, add_double, sub_double, double_of_int, double_of_hundredths, last_bit,
}
use smart_stock_ai.Prelude.{map}
use smart_stock_ai.Forecasting.Flags.{IsValid}
use smart_stock_ai.Decision.Tools.{
  stock_level_read, forecast_read, po_status_check, run_tool, attempts, run_sku_tool,
  run_product_tool,
}
use smart_stock_ai.Decision.Agent.{
  Dialogue, finishes, calls, Reasoner, evaluate_sku, evaluate_product, observe_sku, observe_product,
  converse,
}
use smart_stock_ai.Decision.Observed.{run_tool_lem, Reached}
use smart_stock_ai.Decision.Justified.{Justified, evaluate_sku-Justified}
use smart_stock_ai.Decision.Flagged.{Flagged, evaluate_sku-Flagged}

-- Ten bolts, four of them reserved.
abbrev pub bolts : StockLevel
bolts = record {
  id = 1;
  sku = 1;
  quantity_on_hand = pos 10;
  quantity_reserved = pos 4;
  reorder_point = pos 10;
  reorder_quantity = pos 50;
}

-- A forecast of three bolts for a day.
abbrev pub three_bolts : ℕ → ℕ → ForecastResult
three_bolts id day = record {
  id = id;
  sku = 1;
  forecast_date = day;
  predicted_quantity = 300;
  lower_bound = none;
  upper_bound = none;
  mae = none;
  mape = none;
  model_version = "";
}

abbrev pub shop : Store
shop = record {
  db = record (store []) { stock_levels = record { rows = bolts ∷ []; next_id = 2 } };
  forecasts = record {
    rows = three_bolts 1 2 ∷ three_bolts 2 0 ∷ three_bolts 3 1 ∷ [];
    next_id = 4;
  };
  flags = record { rows = []; next_id = 1 };
}

abbrev pub terse : Reasoner
terse = record { explain = λ d. none; fallback = λ d. "short"; is_safe = λ text. true }

abbrev pub no_outage : ℕ → Bool
no_outage i = false

-- The model asks for SKU 9, and gets what there is of the one that is evaluated.
abbrev pub diligent : ℕ → Dialogue
diligent sku = calls (stock_level_read 9) no_outage (λ a.
    calls (forecast_read 9 2) no_outage
      (λ b. calls (po_status_check 9) no_outage (λ c. finishes "done")))

shop-IsValid : IsValid shop
shop-IsValid = (tt, tt, λ sku. omega arith, tt)

run_tool_lem_example :
    (run_tool 1 (λ i. ltb i 1) (λ (w : Store). (ok w.db.now, w)) shop ≡ ok 100)
    ↔ ((ok shop.db.now ≡ ok 100) × Reached 2 0 (λ i. ltb i 1))
run_tool_lem_example = run_tool_lem 1 (λ i. ltb i 1) (λ w. (ok w.db.now, w)) shop 100

-- Six bolts are free, and three are wanted on each of two days, with two more for safety.
shop_flags : (evaluate_sku terse 1 1 (diligent 1) shop).1.flags.next_id ≡ 2
unfolding evaluate_sku observe_sku converse run_tool attempts run_sku_tool
    get_decision_stock_data_by_sku get_by_sku_id quantity_available ◌-ℤ◌ ◌+ℤ◌
    get_decision_forecast_data_by_sku get_next_for_sku get_open_po_status_by_sku get_open_for_sku
    latest persist_reorder_flag get_sku upsert_open_reorder_flag total_predicted sum_doubles
    sum_from add_double sub_double double_of_int double_of_hundredths last_bit
shop_flags = refl

evaluate_sku-Justified_example : Justified 1 shop (evaluate_sku terse 1 1 (diligent 1) shop)
evaluate_sku-Justified_example = evaluate_sku-Justified terse 1 1 shop (diligent 1)

evaluate_sku-Flagged_example : Flagged 1 shop (evaluate_sku terse 1 1 (diligent 1) shop)
evaluate_sku-Flagged_example =
    evaluate_sku-Flagged 1 shop (omega arith) shop-IsValid terse 1 (diligent 1)

-- 18.83, 11.87, 0.89 and 0.41 add up to 32.0 less one unit in the last place, and 6.46, 9.43, 18.01,
-- 4.67, 17.42, 9.75 and 0.26 to 66.0, since `sum` makes up for what it loses.
rounded_down :
    sum_doubles (map double_of_hundredths (1883 ∷ 1187 ∷ 89 ∷ 41 ∷ [])) ≡ pos 36893488147419099136
unfolding sum_doubles sum_from add_double sub_double double_of_hundredths last_bit ◌+ℤ◌ ◌-ℤ◌
rounded_down = refl

compensated :
    sum_doubles (map double_of_hundredths (646 ∷ 943 ∷ 1801 ∷ 467 ∷ 1742 ∷ 975 ∷ 26 ∷ []))
    ≡ double_of_int (pos 66)
unfolding sum_doubles sum_from add_double sub_double double_of_hundredths double_of_int last_bit
    ◌+ℤ◌ ◌-ℤ◌
compensated = refl

-- A model that asks for product 1, whichever product is evaluated.
abbrev stubborn : Dialogue
stubborn = calls (stock_level_read 1) no_outage (λ a.
    calls (forecast_read 1 2) no_outage
      (λ b. calls (po_status_check 1) no_outage (λ c. finishes "done")))

-- The tools for products take the product that the model names: the decision on product 9, which
-- does not exist, is one on the bolts, and the bolts get a flag.
product_of_the_model : (evaluate_product terse 1 9 stubborn shop).1.flags.next_id ≡ 2
unfolding evaluate_product observe_product converse run_tool attempts run_product_tool
    get_decision_stock_data get_by_product_id quantity_available ◌-ℤ◌ ◌+ℤ◌
    get_decision_forecast_data get_next_for_product get_open_po_status get_open_for_product latest
    persist_reorder_flag get_sku_by_code upsert_open_reorder_flag total_predicted sum_doubles
    sum_from add_double sub_double double_of_int double_of_hundredths last_bit
product_of_the_model = refl
