-- ===== src/Forecasting/Service.antt =====
-- ForecastingService (apps/forecasting/services.py): what the decision agent reads, the reorder flags
-- that it leaves, the check of one SKU, and the forecasts of a day.
use text.Mathlib.Text.{◌==◌ as str_eq}
use smart_stock_ai.Prelude.{
  ℕ, suc, max, Bool, false, Option, none, some, List, [], ◌∷◌, String, if◌then◌else◌, ltb, ◌==◌,
  select,
}
use smart_stock_ai.Prelude.{map}
use smart_stock_ai.Prelude.Double.{
  Double, sum_doubles, add_double, double_of_int, double_of_hundredths,
}
use smart_stock_ai.Prelude.Int.{negsuc, pos, ℤ, ltb_ℤ}
use smart_stock_ai.Prelude.Action.{
  raise, value_error, Result, Action, does_not_exist, ◌>>=◌, ◌>>◌, pure, gets, or_raise, catch,
}
use smart_stock_ai.Prelude.Table.{find}
use smart_stock_ai.Prelude.Sorting.{sort, take}
use smart_stock_ai.Database.{Db, Sku, StockLevel}
use smart_stock_ai.Orders.Repository.{sku_key, product_key}
use smart_stock_ai.Inventory.Invoices.{sku_by_code}
use smart_stock_ai.Inventory.Decisions.{get_by_sku_id, quantity_available, lead_time, supplier_of}
use smart_stock_ai.Forecasting.{ForecastResult, ReorderFlag, Store, Measure, finite, not_finite}
use smart_stock_ai.Forecasting.Repository.{
  FlagData, Prediction, get_next_for_sku, get_next_for_product, get_primary_sku_for_product,
  get_sku, get_sku_by_code, upsert_open_reorder_flag, upsert, is_for_sku,
}

-- `sum(f.predicted_quantity for f in forecasts)`, a sum of floats.
unfoldable pub total_predicted : List ForecastResult → Double
total_predicted forecasts =
    sum_doubles (map (λ f. double_of_hundredths f.predicted_quantity) forecasts)

pub record ForecastData : Type 0 where
  pub sku_code : String
  pub forecast_days : ℕ
  pub total_predicted_demand : Double

-- `max(1, int(forecast_days or 7))`, of a number that is not negative.
abbrev pub horizon : ℕ → ℕ
horizon days = max 1 (if days == 0 then 7 else days)

-- The code of the first forecast's SKU, or of the SKU that stands in for none.
abbrev pub code_of : Option Sku → String
code_of none = ""
code_of (some s) = s.code

abbrev pub code_of_first : List ForecastResult → Db → String
code_of_first [] d = ""
code_of_first (f ∷ fs) d = code_of (find sku_key f.sku d.skus.rows)

abbrev pub forecast_data : String → ℕ → List ForecastResult → ForecastData
forecast_data code days forecasts = record {
  sku_code = code;
  forecast_days = days;
  total_predicted_demand = total_predicted forecasts;
}

unfoldable pub get_decision_forecast_data : ℕ → ℕ → Action Store ForecastData
get_decision_forecast_data product forecast_days = do
  forecasts ← gets (get_next_for_product product (horizon forecast_days))
  code ← gets (λ w. code_of_first forecasts w.db)
  fallback ← gets (λ w. code_of (get_primary_sku_for_product product w))
  pure (forecast_data (if str_eq code "" then fallback else code) (horizon forecast_days) forecasts)

-- A SKU without a code is looked up, which raises if the SKU does not exist.
abbrev pub or_code_of : String → ℕ → Action Store String
or_code_of code sku = if str_eq code "" then (get_sku sku >>= λ s. pure s.code) else pure code

unfoldable pub get_decision_forecast_data_by_sku : ℕ → ℕ → Action Store ForecastData
get_decision_forecast_data_by_sku sku forecast_days = do
  forecasts ← gets (get_next_for_sku sku (horizon forecast_days))
  known ← gets (λ w. code_of_first forecasts w.db)
  code ← or_code_of known sku
  pure (forecast_data code (horizon forecast_days) forecasts)

-- The SKU of a decision: by its key, or by the code if the key is missing or 0.
abbrev pub sku_of_decision : Option ℕ → String → Action Store Sku
sku_of_decision none code = get_sku_by_code code
sku_of_decision (some sku) code = if sku == 0 then get_sku_by_code code else get_sku sku

unfoldable pub persist_reorder_flag : Option ℕ → String → FlagData → Action Store ReorderFlag
persist_reorder_flag sku_id sku_code columns = do
  sku ← sku_of_decision sku_id sku_code
  upsert_open_reorder_flag sku.id columns

-- `order_by('-forecast_date')`
abbrev pub later : ForecastResult → ForecastResult → Bool
later a b = ltb b.forecast_date a.forecast_date

abbrev pub latest_forecasts : ℕ → ℕ → Store → List ForecastResult
latest_forecasts sku days w = take days (sort later (select (is_for_sku sku) w.forecasts.rows))

-- The stock is short of a demand and the safety stock, whose sum is one of floats.
abbrev pub is_short : ℤ → Double → ℤ → Bool
is_short available predicted safety =
    ltb_ℤ (double_of_int available) (add_double predicted (double_of_int safety))

-- A slice `[:days]` of a query raises for a negative number.
abbrev pub slice_end : ℤ → Action Store ℕ
slice_end (pos n) = pure n
slice_end (negsuc n) = raise value_error

abbrev pub risk_of : Sku → StockLevel → Action Store Bool
risk_of sku stock = do
  product ← or_raise (← gets (λ w. find product_key sku.product w.db.products.rows)) does_not_exist
  days ← slice_end (← gets (λ w. lead_time (supplier_of product w.db)))
  forecasts ← gets (latest_forecasts sku.id days)
  pure (is_short (quantity_available stock) (total_predicted forecasts) product.safety_stock)

-- Every exception, a missing stock level among them, counts as no risk.
unfoldable pub calculate_stockout_risk : String → Action Store Bool
calculate_stockout_risk sku_code =
    catch
      (do
        sku ← or_raise (← gets (λ w. sku_by_code sku_code w.db.skus.rows)) does_not_exist
        stock ← or_raise (← gets (λ w. get_by_sku_id sku.id w.db)) does_not_exist
        risk_of sku stock)
      (λ e. pure false)

-- What ProphetEngine.predict returns.
pub record EngineResult : Type 0 where
  pub results : List Prediction
  pub mae : Option Measure
  pub mape : Option Measure
  pub model_version : String
  pub forecast_method : String

pub data ForecastStatus : Type 0 where
  skipped success : ForecastStatus

pub record ForecastReport : Type 0 where
  pub sku : String
  pub status : ForecastStatus
  pub forecast_days : ℕ
  pub mae : Option Measure
  pub mape : Option Measure

abbrev pub finite_only : Option Measure → Option Measure
finite_only none = none
finite_only (some (finite x)) = some (finite x)
finite_only (some not_finite) = none

-- The rows of `result['results']`, one after the other.
unfoldable pub upsert_all :
    ℕ → Option Measure → Option Measure → String → List Prediction → Action Store ℕ
upsert_all sku mae mape model_version [] = pure 0
upsert_all sku mae mape model_version (p ∷ ps) = do
  upsert sku p mae mape model_version
  created ← upsert_all sku mae mape model_version ps
  pure (suc created)

abbrev pub report : Sku → Option Measure → Option Measure → ℕ → Action Store ForecastReport
report sku mae mape created =
    pure
      (record { sku = sku.code; status = success; forecast_days = created; mae = mae; mape = mape })

abbrev pub store_result : Sku → Option EngineResult → Action Store ForecastReport
store_result sku none =
    pure (record { sku = sku.code; status = skipped; forecast_days = 0; mae = none; mape = none })
store_result sku (some r) =
    upsert_all sku.id (finite_only r.mae) (finite_only r.mape) r.model_version r.results
    >>= report sku (finite_only r.mae) (finite_only r.mape)

abbrev pub some_report : ForecastReport → Action Store (Option ForecastReport)
some_report r = pure (some r)

-- The reports of the SKUs whose forecast did not raise.
abbrev pub with_report : Option ForecastReport → List ForecastReport → List ForecastReport
with_report none rs = rs
with_report (some r) rs = r ∷ rs

-- All SKUs for none, or for the key 0.
abbrev pub skus_to_forecast : Option ℕ → Action Store (List Sku)
skus_to_forecast none = gets (λ w. w.db.skus.rows)
skus_to_forecast (some sku) =
    if sku == 0 then gets (λ w. w.db.skus.rows) else (get_sku sku >>= λ s. pure (s ∷ []))

-- `prepare_forecast_dataframe` and the engine (the packages pandas and prophet): none if the data do
-- not suffice; either may raise.
module _ (predict : ℕ → Store → Result (Option EngineResult)) where
  unfoldable pub forecast_for_sku : Sku → Action Store ForecastReport
  forecast_for_sku sku = (λ w. (predict sku.id w, w)) >>= store_result sku

  unfoldable pub forecast_each : List Sku → Action Store (List ForecastReport)
  forecast_each [] = pure []
  forecast_each (s ∷ ss) = do
    report ← catch (forecast_for_sku s >>= some_report) (λ e. pure none)
    rest ← forecast_each ss
    pure (with_report report rest)

  unfoldable pub run_forecast : Option ℕ → Action Store (List ForecastReport)
  run_forecast sku = skus_to_forecast sku >>= forecast_each
