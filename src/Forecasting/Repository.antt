-- ===== src/Forecasting/Repository.antt =====
-- ForecastingRepository (apps/forecasting/repositories.py): the operations that the decision agent
-- and the forecasting service use.
use smart_stock_ai.Prelude.{
  ℕ, ◌+◌, Bool, true, false, ◌&&◌, Option, none, some, List, [], ◌∷◌, ◌++◌, String, ltb, leb, ◌==◌,
  if◌then◌else◌, select,
}
use smart_stock_ai.Prelude.Double.{Double}
use smart_stock_ai.Prelude.Int.{ℤ}
use smart_stock_ai.Prelude.Action.{
  Action, does_not_exist, other_error, ◌>>=◌, pure, raise, gets, or_raise, modify,
}
use smart_stock_ai.Prelude.Table.{find, update}
use smart_stock_ai.Prelude.Sorting.{sort, take}
use smart_stock_ai.Database.{Sku}
use smart_stock_ai.Orders.Repository.{sku_key}
use smart_stock_ai.Inventory.Invoices.{sku_by_code}
use smart_stock_ai.Forecasting.{
  ForecastResult, ReorderFlag, FlagStatus, Store, Measure, today, flag_key, forecast_key,
}

abbrev pub earlier : ForecastResult → ForecastResult → Bool
earlier a b = ltb a.forecast_date b.forecast_date

abbrev pub is_next : ℕ → (ForecastResult → Bool) → ForecastResult → Bool
is_next day chosen f = chosen f && leb day f.forecast_date

-- `filter(..., forecast_date__gte=today).order_by('forecast_date')[:forecast_days]`
abbrev pub next_forecasts : (ForecastResult → Bool) → ℕ → Store → List ForecastResult
next_forecasts chosen forecast_days w =
    take forecast_days (sort earlier (select (is_next (today w) chosen) w.forecasts.rows))

abbrev pub is_for_sku : ℕ → ForecastResult → Bool
is_for_sku sku f = f.sku == sku

-- `sku__product_id=product_id`
abbrev pub belongs_to : ℕ → Option Sku → Bool
belongs_to product none = false
belongs_to product (some s) = s.product == product

abbrev pub is_for_product : ℕ → Store → ForecastResult → Bool
is_for_product product w f = belongs_to product (find sku_key f.sku w.db.skus.rows)

unfoldable pub get_next_for_sku : ℕ → ℕ → Store → List ForecastResult
get_next_for_sku sku forecast_days w = next_forecasts (is_for_sku sku) forecast_days w

unfoldable pub get_next_for_product : ℕ → ℕ → Store → List ForecastResult
get_next_for_product product forecast_days w =
    next_forecasts (is_for_product product w) forecast_days w

unfoldable pub get_sku : ℕ → Action Store Sku
get_sku id = do or_raise (← gets (λ w. find sku_key id w.db.skus.rows)) does_not_exist

unfoldable pub get_sku_by_code : String → Action Store Sku
get_sku_by_code code = do or_raise (← gets (λ w. sku_by_code code w.db.skus.rows)) does_not_exist

-- `filter(product_id=...).order_by('id').first()`
abbrev pub first_by_id : List Sku → Option Sku
first_by_id [] = none
first_by_id (s ∷ ss) = elim (first_by_id ss) [
  | none ↦ some s
  | some t ↦ some (if ltb t.id s.id then t else s)
]

unfoldable pub get_primary_sku_for_product : ℕ → Store → Option Sku
get_primary_sku_for_product product w =
    first_by_id (select (λ s. s.product == product) w.db.skus.rows)

abbrev pub is_open : FlagStatus → Bool
is_open FlagStatus.opened = true
is_open _ = false

abbrev pub is_open_for : ℕ → ReorderFlag → Bool
is_open_for sku f = f.sku == sku && is_open f.status

-- The `defaults` of `upsert_open_reorder_flag`.
pub record FlagData : Type 0 where
  pub quantity_available : ℤ
  pub total_predicted_demand : Double
  pub safety_stock : ℤ
  pub lead_time_days : ℤ
  pub forecast_days : ℤ
  pub reorder_required : Bool
  pub has_open_po : Bool
  pub open_po_id : Option ℕ
  pub reasoning : String

abbrev pub flag_row : ℕ → FlagData → ℕ → ℕ → ReorderFlag
flag_row sku columns id created_at = record {
  id = id;
  sku = sku;
  quantity_available = columns.quantity_available;
  total_predicted_demand = columns.total_predicted_demand;
  safety_stock = columns.safety_stock;
  lead_time_days = columns.lead_time_days;
  forecast_days = columns.forecast_days;
  reorder_required = columns.reorder_required;
  has_open_po = columns.has_open_po;
  open_po_id = columns.open_po_id;
  reasoning = columns.reasoning;
  status = FlagStatus.opened;
  created_at = created_at;
}

abbrev pub with_flags : List ReorderFlag → ℕ → Store → Store
with_flags rows next_id w = record w { flags = record { rows = rows; next_id = next_id } }

abbrev pub insert_flag : ℕ → FlagData → Action Store ReorderFlag
insert_flag sku columns w =
    let f = flag_row sku columns w.flags.next_id w.db.now in
    pure f (with_flags (w.flags.rows ++ f ∷ []) (w.flags.next_id + 1) w)

abbrev pub write_flag : ℕ → FlagData → ReorderFlag → Action Store ReorderFlag
write_flag sku columns old w =
    let f = flag_row sku columns old.id old.created_at in
    pure f (with_flags (update flag_key old.id (λ g. f) w.flags.rows) w.flags.next_id w)

-- What `update_or_create` does with the rows that it finds: more than one raises.
abbrev pub write_or_insert : ℕ → FlagData → List ReorderFlag → Action Store ReorderFlag
write_or_insert sku columns [] = insert_flag sku columns
write_or_insert sku columns (f ∷ []) = write_flag sku columns f
write_or_insert sku columns (f ∷ (g ∷ gs)) = raise other_error

unfoldable pub upsert_open_reorder_flag : ℕ → FlagData → Action Store ReorderFlag
upsert_open_reorder_flag sku columns w =
    write_or_insert sku columns (select (is_open_for sku) w.flags.rows) w

-- What a forecast of one day holds.
pub record Prediction : Type 0 where
  pub forecast_date : ℕ
  pub predicted_quantity : ℕ
  pub lower_bound : Option ℕ
  pub upper_bound : Option ℕ

abbrev pub forecast_row :
    ℕ → Prediction → Option Measure → Option Measure → String → ℕ → ForecastResult
forecast_row sku p mae mape model_version id = record {
  id = id;
  sku = sku;
  forecast_date = p.forecast_date;
  predicted_quantity = p.predicted_quantity;
  lower_bound = p.lower_bound;
  upper_bound = p.upper_bound;
  mae = mae;
  mape = mape;
  model_version = model_version;
}

abbrev pub same_day : ℕ → ℕ → ForecastResult → Bool
same_day sku day f = f.sku == sku && f.forecast_date == day

-- The table has one row per SKU and day (`unique_together`).
abbrev pub write_forecast : (ℕ → ForecastResult) → Option ForecastResult → Store → Store
write_forecast row none w = record w {
  forecasts = record {
    rows = w.forecasts.rows ++ row w.forecasts.next_id ∷ [];
    next_id = w.forecasts.next_id + 1;
  };
}
write_forecast row (some old) w = record w {
  forecasts = record {
    rows = update forecast_key old.id (λ f. row old.id) w.forecasts.rows;
    next_id = w.forecasts.next_id;
  };
}

abbrev pub first_where : {A : Type 0} → (A → Bool) → List A → Option A
first_where p [] = none
first_where p (x ∷ xs) = if p x then some x else first_where p xs

unfoldable pub upsert :
    ℕ → Prediction → Option Measure → Option Measure → String → Action Store (Unit {0})
upsert sku p mae mape model_version = modify (λ w.
    write_forecast (forecast_row sku p mae mape model_version)
      (first_where (same_day sku p.forecast_date) w.forecasts.rows) w)
