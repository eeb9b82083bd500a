-- ===== src/Forecasting.antt =====
-- Forecasts and reorder flags (apps/forecasting/models.py), and the store that the forecasting
-- service, the decision agent and the daily pipeline share: the database of the other services with
-- these two tables. Quantities of a forecast are in hundredths (the engine rounds to two decimals and
-- to no less than 0, apps/forecasting/prophet_engine.py), dates are days, and the time zone is UTC.
pub mod Repository
pub mod Service
pub mod Flags
pub mod Persisted
pub mod Reports
use smart_stock_ai.Prelude.{ℕ, ◌/◌, ◌*◌, ◌+◌, Bool, Option, String, List}
use smart_stock_ai.Prelude.Double.{Double}
use smart_stock_ai.Prelude.Int.{ℤ, pos, negsuc}
use smart_stock_ai.Prelude.Action.{Action, Result}
use smart_stock_ai.Prelude.Table.{Table}
use smart_stock_ai.Database.{Db}

-- A measure of a model's error in hundredths, as a float that may be infinite or no number.
pub data Measure : Type 0 where
  finite : ℕ → Measure
  not_finite : Measure

pub record ForecastResult : Type 0 where
  pub id : ℕ
  pub sku : ℕ
  pub forecast_date : ℕ
  pub predicted_quantity : ℕ
  pub lower_bound : Option ℕ
  pub upper_bound : Option ℕ
  pub mae : Option Measure
  pub mape : Option Measure
  pub model_version : String

pub data FlagStatus : Type 0 where
  opened consumed dismissed : FlagStatus

pub record ReorderFlag : Type 0 where
  pub id : ℕ
  pub sku : ℕ
  pub quantity_available : ℤ
  pub total_predicted_demand : Double
  pub safety_stock : ℤ
  pub lead_time_days : ℤ
  pub forecast_days : ℤ
  pub reorder_required : Bool
  pub has_open_po : Bool
  pub open_po_id : Option ℕ
  pub reasoning : String
  pub status : FlagStatus
  pub created_at : ℕ

pub record Store : Type 0 where
  pub db : Db
  pub forecasts : Table ForecastResult
  pub flags : Table ReorderFlag

-- `timezone.localdate()`
abbrev pub today : Store → ℕ
today w = w.db.now / 86400

abbrev pub flag_key : ReorderFlag → ℕ
flag_key f = f.id

abbrev pub forecast_key : ForecastResult → ℕ
forecast_key f = f.id

-- A call of another service inside one that has the larger store.
abbrev pub on_db : {A : Type 0} → Action Db A → Action Store A
on_db m w = let (r, d) = m w.db in (r, record w { db = d })
