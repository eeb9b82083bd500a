-- ===== src/Forecasting/Reports.antt =====
-- `run_forecast` (apps/forecasting/services.py) writes forecasts and nothing else.
use smart_stock_ai.Prelude.{ℕ, suc, Option, none, some, List, [], ◌∷◌, ◌≡◌, refl, String, ◌==◌}
use smart_stock_ai.Prelude.Action.{Action, Result, does_not_exist, ◌>>=◌, pure, gets, catch}
use smart_stock_ai.Prelude.Keeps.{Keeps, >>=-Keeps, catch-Keeps, or_raise-Keeps, if-Keeps}
use smart_stock_ai.Prelude.Table.{find, Table}
use smart_stock_ai.Database.{Db, Sku}
use smart_stock_ai.Orders.Repository.{sku_key}
use smart_stock_ai.Forecasting.{ForecastResult, ReorderFlag, Store, Measure}
use smart_stock_ai.Forecasting.Repository.{
  Prediction, upsert, write_forecast, first_where, same_day, forecast_row, get_sku,
}
use smart_stock_ai.Forecasting.Service.{
  EngineResult, ForecastReport, upsert_all, report, store_result, forecast_for_sku, some_report,
  forecast_each, skus_to_forecast, run_forecast, with_report, finite_only,
}

-- What forecasts do not touch.
abbrev pub others : Store → Db × Table ReorderFlag
others w = (w.db, w.flags)

write_forecast-Keeps :
    (row : ℕ → ForecastResult) (o : Option ForecastResult) (w : Store)
    → others (write_forecast row o w) ≡ others w
write_forecast-Keeps row none w = refl
write_forecast-Keeps row (some old) w = refl

upsert-Keeps :
    (sku : ℕ) (p : Prediction) (mae mape : Option Measure) (v : String)
    → Keeps others (upsert sku p mae mape v)
unfolding upsert
upsert-Keeps sku p mae mape v w =
    write_forecast-Keeps (forecast_row sku p mae mape v)
      (first_where (same_day sku p.forecast_date) w.forecasts.rows) w

upsert_all-Keeps :
    (sku : ℕ) (mae mape : Option Measure) (v : String) (ps : List Prediction)
    → Keeps others (upsert_all sku mae mape v ps)
unfolding upsert_all
upsert_all-Keeps sku mae mape v [] = λ w. refl
upsert_all-Keeps sku mae mape v (p ∷ ps) =
    >>=-Keeps others (upsert sku p mae mape v) (λ x. upsert_all sku mae mape v ps >>= counted)
      (upsert-Keeps sku p mae mape v)
      (λ x.
        >>=-Keeps others (upsert_all sku mae mape v ps) counted (upsert_all-Keeps sku mae mape v ps)
          (λ n w. refl))
  where
    counted : ℕ → Action Store ℕ
    counted n = pure (suc n)

module _ (predict : ℕ → Store → Result (Option EngineResult)) where
  store_result-Keeps : (sku : Sku) (o : Option EngineResult) → Keeps others (store_result sku o)
  store_result-Keeps sku none = λ w. refl
  store_result-Keeps sku (some r) =
      >>=-Keeps others
        (upsert_all sku.id (finite_only r.mae) (finite_only r.mape) r.model_version r.results)
        (report sku (finite_only r.mae) (finite_only r.mape))
        (upsert_all-Keeps sku.id (finite_only r.mae) (finite_only r.mape) r.model_version r.results)
        (λ n w. refl)

  forecast_for_sku-Keeps : (sku : Sku) → Keeps others (forecast_for_sku predict sku)
  unfolding forecast_for_sku
  forecast_for_sku-Keeps sku =
      >>=-Keeps others (λ w. (predict sku.id w, w)) (store_result sku) (λ w. refl)
        (store_result-Keeps sku)

  abbrev reported : List Sku → Option ForecastReport → Action Store (List ForecastReport)
  reported ss o = forecast_each predict ss >>= λ rest. pure (with_report o rest)

  forecast_each-Keeps : (ss : List Sku) → Keeps others (forecast_each predict ss)
  unfolding forecast_each
  forecast_each-Keeps [] = λ w. refl
  forecast_each-Keeps (s ∷ ss) =
      >>=-Keeps others (catch (forecast_for_sku predict s >>= some_report) (λ e. pure none))
        (reported ss)
        (catch-Keeps others (forecast_for_sku predict s >>= some_report) (λ e. pure none)
          (>>=-Keeps others (forecast_for_sku predict s) some_report (forecast_for_sku-Keeps s)
            (λ r w. refl))
          (λ e w. refl))
        (λ o.
          >>=-Keeps others (forecast_each predict ss) (λ rest. pure (with_report o rest))
            (forecast_each-Keeps ss) (λ rest w. refl))

  get_sku-Keeps : (sku : ℕ) → Keeps others (get_sku sku)
  unfolding get_sku
  get_sku-Keeps sku w = or_raise-Keeps others (find sku_key sku w.db.skus.rows) does_not_exist w

  skus_to_forecast-Keeps : (sku : Option ℕ) → Keeps others (skus_to_forecast sku)
  skus_to_forecast-Keeps none = λ w. refl
  skus_to_forecast-Keeps (some sku) =
      if-Keeps others (sku == 0) (gets (λ w. w.db.skus.rows)) (get_sku sku >>= λ s. pure (s ∷ []))
        (λ w. refl)
        (>>=-Keeps others (get_sku sku) (λ s. pure (s ∷ [])) (get_sku-Keeps sku) (λ s w. refl))

  pub run_forecast-Keeps : (sku : Option ℕ) → Keeps others (run_forecast predict sku)
  unfolding run_forecast
  run_forecast-Keeps sku =
      >>=-Keeps others (skus_to_forecast sku) (forecast_each predict) (skus_to_forecast-Keeps sku)
        forecast_each-Keeps
