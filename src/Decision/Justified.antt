-- ===== src/Decision/Justified.antt =====
-- What stands behind a decision on a SKU (`evaluate_sku` of ai/agents/decision_agent.py).
use mathlib.Core.Path.{subst}
use smart_stock_ai.Prelude.{
  if◌then◌else◌, ◌∙◌, ℕ, Bool, true, false, not, ◌&&◌, ◌≡◌, ◌⊎◌, inl, inr, refl, ap,
}
use smart_stock_ai.Prelude.Action.{bind_ind, Result, ok, err, >>=-pure}
use smart_stock_ai.Orders.Service.{get_open_po_status_by_sku}
use smart_stock_ai.Inventory.Decisions.{
  StockData, Describes, describe-Describes, get_by_sku_id, get_decision_stock_data_by_sku,
}
use smart_stock_ai.Forecasting.Persisted.{persist_reorder_flag-Undone, Undone}
use smart_stock_ai.Forecasting.{Store}
use smart_stock_ai.Forecasting.Repository.{get_next_for_sku}
use smart_stock_ai.Forecasting.Service.{
  ForecastData, total_predicted, horizon, is_short, get_decision_forecast_data_by_sku,
  forecast_data, code_of_first, or_code_of, persist_reorder_flag,
}
use smart_stock_ai.Decision.Agent.{
  decide_on, for_sku, raise_flag, Dialogue, Decision, Reasoner, Observed, explained, conclude,
  flag_data, with_flag, observe_sku, evaluate_sku,
}
use smart_stock_ai.Decision.Observed.{SeesAll, observe_sku-SeesAll}

module _ (sku : ℕ) (w : Store) where
  stock_of_sku :
      (s : StockData)
      → (get_decision_stock_data_by_sku sku w.db).0 ≡ ok s
      → Describes (get_by_sku_id sku w.db) w.db s
  unfolding get_decision_stock_data_by_sku
  stock_of_sku s h = describe-Describes (get_by_sku_id sku w.db) w.db s h

  forecast_of_sku :
      (days : ℕ) (f : ForecastData)
      → (get_decision_forecast_data_by_sku sku days w).0 ≡ ok f
      → f.total_predicted_demand ≡ total_predicted (get_next_for_sku sku (horizon days) w)
  unfolding get_decision_forecast_data_by_sku
  forecast_of_sku days f h =
      let forecasts = get_next_for_sku sku (horizon days) w in
      let found =
        (>>=-pure (or_code_of (code_of_first forecasts w.db) sku)
          (λ code. forecast_data code (horizon days) forecasts) w h) in
      cc (ap (λ g. g.total_predicted_demand) (found.2))

  -- A decision is on the stock level of the SKU, on the forecasts of the SKU for some number of days
  -- from today on, and on the open order of the SKU: stock is reordered exactly if it falls short of
  -- the forecasts and the safety stock, and no order is open. Without a reorder, and after an
  -- exception, the store is as it was.
  abbrev pub Justified : Result Decision × Store → Type 0
  Justified (err e, t) = t ≡ w
  Justified (ok d, t) =
      (stock : StockData) × (days : ℕ) × Describes (get_by_sku_id sku w.db) w.db stock
      × (d.reorder_required
          ≡ is_short stock.quantity_available
              (total_predicted (get_next_for_sku sku (horizon days) w)) stock.safety_stock
            && not (get_open_po_status_by_sku sku w.db).0)
      × ((d.reorder_required ≡ true) ⊎ (t ≡ w))

module _ (reasoner : Reasoner) (tool_retries : ℕ) (sku : ℕ) (w : Store) where
  -- Raising the flag keeps the decision, but for the key of the flag.
  abbrev Decided : Decision → Result Decision × Store → Type 0
  Decided d (ok x, t) = x.reorder_required ≡ d.reorder_required
  Decided d (err e, t) = t ≡ w

  raise_flag-Decided : (d : Decision) → Decided d (raise_flag d w)
  raise_flag-Decided d =
      bind_ind (Decided d) (persist_reorder_flag d.sku_id d.sku_code (flag_data d)) (with_flag d) w
        (λ f t e. refl)
        (λ x t e.
          subst (λ r. Undone w r) e
            (persist_reorder_flag-Undone d.sku_id d.sku_code (flag_data d) w))

  -- The parts of `Justified` that are known when the decision is made.
  abbrev Grounds : Decision → Type 0
  Grounds d =
      (stock : StockData) × (days : ℕ) × Describes (get_by_sku_id sku w.db) w.db stock
      × (d.reorder_required
          ≡ is_short stock.quantity_available
              (total_predicted (get_next_for_sku sku (horizon days) w)) stock.safety_stock
            && not (get_open_po_status_by_sku sku w.db).0)

  for_sku-Grounds : (o : Observed) → SeesAll sku w o → Grounds (for_sku sku o)
  for_sku-Grounds o (s, (days, f), p) =
      (o.stock, days, stock_of_sku sku w o.stock s, cc (forecast_of_sku sku w days o.forecast f, p))

  with_Grounds :
      (d : Decision)
      → Grounds d
      → d.reorder_required ≡ true
      → (r : Result Decision × Store) → Decided d r
      → Justified sku w r
  with_Grounds d g h (ok x, t) same = (g.0, g.1, g.2, same ∙ g.3, inl (same ∙ h))
  with_Grounds d g h (err e, t) same = same

  conclude-Justified : (d : Decision) → Grounds d → Justified sku w (conclude d w)
  conclude-Justified d g = by_need d.reorder_required refl
    where
      by_need :
          (b : Bool)
          → d.reorder_required ≡ b
          → Justified sku w (if b then raise_flag d w else (ok d, w))
      by_need true e = with_Grounds d g e (raise_flag d w) (raise_flag-Decided d)
      by_need false e = (g.0, g.1, g.2, g.3, inr refl)

  decide_on-Justified :
      (r : Result Observed)
      → ((o : Observed) → r ≡ ok o → SeesAll sku w o)
      → Justified sku w (decide_on reasoner (for_sku sku) r w)
  decide_on-Justified (err e) h = refl
  decide_on-Justified (ok o) h =
      conclude-Justified (explained reasoner (for_sku sku o)) (for_sku-Grounds o (h o refl))

  -- Whatever tools the language model calls and whatever SKUs it names in them, a decision on a
  -- SKU rests on the stock level, the product, the open order and, for some number of days, the
  -- next forecasts of that SKU: it requires a reorder exactly if the units that are free are
  -- fewer than the forecasts and the safety stock, summed up as Python sums floats, and no order
  -- is open. Without a reorder, and after an exception, the store is as it was.
  pub evaluate_sku-Justified :
      (dialogue : Dialogue) → Justified sku w (evaluate_sku reasoner tool_retries sku dialogue w)
  unfolding evaluate_sku
  evaluate_sku-Justified dialogue =
      decide_on-Justified (observe_sku tool_retries sku dialogue w)
        (λ o e. observe_sku-SeesAll sku w tool_retries dialogue o e)
