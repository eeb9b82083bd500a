-- ===== src/Decision/Kept.antt =====
-- An evaluation (`evaluate_sku` of ai/agents/decision_agent.py) writes nothing but reorder flags.
use smart_stock_ai.Prelude.{
  ℕ, Bool, true, false, Option, List, [], ◌∷◌, ◌≡◌, refl, ap, String, if◌then◌else◌, select,
}
use smart_stock_ai.Prelude.Action.{Result, ok, err}
use smart_stock_ai.Prelude.Keeps.{Keeps, >>=-Keeps}
use smart_stock_ai.Database.{Db}
use smart_stock_ai.Forecasting.{ReorderFlag, Store}
use smart_stock_ai.Forecasting.Repository.{
  FlagData, write_or_insert, upsert_open_reorder_flag, is_open_for,
}
use smart_stock_ai.Forecasting.Service.{persist_reorder_flag, sku_of_decision}
use smart_stock_ai.Forecasting.Persisted.{sku_of_decision-same}
use smart_stock_ai.Decision.Agent.{
  Dialogue, Decision, Reasoner, Observed, conclude, raise_flag, flag_data, with_flag, explained,
  for_sku, decide_on, observe_sku, evaluate_sku,
}

abbrev pub db_of : Store → Db
db_of w = w.db

write_or_insert-Keeps :
    (sku : ℕ) (c : FlagData) (fs : List ReorderFlag) → Keeps db_of (write_or_insert sku c fs)
write_or_insert-Keeps sku c [] = λ w. refl
write_or_insert-Keeps sku c (f ∷ []) = λ w. refl
write_or_insert-Keeps sku c (f ∷ (g ∷ gs)) = λ w. refl

upsert-Keeps : (sku : ℕ) (c : FlagData) → Keeps db_of (upsert_open_reorder_flag sku c)
unfolding upsert_open_reorder_flag
upsert-Keeps sku c w = write_or_insert-Keeps sku c (select (is_open_for sku) w.flags.rows) w

persist_reorder_flag-Keeps :
    (k : Option ℕ) (code : String) (c : FlagData) → Keeps db_of (persist_reorder_flag k code c)
unfolding persist_reorder_flag
persist_reorder_flag-Keeps k code c =
    >>=-Keeps db_of (sku_of_decision k code) (λ s. upsert_open_reorder_flag s.id c)
      (λ w. ap db_of (sku_of_decision-same k code w)) (λ s. upsert-Keeps s.id c)

conclude-Keeps : (d : Decision) → Keeps db_of (conclude d)
conclude-Keeps d w = by_need d.reorder_required
  where
    by_need :
        (b : Bool)
        → db_of (if◌then◌else◌ {A = Result Decision × Store} b (raise_flag d w) (ok d, w)).1
          ≡ db_of w
    by_need true =
        >>=-Keeps db_of (persist_reorder_flag d.sku_id d.sku_code (flag_data d)) (with_flag d)
          (persist_reorder_flag-Keeps d.sku_id d.sku_code (flag_data d)) (λ f t. refl) w
    by_need false = refl

decide_on-Keeps :
    (reasoner : Reasoner) (decision : Observed → Decision) (r : Result Observed)
    → Keeps db_of (decide_on reasoner decision r)
decide_on-Keeps reasoner decision (err e) = λ w. refl
decide_on-Keeps reasoner decision (ok o) = conclude-Keeps (explained reasoner (decision o))

pub evaluate_sku-Keeps :
    (reasoner : Reasoner) (tool_retries sku : ℕ) (dialogue : Dialogue)
    → Keeps db_of (evaluate_sku reasoner tool_retries sku dialogue)
unfolding evaluate_sku
evaluate_sku-Keeps reasoner tool_retries sku dialogue w =
    decide_on-Keeps reasoner (for_sku sku) (observe_sku tool_retries sku dialogue w) w
