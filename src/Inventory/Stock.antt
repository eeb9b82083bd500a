-- ===== src/Inventory/Stock.antt =====
-- Stock levels: `adjust_stock` of the repository and of the service, and the deletion of a supplier
-- (apps/inventory/services.py, apps/inventory/repositories.py).
use smart_stock_ai.Prelude.{ℕ, ◌+◌, ◌&&◌, Bool, false, List, [], ◌∷◌, ◌==◌, any}
use smart_stock_ai.Prelude.Int.{ℤ, ◌+ℤ◌, ltb_ℤ}
use smart_stock_ai.Prelude.Action.{
  Action, ok, err, does_not_exist, insufficient_stock, validation_error, ◌>>=◌, ◌>>◌, pure, gets,
  or_raise, raise_if, modify,
}
use smart_stock_ai.Prelude.Table.{find, update}
use smart_stock_ai.Database.{Db, StockLevel, Status, is_one_of, stock_adjusted}
use smart_stock_ai.Orders.Service.{send_signal}
use smart_stock_ai.Orders.Repository.{supplier_key}

abbrev pub stock_key : StockLevel → ℕ
stock_key s = s.id

abbrev pub with_levels : List StockLevel → Db → Db
with_levels rows d = record d {
  stock_levels = record { rows = rows; next_id = d.stock_levels.next_id };
}

-- `transaction.atomic`: an exception takes back what was written to the database, but not the
-- version of the product cache, which is a variable of the process.
abbrev pub transaction : {A : Type 0} → Action Db A → Action Db A
transaction m d =
    let (r, t) = m d in
    elim r [ ok a ↦ (ok a, t) | err e ↦ (err e, record d { cache_version = t.cache_version }) ]

-- `_invalidate_product_cache`
abbrev pub invalidate_product_cache : Action Db (Unit {0})
invalidate_product_cache = modify (λ d. record d { cache_version = d.cache_version + 1 })

abbrev pub get_stock_level : ℕ → Action Db StockLevel
get_stock_level id = do
  or_raise (← gets (λ d. find stock_key id d.stock_levels.rows)) does_not_exist

abbrev pub change_level : ℕ → ℤ → StockLevel → Action Db StockLevel
change_level stock_level_id quantity_delta stock = do
  raise_if (ltb_ℤ (stock.quantity_on_hand +ℤ quantity_delta) stock.quantity_reserved)
      insufficient_stock
  modify (λ d.
      with_levels
        (update stock_key stock_level_id
          (λ s. record s { quantity_on_hand = stock.quantity_on_hand +ℤ quantity_delta })
          d.stock_levels.rows)
        d)
  pure (record stock { quantity_on_hand = stock.quantity_on_hand +ℤ quantity_delta })

-- ProductRepository.adjust_stock
unfoldable pub repo_adjust_stock : ℕ → ℤ → Action Db StockLevel
repo_adjust_stock stock_level_id quantity_delta =
    transaction (get_stock_level stock_level_id >>= change_level stock_level_id quantity_delta)

abbrev pub announce_adjustment : ℕ → ℤ → StockLevel → Action Db StockLevel
announce_adjustment stock_level_id quantity_delta stock = do
  invalidate_product_cache
  send_signal (stock_adjusted stock_level_id quantity_delta)
  pure stock

unfoldable pub adjust_stock : ℕ → ℤ → Action Db StockLevel
adjust_stock stock_level_id quantity_delta =
    repo_adjust_stock stock_level_id quantity_delta
    >>= announce_adjustment stock_level_id quantity_delta

-- The statuses that keep a supplier from being deleted.
abbrev pub blocks_deletion : Status → Bool
blocks_deletion s =
    is_one_of s (Status.draft ∷ Status.pending_approval ∷ Status.approved ∷ Status.sent ∷ [])

unfoldable pub delete_supplier : ℕ → Action Db (Unit {0})
delete_supplier supplier_id = do
  d ← gets (λ d. d)
  raise_if (any (λ r. r.supplier_id == supplier_id && blocks_deletion r.status) d.orders.rows)
      validation_error
  modify (λ d. record d {
    suppliers = record {
      rows = update supplier_key supplier_id (λ s. record s { is_active = false }) d.suppliers.rows;
      next_id = d.suppliers.next_id;
    };
  })
