-- ===== src/Inventory/Decisions.antt =====
-- What the inventory service tells the decision agent: `get_decision_stock_data` and
-- `get_decision_stock_data_by_sku` (apps/inventory/services.py), over StockLevelRepository.
use smart_stock_ai.Prelude.{
  ◌≡◌, refl, arith, ℕ, Bool, false, Option, none, some, List, [], ◌∷◌, String, if◌then◌else◌, ltb,
  ◌==◌, select,
}
use smart_stock_ai.Prelude.Int.{ℤ, pos, ◌-ℤ◌, eqb_ℤ}
use smart_stock_ai.Prelude.Action.{ok, Action, does_not_exist, stock_not_found, pure, raise}
use smart_stock_ai.Prelude.Table.{find}
use smart_stock_ai.Database.{Db, StockLevel, Supplier, Product, Sku}
use smart_stock_ai.Orders.Repository.{sku_key, product_key, supplier_key}
use smart_stock_ai.Inventory.Invoices.{level_of_sku}

-- `StockLevel.quantity_available`
unfoldable pub quantity_available : StockLevel → ℤ
quantity_available s = s.quantity_on_hand -ℤ s.quantity_reserved

-- `getattr(supplier, 'default_lead_time_days', None) or 7`
abbrev pub lead_time : Option Supplier → ℤ
lead_time none = pos 7
lead_time (some s) =
    if eqb_ℤ s.default_lead_time_days (pos 0) then pos 7 else s.default_lead_time_days

abbrev pub supplier_of : Product → Db → Option Supplier
supplier_of p d = elim p.supplier [ none ↦ none | some k ↦ find supplier_key k d.suppliers.rows ]

-- `sku__product_id=product_id`
abbrev pub belongs : ℕ → Option Sku → Bool
belongs product none = false
belongs product (some s) = s.product == product

abbrev pub level_in_product : ℕ → Db → StockLevel → Bool
level_in_product product d s = belongs product (find sku_key s.sku d.skus.rows)

abbrev pub first_level : List StockLevel → Option StockLevel
first_level [] = none
first_level (s ∷ ss) = elim (first_level ss) [
  | none ↦ some s
  | some t ↦ some (if ltb t.id s.id then t else s)
]

unfoldable pub get_by_product_id : ℕ → Db → Option StockLevel
get_by_product_id product d = first_level (select (level_in_product product d) d.stock_levels.rows)

-- A SKU has at most one stock level.
unfoldable pub get_by_sku_id : ℕ → Db → Option StockLevel
get_by_sku_id sku d = find level_of_sku sku d.stock_levels.rows

pub record StockData : Type 0 where
  pub sku_id : ℕ
  pub sku_code : String
  pub product_id : ℕ
  pub quantity_available : ℤ
  pub reorder_point : ℤ
  pub lead_time_days : ℤ
  pub safety_stock : ℤ

abbrev pub stock_data : StockLevel → Sku → Product → Option Supplier → StockData
stock_data stock sku product supplier = record {
  sku_id = stock.sku;
  sku_code = sku.code;
  product_id = product.id;
  quantity_available = quantity_available stock;
  reorder_point =
      if eqb_ℤ stock.reorder_point (pos 0) then product.reorder_point else stock.reorder_point;
  lead_time_days = lead_time supplier;
  safety_stock = product.safety_stock;
}

-- The rows that `select_related` joins; a foreign key refers to a row.
abbrev pub with_product : StockLevel → Sku → Option Product → Action Db StockData
with_product stock sku none d = raise does_not_exist d
with_product stock sku (some product) d =
    pure (stock_data stock sku product (supplier_of product d)) d

abbrev pub with_sku : StockLevel → Option Sku → Action Db StockData
with_sku stock none d = raise does_not_exist d
with_sku stock (some sku) d =
    with_product stock sku (find product_key sku.product d.products.rows) d

abbrev pub describe : Option StockLevel → Action Db StockData
describe none d = raise stock_not_found d
describe (some stock) d = with_sku stock (find sku_key stock.sku d.skus.rows) d

unfoldable pub get_decision_stock_data : ℕ → Action Db StockData
get_decision_stock_data product d = describe (get_by_product_id product d) d

unfoldable pub get_decision_stock_data_by_sku : ℕ → Action Db StockData
get_decision_stock_data_by_sku sku d = describe (get_by_sku_id sku d) d

-- The stock data are those of the level that was found, and of its SKU and product.
abbrev pub Describes : Option StockLevel → Db → StockData → Type 0
Describes o d s =
    (stock : StockLevel) × (sku : Sku) × (product : Product) × (o ≡ some stock)
    × (find sku_key stock.sku d.skus.rows ≡ some sku)
    × (find product_key sku.product d.products.rows ≡ some product)
    × (s ≡ stock_data stock sku product (supplier_of product d))

with_product-Describes :
    (stock : StockLevel) (sku : Sku) (p : Option Product) (d : Db) (s : StockData)
    → find sku_key stock.sku d.skus.rows ≡ some sku
    → find product_key sku.product d.products.rows ≡ p
    → (with_product stock sku p d).0 ≡ ok s
    → Describes (some stock) d s
with_product-Describes stock sku none d s e f h = cc h
with_product-Describes stock sku (some p) d s e f h = (stock, sku, p, refl, e, f, ground arith)

with_sku-Describes :
    (stock : StockLevel) (k : Option Sku) (d : Db) (s : StockData)
    → find sku_key stock.sku d.skus.rows ≡ k
    → (with_sku stock k d).0 ≡ ok s
    → Describes (some stock) d s
with_sku-Describes stock none d s e h = cc h
with_sku-Describes stock (some sku) d s e h =
    with_product-Describes stock sku (find product_key sku.product d.products.rows) d s e refl h

pub describe-Describes :
    (o : Option StockLevel) (d : Db) (s : StockData) → (describe o d).0 ≡ ok s → Describes o d s
describe-Describes none d s h = cc h
describe-Describes (some stock) d s h =
    with_sku-Describes stock (find sku_key stock.sku d.skus.rows) d s refl h
