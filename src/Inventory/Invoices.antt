-- ===== src/Inventory/Invoices.antt =====
-- Confirmed invoices (apps/inventory/services.py): the stock that they add.
use text.Mathlib.Text.{◌==◌ as str_eq}
use smart_stock_ai.Prelude.{
  ℕ, ◌+◌, Bool, true, Option, none, some, List, [], ◌∷◌, ◌++◌, String, if◌then◌else◌,
}
use smart_stock_ai.Prelude.Int.{ℤ, pos, ◌+ℤ◌, ltb_ℤ}
use smart_stock_ai.Prelude.Action.{
  Action, does_not_exist, validation_error, value_error, invalid_operation, ◌>>=◌, ◌>>◌, pure,
  raise, gets, or_raise, raise_if, modify,
}
use smart_stock_ai.Prelude.Table.{find, update}
use smart_stock_ai.Database.{Db, Product, Sku, StockLevel}
use smart_stock_ai.Orders.Repository.{product_key}
use smart_stock_ai.Inventory.Stock.{stock_key, with_levels, get_stock_level}

-- Python's and PostgreSQL's functions on texts.
pub record Texts : Type 0 where
  pub strip : String → String
  pub upper : String → String
  pub iexact : String → String → Bool

-- A price as the Decimal package reads it: the sign, and the absolute value rounded to cents. NaN and
-- a positive infinity, and values with too many digits, are decimals that cannot be compared or rounded.
pub data RawPrice : Type 0 where
  no_price not_a_decimal not_quantizable : RawPrice
  decimal : Bool → ℕ → RawPrice

-- The confirmed data; the quantity as `int` reads it, none if it raises.
pub record Invoice : Type 0 where
  pub sku_code : String
  pub product_name : String
  pub supplier_name : String
  pub quantity_received : Option ℤ
  pub unit_price : RawPrice

pub record Receipt : Type 0 where
  pub product_id : ℕ
  pub sku_id : ℕ
  pub stock_level_id : ℕ
  pub quantity_added : ℤ
  pub quantity_on_hand : ℤ

abbrev pub parse_invoice_quantity : Option ℤ → Action Db ℤ
parse_invoice_quantity raw = do
  quantity ← or_raise raw value_error
  raise_if (ltb_ℤ quantity (pos 1)) validation_error
  pure quantity

abbrev pub parse_invoice_price : RawPrice → Action Db (Option ℕ)
parse_invoice_price no_price = pure none
parse_invoice_price not_a_decimal = raise validation_error
parse_invoice_price not_quantizable = raise invalid_operation
parse_invoice_price (decimal negative cents) =
    if negative then raise validation_error else pure (some cents)

abbrev pub sku_by_code : String → List Sku → Option Sku
sku_by_code code [] = none
sku_by_code code (s ∷ ss) = if str_eq s.code code then some s else sku_by_code code ss

-- `filter(sku_id=...).first()`: a SKU has at most one stock level.
abbrev pub level_of_sku : StockLevel → ℕ
level_of_sku s = s.sku

abbrev pub create_level_row : ℕ → ℤ → Db → StockLevel
create_level_row sku quantity d = record {
  id = d.stock_levels.next_id;
  sku = sku;
  quantity_on_hand = quantity;
  quantity_reserved = pos 0;
  reorder_point = pos 10;
  reorder_quantity = pos 50;
}

abbrev pub create_level : ℕ → ℤ → Action Db StockLevel
create_level sku quantity d =
    let s = create_level_row sku quantity d in
    pure s (record d {
      stock_levels = record {
        rows = d.stock_levels.rows ++ s ∷ [];
        next_id = d.stock_levels.next_id + 1;
      };
    })

abbrev pub add_to_level : ℤ → StockLevel → Action Db StockLevel
add_to_level quantity stock = do
  modify (λ d.
      with_levels
        (update stock_key stock.id
          (λ s. record s { quantity_on_hand = stock.quantity_on_hand +ℤ quantity })
          d.stock_levels.rows)
        d)
  get_stock_level stock.id

abbrev pub add_or_create : ℕ → ℤ → Option StockLevel → Action Db StockLevel
add_or_create sku quantity none = create_level sku quantity
add_or_create sku quantity (some stock) = add_to_level quantity stock

abbrev pub get_product : ℕ → Action Db Product
get_product id = do or_raise (← gets (λ d. find product_key id d.products.rows)) does_not_exist

abbrev pub create_product : String → Option ℕ → Option ℕ → Action Db Product
create_product name supplier unit_price d =
    let p : Product = record {
      id = d.products.next_id;
      name = name;
      supplier = supplier;
      unit_price = unit_price;
      reorder_point = pos 10;
      safety_stock = pos 0;
      is_active = true;
    } in
    pure p (record d {
      products = record { rows = d.products.rows ++ p ∷ []; next_id = d.products.next_id + 1 };
    })

abbrev pub create_sku : ℕ → String → Action Db Sku
create_sku product code d =
    let s : Sku = record { id = d.skus.next_id; product = product; code = code } in
    pure s
      (record d { skus = record { rows = d.skus.rows ++ s ∷ []; next_id = d.skus.next_id + 1 } })

-- The columns of `updates`: the price and the supplier, where they are known.
abbrev pub priced : Option ℕ → Option ℕ → Product → Product
priced unit_price supplier p = record p {
  unit_price = elim unit_price [ none ↦ p.unit_price | some u ↦ some u ];
  supplier = elim supplier [ none ↦ p.supplier | some s ↦ some s ];
}

abbrev pub update_product : Option ℕ → Option ℕ → Product → Action Db Product
update_product unit_price supplier product = do
  modify (λ d. record d {
    products = record {
      rows = update product_key product.id (priced unit_price supplier) d.products.rows;
      next_id = d.products.next_id;
    };
  })
  get_product product.id

abbrev pub receipt_of : ℕ → ℕ → ℤ → StockLevel → Receipt
receipt_of product sku quantity stock = record {
  product_id = product;
  sku_id = sku;
  stock_level_id = stock.id;
  quantity_added = quantity;
  quantity_on_hand = stock.quantity_on_hand;
}

-- The price and the supplier of a known product, if the invoice has one of them.
abbrev pub reprice : Option ℕ → Option ℕ → Product → Action Db Product
reprice none none product = pure product
reprice unit_price supplier product = update_product unit_price supplier product

abbrev pub receive : Option Sku → String → String → Option ℕ → ℤ → Option ℕ → Action Db Receipt
receive (some sku) code name supplier quantity unit_price = do
  product ← get_product sku.product
  stock ← (λ d. add_or_create sku.id quantity (find level_of_sku sku.id d.stock_levels.rows) d)
  updated ← reprice unit_price supplier product
  pure (receipt_of updated.id sku.id quantity stock)
receive none code name supplier quantity unit_price = do
  product ← create_product name supplier unit_price
  sku ← create_sku product.id code
  stock ← create_level sku.id quantity
  pure (receipt_of product.id sku.id quantity stock)
