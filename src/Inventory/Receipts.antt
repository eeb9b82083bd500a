-- ===== src/Inventory/Receipts.antt =====
-- Confirmed invoices (apps/inventory/services.py) keep the stock levels covered.
use smart_stock_ai.Prelude.{
  ℕ, Bool, true, false, Option, none, some, List, [], ◌∷◌, ◌≡◌, refl, String, arith, Bool-cases,
  inl, inr,
}
use smart_stock_ai.Prelude.Int.{ℤ, pos, ◌+ℤ◌, ◌≤ℤ◌, ltb_ℤ, +ℤ_parts}
use smart_stock_ai.Prelude.Action.{
  Action, Error, ◌>>=◌, ◌>>◌, pure, raise_if, does_not_exist, validation_error,
}
use smart_stock_ai.Prelude.Table.{find}
use smart_stock_ai.Database.{Db, StockLevel, Sku, Product}
use smart_stock_ai.Orders.Repository.{product_key}
use smart_stock_ai.Inventory.Stock.{stock_key, get_stock_level, adjust_stock}
use smart_stock_ai.Inventory.Invoices.{
  sku_by_code, Texts, Invoice, Receipt, RawPrice, no_price, not_a_decimal, not_quantizable, decimal,
  parse_invoice_quantity, parse_invoice_price, add_or_create, level_of_sku, get_product, reprice,
  receive, receipt_of,
}
use smart_stock_ai.Inventory.Apply.{
  nothing_applied, some_receipt, or_all_failed, renew_cache, apply_read, apply_confirmed_invoice,
  find_supplier, or_failed, apply_line, apply_lines, apply_confirmed_invoice_lines,
}
use smart_stock_ai.Inventory.Levels.{
  AllCovered, Covering, bind-Covering, catch-Covering, transaction-Covering, or_raise-Covering,
  put-AllCovered, create_level-Covering, find-level, find-Covers,
}
use smart_stock_ai.Inventory.Adjust.{adjust_stock-Covering}

get_stock_level-Covering : (id : ℕ) → Covering (get_stock_level id)
get_stock_level-Covering id d c =
    or_raise-Covering (find stock_key id d.stock_levels.rows) does_not_exist d c

get_product-Covering : (id : ℕ) → Covering (get_product id)
get_product-Covering id d c =
    or_raise-Covering (find product_key id d.products.rows) does_not_exist d c

more_covers : (r h q : ℤ) → r ≤ℤ h → pos 0 ≤ℤ q → r ≤ℤ h +ℤ q
more_covers r h q e p = omega (arith, +ℤ_parts h q, e, p)

add_or_create-Covering :
    (sku : ℕ) (q : ℤ) (o : Option StockLevel) (d : Db)
    → pos 0 ≤ℤ q
    → find level_of_sku sku d.stock_levels.rows ≡ o
    → AllCovered d
    → AllCovered (add_or_create sku q o d).1
add_or_create-Covering sku q none d p e c = create_level-Covering sku q p d c
add_or_create-Covering sku q (some s) d p e c =
    let found = find-level sku d.stock_levels.rows c.1 e in
    get_stock_level-Covering s.id _ (
      put-AllCovered s.id (s.quantity_on_hand +ℤ q) d c found (
        more_covers s.quantity_reserved s.quantity_on_hand q
          (find-Covers s.id d.stock_levels.rows c.0 found) p))

reprice-Covering :
    (unit_price supplier : Option ℕ) (product : Product)
    → Covering (reprice unit_price supplier product)
reprice-Covering none none product d c = c
reprice-Covering (some u) supplier product d c = get_product-Covering product.id _ c
reprice-Covering none (some s) product d c = get_product-Covering product.id _ c

receive-Covering :
    (sku : Option Sku) (code name : String) (supplier : Option ℕ) (q : ℤ) (unit_price : Option ℕ)
    → pos 0 ≤ℤ q
    → Covering (receive sku code name supplier q unit_price)
receive-Covering (some sku) code name supplier q unit_price p =
    bind-Covering (get_product sku.product) stocked (get_product-Covering sku.product) (λ product.
      bind-Covering add (repriced product)
        (λ d c.
          add_or_create-Covering sku.id q (find level_of_sku sku.id d.stock_levels.rows) d p refl c)
        (λ stock.
          bind-Covering (reprice unit_price supplier product) (given stock)
            (reprice-Covering unit_price supplier product) (λ updated d c. c)))
  where
    add : Action Db StockLevel
    add d = add_or_create sku.id q (find level_of_sku sku.id d.stock_levels.rows) d

    given : StockLevel → Product → Action Db Receipt
    given stock updated = pure (receipt_of updated.id sku.id q stock)

    repriced : Product → StockLevel → Action Db Receipt
    repriced product stock = reprice unit_price supplier product >>= given stock

    stocked : Product → Action Db Receipt
    stocked product = add >>= repriced product
receive-Covering none code name supplier q unit_price p =
    λ d c. create_level-Covering d.skus.next_id q p d c

-- What follows the reading of the numbers only has to be right for a quantity of at least one.
parsed-Covering :
    (raw : Option ℤ) (price : RawPrice) (f : ℤ → Option ℕ → Action Db Receipt)
    → ((q : ℤ) (u : Option ℕ) → pos 0 ≤ℤ q → Covering (f q u))
    → Covering (do
      quantity ← parse_invoice_quantity raw
      unit_price ← parse_invoice_price price
      f quantity unit_price)
parsed-Covering none price f h d c = c
parsed-Covering (some q) price f h d c = tested (ltb_ℤ q (pos 1)) refl
  where
    priced_next :
        (price : RawPrice)
        → ((u : Option ℕ) → pos 0 ≤ℤ q → Covering (f q u))
        → pos 0 ≤ℤ q
        → AllCovered ((parse_invoice_price price >>= f q) d).1
    priced_next no_price k p = k none p d c
    priced_next not_a_decimal k p = c
    priced_next not_quantizable k p = c
    priced_next (decimal true cents) k p = c
    priced_next (decimal false cents) k p = k (some cents) p d c

    tested :
        (low : Bool)
        → ltb_ℤ q (pos 1) ≡ low
        → AllCovered
            (((raise_if low validation_error >> pure q)
                >>= (λ quantity. parse_invoice_price price >>= f quantity))
              d).1
    tested true e = c
    tested false e = priced_next price (h q) (ground arith)

or_all_failed-Covering : (results : List (Option Receipt)) → Covering (or_all_failed results)
or_all_failed-Covering results d c = elim (Bool-cases (nothing_applied results)) [
  | inl nothing ↦ rw nothing c
  | inr something ↦ rw something c
]

module _ (texts : Texts) where
  apply_read-Covering :
      (invoice : Invoice) (q : ℤ) (u : Option ℕ)
      → pos 0 ≤ℤ q
      → Covering (apply_read texts invoice q u)
  apply_read-Covering invoice q u p d c =
      let code = texts.upper (texts.strip invoice.sku_code) in
      let name = texts.strip invoice.product_name in
      let supplier = find_supplier texts (texts.strip invoice.supplier_name) d in
      let sku = sku_by_code code d.skus.rows in
      bind-Covering (receive sku code name supplier q u) renew_cache
        (receive-Covering sku code name supplier q u p) (λ r t k. k) d c

  apply_confirmed_invoice-Covering :
      (invoice : Invoice) → Covering (apply_confirmed_invoice texts invoice)
  unfolding apply_confirmed_invoice
  apply_confirmed_invoice-Covering invoice = transaction-Covering _ (
      parsed-Covering invoice.quantity_received invoice.unit_price (apply_read texts invoice)
        (apply_read-Covering invoice))

  -- What is caught was rolled back already.
  apply_line-Covering : (name : String) (line : Invoice) → Covering (apply_line texts name line)
  apply_line-Covering name line =
      catch-Covering
        (apply_confirmed_invoice texts (record line { supplier_name = name }) >>= some_receipt)
        (or_failed texts)
        (bind-Covering (apply_confirmed_invoice texts (record line { supplier_name = name }))
          some_receipt (apply_confirmed_invoice-Covering (record line { supplier_name = name }))
          (λ r d c. c))
        (λ e. handled e)
    where
      handled : (e : Error) → Covering (or_failed texts e)
      handled Error.validation_error d c = c
      handled _ d c = c

  apply_lines-Covering :
      (name : String) (lines : List Invoice) → Covering (apply_lines texts name lines)
  unfolding apply_lines
  apply_lines-Covering name [] = λ d c. c
  apply_lines-Covering name (line ∷ lines) =
      bind-Covering (apply_line texts name line)
        (λ result. apply_lines texts name lines >>= λ rest. pure (result ∷ rest))
        (apply_line-Covering name line)
        (λ result.
          bind-Covering (apply_lines texts name lines) (λ rest. pure (result ∷ rest))
            (apply_lines-Covering name lines) (λ rest d c. c))

  apply_confirmed_invoice_lines-Covering :
      (name : String) (lines : List Invoice)
      → Covering (apply_confirmed_invoice_lines texts name lines)
  unfolding apply_confirmed_invoice_lines
  apply_confirmed_invoice_lines-Covering name lines =
      transaction-Covering (apply_lines texts (texts.strip name) lines >>= or_all_failed) (
        bind-Covering (apply_lines texts (texts.strip name) lines) or_all_failed
          (apply_lines-Covering (texts.strip name) lines) or_all_failed-Covering)

-- A call of the service that touches stock.
pub data StockCall : Type 0 where
  adjust : ℕ → ℤ → StockCall
  invoice : Invoice → StockCall
  invoice_lines : String → List Invoice → StockCall

module _ (texts : Texts) where
  pub stock_after : List StockCall → Db → Db
  stock_after [] d = d
  stock_after (adjust id delta ∷ cs) d = stock_after cs (adjust_stock id delta d).1
  stock_after (invoice i ∷ cs) d = stock_after cs (apply_confirmed_invoice texts i d).1
  stock_after (invoice_lines name lines ∷ cs) d =
      stock_after cs (apply_confirmed_invoice_lines texts name lines d).1

  -- Whatever list of adjustments and confirmed invoices is applied, the successful ones and those that
  -- raise, no stock level ever has more units reserved than on hand, and the keys of the levels stay
  -- distinct and below the next key.
  pub stock_after-AllCovered :
      (cs : List StockCall) (d : Db) → AllCovered d → AllCovered (stock_after cs d)
  unfolding stock_after
  stock_after-AllCovered [] d c = c
  stock_after-AllCovered (adjust id delta ∷ cs) d c =
      stock_after-AllCovered cs (adjust_stock id delta d).1 (adjust_stock-Covering id delta d c)
  stock_after-AllCovered (invoice i ∷ cs) d c =
      stock_after-AllCovered cs (apply_confirmed_invoice texts i d).1
        (apply_confirmed_invoice-Covering texts i d c)
  stock_after-AllCovered (invoice_lines name lines ∷ cs) d c =
      stock_after-AllCovered cs (apply_confirmed_invoice_lines texts name lines d).1
        (apply_confirmed_invoice_lines-Covering texts name lines d c)
