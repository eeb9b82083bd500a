-- ===== src/Inventory/Apply.antt =====
-- `apply_confirmed_invoice` and `apply_confirmed_invoice_lines` (apps/inventory/services.py).
use text.Mathlib.Text.{◌==◌ as str_eq}
use smart_stock_ai.Prelude.{
  any, ℕ, Bool, false, not, Option, none, some, is_some, List, [], ◌∷◌, String, if◌then◌else◌,
}
use smart_stock_ai.Prelude.Int.{ℤ}
use smart_stock_ai.Prelude.Action.{
  Action, Error, validation_error, ◌>>=◌, ◌>>◌, pure, raise, raise_if, catch,
}
use smart_stock_ai.Database.{Db, Supplier}
use smart_stock_ai.Inventory.Stock.{transaction, invalidate_product_cache}
use smart_stock_ai.Inventory.Invoices.{
  Texts, Invoice, Receipt, parse_invoice_quantity, parse_invoice_price, sku_by_code, receive,
}

-- `filter(name__iexact=...).first()`, the newest first.
abbrev pub supplier_by_name : (String → Bool) → List Supplier → Option Supplier
supplier_by_name same [] = none
supplier_by_name same (s ∷ ss) = elim (supplier_by_name same ss) [
  | some newer ↦ some newer
  | none ↦ if same s.name then some s else none
]

abbrev pub key_of : Option Supplier → Option ℕ
key_of none = none
key_of (some s) = some s.id

abbrev pub some_receipt : Receipt → Action Db (Option Receipt)
some_receipt receipt = pure (some receipt)

-- `if not lines and lines_failed: raise`
abbrev pub nothing_applied : List (Option Receipt) → Bool
nothing_applied [] = false
nothing_applied (r ∷ rs) = not (any is_some (r ∷ rs))

abbrev pub or_all_failed : List (Option Receipt) → Action Db (List (Option Receipt))
or_all_failed results = raise_if (nothing_applied results) validation_error >> pure results

abbrev pub renew_cache : Receipt → Action Db Receipt
renew_cache receipt = invalidate_product_cache >> pure receipt

module _ (texts : Texts) where
  abbrev pub find_supplier : String → Db → Option ℕ
  find_supplier name d =
      if str_eq name ""
      then none
      else key_of (supplier_by_name (λ n. texts.iexact n name) d.suppliers.rows)

  -- The rest of `apply_confirmed_invoice`, once its numbers are read.
  abbrev pub apply_read : Invoice → ℤ → Option ℕ → Action Db Receipt
  apply_read invoice quantity unit_price d =
      (receive (sku_by_code (texts.upper (texts.strip invoice.sku_code)) d.skus.rows)
            (texts.upper (texts.strip invoice.sku_code)) (texts.strip invoice.product_name)
            (find_supplier (texts.strip invoice.supplier_name) d) quantity unit_price
          >>= renew_cache)
        d

  unfoldable pub apply_confirmed_invoice : Invoice → Action Db Receipt
  apply_confirmed_invoice invoice = transaction (do
    quantity ← parse_invoice_quantity invoice.quantity_received
    unit_price ← parse_invoice_price invoice.unit_price
    apply_read invoice quantity unit_price)

  -- `except ValidationError`: none for a line that failed.
  abbrev pub or_failed : Error → Action Db (Option Receipt)
  or_failed Error.validation_error = pure none
  or_failed e = raise e

  abbrev pub apply_line : String → Invoice → Action Db (Option Receipt)
  apply_line supplier_name line =
      catch
        (apply_confirmed_invoice (record line { supplier_name = supplier_name }) >>= some_receipt)
        or_failed

  unfoldable pub apply_lines : String → List Invoice → Action Db (List (Option Receipt))
  apply_lines supplier_name [] = pure []
  apply_lines supplier_name (line ∷ lines) = do
    result ← apply_line supplier_name line
    rest ← apply_lines supplier_name lines
    pure (result ∷ rest)

  -- The result of each line in its order; the header's supplier stands for all lines.
  unfoldable pub apply_confirmed_invoice_lines :
      String → List Invoice → Action Db (List (Option Receipt))
  apply_confirmed_invoice_lines supplier_name lines =
      transaction
        (do results ← apply_lines (texts.strip supplier_name) lines; or_all_failed results)
