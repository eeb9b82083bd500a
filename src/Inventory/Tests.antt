-- ===== src/Inventory/Tests.antt =====
-- Stock and invoices on a small store.
use text.Mathlib.Text.{◌==◌ as str_eq}
use smart_stock_ai.Prelude.{some, [], ◌∷◌, List, ◌≡◌, refl, arith, String, false}
use smart_stock_ai.Prelude.Int.{pos, negsuc}
use smart_stock_ai.Prelude.Action.{ok}
use smart_stock_ai.Database.{Db, StockLevel, Status}
use smart_stock_ai.Database.Sample.{store, order}
use smart_stock_ai.Inventory.Stock.{delete_supplier}
use smart_stock_ai.Inventory.Invoices.{Texts, Invoice, RawPrice}
use smart_stock_ai.Inventory.Levels.{AllCovered}
use smart_stock_ai.Inventory.Receipts.{StockCall, stock_after, stock_after-AllCovered}

abbrev texts : Texts
texts = record { strip = λ s. s; upper = λ s. s; iexact = str_eq }

-- Ten bolts, four of them reserved.
abbrev bolts : StockLevel
bolts = record {
  id = 1;
  sku = 1;
  quantity_on_hand = pos 10;
  quantity_reserved = pos 4;
  reorder_point = pos 10;
  reorder_quantity = pos 50;
}

abbrev stocked : Db
stocked = record (store (order 1 Status.waiting_confirmation 10 ∷ [])) {
  stock_levels = record { rows = bolts ∷ []; next_id = 2 };
}

abbrev line : String → Invoice
line code = record {
  sku_code = code;
  product_name = "Nut";
  supplier_name = "Acme";
  quantity_received = some (pos 6);
  unit_price = RawPrice.decimal false 30;
}

abbrev calls : List StockCall
calls =
    StockCall.adjust 1 (negsuc 6)
    ∷ StockCall.invoice_lines "Acme" (line "BOLT-1" ∷ line "NUT-1" ∷ [])
    ∷ StockCall.adjust 1 (negsuc 5)
    ∷ []

stocked-AllCovered : AllCovered stocked
stocked-AllCovered = ground arith

stock_after-AllCovered_example : AllCovered (stock_after texts calls stocked)
stock_after-AllCovered_example = stock_after-AllCovered texts calls stocked stocked-AllCovered

-- An order that waits for the supplier's confirmation does not keep the supplier.
supplier_goes : (delete_supplier 1 stocked).0 ≡ ok tt
unfolding delete_supplier
supplier_goes = refl
