-- ===== src/Scans/Schema/Tests.antt =====
-- Answers of the vision model, clean ones and messy ones. Floats are natural numbers.
use smart_stock_ai.Prelude.{ℕ, true, none, some, [], ◌∷◌, ◌≡◌, refl}
use smart_stock_ai.Prelude.Int.{pos, pos_part}
use smart_stock_ai.Prelude.Json.{Json, Items, Fields}
use smart_stock_ai.Scans.Schema.{Numbers, InvoiceHeader, InvoiceLineItem, no_header}
use smart_stock_ai.Scans.Schema.Reading.{
  parse_header, header_confidence, parse_line, row_scores, parse_rows, parse_legacy,
  from_vision_json,
}
use smart_stock_ai.Scans.Schema.Cells.{HeaderConfidence}
use smart_stock_ai.Scans.Schema.Printed.{asked_for, from_vision_json-asked_for}

abbrev sample : Numbers
sample = record {
  Float = ℕ;
  of_int = pos_part;
  is_integer = λ x. true;
  int_of = pos;
  read_float = λ t. some 12;
  mean = λ xs. elim xs [ [] ↦ 0 | x ∷ rest ↦ x ];
  unpriced = λ t. "12";
  strip = λ t. t;
  show = λ v. "?";
}

abbrev bolts : InvoiceLineItem ℕ
bolts = record {
  item_name = some "Bolt";
  sku_code = some "B-1";
  quantity = some 40;
  unit_price = none;
  total_price = none;
}

abbrev bolts_row : Json ℕ
bolts_row = Json.obj (
    Fields.field "sku" (Json.str "B-1") (
      Fields.field "qty"
        (Json.obj (
          Fields.field "value" (Json.int (pos 40))
            (Fields.field "confidence" (Json.int (pos 90)) Fields.end)))
        (Fields.field "product" (Json.str "Bolt") Fields.end)))

-- Aliases, a wrapped value with its confidence, a row that is no object, and an empty row.
messy :
    from_vision_json sample (
      Json.obj (
        Fields.field "line_items"
          (Json.arr (
            Items.item
              (Json.str "total")
              (Items.item bolts_row (Items.item (Json.obj Fields.end) Items.nil))))
          Fields.end))
    ≡ record {
      header = no_header;
      line_items = bolts ∷ [];
      confidence = ("line_items", Json.float 90) ∷ [];
    }
unfolding from_vision_json parse_header header_confidence parse_rows parse_line row_scores
messy = refl

-- The flat structure of older answers, with a price as text.
legacy :
    from_vision_json sample (
      Json.obj (
        Fields.field "supplier_name"
          (Json.str "Acme")
          (Fields.field "unit_price" (Json.str "$12") Fields.end)))
    ≡ record {
      header = record no_header { supplier_name = some "Acme" };
      line_items =
          record {
            item_name = none;
            sku_code = none;
            quantity = none;
            unit_price = some 12;
            total_price = none;
          }
          ∷ [];
      confidence = [];
    }
unfolding from_vision_json parse_legacy
legacy = refl

abbrev sure_of_supplier : HeaderConfidence ℕ
sure_of_supplier = record {
  supplier_name = some 90;
  invoice_number = none;
  invoice_date = none;
  due_date = none;
  invoice_total = none;
  tax_amount = none;
  currency = some 40;
}

abbrev acme : InvoiceHeader ℕ
acme = record no_header { supplier_name = some "Acme" }

from_vision_json-asked_for_example :
    from_vision_json sample (asked_for sample sure_of_supplier acme (bolts ∷ [])) ≡ record {
      header = acme;
      line_items = bolts ∷ [];
      confidence = ("supplier_name", Json.float 90) ∷ ("currency", Json.float 40) ∷ [];
    }
from_vision_json-asked_for_example =
    from_vision_json-asked_for sample sure_of_supplier acme (bolts ∷ [])
      ((refl, refl), tt, tt, tt, tt, tt, tt) (((refl, refl), (refl, refl), refl, tt, tt, refl), tt)
