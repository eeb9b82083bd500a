-- ===== src/Scans/Schema/Printed.antt =====
-- The structure that the vision model is asked for (ai/multimodal/vision.py), and what
-- `from_vision_json` (ai/llm/invoice_schema.py) makes of it.
use smart_stock_ai.Prelude.{false, List, [], ◌∷◌, ◌≡◌, refl, All}
use smart_stock_ai.Prelude.Json.{Json, Items, Fields}
use smart_stock_ai.Scans.Schema.{Numbers, InvoiceHeader, InvoiceLineItem, is_empty_line}
use smart_stock_ai.Scans.Schema.Reading.{parse_line, row_scores, parse_rows, from_vision_json}
use smart_stock_ai.Scans.Schema.Cells.{
  HeaderConfidence, text_json, number_json, header_fields, given, IsText, IsNumber, IsHeader,
  text_lem, number_lem, text_quiet, number_quiet, parse_header-fields, header_confidence-fields,
}

module _ (n : Numbers) where
  abbrev pub line_fields : InvoiceLineItem n.Float → Fields n.Float
  line_fields l = Fields.field "item_name" (text_json n l.item_name) (
      Fields.field "sku_code" (text_json n l.sku_code) (
        Fields.field "quantity" (number_json n l.quantity) (
          Fields.field "unit_price" (number_json n l.unit_price)
            (Fields.field "total_price" (number_json n l.total_price) Fields.end))))

  abbrev pub line_dicts : List (InvoiceLineItem n.Float) → Items n.Float
  line_dicts [] = Items.nil
  line_dicts (l ∷ ls) = Items.item (Json.obj (line_fields l)) (line_dicts ls)

  -- {"header": {...}, "line_items": [...]}, with the cells of INVOICE_SCHEMA (ai/multimodal/vision.py).
  abbrev pub asked_for :
      HeaderConfidence n.Float
      → InvoiceHeader n.Float
      → List (InvoiceLineItem n.Float)
      → Json n.Float
  asked_for c h ls = Json.obj (
      Fields.field "header" (Json.obj (header_fields n c h))
        (Fields.field "line_items" (Json.arr (line_dicts ls)) Fields.end))

  abbrev pub IsLine : InvoiceLineItem n.Float → Type 0
  IsLine l =
      IsText n l.item_name
      × IsText n l.sku_code
      × IsNumber n l.quantity
      × IsNumber n l.unit_price
      × IsNumber n l.total_price
      × (is_empty_line l ≡ false)

  parse_line-fields : (l : InvoiceLineItem n.Float) → IsLine l → parse_line n (line_fields l) ≡ l
  unfolding parse_line
  parse_line-fields l (a, b, c, d, e, f) =
      rw
        (
          text_lem n l.item_name a,
          text_lem n l.sku_code b,
          number_lem n l.quantity c,
          number_lem n l.unit_price d,
          number_lem n l.total_price e,
        )
        refl

  row_scores-fields : (l : InvoiceLineItem n.Float) → row_scores n (line_fields l) ≡ []
  unfolding row_scores
  row_scores-fields l =
      rw
        (
          text_quiet n l.item_name,
          text_quiet n l.sku_code,
          number_quiet n l.quantity,
          number_quiet n l.unit_price,
          number_quiet n l.total_price,
        )
        refl

  parse_rows-dicts :
      (ls : List (InvoiceLineItem n.Float))
      → All IsLine ls
      → parse_rows n (line_dicts ls) ≡ (ls, [])
  unfolding parse_rows
  parse_rows-dicts [] h = refl
  parse_rows-dicts (l ∷ ls) h =
      let (a, b, c, d, e, full) = h.0 in
      rw (parse_line-fields l h.0, row_scores-fields l, parse_rows-dicts ls h.1, full) refl

  -- An answer in the structure that the vision model is asked for is read back as it stands:
  -- every header, whose cells are objects of a value and a float as its confidence or the value
  -- alone, and every list of lines that are not empty, if its texts are not blank and have no
  -- blanks at their ends, and its numbers are floats that survive the way from a whole float to
  -- an int and back. The confidences are those of the cells that have one, by the names of the
  -- fields.
  pub from_vision_json-asked_for :
      (c : HeaderConfidence n.Float) (h : InvoiceHeader n.Float)
      (ls : List (InvoiceLineItem n.Float))
      → IsHeader n h
      → All IsLine ls
      → from_vision_json n (asked_for c h ls)
        ≡ record { header = h; line_items = ls; confidence = given n c }
  unfolding from_vision_json
  from_vision_json-asked_for c h ls clean lines =
      rw
        (parse_header-fields n c h clean, header_confidence-fields n c h, parse_rows-dicts ls lines)
        refl
