-- ===== src/Scans/Schema/Reading.antt =====
-- `InvoiceExtraction.from_vision_json` (ai/llm/invoice_schema.py): the answer of the vision model, read
-- into a header, lines and confidences.
use text.Mathlib.Text.{◌==◌}
use smart_stock_ai.Prelude.{Option, none, some, List, [], ◌∷◌, String, if◌then◌else◌}
use smart_stock_ai.Prelude.Json.{Json, Items, Fields, get, get_or}
use smart_stock_ai.Scans.Schema.{
  Numbers, supplier_name_aliases, invoice_number_aliases, invoice_date_aliases, due_date_aliases,
  currency_aliases, invoice_total_aliases, tax_amount_aliases, item_name_column, sku_code_column,
  quantity_column, unit_price_column, total_price_column, InvoiceHeader, InvoiceLineItem,
  Confidence, InvoiceExtraction, no_header, set_key, pick, unwrap, note_confidence, is_empty_line,
  entries, merge_defaults, dict_or_none, list_or_none, or_empty_dict,
}

module _ (n : Numbers) where
  abbrev pub shown : Json n.Float → String
  shown (Json.str t) = t
  shown v = n.show v

  abbrev pub non_empty_text : String → Option String
  non_empty_text t = if t == "" then none else some t

  abbrev pub clean_str : Json n.Float → Option String
  clean_str Json.null = none
  clean_str v = non_empty_text (n.strip (shown v))

  -- A float that is whole becomes an int, which the field turns into a float again.
  abbrev pub as_field : n.Float → n.Float
  as_field x = if n.is_integer x then n.of_int (n.int_of x) else x

  abbrev pub read_number : String → Option n.Float
  read_number cleaned =
      if cleaned == ""
      then none
      else elim (n.read_float cleaned) [ none ↦ none | some x ↦ some (as_field x) ]

  -- `_coerce_number`; the text of a list or a dictionary is no number.
  abbrev pub coerce_number : Json n.Float → Option n.Float
  coerce_number (Json.int i) = some (n.of_int i)
  coerce_number (Json.float x) = some (as_field x)
  coerce_number (Json.str t) = if t == "" then none else read_number (n.unpriced t)
  coerce_number _ = none

  abbrev pub picked_text : Fields n.Float → List String → Option String
  picked_text source aliases = clean_str (unwrap (pick source aliases)).0

  abbrev pub picked_number : Fields n.Float → List String → Option n.Float
  picked_number source aliases = coerce_number (unwrap (pick source aliases)).0

  abbrev pub confidence_of : Fields n.Float → List String → Json n.Float
  confidence_of source aliases = (unwrap (pick source aliases)).1

  unfoldable pub parse_header : Fields n.Float → InvoiceHeader n.Float
  parse_header source = record {
    supplier_name = picked_text source supplier_name_aliases;
    invoice_number = picked_text source invoice_number_aliases;
    invoice_date = picked_text source invoice_date_aliases;
    due_date = picked_text source due_date_aliases;
    currency = picked_text source currency_aliases;
    invoice_total = picked_number source invoice_total_aliases;
    tax_amount = picked_number source tax_amount_aliases;
  }

  unfoldable pub header_confidence : Fields n.Float → Confidence n.Float → Confidence n.Float
  header_confidence source m =
      note_confidence "tax_amount" (confidence_of source tax_amount_aliases) (
        note_confidence "invoice_total" (confidence_of source invoice_total_aliases) (
          note_confidence "currency" (confidence_of source currency_aliases) (
            note_confidence "due_date" (confidence_of source due_date_aliases) (
              note_confidence "invoice_date" (confidence_of source invoice_date_aliases) (
                note_confidence "invoice_number" (confidence_of source invoice_number_aliases) (
                  note_confidence "supplier_name" (confidence_of source supplier_name_aliases)
                    m))))))

  unfoldable pub parse_line : Fields n.Float → InvoiceLineItem n.Float
  parse_line row = record {
    item_name = picked_text row item_name_column;
    sku_code = picked_text row sku_code_column;
    quantity = picked_number row quantity_column;
    unit_price = picked_number row unit_price_column;
    total_price = picked_number row total_price_column;
  }

  abbrev pub add_score : Json n.Float → List n.Float → List n.Float
  add_score conf rest = elim (coerce_number conf) [ none ↦ rest | some x ↦ x ∷ rest ]

  unfoldable pub row_scores : Fields n.Float → List n.Float
  row_scores row = add_score (confidence_of row item_name_column) (
      add_score (confidence_of row sku_code_column) (
        add_score (confidence_of row quantity_column) (
          add_score (confidence_of row unit_price_column) (
            add_score (confidence_of row total_price_column)
              (add_score (get_or Json.null "confidence" row) [])))))

  abbrev pub mean_of : List n.Float → List n.Float → List n.Float
  mean_of [] rest = rest
  mean_of (x ∷ xs) rest = n.mean (x ∷ xs) ∷ rest

  -- The lines that are not empty, and the mean score of each that has one.
  unfoldable pub parse_rows : Items n.Float → List (InvoiceLineItem n.Float) × List n.Float
  parse_rows Items.nil = ([], [])
  parse_rows (Items.item (Json.obj row) rows) =
      let (items, scores) = parse_rows rows in
      if is_empty_line (parse_line row)
      then (items, scores)
      else (parse_line row ∷ items, mean_of (row_scores row) scores)
  parse_rows (Items.item _ rows) = parse_rows rows

  abbrev pub with_line_scores : List n.Float → Confidence n.Float → Confidence n.Float
  with_line_scores [] m = m
  with_line_scores (x ∷ xs) m = set_key "line_items" (Json.float (n.mean (x ∷ xs))) m

  abbrev pub legacy_value : Fields n.Float → String → Json n.Float
  legacy_value fields k = (unwrap (get_or Json.null k fields)).0

  abbrev pub legacy_confidence : Fields n.Float → Fields n.Float → String → Json n.Float
  legacy_confidence fields conf k = elim (unwrap (get_or Json.null k fields)).1 [
    | Json.null ↦ get_or Json.null k conf
    | other ↦ other
  ]

  abbrev pub legacy_line : Fields n.Float → InvoiceLineItem n.Float
  legacy_line fields = record {
    item_name = clean_str (legacy_value fields "product_name");
    sku_code = clean_str (legacy_value fields "sku_code");
    quantity = coerce_number (legacy_value fields "quantity_received");
    unit_price = coerce_number (legacy_value fields "unit_price");
    total_price = none;
  }

  -- `_parse_legacy`
  unfoldable pub parse_legacy : Fields n.Float → Fields n.Float → InvoiceExtraction n.Float
  parse_legacy fields conf = record {
    header = record no_header { supplier_name = clean_str (legacy_value fields "supplier_name") };
    line_items = if is_empty_line (legacy_line fields) then [] else legacy_line fields ∷ [];
    confidence = note_confidence "supplier_name" (legacy_confidence fields conf "supplier_name") (
        note_confidence "unit_price" (legacy_confidence fields conf "unit_price") (
          note_confidence "quantity_received" (legacy_confidence fields conf "quantity_received") (
            note_confidence "sku_code" (legacy_confidence fields conf "sku_code")
              (note_confidence "product_name" (legacy_confidence fields conf "product_name") []))));
  }

  abbrev pub parse_structured : Fields n.Float → Items n.Float → InvoiceExtraction n.Float
  parse_structured header rows =
      let (items, scores) = parse_rows rows in
      record {
        header = parse_header header;
        line_items = items;
        confidence = with_line_scores scores (header_confidence header []);
      }

  abbrev pub or_no_rows : Option (Items n.Float) → Items n.Float
  or_no_rows none = Items.nil
  or_no_rows (some rows) = rows

  abbrev pub parse_blobs :
      Fields n.Float → Option (Fields n.Float) → Option (Items n.Float) → InvoiceExtraction n.Float
  parse_blobs raw none none =
      parse_legacy (elim (dict_or_none (get "fields" raw)) [ none ↦ raw | some d ↦ d ])
        (or_empty_dict (dict_or_none (get "confidence" raw)))
  parse_blobs raw header rows = parse_structured (or_empty_dict header) (or_no_rows rows)

  unfoldable pub from_vision_json : Json n.Float → InvoiceExtraction n.Float
  from_vision_json (Json.obj raw) =
      let parsed =
        parse_blobs raw (dict_or_none (get "header" raw)) (list_or_none (get "line_items" raw)) in
      record parsed {
        confidence =
            merge_defaults (entries (or_empty_dict (dict_or_none (get "confidence" raw))))
              parsed.confidence;
      }
  from_vision_json _ = record { header = no_header; line_items = []; confidence = [] }
