-- ===== src/Scans/Schema.antt =====
-- The data of ai/llm/invoice_schema.py, the aliases of its fields and its helpers on dictionaries. A field of pydantic that is a float takes a whole number too.
pub mod Cells
pub mod Printed
pub mod Reading
pub mod Tests
use text.Mathlib.Text.{◌==◌}
use smart_stock_ai.Prelude.{
  Bool, true, false, not, ◌&&◌, ◌||◌, Option, none, some, List, [], ◌∷◌, ◌++◌, String,
  if◌then◌else◌, is_some,
}
use smart_stock_ai.Prelude.Int.{ℤ}
use smart_stock_ai.Prelude.Json.{Json, Items, Fields, get, get_or, has_key}

-- Python's numbers and texts: `unpriced` drops the signs `$` and `,` and strips the text.
pub record Numbers : Type 1 where
  pub Float : Type 0
  pub of_int : ℤ → Float
  pub is_integer : Float → Bool
  pub int_of : Float → ℤ
  pub read_float : String → Option Float
  pub mean : List Float → Float
  pub unpriced : String → String
  pub strip : String → String
  pub show : Json Float → String

-- HEADER_ALIASES and LINE_ALIASES
abbrev pub supplier_name_aliases : List String
supplier_name_aliases =
    "supplier_name" ∷ "supplier" ∷ "vendor" ∷ "vendor_name" ∷ "seller" ∷ "from" ∷ []

abbrev pub invoice_number_aliases : List String
invoice_number_aliases =
    "invoice_number" ∷ "invoice_no" ∷ "invoice_id" ∷ "number" ∷ "inv_no" ∷ "invoice" ∷ []

abbrev pub invoice_date_aliases : List String
invoice_date_aliases = "invoice_date" ∷ "date" ∷ "issue_date" ∷ "issued" ∷ "issued_on" ∷ []

abbrev pub due_date_aliases : List String
due_date_aliases = "due_date" ∷ "payment_due" ∷ "due" ∷ "due_on" ∷ []

abbrev pub currency_aliases : List String
currency_aliases = "currency" ∷ "currency_code" ∷ "curr" ∷ []

abbrev pub invoice_total_aliases : List String
invoice_total_aliases =
    "invoice_total" ∷ "total" ∷ "grand_total" ∷ "total_amount" ∷ "amount_due" ∷ "amount" ∷ []

abbrev pub tax_amount_aliases : List String
tax_amount_aliases = "tax_amount" ∷ "tax" ∷ "vat" ∷ "vat_amount" ∷ "tax_total" ∷ "gst" ∷ []

abbrev pub item_name_column : List String
item_name_column = "item_name" ∷ "name" ∷ "description" ∷ "product_name" ∷ "item" ∷ "product" ∷ []

abbrev pub sku_code_column : List String
sku_code_column = "sku_code" ∷ "sku" ∷ "code" ∷ "item_code" ∷ "product_code" ∷ []

abbrev pub quantity_column : List String
quantity_column = "quantity" ∷ "qty" ∷ "quantity_received" ∷ "count" ∷ "units" ∷ []

abbrev pub unit_price_column : List String
unit_price_column = "unit_price" ∷ "price" ∷ "rate" ∷ "unit_cost" ∷ "cost" ∷ []

abbrev pub total_price_column : List String
total_price_column = "total_price" ∷ "total" ∷ "line_total" ∷ "amount" ∷ "subtotal" ∷ []

pub record InvoiceHeader (F : Type 0) : Type 0 where
  pub supplier_name : Option String
  pub invoice_number : Option String
  pub invoice_date : Option String
  pub due_date : Option String
  pub currency : Option String
  pub invoice_total : Option F
  pub tax_amount : Option F

pub record InvoiceLineItem (F : Type 0) : Type 0 where
  pub item_name : Option String
  pub sku_code : Option String
  pub quantity : Option F
  pub unit_price : Option F
  pub total_price : Option F

abbrev pub Confidence : Type 0 → Type 0
Confidence F = List (String × Json F)

pub record InvoiceExtraction (F : Type 0) : Type 0 where
  pub header : InvoiceHeader F
  pub line_items : List (InvoiceLineItem F)
  pub confidence : Confidence F

abbrev pub is_blank_text : Option String → Bool
is_blank_text none = true
is_blank_text (some t) = t == ""

module _ {F : Type 0} where
  abbrev pub no_header : InvoiceHeader F
  no_header = record {
    supplier_name = none;
    invoice_number = none;
    invoice_date = none;
    due_date = none;
    currency = none;
    invoice_total = none;
    tax_amount = none;
  }

  abbrev pub set_key : String → Json F → Confidence F → Confidence F
  set_key k v [] = (k, v) ∷ []
  set_key k v ((j, w) ∷ m) = if j == k then (k, v) ∷ m else (j, w) ∷ set_key k v m

  abbrev pub is_key : String → Confidence F → Bool
  is_key k [] = false
  is_key k ((j, w) ∷ m) = j == k || is_key k m

  -- `_pick`; None if no alias is a key.
  abbrev pub pick : Fields F → List String → Json F
  pick source [] = Json.null
  pick source (a ∷ aliases) = elim (get a source) [ none ↦ pick source aliases | some v ↦ v ]

  -- `_unwrap`
  abbrev pub unwrap : Json F → Json F × Json F
  unwrap (Json.obj d) =
      if has_key "value" d || has_key "confidence" d
      then (get_or Json.null "value" d, get_or Json.null "confidence" d)
      else (Json.obj d, Json.null)
  unwrap v = (v, Json.null)

  -- `if conf is not None: confidence[key] = conf`
  abbrev pub note_confidence : String → Json F → Confidence F → Confidence F
  note_confidence k Json.null m = m
  note_confidence k conf m = set_key k conf m

  -- `InvoiceLineItem.is_empty`
  abbrev pub is_empty_line : InvoiceLineItem F → Bool
  is_empty_line l =
      is_blank_text l.item_name
      && is_blank_text l.sku_code
      && (not (is_some l.quantity) && (not (is_some l.unit_price) && not (is_some l.total_price)))

  abbrev pub entries : Fields F → Confidence F
  entries Fields.end = []
  entries (Fields.field k v fs) = (k, v) ∷ entries fs

  -- `setdefault` for each entry
  abbrev pub merge_defaults : Confidence F → Confidence F → Confidence F
  merge_defaults [] m = m
  merge_defaults ((k, v) ∷ rest) m = merge_defaults rest (if is_key k m then m else set_key k v m)

  abbrev pub dict_or_none : Option (Json F) → Option (Fields F)
  dict_or_none (some (Json.obj d)) = some d
  dict_or_none _ = none

  abbrev pub list_or_none : Option (Json F) → Option (Items F)
  list_or_none (some (Json.arr vs)) = some vs
  list_or_none _ = none

  abbrev pub or_empty_dict : Option (Fields F) → Fields F
  or_empty_dict none = Fields.end
  or_empty_dict (some d) = d
