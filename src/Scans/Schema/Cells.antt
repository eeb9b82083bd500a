-- ===== src/Scans/Schema/Cells.antt =====
-- The cells of a header with their confidences, as INVOICE_SCHEMA (ai/multimodal/vision.py) asks for
-- them, and what `_parse_header` (ai/llm/invoice_schema.py) makes of them.
use text.Mathlib.Text.{◌==◌}
use mathlib.Core.List.{append-nil}
use smart_stock_ai.Prelude.{
  ◌++◌, sym, arith, false, Option, none, some, [], ◌∷◌, String, ◌≡◌, ap, refl,
}
use smart_stock_ai.Prelude.Json.{Json, Fields}
use smart_stock_ai.Scans.Schema.{
  Confidence, is_key, set_key, note_confidence, Numbers, InvoiceHeader, unwrap,
}
use smart_stock_ai.Scans.Schema.Reading.{
  clean_str, as_field, coerce_number, parse_header, header_confidence,
}

-- The confidence that the model gives for each cell of the header, none for a cell without one.
pub record HeaderConfidence (F : Type 0) : Type 0 where
  pub supplier_name : Option F
  pub invoice_number : Option F
  pub invoice_date : Option F
  pub due_date : Option F
  pub invoice_total : Option F
  pub tax_amount : Option F
  pub currency : Option F

set_key_new :
    {F : Type 0} (k : String) (v : Json F) (m : Confidence F)
    → is_key k m ≡ false
    → set_key k v m ≡ m ++ (k, v) ∷ []
set_key_new k v [] h = refl
set_key_new k v ((j, w) ∷ m) h = ground (arith, set_key_new k v m)

is_key-append :
    {F : Type 0} (k : String) (m m' : Confidence F)
    → is_key k m ≡ false
    → is_key k m' ≡ false
    → is_key k (m ++ m') ≡ false
is_key-append k [] m' h h' = h'
is_key-append k ((j, w) ∷ m) m' h h' = ground (arith, is_key-append k m m')

module _ (n : Numbers) where
  abbrev pub text_json : Option String → Json n.Float
  text_json none = Json.null
  text_json (some t) = Json.str t

  abbrev pub number_json : Option n.Float → Json n.Float
  number_json none = Json.null
  number_json (some x) = Json.float x

  -- A cell as its value, or with a confidence beside it.
  abbrev pub cell : Option n.Float → Json n.Float → Json n.Float
  cell none v = v
  cell (some x) v =
      Json.obj (Fields.field "value" v (Fields.field "confidence" (Json.float x) Fields.end))

  abbrev pub header_fields : HeaderConfidence n.Float → InvoiceHeader n.Float → Fields n.Float
  header_fields c h =
      Fields.field "supplier_name" (cell c.supplier_name (text_json h.supplier_name)) (
        Fields.field "invoice_number" (cell c.invoice_number (text_json h.invoice_number)) (
          Fields.field "invoice_date" (cell c.invoice_date (text_json h.invoice_date)) (
            Fields.field "due_date" (cell c.due_date (text_json h.due_date)) (
              Fields.field "invoice_total" (cell c.invoice_total (number_json h.invoice_total)) (
                Fields.field "tax_amount" (cell c.tax_amount (number_json h.tax_amount))
                  (Fields.field "currency" (cell c.currency (text_json h.currency)) Fields.end))))))

  -- The confidences that the header gives, by the name of the field.
  abbrev pub noted : String → Option n.Float → Confidence n.Float
  noted k none = []
  noted k (some x) = (k, Json.float x) ∷ []

  abbrev pub given : HeaderConfidence n.Float → Confidence n.Float
  given c =
      ((((((noted "supplier_name" c.supplier_name ++ noted "invoice_number" c.invoice_number)
                ++ noted "invoice_date" c.invoice_date)
              ++ noted "due_date" c.due_date)
            ++ noted "currency" c.currency)
          ++ noted "invoice_total" c.invoice_total)
        ++ noted "tax_amount" c.tax_amount)

  -- A text that is not blank and has no blanks at its ends; a number that is a float as it stands.
  abbrev pub IsText : Option String → Type 0
  IsText none = Unit
  IsText (some t) = (n.strip t ≡ t) × ((t == "") ≡ false)

  abbrev pub IsNumber : Option n.Float → Type 0
  IsNumber none = Unit
  IsNumber (some x) = as_field n x ≡ x

  abbrev pub IsHeader : InvoiceHeader n.Float → Type 0
  IsHeader h =
      IsText h.supplier_name
      × IsText h.invoice_number
      × IsText h.invoice_date
      × IsText h.due_date
      × IsText h.currency
      × IsNumber h.invoice_total
      × IsNumber h.tax_amount

  pub text_lem : (o : Option String) → IsText o → clean_str n (unwrap (text_json o)).0 ≡ o
  text_lem none h = refl
  text_lem (some t) h = rw (h.0, h.1) refl

  pub number_lem :
      (o : Option n.Float) → IsNumber o → coerce_number n (unwrap (number_json o)).0 ≡ o
  number_lem none h = refl
  number_lem (some x) h = ap (λ (y : n.Float). some y) h

  pub text_quiet : (o : Option String) → (unwrap (text_json o)).1 ≡ Json.null
  text_quiet none = refl
  text_quiet (some t) = refl

  pub number_quiet : (o : Option n.Float) → (unwrap (number_json o)).1 ≡ Json.null
  number_quiet none = refl
  number_quiet (some x) = refl

  -- The same of cells with or without a confidence.
  text_cell :
      (c : Option n.Float) (o : Option String)
      → IsText o
      → clean_str n (unwrap (cell c (text_json o))).0 ≡ o
  text_cell none o h = text_lem o h
  text_cell (some x) none h = refl
  text_cell (some x) (some t) h = rw (h.0, h.1) refl

  number_cell :
      (c o : Option n.Float) → IsNumber o → coerce_number n (unwrap (cell c (number_json o))).0 ≡ o
  number_cell none o h = number_lem o h
  number_cell (some x) none h = refl
  number_cell (some x) (some y) h = ap (λ (z : n.Float). some z) h

  absent : (k j : String) (o : Option n.Float) → (j == k) ≡ false → is_key k (noted j o) ≡ false
  absent k j none h = refl
  absent k j (some x) h = rw h refl

  fresh :
      (k j : String) (o : Option n.Float) (m : Confidence n.Float)
      → (j == k) ≡ false
      → is_key k m ≡ false
      → is_key k (m ++ noted j o) ≡ false
  fresh k j o m h new = is_key-append k m (noted j o) new (absent k j o h)

  text_noted :
      (k : String) (c : Option n.Float) (o : Option String) (m : Confidence n.Float)
      → is_key k m ≡ false
      → note_confidence k (unwrap (cell c (text_json o))).1 m ≡ m ++ noted k c
  text_noted k none o m new = rw (text_quiet o) (sym (append-nil m))
  text_noted k (some x) o m new = set_key_new k (Json.float x) m new

  number_noted :
      (k : String) (c o : Option n.Float) (m : Confidence n.Float)
      → is_key k m ≡ false
      → note_confidence k (unwrap (cell c (number_json o))).1 m ≡ m ++ noted k c
  number_noted k none o m new = rw (number_quiet o) (sym (append-nil m))
  number_noted k (some x) o m new = set_key_new k (Json.float x) m new

  pub parse_header-fields :
      (c : HeaderConfidence n.Float) (h : InvoiceHeader n.Float)
      → IsHeader h
      → parse_header n (header_fields c h) ≡ h
  unfolding parse_header
  parse_header-fields k h (a, b, c, d, e, f, g) =
      rw
        (
          text_cell k.supplier_name h.supplier_name a,
          text_cell k.invoice_number h.invoice_number b,
          text_cell k.invoice_date h.invoice_date c,
          text_cell k.due_date h.due_date d,
          text_cell k.currency h.currency e,
          number_cell k.invoice_total h.invoice_total f,
          number_cell k.tax_amount h.tax_amount g,
        )
        refl

  pub header_confidence-fields :
      (c : HeaderConfidence n.Float) (h : InvoiceHeader n.Float)
      → header_confidence n (header_fields c h) [] ≡ given c
  unfolding header_confidence
  header_confidence-fields c h =
      let m1 = noted "supplier_name" c.supplier_name in
      let m2 = m1 ++ noted "invoice_number" c.invoice_number in
      let m3 = m2 ++ noted "invoice_date" c.invoice_date in
      let m4 = m3 ++ noted "due_date" c.due_date in
      let m5 = m4 ++ noted "currency" c.currency in
      let m6 = m5 ++ noted "invoice_total" c.invoice_total in
      rw
        (
          text_noted "supplier_name" c.supplier_name h.supplier_name [] (refl),
          text_noted "invoice_number" c.invoice_number h.invoice_number m1
              (absent "invoice_number" "supplier_name" c.supplier_name refl),
          text_noted "invoice_date" c.invoice_date h.invoice_date m2 (
              fresh "invoice_date" "invoice_number" c.invoice_number m1 refl
                (absent "invoice_date" "supplier_name" c.supplier_name refl)),
          text_noted "due_date" c.due_date h.due_date m3 (
              fresh "due_date" "invoice_date" c.invoice_date m2 refl (
                fresh "due_date" "invoice_number" c.invoice_number m1 refl
                  (absent "due_date" "supplier_name" c.supplier_name refl))),
          text_noted "currency" c.currency h.currency m4 (
              fresh "currency" "due_date" c.due_date m3 refl (
                fresh "currency" "invoice_date" c.invoice_date m2 refl (
                  fresh "currency" "invoice_number" c.invoice_number m1 refl
                    (absent "currency" "supplier_name" c.supplier_name refl)))),
          number_noted "invoice_total" c.invoice_total h.invoice_total m5 (
              fresh "invoice_total" "currency" c.currency m4 refl (
                fresh "invoice_total" "due_date" c.due_date m3 refl (
                  fresh "invoice_total" "invoice_date" c.invoice_date m2 refl (
                    fresh "invoice_total" "invoice_number" c.invoice_number m1 refl
                      (absent "invoice_total" "supplier_name" c.supplier_name refl))))),
          number_noted "tax_amount" c.tax_amount h.tax_amount m6 (
              fresh "tax_amount" "invoice_total" c.invoice_total m5 refl (
                fresh "tax_amount" "currency" c.currency m4 refl (
                  fresh "tax_amount" "due_date" c.due_date m3 refl (
                    fresh "tax_amount" "invoice_date" c.invoice_date m2 refl (
                      fresh "tax_amount" "invoice_number" c.invoice_number m1 refl
                        (absent "tax_amount" "supplier_name" c.supplier_name refl)))))),
        )
        refl
