-- ===== src/Scans.antt =====
-- Scans of invoices (InvoiceScan of apps/ingestion/models.py), and the store of InvoiceScanService:
-- the database of the stock with the scans and the audit log. Of a value in extracted data only its
-- text and its truth are kept; the column `confidence` is left out.
pub mod Service
pub mod Confidence
pub mod Schema
pub mod Outcomes
pub mod Kept
pub mod Final
pub mod Tests
use smart_stock_ai.Prelude.{ℕ, Bool, true, false, Option, none, some, List, String}
use smart_stock_ai.Prelude.Action.{Action, Result}
use smart_stock_ai.Prelude.Table.{Table}
use smart_stock_ai.Database.{Db}
use smart_stock_ai.Inventory.Invoices.{Invoice}

pub data ScanStatus : Type 0 where
  pending extracted partial failed confirmed rejected : ScanStatus

-- INVOICE_REQUIRED_FIELDS
pub data Field : Type 0 where
  product_name sku_code quantity_received unit_price supplier_name : Field

-- LINE_ITEM_REQUIRED
pub data LineField : Type 0 where
  item_name line_sku_code quantity : LineField

-- A value of a JSON object: absent or null, or its text and whether Python takes it as true.
pub data Value : Type 0 where
  nothing : Value
  value : Bool → String → Value

-- A dictionary of extracted data, by its required fields, and whether the database takes it as JSON.
pub record Extracted : Type 0 where
  pub is_storable : Bool
  pub get : Field → Value

-- A line of the confirmed data: whether it is a dictionary, its fields, and how they read as an
-- invoice.
pub record Line : Type 0 where
  pub is_dict : Bool
  pub get : LineField → Value
  pub invoice : Invoice

-- The confirmed data: its fields, how they read as an invoice, `line_items`, none if that is no list,
-- and whether the database takes the whole as JSON, which it does not with a NUL in some text. The texts
-- that the stock uses are taken to have none.
pub record Confirmed : Type 0 where
  pub is_storable : Bool
  pub get : Field → Value
  pub invoice : Invoice
  pub line_items : Option (List Line)

pub record InvoiceScan : Type 0 where
  pub id : ℕ
  pub uploaded_by : ℕ
  pub status : ScanStatus
  pub extracted_data : Option Extracted
  pub missing_fields : List Field
  pub failure_reason : String
  pub confirmed_data : Option Confirmed
  pub is_confirmed : Bool
  pub confirmed_at : Option ℕ
  pub rejected_at : Option ℕ

-- The audit events that the service logs, with the user and the scan.
pub data AuditEntry : Type 0 where
  invoice_confirmed invoice_rejected vision_extraction_failed : ℕ → ℕ → AuditEntry

pub record ScanStore : Type 0 where
  pub db : Db
  pub scans : Table InvoiceScan
  pub audit : List AuditEntry

abbrev pub scan_key : InvoiceScan → ℕ
scan_key s = s.id

-- A call of the inventory service.
abbrev pub in_inventory : {A : Type 0} → Action Db A → Action ScanStore A
in_inventory m w = let (r, d) = m w.db in (r, record w { db = d })
