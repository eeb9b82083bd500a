-- ===== src/Scans/Service.antt =====
-- InvoiceScanService and InvoiceScanRepository (apps/ingestion/services.py,
-- apps/ingestion/repositories.py).
use smart_stock_ai.Prelude.{
  ℕ, ◌+◌, Bool, true, false, not, ◌||◌, Option, none, some, List, [], ◌∷◌, ◌++◌, String, map,
  if◌then◌else◌, ◌==◌, select,
}
use smart_stock_ai.Prelude.Action.{
  Action, Error, does_not_exist, validation_error, permission_error, invoice_already_confirmed,
  invoice_extraction_timeout, invoice_extraction_malformed, llm_quota_exhausted, other_error,
  database_error, overflow_error, ◌>>=◌, ◌>>◌, pure, raise, gets, or_raise, raise_if, modify, when,
}
use smart_stock_ai.Prelude.Table.{find, update}
use smart_stock_ai.Inventory.Invoices.{Texts, Receipt}
use smart_stock_ai.Inventory.Apply.{apply_confirmed_invoice, apply_confirmed_invoice_lines}
use smart_stock_ai.Scans.{
  ScanStatus, Field, LineField, Value, nothing, value, Extracted, Line, Confirmed, InvoiceScan,
  AuditEntry, invoice_confirmed, invoice_rejected, vision_extraction_failed, ScanStore, scan_key,
  in_inventory,
}

abbrev pub with_scans : List InvoiceScan → ScanStore → ScanStore
with_scans rows w = record w { scans = record { rows = rows; next_id = w.scans.next_id } }

-- `get_by_id` and `update` of the repository.
unfoldable pub get_scan : ℕ → Action ScanStore InvoiceScan
get_scan id = do or_raise (← gets (λ w. find scan_key id w.scans.rows)) does_not_exist

unfoldable pub update_scan : ℕ → (InvoiceScan → InvoiceScan) → Action ScanStore InvoiceScan
update_scan id f = do modify (λ w. with_scans (update scan_key id f w.scans.rows) w); get_scan id

abbrev pub confirmed_row : Confirmed → ℕ → InvoiceScan → InvoiceScan
confirmed_row c now s = record s {
  status = ScanStatus.confirmed;
  confirmed_data = some c;
  is_confirmed = true;
  confirmed_at = some now;
}

unfoldable pub mark_confirmed_scan : ℕ → Confirmed → Action ScanStore InvoiceScan
mark_confirmed_scan id c = do
  raise_if (not c.is_storable) database_error
  now ← gets (λ w. w.db.now)
  update_scan id (confirmed_row c now)

abbrev pub rejected_row : ℕ → InvoiceScan → InvoiceScan
rejected_row now s = record s { status = ScanStatus.rejected; rejected_at = some now }

unfoldable pub mark_rejected : ℕ → Action ScanStore InvoiceScan
mark_rejected id = do now ← gets (λ w. w.db.now); update_scan id (rejected_row now)

abbrev pub log_entry : AuditEntry → Action ScanStore (Unit {0})
log_entry e = modify (λ w. record w { audit = w.audit ++ e ∷ [] })

-- `not data.get(field)`
abbrev pub is_missing : Value → Bool
is_missing nothing = true
is_missing (value truth text) = not truth

abbrev pub required_fields : List Field
required_fields =
    Field.product_name ∷ Field.sku_code ∷ Field.quantity_received ∷ Field.unit_price
    ∷ Field.supplier_name ∷ []

abbrev pub line_required : List LineField
line_required = LineField.item_name ∷ LineField.line_sku_code ∷ LineField.quantity ∷ []

abbrev pub missing_in : (Field → Value) → List Field
missing_in get = select (λ f. is_missing (get f)) required_fields

abbrev pub is_empty : {A : Type 0} → List A → Bool
is_empty [] = true
is_empty (x ∷ xs) = false

abbrev pub same_scan_status : ScanStatus → ScanStatus → Bool
same_scan_status ScanStatus.pending ScanStatus.pending = true
same_scan_status ScanStatus.extracted ScanStatus.extracted = true
same_scan_status ScanStatus.partial ScanStatus.partial = true
same_scan_status ScanStatus.failed ScanStatus.failed = true
same_scan_status ScanStatus.confirmed ScanStatus.confirmed = true
same_scan_status ScanStatus.rejected ScanStatus.rejected = true
same_scan_status _ _ = false

-- What the vision model makes of a file: an exception, an answer that is no object, one with a
-- confidence that is too large for a float, or the fields that `_normalize_extraction` reads from it.
pub data Vision : Type 0 where
  timed_out value_error_raised quota_error other_exception not_an_object confidence_overflow :
      Vision
  extracts : Extracted → Vision

abbrev pub new_scan : ℕ → ℕ → InvoiceScan
new_scan id user = record {
  id = id;
  uploaded_by = user;
  status = ScanStatus.pending;
  extracted_data = none;
  missing_fields = [];
  failure_reason = "";
  confirmed_data = none;
  is_confirmed = false;
  confirmed_at = none;
  rejected_at = none;
}

abbrev pub create_scan : ℕ → Action ScanStore InvoiceScan
create_scan user w =
    let s = new_scan w.scans.next_id user in
    pure s
      (record w { scans = record { rows = w.scans.rows ++ s ∷ []; next_id = w.scans.next_id + 1 } })

abbrev pub failed_row : String → InvoiceScan → InvoiceScan
failed_row detail s = record s {
  status = ScanStatus.failed;
  failure_reason = detail;
  missing_fields = required_fields;
}

-- `_mark_failed`, and the exception that follows it.
abbrev pub mark_failed_scan : InvoiceScan → ℕ → String → Error → Action ScanStore InvoiceScan
mark_failed_scan scan user detail e = do
  failed ← update_scan scan.id (failed_row detail)
  log_entry (vision_extraction_failed user failed.id)
  raise e

abbrev pub extracted_row : Extracted → List Field → InvoiceScan → InvoiceScan
extracted_row x missing s = record s {
  status = if is_empty missing then ScanStatus.extracted else ScanStatus.partial;
  extracted_data = some x;
  missing_fields = missing;
  failure_reason = if is_empty missing then "" else "missing required fields";
}

abbrev pub store_extraction : InvoiceScan → ℕ → Extracted → Action ScanStore InvoiceScan
store_extraction scan user x = do
  raise_if (not x.is_storable) database_error
  stored ← update_scan scan.id (extracted_row x (missing_in x.get))
  when (not (is_empty (missing_in x.get))) (log_entry (vision_extraction_failed user stored.id))
  pure stored

-- The texts of the exceptions are the environment's.
module _ (text_of : Vision → String) where
  abbrev pub on_vision : InvoiceScan → ℕ → Vision → Action ScanStore InvoiceScan
  on_vision scan user timed_out =
      mark_failed_scan scan user (text_of timed_out) invoice_extraction_timeout
  on_vision scan user value_error_raised =
      mark_failed_scan scan user (text_of value_error_raised) invoice_extraction_malformed
  on_vision scan user quota_error =
      mark_failed_scan scan user (text_of quota_error) llm_quota_exhausted
  on_vision scan user other_exception = raise other_error
  on_vision scan user not_an_object =
      mark_failed_scan scan user "Vision response was not a JSON object."
        invoice_extraction_malformed
  on_vision scan user confidence_overflow = raise overflow_error
  on_vision scan user (extracts x) = store_extraction scan user x

  unfoldable pub scan_invoice : Vision → ℕ → Action ScanStore InvoiceScan
  scan_invoice vision user = do scan ← create_scan user; on_vision scan user vision

-- `_validate_scan_owner`
abbrev pub validate_scan_owner : InvoiceScan → ℕ → Action ScanStore (Unit {0})
validate_scan_owner scan user = raise_if (not (scan.uploaded_by == user)) permission_error

abbrev pub is_settled : InvoiceScan → Bool
is_settled s = s.is_confirmed || same_scan_status s.status ScanStatus.confirmed

-- The end of both ways to confirm, once the stock is there; no transaction holds both.
abbrev pub record_confirmation : {A : Type 0} → InvoiceScan → ℕ → Confirmed → A → Action ScanStore A
record_confirmation scan user c receipts = do
  marked ← mark_confirmed_scan scan.id c
  log_entry (invoice_confirmed user marked.id)
  pure receipts

abbrev pub one_receipt : Receipt → Action ScanStore (List (Option Receipt))
one_receipt r = pure (some r ∷ [])

-- A line that is no dictionary, or lacks a field.
abbrev pub is_bad_line : Line → Bool
is_bad_line l = not l.is_dict || not (is_empty (select (λ f. is_missing (l.get f)) line_required))

abbrev pub any_bad : List Line → Bool
any_bad [] = false
any_bad (l ∷ ls) = is_bad_line l || any_bad ls

module _ (texts : Texts) where
  -- `_confirm_multi_line`
  unfoldable pub confirm_multi_line :
      InvoiceScan → ℕ → Confirmed → List Line → Action ScanStore (List (Option Receipt))
  confirm_multi_line scan user c lines = do
    raise_if (is_missing (c.get Field.supplier_name)) validation_error
    raise_if (any_bad lines) validation_error
    receipts ← in_inventory (
        apply_confirmed_invoice_lines texts c.invoice.supplier_name
          (map (λ (l : Line). l.invoice) lines))
    record_confirmation scan user c receipts

  unfoldable pub confirm_single :
      InvoiceScan → ℕ → Confirmed → Action ScanStore (List (Option Receipt))
  confirm_single scan user c = do
    raise_if (not (is_empty (missing_in c.get))) validation_error
    receipt ← in_inventory (apply_confirmed_invoice texts c.invoice)
    record_confirmation scan user c (some receipt ∷ [])

  -- By lines if there are some.
  abbrev pub confirm_lines :
      InvoiceScan → ℕ → Confirmed → Option (List Line) → Action ScanStore (List (Option Receipt))
  confirm_lines scan user c (some (l ∷ ls)) = confirm_multi_line scan user c (l ∷ ls)
  confirm_lines scan user c (some []) = confirm_single scan user c
  confirm_lines scan user c none = confirm_single scan user c

  -- `confirm_scan` after the scan is read: its checks and its effects.
  unfoldable pub confirm_read :
      InvoiceScan → ℕ → Confirmed → Action ScanStore (List (Option Receipt))
  confirm_read scan user c = do
    validate_scan_owner scan user
    raise_if (is_settled scan) invoice_already_confirmed
    raise_if (same_scan_status scan.status ScanStatus.rejected) validation_error
    confirm_lines scan user c c.line_items

  unfoldable pub confirm_scan : ℕ → ℕ → Confirmed → Action ScanStore (List (Option Receipt))
  confirm_scan id user c = do confirm_read (← get_scan id) user c

abbrev pub reject_read : InvoiceScan → ℕ → Action ScanStore InvoiceScan
reject_read scan user = do
  validate_scan_owner scan user
  raise_if (is_settled scan) invoice_already_confirmed
  rejected ← mark_rejected scan.id
  log_entry (invoice_rejected user rejected.id)
  pure rejected

unfoldable pub reject_scan : ℕ → ℕ → Action ScanStore InvoiceScan
reject_scan id user = do reject_read (← get_scan id) user
