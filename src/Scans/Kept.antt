-- ===== src/Scans/Kept.antt =====
-- What the writes to one scan (apps/ingestion/services.py) leave of another one.
use smart_stock_ai.Prelude.{
  ℕ, suc, Bool, true, false, not, Option, none, some, List, [], ◌∷◌, ◌++◌, ◌≡◌, ◌≢◌, refl, ◌∙◌,
  arith, String, if◌then◌else◌, ◌==◌,
}
use smart_stock_ai.Prelude.Action.{
  ◌>>=◌, raise_if_ind, database_error, Action, Error, ◌>>◌, pure, raise, when,
  invoice_extraction_timeout, invoice_extraction_malformed, llm_quota_exhausted, does_not_exist,
}
use smart_stock_ai.Prelude.Keeps.{Keeps, >>=-Keeps, or_raise-Keeps}
use smart_stock_ai.Prelude.Table.{find, update}
use smart_stock_ai.Scans.{
  Extracted, InvoiceScan, AuditEntry, invoice_confirmed, invoice_rejected, vision_extraction_failed,
  ScanStore, scan_key,
}
use smart_stock_ai.Scans.Service.{
  Vision, extracts, timed_out, value_error_raised, quota_error, other_exception, not_an_object,
  confidence_overflow, on_vision, mark_failed_scan, failed_row, store_extraction, extracted_row,
  missing_in, is_empty, update_scan, get_scan, log_entry, with_scans, is_settled, mark_rejected,
  rejected_row,
}

-- How often the audit log confirms a scan.
abbrev pub confirmations : ℕ → List AuditEntry → ℕ
confirmations id [] = 0
confirmations id (invoice_confirmed user k ∷ es) =
    let n = confirmations id es in if k == id then suc n else n
confirmations id (invoice_rejected user k ∷ es) = confirmations id es
confirmations id (vision_extraction_failed user k ∷ es) = confirmations id es

-- A scan, how often it was confirmed, and the next key.
abbrev pub scan_of : ℕ → ScanStore → Option InvoiceScan × ℕ × ℕ
scan_of id w = (find scan_key id w.scans.rows, confirmations id w.audit, w.scans.next_id)

abbrev is_confirmation : ℕ → AuditEntry → Bool
is_confirmation id (invoice_confirmed user k) = k == id
is_confirmation id _ = false

pub confirmations-append :
    (id : ℕ) (e : AuditEntry) (es : List AuditEntry)
    → is_confirmation id e ≡ false
    → confirmations id (es ++ e ∷ []) ≡ confirmations id es
confirmations-append id (invoice_confirmed user k) [] h = ground arith
confirmations-append id (invoice_rejected user k) [] h = refl
confirmations-append id (vision_extraction_failed user k) [] h = refl
confirmations-append id e (invoice_confirmed user k ∷ es) h =
    ground (arith, confirmations-append id e es h)
confirmations-append id e (invoice_rejected user k ∷ es) h = confirmations-append id e es h
confirmations-append id e (vision_extraction_failed user k ∷ es) h = confirmations-append id e es h

pub find-update_others :
    (j k : ℕ) (f : InvoiceScan → InvoiceScan) (rs : List InvoiceScan)
    → ((s : InvoiceScan) → (f s).id ≡ s.id)
    → j ≢ k
    → find scan_key j (update scan_key k f rs) ≡ find scan_key j rs
find-update_others j k f [] h n = refl
find-update_others j k f (x ∷ rs) h n = ground (arith, h x, find-update_others j k f rs h n)

pub find-append_others :
    (j : ℕ) (r : InvoiceScan) (rs : List InvoiceScan)
    → j ≢ r.id
    → find scan_key j (rs ++ r ∷ []) ≡ find scan_key j rs
find-append_others j r [] n = ground arith
find-append_others j r (x ∷ xs) n = ground (arith, find-append_others j r xs n)

abbrev pub settled_or : Option InvoiceScan → Bool
settled_or none = false
settled_or (some s) = is_settled s

module _ (id : ℕ) where
  pub log_entry-Keeps :
      (e : AuditEntry) → is_confirmation id e ≡ false → Keeps (scan_of id) (log_entry e)
  log_entry-Keeps e h w = cc (confirmations-append id e w.audit h)

  update_scan-Keeps :
      (k : ℕ) (f : InvoiceScan → InvoiceScan)
      → ((s : InvoiceScan) → (f s).id ≡ s.id)
      → id ≢ k
      → Keeps (scan_of id) (update_scan k f)
  unfolding update_scan get_scan
  update_scan-Keeps k f h n w =
      let rows = update scan_key k f w.scans.rows in
      or_raise-Keeps (scan_of id) (find scan_key k rows) does_not_exist (with_scans rows w)
      ∙ cc (find-update_others id k f w.scans.rows h n)

  pub mark_rejected-Keeps : (k : ℕ) → id ≢ k → Keeps (scan_of id) (mark_rejected k)
  unfolding mark_rejected
  mark_rejected-Keeps k n w = update_scan-Keeps k (rejected_row w.db.now) (λ s. refl) n w

  mark_failed_scan-Keeps :
      (scan : InvoiceScan) (user : ℕ) (detail : String) (e : Error)
      → id ≢ scan.id
      → Keeps (scan_of id) (mark_failed_scan scan user detail e)
  mark_failed_scan-Keeps scan user detail e n =
      >>=-Keeps (scan_of id) (update_scan scan.id (failed_row detail))
        (λ s. log_entry (vision_extraction_failed user s.id) >> raise {A = InvoiceScan} e)
        (update_scan-Keeps scan.id (failed_row detail) (λ s. refl) n)
        (λ s.
          >>=-Keeps (scan_of id) (log_entry (vision_extraction_failed user s.id))
            (λ x. raise {S = ScanStore} {A = InvoiceScan} e)
            (log_entry-Keeps (vision_extraction_failed user s.id) refl) (λ x w. refl))

  when-Keeps :
      (b : Bool) (m : Action ScanStore (Unit {0}))
      → Keeps (scan_of id) m
      → Keeps (scan_of id) (when b m)
  when-Keeps true m h = h
  when-Keeps false m h = λ w. refl

  store_extraction-Keeps :
      (scan : InvoiceScan) (user : ℕ) (x : Extracted)
      → id ≢ scan.id
      → Keeps (scan_of id) (store_extraction scan user x)
  store_extraction-Keeps scan user x n w =
      raise_if_ind (λ r. scan_of id r.1 ≡ scan_of id w) (not x.is_storable) database_error
        (update_scan scan.id (extracted_row x (missing_in x.get)) >>= logged) w (λ e. refl)
        (λ e. stored w)
    where
      logged : InvoiceScan → Action ScanStore InvoiceScan
      logged s =
          when (not (is_empty (missing_in x.get))) (log_entry (vision_extraction_failed user s.id))
          >> pure s

      stored :
          Keeps (scan_of id) (update_scan scan.id (extracted_row x (missing_in x.get)) >>= logged)
      stored =
          let missing = missing_in x.get in
          >>=-Keeps (scan_of id) (update_scan scan.id (extracted_row x missing)) logged
            (update_scan-Keeps scan.id (extracted_row x missing) (λ s. refl) n)
            (λ s.
              >>=-Keeps (scan_of id)
                (when (not (is_empty missing)) (log_entry (vision_extraction_failed user s.id)))
                (λ u. pure s)
                (when-Keeps (not (is_empty missing))
                  (log_entry (vision_extraction_failed user s.id))
                  (log_entry-Keeps (vision_extraction_failed user s.id) refl))
                (λ u w. refl))

  pub on_vision-Keeps :
      (text_of : Vision → String) (scan : InvoiceScan) (user : ℕ) (v : Vision)
      → id ≢ scan.id
      → Keeps (scan_of id) (on_vision text_of scan user v)
  on_vision-Keeps text_of scan user timed_out n =
      mark_failed_scan-Keeps scan user (text_of timed_out) invoice_extraction_timeout n
  on_vision-Keeps text_of scan user value_error_raised n =
      mark_failed_scan-Keeps scan user (text_of value_error_raised) invoice_extraction_malformed n
  on_vision-Keeps text_of scan user quota_error n =
      mark_failed_scan-Keeps scan user (text_of quota_error) llm_quota_exhausted n
  on_vision-Keeps text_of scan user other_exception n = λ w. refl
  on_vision-Keeps text_of scan user not_an_object n =
      mark_failed_scan-Keeps scan user "Vision response was not a JSON object."
        invoice_extraction_malformed n
  on_vision-Keeps text_of scan user confidence_overflow n = λ w. refl
  on_vision-Keeps text_of scan user (extracts x) n = store_extraction-Keeps scan user x n
