-- ===== src/Scans/Outcomes.antt =====
-- What `confirm_scan` and `reject_scan` (apps/ingestion/services.py) do to a scan, to the stock and to
-- the audit log.
use smart_stock_ai.Prelude.{
  Bool, true, ◌⊎◌, inl, inr, Bool-cases, String, ℕ, false, not, Option, none, some, List, [], ◌∷◌,
  ◌++◌, ◌≡◌, refl, arith, map, ◌==◌,
}
use smart_stock_ai.Prelude.Action.{
  Action, Result, Error, database_error, ok, err, validation_error, permission_error,
  invoice_already_confirmed, ◌>>=◌, ◌>>◌, pure, raise_if, raise_if_ind, >>=_ok,
}
use smart_stock_ai.Prelude.Table.{find, update, find-update_self}
use smart_stock_ai.Database.{Db}
use smart_stock_ai.Inventory.Stock.{transaction}
use smart_stock_ai.Inventory.Invoices.{
  parse_invoice_quantity, parse_invoice_price, Texts, Invoice, Receipt,
}
use smart_stock_ai.Inventory.Apply.{
  apply_read, apply_lines, or_all_failed, apply_confirmed_invoice, apply_confirmed_invoice_lines,
}
use smart_stock_ai.Scans.{
  ScanStatus, Field, Line, Confirmed, InvoiceScan, invoice_confirmed, ScanStore, scan_key,
  in_inventory,
}
use smart_stock_ai.Scans.Service.{
  with_scans, get_scan, update_scan, confirmed_row, mark_confirmed_scan, log_entry, is_missing,
  missing_in, is_empty, same_scan_status, is_settled, record_confirmation, any_bad,
  confirm_multi_line, confirm_single, confirm_lines, confirm_read,
}

-- Nothing is written but the version of the product cache.
abbrev pub Undone : ScanStore → ScanStore → Type 0
Undone w t =
    (t.scans ≡ w.scans)
    × (t.audit ≡ w.audit)
    × (t.db ≡ record w.db { cache_version = t.db.cache_version })

-- The scan is confirmed and the confirmation is logged.
abbrev pub Recorded : InvoiceScan → ℕ → Confirmed → ScanStore → ScanStore → Type 0
Recorded scan user c w t =
    (t.scans.rows ≡ update scan_key scan.id (confirmed_row c t.db.now) w.scans.rows)
    × (t.scans.next_id ≡ w.scans.next_id)
    × (t.audit ≡ w.audit ++ invoice_confirmed user scan.id ∷ [])

-- The scan is as it was, although the stock has been added, since the database refuses the data.
-- `taken b d` says that `d` is the database with the stock added, and `b` the receipts.
abbrev pub Halfway :
    {B : Type 0} → (B → Db → Type 0) → Confirmed → ScanStore → Error → ScanStore → Type 0
Halfway {B} taken c w e t =
    (e ≡ database_error)
    × (c.is_storable ≡ false)
    × (t.scans ≡ w.scans)
    × (t.audit ≡ w.audit)
    × ((b : B) × taken b t.db)

abbrev pub RecordedOr :
    {B : Type 0}
    → InvoiceScan
    → ℕ
    → Confirmed
    → (B → Db → Type 0)
    → ScanStore
    → Result B × ScanStore
    → Type 0
RecordedOr scan user c taken w (ok b, t) = Recorded scan user c w t × taken b t.db
RecordedOr scan user c taken w (err e, t) = Undone w t ⊎ Halfway taken c w e t

-- After an exception only the version of the product cache may have changed.
abbrev RolledBack : {A : Type 0} → Db → Result A × Db → Type 0
RolledBack d (ok a, t) = Unit
RolledBack d (err e, t) = t ≡ record d { cache_version = t.cache_version }

abbrev IsTransaction : {A : Type 0} → Action Db A → Type 0
IsTransaction m = (d : Db) → RolledBack d (m d)

transaction-RolledBack : {A : Type 0} (m : Action Db A) → IsTransaction (transaction m)
transaction-RolledBack {A} m d = go (m d)
  where
    go :
        (r : Result A × Db)
        → RolledBack d (elim r.0 as (λ x. Result A × Db) [
          | ok a ↦ (ok a, r.1)
          | err e ↦ (err e, record d { cache_version = r.1.cache_version })
        ])
    go (ok a, t) = tt
    go (err e, t) = refl

invoice-IsTransaction :
    (texts : Texts) (i : Invoice) → IsTransaction (apply_confirmed_invoice texts i)
unfolding apply_confirmed_invoice
invoice-IsTransaction texts i = transaction-RolledBack (do
  quantity ← parse_invoice_quantity i.quantity_received
  unit_price ← parse_invoice_price i.unit_price
  apply_read texts i quantity unit_price)

lines-IsTransaction :
    (texts : Texts) (name : String) (lines : List Invoice)
    → IsTransaction (apply_confirmed_invoice_lines texts name lines)
unfolding apply_confirmed_invoice_lines
lines-IsTransaction texts name lines =
    transaction-RolledBack
      (do results ← apply_lines texts (texts.strip name) lines; or_all_failed results)

module _ (scan : InvoiceScan) (user : ℕ) (c : Confirmed) where
  update_scan_lem :
      (f : InvoiceScan → InvoiceScan) (w : ScanStore)
      → find scan_key scan.id w.scans.rows ≡ some scan
      → (f scan).id ≡ scan.id
      → update_scan scan.id f w
        ≡ (ok (f scan), with_scans (update scan_key scan.id f w.scans.rows) w)
  unfolding update_scan get_scan
  update_scan_lem f w e k = rw (find-update_self scan_key scan.id f w.scans.rows k e) refl

  abbrev confirmed_in : ScanStore → ScanStore
  confirmed_in w = record w {
    scans = record {
      rows = update scan_key scan.id (confirmed_row c w.db.now) w.scans.rows;
      next_id = w.scans.next_id;
    };
    audit = w.audit ++ invoice_confirmed user scan.id ∷ [];
  }

  if_storable :
      (b : Bool) (m : Action ScanStore InvoiceScan) (w : ScanStore)
      {out : Result InvoiceScan × ScanStore}
      → b ≡ true
      → m w ≡ out
      → (raise_if (not b) database_error >> m) w ≡ out
  if_storable true m w h e = e
  if_storable false m w h e = cc

  record_confirmation_lem :
      {A : Type 0} (a : A) (w : ScanStore)
      → find scan_key scan.id w.scans.rows ≡ some scan
      → c.is_storable ≡ true
      → record_confirmation scan user c a w ≡ (ok a, confirmed_in w)
  unfolding mark_confirmed_scan
  record_confirmation_lem a w e storable =
      >>=_ok (mark_confirmed_scan scan.id c)
        (λ m. log_entry (invoice_confirmed user m.id) >> pure a) w
        (if_storable c.is_storable (λ v. update_scan scan.id (confirmed_row c v.db.now) v) w
          storable (update_scan_lem (confirmed_row c w.db.now) w e refl))

  record_confirmation_refused :
      {A : Type 0} (a : A) (w : ScanStore)
      → c.is_storable ≡ false
      → record_confirmation scan user c a w ≡ (err database_error, w)
  unfolding mark_confirmed_scan
  record_confirmation_refused a w refused = rw refused refl

  -- The stock, and then the record of it.
  abbrev pub Taken : {A B : Type 0} → Action Db A → (A → B) → Db → B → Db → Type 0
  Taken {A} m k d b d' = (a : A) × (m d ≡ (ok a, d')) × (b ≡ k a)

  applied :
      {A B : Type 0} (m : Action Db A) (k : A → B) (w : ScanStore)
      → IsTransaction m
      → find scan_key scan.id w.scans.rows ≡ some scan
      → RecordedOr scan user c
          (Taken m k w.db)
          w
          ((in_inventory m >>= λ a. record_confirmation scan user c (k a)) w)
  applied {A} {B} m k w h e = go (m w.db) refl (h w.db)
    where
      go :
          (r : Result A × Db)
          → m w.db ≡ r
          → RolledBack w.db r
          → RecordedOr scan user c (Taken m k w.db) w (elim r.0 as (λ x. Result B × ScanStore) [
            | ok a ↦ record_confirmation scan user c (k a) (record w { db = r.1 })
            | err x ↦ (err x, record w { db = r.1 })
          ])
      go (ok a, d) call b = elim (Bool-cases c.is_storable) [
        | inl storable ↦
            rw (record_confirmation_lem (k a) (record w { db = d }) e storable)
              ((refl, refl, refl), (a, call, refl))
        | inr refused ↦
            rw (record_confirmation_refused (k a) (record w { db = d }) refused)
              (inr (refl, refused, refl, refl, (k a, (a, call, refl))))
      ]
      go (err x, d) call b = inl (refl, refl, b)

module _ (texts : Texts) (scan : InvoiceScan) (user : ℕ) (c : Confirmed) (w : ScanStore) where
  -- What the inventory service has made of the data, as lines if there are some.
  abbrev pub StockTaken : Option (List Line) → List (Option Receipt) → Db → Type 0
  StockTaken (some (l ∷ ls)) =
      Taken scan user c
        (apply_confirmed_invoice_lines texts c.invoice.supplier_name
          (map (λ (l : Line). l.invoice) (l ∷ ls)))
        (λ a. a) w.db
  StockTaken (some []) =
      Taken scan user c (apply_confirmed_invoice texts c.invoice) (λ r. some r ∷ []) w.db
  StockTaken none =
      Taken scan user c (apply_confirmed_invoice texts c.invoice) (λ r. some r ∷ []) w.db

  abbrev pub IsOpenTo : Type 0
  IsOpenTo =
      (scan.uploaded_by ≡ user)
      × (is_settled scan ≡ false)
      × (same_scan_status scan.status ScanStatus.rejected ≡ false)

  -- How a confirmation of a scan ends.
  abbrev pub Confirms : Result (List (Option Receipt)) × ScanStore → Type 0
  Confirms (err e, t) = Undone w t ⊎ (IsOpenTo × Halfway (StockTaken c.line_items) c w e t)
  Confirms (ok a, t) = IsOpenTo × Recorded scan user c w t × StockTaken c.line_items a t.db

  module _ (known : find scan_key scan.id w.scans.rows ≡ some scan) where
    confirm_multi_line-Recorded :
        (l : Line) (ls : List Line)
        → RecordedOr scan user c
            (StockTaken (some (l ∷ ls)))
            w
            (confirm_multi_line texts scan user c (l ∷ ls) w)
    unfolding confirm_multi_line
    confirm_multi_line-Recorded l ls =
        let lines = l ∷ ls in
        let m =
          apply_confirmed_invoice_lines texts c.invoice.supplier_name
            (map (λ (l : Line). l.invoice) lines) in
        raise_if_ind (RecordedOr scan user c (StockTaken (some (l ∷ ls))) w)
          (is_missing (c.get Field.supplier_name)) validation_error
          (raise_if (any_bad lines) validation_error
            >> (in_inventory m >>= record_confirmation scan user c))
          w (λ e. (inl (refl, refl, refl)))
          (λ e.
            raise_if_ind (RecordedOr scan user c (StockTaken (some (l ∷ ls))) w) (any_bad lines)
              validation_error (in_inventory m >>= record_confirmation scan user c) w
              (λ f. (inl (refl, refl, refl)))
              (λ f.
                applied scan user c m (λ a. a) w
                  (lines-IsTransaction texts c.invoice.supplier_name
                    (map (λ (l : Line). l.invoice) lines))
                  known))

    confirm_single-Recorded :
        RecordedOr scan user c (StockTaken none) w (confirm_single texts scan user c w)
    unfolding confirm_single
    confirm_single-Recorded =
        raise_if_ind (RecordedOr scan user c (StockTaken none) w)
          (not (is_empty (missing_in c.get))) validation_error
          (in_inventory (apply_confirmed_invoice texts c.invoice) >>= λ r.
            record_confirmation scan user c (some r ∷ []))
          w (λ e. (inl (refl, refl, refl)))
          (λ e.
            applied scan user c (apply_confirmed_invoice texts c.invoice) (λ r. some r ∷ []) w
              (invoice-IsTransaction texts c.invoice) known)

    confirm_lines-Recorded :
        (lines : Option (List Line))
        → RecordedOr scan user c (StockTaken lines) w (confirm_lines texts scan user c lines w)
    confirm_lines-Recorded (some (l ∷ ls)) = confirm_multi_line-Recorded l ls
    confirm_lines-Recorded (some []) = confirm_single-Recorded
    confirm_lines-Recorded none = confirm_single-Recorded

    with_guards :
        (r : Result (List (Option Receipt)) × ScanStore)
        → (scan.uploaded_by ≡ user)
        → (is_settled scan ≡ false)
        → (same_scan_status scan.status ScanStatus.rejected ≡ false)
        → RecordedOr scan user c (StockTaken c.line_items) w r
        → Confirms r
    with_guards (ok a, t) o s n h = ((o, s, n), h.0, h.1)
    with_guards (err e, t) o s n (inl undone) = inl undone
    with_guards (err e, t) o s n (inr halfway) = inr ((o, s, n), halfway)

    -- If the scan that was read is in the table, a confirmation ends in one of three ways. It
    -- raises, and no scan, no entry of the audit log and no row of the database has changed. Or
    -- the user owns the scan, which was neither confirmed nor rejected, the stock is what the
    -- inventory service makes of the data, and the scan is confirmed with the data given, and the
    -- confirmation is logged. Or the user owns such a scan, and the database refuses the data: it
    -- raises DataError, and the scans and the audit log are as they were, but the stock is again
    -- what the inventory service makes of the data.
    pub confirm_read-Confirms : Confirms (confirm_read texts scan user c w)
    unfolding confirm_read
    confirm_read-Confirms =
        raise_if_ind Confirms (not (scan.uploaded_by == user)) permission_error
          (raise_if (is_settled scan) invoice_already_confirmed >> open_scan) w
          (λ e. (inl (refl, refl, refl)))
          (λ owner.
            raise_if_ind Confirms (is_settled scan) invoice_already_confirmed open_scan w
              (λ e. (inl (refl, refl, refl)))
              (λ unsettled.
                raise_if_ind Confirms (same_scan_status scan.status ScanStatus.rejected)
                  validation_error (confirm_lines texts scan user c c.line_items) w
                  (λ e. (inl (refl, refl, refl)))
                  (λ unrejected.
                    with_guards (confirm_lines texts scan user c c.line_items w)
                      (ground (arith, owner)) unsettled unrejected
                      (confirm_lines-Recorded c.line_items))))
      where
        open_scan : Action ScanStore (List (Option Receipt))
        open_scan =
            raise_if (same_scan_status scan.status ScanStatus.rejected) validation_error
            >> confirm_lines texts scan user c c.line_items
