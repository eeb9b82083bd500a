-- ===== src/Scans/Final.antt =====
-- Lists of calls of InvoiceScanService (apps/ingestion/services.py): a confirmed scan stays as it is.
use smart_stock_ai.Prelude.{
  inl, inr, ℕ, ◌≤◌, ◌<◌, true, false, not, Option, none, some, List, [], ◌∷◌, ◌≡◌, ◌≢◌, refl, sym,
  ap, ◌∙◌, arith, String, ◌==◌,
}
use smart_stock_ai.Prelude.Action.{
  Action, Result, ok, err, ◌>>=◌, ◌>>◌, pure, raise_if, or_raise, permission_error,
  invoice_already_confirmed, does_not_exist, raise_if_ind,
}
use smart_stock_ai.Prelude.Keeps.{Keeps, >>=-Keeps}
use smart_stock_ai.Prelude.Table.{find, find_key}
use smart_stock_ai.Inventory.Invoices.{Texts, Receipt}
use smart_stock_ai.Scans.{
  Confirmed, InvoiceScan, invoice_confirmed, invoice_rejected, ScanStore, scan_key,
}
use smart_stock_ai.Scans.Service.{
  Vision, scan_invoice, create_scan, new_scan, on_vision, get_scan, log_entry, is_settled,
  confirm_scan, confirm_read, reject_scan, reject_read, mark_rejected, confirmed_row,
}
use smart_stock_ai.Scans.Outcomes.{Confirms, confirm_read-Confirms}
use smart_stock_ai.Scans.Kept.{
  confirmations, scan_of, confirmations-append, find-update_others, find-append_others, settled_or,
  log_entry-Keeps, mark_rejected-Keeps, on_vision-Keeps,
}

module _ (id : ℕ) where
  -- One scan stays, and the next key does not fall.
  abbrev Stays : ScanStore → ScanStore → Type 0
  Stays w t =
      (find scan_key id t.scans.rows ≡ find scan_key id w.scans.rows)
      × (confirmations id t.audit ≡ confirmations id w.audit)
      × (w.scans.next_id ≤ t.scans.next_id)

  Stays-of : (w t : ScanStore) → scan_of id t ≡ scan_of id w → Stays w t
  Stays-of w t e = (ap (λ v. v.0) e, ap (λ v. v.1) e, omega (arith, ap (λ v. v.2) e))

  scan_invoice-Stays :
      (text_of : Vision → String) (v : Vision) (user : ℕ) (w : ScanStore)
      → id < w.scans.next_id
      → Stays w (scan_invoice text_of v user w).1
  unfolding scan_invoice
  scan_invoice-Stays text_of v user w b =
      let s = new_scan w.scans.next_id user in
      let t = (create_scan user w).1 in
      let n : id ≢ s.id = ground arith in
      let (found, count, next) =
        Stays-of t (on_vision text_of s user v t).1 (on_vision-Keeps id text_of s user v n t) in
      (found ∙ find-append_others id s w.scans.rows n, count, omega (arith, next))

  module _ (w : ScanStore) (s : InvoiceScan) where
    other_than_settled :
        (scan : InvoiceScan)
        → find scan_key scan.id w.scans.rows ≡ some scan
        → find scan_key id w.scans.rows ≡ some s
        → is_settled s ≡ true
        → is_settled scan ≡ false
        → id ≢ scan.id
    other_than_settled scan e f h u p =
        let same : some scan ≡ some s =
          sym e ∙ (ap (λ k. find scan_key k w.scans.rows) (sym p) ∙ f) in
        cc (ap settled_or same, h, u)

    Stays-same : (t : ScanStore) → t.scans ≡ w.scans → t.audit ≡ w.audit → Stays w t
    Stays-same t scans audit = (
      ap (λ y. find scan_key id y.rows) scans,
      ap (confirmations id) audit,
      omega (arith, ap (λ y. y.next_id) scans),
    )

    confirm_read-Stays :
        (texts : Texts) (scan : InvoiceScan) (user : ℕ) (c : Confirmed)
        → find scan_key scan.id w.scans.rows ≡ some scan
        → find scan_key id w.scans.rows ≡ some s
        → is_settled s ≡ true
        → (r : Result (List (Option Receipt)) × ScanStore) → Confirms texts scan user c w r
        → Stays w r.1
    confirm_read-Stays texts scan user c e f h (err x, t) (inl u) = Stays-same t u.0 u.1
    confirm_read-Stays texts scan user c e f h (err x, t) (inr (o, u)) = Stays-same t u.2 u.3
    confirm_read-Stays texts scan user c e f h (ok a, t)
          ((owner, unsettled, open_still), (rows, next, log), stock) =
        let n = other_than_settled scan e f h unsettled in
        (
          ap (find scan_key id) rows
              ∙ find-update_others id scan.id (confirmed_row c t.db.now) w.scans.rows (λ x. refl) n,
          ap (confirmations id) log
              ∙ confirmations-append id (invoice_confirmed user scan.id) w.audit
                  (ground (arith, n)),
          omega (arith, next),
        )

    confirm_scan-Stays :
        (texts : Texts) (k user : ℕ) (c : Confirmed)
        → find scan_key id w.scans.rows ≡ some s
        → is_settled s ≡ true
        → Stays w (confirm_scan texts k user c w).1
    unfolding confirm_scan get_scan
    confirm_scan-Stays texts k user c f h = go (find scan_key k w.scans.rows) refl
      where
        go :
            (o : Option InvoiceScan)
            → find scan_key k w.scans.rows ≡ o
            → Stays w
                ((or_raise {S = ScanStore} o does_not_exist >>= λ scan.
                    confirm_read texts scan user c)
                  w).1
        go none e = (refl, refl, omega arith)
        go (some scan) e =
            let known =
              ap (λ i. find scan_key i w.scans.rows) (find_key scan_key k w.scans.rows e) ∙ e in
            confirm_read-Stays texts scan user c known f h (confirm_read texts scan user c w)
              (confirm_read-Confirms texts scan user c w known)

    reject_read-Stays :
        (scan : InvoiceScan) (user : ℕ)
        → find scan_key scan.id w.scans.rows ≡ some scan
        → find scan_key id w.scans.rows ≡ some s
        → is_settled s ≡ true
        → Stays w (reject_read scan user w).1
    reject_read-Stays scan user e f h =
        raise_if_ind (λ r. Stays w r.1) (not (scan.uploaded_by == user)) permission_error
          (raise_if (is_settled scan) invoice_already_confirmed >> rejected_by) w
          (λ x. (refl, refl, omega arith))
          (λ x.
            raise_if_ind (λ r. Stays w r.1) (is_settled scan) invoice_already_confirmed rejected_by
              w (λ y. (refl, refl, omega arith))
              (λ u.
                Stays-of w (rejected_by w).1
                  (rejected_by-Keeps (other_than_settled scan e f h u) w)))
      where
        logged : InvoiceScan → Action ScanStore InvoiceScan
        logged r = log_entry (invoice_rejected user r.id) >> pure r

        rejected_by : Action ScanStore InvoiceScan
        rejected_by = mark_rejected scan.id >>= logged

        rejected_by-Keeps : id ≢ scan.id → Keeps (scan_of id) rejected_by
        rejected_by-Keeps n =
            >>=-Keeps (scan_of id) (mark_rejected scan.id) logged (mark_rejected-Keeps id scan.id n)
              (λ r.
                >>=-Keeps (scan_of id) (log_entry (invoice_rejected user r.id)) (λ x. pure r)
                  (log_entry-Keeps id (invoice_rejected user r.id) refl) (λ x v. refl))

    reject_scan-Stays :
        (k user : ℕ)
        → find scan_key id w.scans.rows ≡ some s
        → is_settled s ≡ true
        → Stays w (reject_scan k user w).1
    unfolding reject_scan get_scan
    reject_scan-Stays k user f h = go (find scan_key k w.scans.rows) refl
      where
        go :
            (o : Option InvoiceScan)
            → find scan_key k w.scans.rows ≡ o
            → Stays w
                ((or_raise {S = ScanStore} o does_not_exist >>= λ scan. reject_read scan user) w).1
        go none e = (refl, refl, omega arith)
        go (some scan) e =
            reject_read-Stays scan user
              (ap (λ i. find scan_key i w.scans.rows) (find_key scan_key k w.scans.rows e) ∙ e) f h

-- A call of the service; its text for a failed extraction is the environment's.
pub data ScanCall : Type 0 where
  scans : Vision → ℕ → ScanCall
  confirms : ℕ → ℕ → Confirmed → ScanCall
  rejects : ℕ → ℕ → ScanCall

module _ (texts : Texts) (text_of : Vision → String) where
  abbrev pub perform_scan : ScanCall → ScanStore → ScanStore
  perform_scan (scans v user) w = (scan_invoice text_of v user w).1
  perform_scan (confirms k user c) w = (confirm_scan texts k user c w).1
  perform_scan (rejects k user) w = (reject_scan k user w).1

  unfoldable pub after_calls : List ScanCall → ScanStore → ScanStore
  after_calls [] w = w
  after_calls (x ∷ xs) w = after_calls xs (perform_scan x w)

  perform_scan-Stays :
      (x : ScanCall) (id : ℕ) (w : ScanStore) (s : InvoiceScan)
      → id < w.scans.next_id
      → find scan_key id w.scans.rows ≡ some s
      → is_settled s ≡ true
      → Stays id w (perform_scan x w)
  perform_scan-Stays (scans v user) id w s b f h = scan_invoice-Stays id text_of v user w b
  perform_scan-Stays (confirms k user c) id w s b f h = confirm_scan-Stays id w s texts k user c f h
  perform_scan-Stays (rejects k user) id w s b f h = reject_scan-Stays id w s k user f h

  -- A confirmed scan with a key below the next key is left as it is by every list of calls, of any
  -- users and with any data, and none of them confirms it again.
  pub after_calls-final :
      (xs : List ScanCall) (id : ℕ) (w : ScanStore) (s : InvoiceScan)
      → id < w.scans.next_id
      → find scan_key id w.scans.rows ≡ some s
      → is_settled s ≡ true
      → let t = after_calls xs w in
        (find scan_key id t.scans.rows ≡ some s)
        × (confirmations id t.audit ≡ confirmations id w.audit)
  unfolding after_calls
  after_calls-final [] id w s b f h = (f, refl)
  after_calls-final (x ∷ xs) id w s b f h =
      let (found, count, next) = perform_scan-Stays x id w s b f h in
      let t = perform_scan x w in
      let (last, total) = after_calls-final xs id t s (omega (arith, next)) (found ∙ f) h in
      (last, total ∙ count)
