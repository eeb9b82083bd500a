-- ===== src/Scans/Tests.antt =====
-- Scans of invoices on a small store.
use text.Mathlib.Text.{◌==◌ as str_eq}
use smart_stock_ai.Prelude.{ℕ, true, false, none, some, [], ◌∷◌, ◌≡◌, refl, arith, ltb}
use smart_stock_ai.Prelude.Int.{pos, ◌+ℤ◌}
use smart_stock_ai.Prelude.Table.{find}
use smart_stock_ai.Inventory.Invoices.{Texts, RawPrice}
use smart_stock_ai.Inventory.Apply.{apply_confirmed_invoice}
use smart_stock_ai.Decision.Tests.{shop}
use smart_stock_ai.Scans.{ScanStatus, Value, Confirmed, InvoiceScan, ScanStore, scan_key}
use smart_stock_ai.Scans.Service.{
  Vision, new_scan, confirm_read, confirm_single, mark_confirmed_scan, update_scan, get_scan,
}
use smart_stock_ai.Scans.Confidence.{
  Floats, RawConfidence, IsConfidence, normalize_confidence, normalize_confidence_bounds,
}
use smart_stock_ai.Scans.Outcomes.{Confirms, confirm_read-Confirms}
use smart_stock_ai.Scans.Kept.{confirmations}
use smart_stock_ai.Scans.Final.{ScanCall, after_calls, after_calls-final}

abbrev plain : Texts
plain = record { strip = λ s. s; upper = λ s. s; iexact = str_eq }

abbrev six_bolts : Confirmed
six_bolts = record {
  is_storable = true;
  get = λ f. Value.value true "x";
  invoice = record {
    sku_code = "BOLT-1";
    product_name = "Bolt";
    supplier_name = "Acme";
    quantity_received = some (pos 6);
    unit_price = RawPrice.decimal false 30;
  };
  line_items = none;
}

abbrev fresh : InvoiceScan
fresh = record (new_scan 1 7) { status = ScanStatus.extracted }

abbrev desk : ScanStore
desk = record { db = shop.db; scans = record { rows = fresh ∷ []; next_id = 2 }; audit = [] }

abbrev settled : InvoiceScan
settled = record fresh { status = ScanStatus.confirmed; is_confirmed = true }

abbrev closed_desk : ScanStore
closed_desk = record desk { scans = record { rows = settled ∷ []; next_id = 2 } }

confirm_read-Confirms_example :
    Confirms plain fresh 7 six_bolts desk (confirm_read plain fresh 7 six_bolts desk)
confirm_read-Confirms_example = confirm_read-Confirms plain fresh 7 six_bolts desk refl

after_calls-final_example :
    let t =
      after_calls plain
        (λ v. "failed")
        (ScanCall.confirms 1 7 six_bolts
          ∷ ScanCall.rejects 1 7
          ∷ ScanCall.scans Vision.timed_out 7
          ∷ [])
        closed_desk in
    (find scan_key 1 t.scans.rows ≡ some settled) × (confirmations 1 t.audit ≡ 0)
after_calls-final_example =
    after_calls-final plain (λ v. "failed")
      (ScanCall.confirms 1 7 six_bolts
        ∷ ScanCall.rejects 1 7
        ∷ ScanCall.scans Vision.timed_out 7
        ∷ [])
      1 closed_desk settled (omega arith) refl refl

-- Two requests that read the scan before either of them writes: both are confirmed, and the stock has
-- the six bolts twice.
twice_confirmed :
    confirmations 1
      (confirm_read plain fresh 7 six_bolts (confirm_read plain fresh 7 six_bolts desk).1).1.audit
    ≡ 2
unfolding confirm_read confirm_single apply_confirmed_invoice mark_confirmed_scan update_scan
    get_scan ◌+ℤ◌
twice_confirmed = refl

-- Hundredths in place of floats.
abbrev hundredths_of_one : Floats
hundredths_of_one = record { Float = ℕ; zero = 0; one = 100; less = ltb; divided_by_100 = λ x. x }

normalize_confidence_bounds_example :
    IsConfidence hundredths_of_one
      (RawConfidence.reads 150)
      (normalize_confidence hundredths_of_one (RawConfidence.reads 150))
normalize_confidence_bounds_example =
    normalize_confidence_bounds hundredths_of_one (λ x y h. ground (arith, h)) refl
      (RawConfidence.reads 150)
