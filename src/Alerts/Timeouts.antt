-- ===== src/Alerts/Timeouts.antt =====
-- `check_supplier_timeouts` (apps/purchasing/timeout_tasks.py). Its rows are read at once and written
-- one by one; saving, the audit log and the escalation are taken not to raise.
use Prim.Native.String.{◌++◌ as str_append}
use text.Mathlib.Text.{◌==◌ as str_eq}
use smart_stock_ai.Prelude.{
  ℕ, ◌+◌, ◌*◌, Bool, false, ◌&&◌, Option, none, some, List, [], ◌∷◌, ◌++◌, leb, map, select,
  if◌then◌else◌, String,
}
use smart_stock_ai.Prelude.Table.{update}
use smart_stock_ai.Prelude.Sorting.{sort}
use smart_stock_ai.Database.{PurchaseOrder, Status, is_one_of}
use smart_stock_ai.Orders.Repository.{newer, order_key, with_orders}
use smart_stock_ai.Alerts.Escalation.{Desk, Reason, create_escalation_notification}

abbrev pub supplier_timeout_hours : ℕ
supplier_timeout_hours = 48

abbrev pub sent_before : ℕ → Option ℕ → Bool
sent_before now none = false
sent_before now (some at) = leb (at + supplier_timeout_hours * 3600) now

-- Mailed, without an answer, for 48 hours.
abbrev pub is_stale : ℕ → PurchaseOrder → Bool
is_stale now r =
    is_one_of r.status (Status.email_sent ∷ Status.waiting_confirmation ∷ [])
    && sent_before now r.sent_at

-- The notes, with the note of the time-out after them.
abbrev pub timeout_notes : (ℕ → String) → ℕ → String → String
timeout_notes note now notes =
    if str_eq notes "" then note now else str_append notes (str_append "\n" (note now))

abbrev pub timed_out : (ℕ → String) → ℕ → PurchaseOrder → PurchaseOrder
timed_out note now r = record r { status = Status.timeout; notes = timeout_notes note now r.notes }

-- `po.save(update_fields=['status', 'notes', ...])`
abbrev pub save_timeout : PurchaseOrder → List PurchaseOrder → List PurchaseOrder
save_timeout po rows =
    update order_key po.id (λ r. record r { status = po.status; notes = po.notes }) rows

-- The order is saved, and the audit log has an entry.
abbrev pub recorded : PurchaseOrder → Desk → Desk
recorded po k = record k {
  db = with_orders (save_timeout po k.db.orders.rows) k.db;
  audit = k.audit ++ po.id ∷ [];
}

-- The recipients of the settings, and the text of the note, which has the time in it.
module _ (recipients : List String) (note : ℕ → String) where
  abbrev pub time_out : PurchaseOrder → Desk → Desk
  time_out po k =
      let late = timed_out note k.db.now po in
      create_escalation_notification recipients late Reason.supplier_timeout (recorded late k)

  unfoldable pub time_out_all : List PurchaseOrder → Desk → Desk
  time_out_all [] k = k
  time_out_all (po ∷ pos) k = time_out_all pos (time_out po k)

  -- The keys of the orders that are timed out, newest first, and the state after.
  unfoldable pub check_supplier_timeouts : Desk → List ℕ × Desk
  check_supplier_timeouts k =
      let stale = sort newer (select (is_stale k.db.now) k.db.orders.rows) in
      (map order_key stale, time_out_all stale k)
