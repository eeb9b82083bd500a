-- ===== src/Orders/Overdue.antt =====
-- `get_overdue_suppliers` (apps/purchasing/services.py): the suppliers with orders that were sent
-- longer ago than their lead time.
pub mod Grouped
use smart_stock_ai.Prelude.{
  ℕ, ◌+◌, ◌*◌, ◌-◌, ◌/◌, Bool, ◌&&◌, Option, some, List, [], ◌∷◌, ◌++◌, String, ltb, ◌==◌,
  if◌then◌else◌, select, is_some,
}
use smart_stock_ai.Prelude.Int.{ℤ, pos, negsuc, pos_part, ◌+ℤ◌, ◌-ℤ◌, ltb_ℤ}
use smart_stock_ai.Prelude.Table.{find}
use smart_stock_ai.Prelude.Sorting.{sort}
use smart_stock_ai.Database.{Db, PurchaseOrder, Supplier, Status, same_status}
use smart_stock_ai.Orders.Repository.{newer, supplier_key}

pub record OverduePo : Type 0 where
  pub po_id : ℕ
  pub po_number : Option String
  pub sent_at : ℕ
  pub deadline : ℤ

pub record OverdueSupplier : Type 0 where
  pub supplier_id : ℕ
  pub supplier_name : String
  pub overdue_pos : List OverduePo
  pub days_overdue : ℕ

abbrev pub overdue_key : OverdueSupplier → ℕ
overdue_key e = e.supplier_id

abbrev pub is_sent_po : PurchaseOrder → Bool
is_sent_po r = same_status r.status Status.sent && is_some r.sent_at

-- `timedelta(days=...)` in seconds
abbrev pub timedelta_days : ℤ → ℤ
timedelta_days (pos n) = pos (n * 86400)
timedelta_days (negsuc n) = negsuc (n * 86400 + 86399)

abbrev pub overdue_po : Supplier → PurchaseOrder → ℕ → OverduePo
overdue_po s r at = record {
  po_id = r.id;
  po_number = r.po_number;
  sent_at = at;
  deadline = pos at +ℤ timedelta_days s.default_lead_time_days;
}

-- `overdue[sid]`, which is made for the supplier's first order.
abbrev pub first_overdue : ℕ → Supplier → OverduePo → OverdueSupplier
first_overdue now s p = record {
  supplier_id = s.id;
  supplier_name = s.name;
  overdue_pos = p ∷ [];
  days_overdue = pos_part (pos now -ℤ p.deadline) / 86400;
}

abbrev pub append_overdue : OverduePo → OverdueSupplier → OverdueSupplier
append_overdue p e = record e { overdue_pos = e.overdue_pos ++ p ∷ [] }

abbrev pub add_overdue : ℕ → Supplier → OverduePo → List OverdueSupplier → List OverdueSupplier
add_overdue now s p [] = first_overdue now s p ∷ []
add_overdue now s p (e ∷ es) =
    let rest = add_overdue now s p es in
    if e.supplier_id == s.id then append_overdue p e ∷ es else e ∷ rest

abbrev pub add_if_late :
    ℕ → PurchaseOrder → Option ℕ → Option Supplier → List OverdueSupplier → List OverdueSupplier
add_if_late now r (some at) (some s) overdue =
    if ltb_ℤ (overdue_po s r at).deadline (pos now)
    then add_overdue now s (overdue_po s r at) overdue
    else overdue
add_if_late now r _ _ overdue = overdue

-- `po.supplier`; the join of `select_related` has no row for an order without one.
abbrev pub po_supplier : Db → PurchaseOrder → Option Supplier
po_supplier d r = find supplier_key r.supplier_id d.suppliers.rows

unfoldable pub collect_overdue :
    Db → List PurchaseOrder → List OverdueSupplier → List OverdueSupplier
collect_overdue d [] overdue = overdue
collect_overdue d (r ∷ rs) overdue =
    collect_overdue d rs (add_if_late d.now r r.sent_at (po_supplier d r) overdue)

unfoldable pub get_overdue_suppliers : Db → List OverdueSupplier
get_overdue_suppliers d = collect_overdue d (sort newer (select is_sent_po d.orders.rows)) []
