-- ===== src/Orders/Overdue/Grouped.antt =====
-- What the list of `get_overdue_suppliers` (apps/purchasing/services.py) holds of each supplier.
use mathlib.Core.List.{append_assoc, append-nil}
use smart_stock_ai.Prelude.{
  ℕ, ◌/◌, ◌&&◌, Option, none, some, List, [], ◌∷◌, ◌++◌, ◌≡◌, ◌≢◌, refl, sym, ap, arith, ◌==◌,
  if◌then◌else◌, select, Bool-cases, inl, inr, ◌∙◌,
}
use smart_stock_ai.Prelude.Int.{pos, pos_part, ◌-ℤ◌, ltb_ℤ}
use smart_stock_ai.Prelude.Table.{find, find_key}
use smart_stock_ai.Prelude.Keys.{IsDistinct}
use smart_stock_ai.Prelude.Sorting.{sort}
use smart_stock_ai.Database.{Db, PurchaseOrder, Supplier}
use smart_stock_ai.Orders.Repository.{newer, supplier_key}
use smart_stock_ai.Orders.Overdue.{
  OverduePo, OverdueSupplier, overdue_key, is_sent_po, overdue_po, first_overdue, append_overdue,
  add_overdue, add_if_late, po_supplier, collect_overdue, get_overdue_suppliers,
}

abbrev pub late_as : ℕ → Supplier → PurchaseOrder → Option ℕ → List OverduePo → List OverduePo
late_as now s r none rest = rest
late_as now s r (some at) rest =
    if r.supplier_id == s.id && ltb_ℤ (overdue_po s r at).deadline (pos now)
    then overdue_po s r at ∷ rest
    else rest

-- The orders of the supplier with a deadline in the past.
abbrev pub late_pos : ℕ → Supplier → List PurchaseOrder → List OverduePo
late_pos now s [] = []
late_pos now s (r ∷ rs) = late_as now s r r.sent_at (late_pos now s rs)

-- The supplier with its late orders, and the days of the first of them.
abbrev pub overdue_report : ℕ → Supplier → List OverduePo → Option OverdueSupplier
overdue_report now s [] = none
overdue_report now s (p ∷ ps) = some record {
  supplier_id = s.id;
  supplier_name = s.name;
  overdue_pos = p ∷ ps;
  days_overdue = pos_part (pos now -ℤ p.deadline) / 86400;
}

abbrev extended : ℕ → Supplier → List OverduePo → Option OverdueSupplier → Option OverdueSupplier
extended now s [] found = found
extended now s (p ∷ ps) none = extended now s ps (some (first_overdue now s p))
extended now s (p ∷ ps) (some e) = extended now s ps (some (append_overdue p e))

with_more : List OverduePo → OverdueSupplier → OverdueSupplier
with_more ps e = record e { overdue_pos = e.overdue_pos ++ ps }

extended-some :
    (now : ℕ) (s : Supplier) (ps : List OverduePo) (e : OverdueSupplier)
    → extended now s ps (some e) ≡ some (with_more ps e)
unfolding with_more
extended-some now s [] e =
    ap (λ l. some (record e { overdue_pos = l })) (sym (append-nil e.overdue_pos))
extended-some now s (p ∷ ps) e =
    extended-some now s ps (append_overdue p e)
    ∙ ap (λ l. some (record e { overdue_pos = l })) (append_assoc e.overdue_pos (p ∷ []) ps)

extended-none :
    (now : ℕ) (s : Supplier) (ps : List OverduePo)
    → extended now s ps none ≡ overdue_report now s ps
unfolding with_more
extended-none now s [] = refl
extended-none now s (p ∷ ps) = extended-some now s ps (first_overdue now s p)

find-add_overdue_self :
    (now : ℕ) (s : Supplier) (p : OverduePo) (es : List OverdueSupplier)
    → find overdue_key s.id (add_overdue now s p es)
      ≡ extended now s (p ∷ []) (find overdue_key s.id es)
find-add_overdue_self now s p [] = ground arith
find-add_overdue_self now s p (e ∷ es) = ground (arith, find-add_overdue_self now s p es)

find-add_overdue_ne :
    (now k : ℕ) (s : Supplier) (p : OverduePo) (es : List OverdueSupplier)
    → s.id ≢ k
    → find overdue_key k (add_overdue now s p es) ≡ find overdue_key k es
find-add_overdue_ne now k s p [] h = ground arith
find-add_overdue_ne now k s p (e ∷ es) h = ground (arith, find-add_overdue_ne now k s p es)

IsDistinct-add_overdue :
    (now : ℕ) (s : Supplier) (p : OverduePo) (es : List OverdueSupplier)
    → IsDistinct overdue_key es
    → IsDistinct overdue_key (add_overdue now s p es)
IsDistinct-add_overdue now s p [] h = (refl, tt)
IsDistinct-add_overdue now s p (e ∷ es) h =
    ground
      (arith, IsDistinct-add_overdue now s p es h.1, find-add_overdue_ne now e.supplier_id s p es)

IsDistinct-add_if_late :
    (now : ℕ) (r : PurchaseOrder) (at : Option ℕ) (s : Option Supplier) (es : List OverdueSupplier)
    → IsDistinct overdue_key es
    → IsDistinct overdue_key (add_if_late now r at s es)
IsDistinct-add_if_late now r none s es h = h
IsDistinct-add_if_late now r (some at) none es h = h
IsDistinct-add_if_late now r (some at) (some s) es h =
    ground (arith, IsDistinct-add_overdue now s (overdue_po s r at) es h)

IsDistinct-collect_overdue :
    (d : Db) (rs : List PurchaseOrder) (es : List OverdueSupplier)
    → IsDistinct overdue_key es
    → IsDistinct overdue_key (collect_overdue d rs es)
unfolding collect_overdue
IsDistinct-collect_overdue d [] es h = h
IsDistinct-collect_overdue d (r ∷ rs) es h =
    IsDistinct-collect_overdue d rs (add_if_late d.now r r.sent_at (po_supplier d r) es)
      (IsDistinct-add_if_late d.now r r.sent_at (po_supplier d r) es h)

extended_twice :
    (now : ℕ) (s : Supplier) (p : OverduePo) (rest : List OverduePo) (o : Option OverdueSupplier)
    → extended now s rest (extended now s (p ∷ []) o) ≡ extended now s (p ∷ rest) o
extended_twice now s p rest none = refl
extended_twice now s p rest (some e) = refl

-- A sent order of the supplier itself, and one of another supplier.
find-add_own :
    (now : ℕ) (r : PurchaseOrder) (at : ℕ) (s : Supplier) (rest : List OverduePo)
    (es : List OverdueSupplier)
    → r.supplier_id ≡ s.id
    → extended now s rest (find overdue_key s.id (add_if_late now r (some at) (some s) es))
      ≡ extended now s (late_as now s r (some at) rest) (find overdue_key s.id es)
find-add_own now r at s rest es own = ground (
  arith,
  own,
  find-add_overdue_self now s (overdue_po s r at) es,
  extended_twice now s (overdue_po s r at) rest (find overdue_key s.id es),
)

find-add_other :
    (now : ℕ) (r : PurchaseOrder) (at : ℕ) (s : Supplier) (t : Option Supplier)
    (es : List OverdueSupplier)
    → r.supplier_id ≢ s.id
    → ((x : Supplier) → t ≡ some x → x.id ≡ r.supplier_id)
    → find overdue_key s.id (add_if_late now r (some at) t es) ≡ find overdue_key s.id es
find-add_other now r at s none es own other = refl
find-add_other now r at s (some x) es own other =
    let e = other x refl in ground (arith, find-add_overdue_ne now s.id x (overdue_po x r at) es)

find-add_if_late :
    (now : ℕ) (r : PurchaseOrder) (at : Option ℕ) (s : Supplier) (t : Option Supplier)
    (rest : List OverduePo) (es : List OverdueSupplier)
    → (r.supplier_id ≡ s.id → t ≡ some s)
    → ((x : Supplier) → t ≡ some x → x.id ≡ r.supplier_id)
    → extended now s rest (find overdue_key s.id (add_if_late now r at t es))
      ≡ extended now s (late_as now s r at rest) (find overdue_key s.id es)
find-add_if_late now r none s t rest es own other = refl
find-add_if_late now r (some at) s t rest es own other = elim (Bool-cases (r.supplier_id == s.id)) [
  | inl b ↦
      let here : r.supplier_id ≡ s.id = ground (arith, b) in
      rw (own here) (find-add_own now r at s rest es here)
  | inr b ↦
      let e : find overdue_key s.id (add_if_late now r (some at) t es) ≡ find overdue_key s.id es =
        find-add_other now r at s t es (λ h. ground (arith, h, b)) other in
      rw (e, b) refl
]

find-collect_overdue :
    (d : Db) (s : Supplier) (rs : List PurchaseOrder) (es : List OverdueSupplier)
    → find supplier_key s.id d.suppliers.rows ≡ some s
    → find overdue_key s.id (collect_overdue d rs es)
      ≡ extended d.now s (late_pos d.now s rs) (find overdue_key s.id es)
unfolding collect_overdue
find-collect_overdue d s [] es known = refl
find-collect_overdue d s (r ∷ rs) es known =
    find-collect_overdue d s rs (add_if_late d.now r r.sent_at (po_supplier d r) es) known
    ∙ find-add_if_late d.now r r.sent_at s (po_supplier d r) (late_pos d.now s rs) es
        (λ own. ap (λ k. find supplier_key k d.suppliers.rows) own ∙ known)
        (λ x found. find_key supplier_key r.supplier_id d.suppliers.rows found)

-- The list of overdue suppliers names no supplier twice, and has of each supplier that is in the
-- table exactly its sent orders with a deadline in the past, newest first, with the days since
-- the deadline of the newest one; it has no entry for a supplier without such an order.
pub get_overdue_suppliers_lem :
    (d : Db) (s : Supplier)
    → find supplier_key s.id d.suppliers.rows ≡ some s
    → IsDistinct overdue_key (get_overdue_suppliers d)
      × (find overdue_key s.id (get_overdue_suppliers d)
          ≡ overdue_report d.now s
              (late_pos d.now s (sort newer (select is_sent_po d.orders.rows))))
unfolding get_overdue_suppliers
get_overdue_suppliers_lem d s known =
    let rows = sort newer (select is_sent_po d.orders.rows) in
    (
      IsDistinct-collect_overdue d rows [] tt,
      find-collect_overdue d s rows [] known ∙ extended-none d.now s (late_pos d.now s rows),
    )
