-- ===== src/Orders/Progress.antt =====
-- How long an order can move (LEGAL_TRANSITIONS in apps/purchasing/services.py), the calls that do
-- not look at it, and drafting twice.
use smart_stock_ai.Prelude.{
  ℕ, suc, ◌≤◌, ◌<◌, Bool, true, false, List, [], ◌∷◌, ◌++◌, ◌≡◌, ap, inl, inr, refl, some, arith,
  All, select, if◌then◌else◌,
}
use smart_stock_ai.Prelude.Action.{Result, ok, err, atomic}
use smart_stock_ai.Prelude.Table.{find, find-update_self}
use smart_stock_ai.Database.{Db, PurchaseOrder, Status}
use smart_stock_ai.Orders.Repository.{order_key, NewOrder, latest}
use smart_stock_ai.Orders.Service.{draft_po, is_same_request, return_or_create}
use smart_stock_ai.Orders.Writes.{Writes}
use smart_stock_ai.Orders.Operations.{legal_or_resent}
use smart_stock_ai.Orders.Drafts.{Drafts, active_order, draft_po-Drafts}
use smart_stock_ai.Orders.History.{Move, perform, perform-Writes, edge_of}
use smart_stock_ai.Orders.Lifecycle.{is_guarded, edge-resent}
use smart_stock_ai.Orders.Active.{latest-select-none}

-- The longest way from a status to a final one.
abbrev pub rank : Status → ℕ
rank Status.draft = 6
rank Status.pending_approval = 5
rank Status.approved = 4
rank Status.sent = 3
rank Status.email_sent = 2
rank Status.waiting_confirmation = 1
rank _ = 0

rank_falls : (a b : Status) → legal_or_resent a b ≡ true → rank b < rank a
rank_falls a b e = ground arith

abbrev succeeded : Result PurchaseOrder → Bool
succeeded (ok po) = true
succeeded (err e) = false

-- How many of the moves of the order `id`, made one after the other, succeed.
pub moves_made : ℕ → List Move → Db → ℕ
moves_made id [] d = 0
moves_made id (m ∷ ms) d =
    let rest = moves_made id ms (perform id m d).1 in
    if succeeded (perform id m d).0 then suc rest else rest

-- A successful move leads to an order of lower rank; a failed one keeps the order.
Writes-rank :
    (m : Move) (id : ℕ) (d : Db) (o : Result PurchaseOrder × Db) {r : PurchaseOrder}
    → is_guarded m ≡ true
    → find order_key id d.orders.rows ≡ some r
    → Writes (edge_of m) id d o
    → (s : PurchaseOrder) × (find order_key id o.1.orders.rows ≡ some s)
      × ((if succeeded o.0 then suc (rank s.status) else rank s.status) ≤ rank r.status)
Writes-rank m id d (ok po, d') {r} g e w =
    let same : w.old ≡ r = cc (w.found, e) in
    let moved : legal_or_resent r.status po.status ≡ true =
      rw same at (edge-resent m w.old.status po.status g w.moved) in
    (
      po,
      rw w.wrote (find-update_self order_key id (λ y. po) d.orders.rows w.same_id w.found),
      rank_falls r.status po.status moved,
    )
Writes-rank m id d (err x, d') {r} g e same = (r, rw same e, omega arith)

moves_bounded_by_rank :
    (ms : List Move) (id : ℕ) (d : Db) {r : PurchaseOrder}
    → All (λ m. is_guarded m ≡ true) ms
    → find order_key id d.orders.rows ≡ some r
    → moves_made id ms d ≤ rank r.status
unfolding moves_made
moves_bounded_by_rank [] id d g e = omega arith
moves_bounded_by_rank (m ∷ ms) id d {r} g e =
    let (s, e', falls) = Writes-rank m id d (perform id m d) g.0 e (perform-Writes id m d) in
    let rest = moves_bounded_by_rank ms id (perform id m d).1 g.1 e' in ground (arith, rest, falls)

rank_bounded : (s : Status) → rank s ≤ 6
rank_bounded s = ground arith

-- In any list of moves of an existing order without `mark_failed` and `mark_timeout`, at most six
-- succeed: no order goes round in circles.
pub moves_bounded :
    (ms : List Move) (id : ℕ) (d : Db) {r : PurchaseOrder}
    → All (λ m. is_guarded m ≡ true) ms
    → find order_key id d.orders.rows ≡ some r
    → moves_made id ms d ≤ 6
moves_bounded ms id d {r} g e =
    omega (arith, moves_bounded_by_rank ms id d g e, rank_bounded r.status)

select_last :
    (p : PurchaseOrder → Bool) (s : PurchaseOrder) (rs : List PurchaseOrder)
    → All (λ x. p x ≡ false) rs
    → p s ≡ true
    → select p (rs ++ s ∷ []) ≡ s ∷ []
select_last p s [] h e = rw e
select_last p s (x ∷ rs) h e = rw h.0 (select_last p s rs h.1 e)

drafted_matches :
    (n : NewOrder) (po : PurchaseOrder)
    → po.status ≡ Status.draft
    → po.sku_id ≡ n.sku_id
    → po.supplier_id ≡ n.supplier_id
    → po.quantity ≡ n.quantity
    → is_same_request n po ≡ true
drafted_matches n po a b c q = rw (a, b, c, q) (ground arith)

redraft :
    (n : NewOrder) (d : Db) (o : Result PurchaseOrder × Db) {po : PurchaseOrder}
    → o.0 ≡ ok po
    → Drafts n d o
    → active_order n o.1 ≡ some po
unfolding latest
redraft n d (ok po, d') e (inl found) = rw found.1 (cc (found.0, e))
redraft n d (ok po, d') {po = q} e (inr (gone, w)) =
    let same : po ≡ q = cc e in
    rw
      (
        w.appended,
        select_last (is_same_request n) po d.orders.rows
            (latest-select-none (is_same_request n) d.orders.rows gone)
            (drafted_matches n po w.is_draft w.same_sku w.same_supplier w.same_quantity),
      )
      (rw same refl)
redraft n d (err x, d') e same = cc

redrafted :
    (n : NewOrder) (t : Db) {po : PurchaseOrder}
    → active_order n t ≡ some po
    → draft_po n t ≡ (ok po, t)
unfolding draft_po
redrafted n t a = ap (λ o. atomic (return_or_create o n) t) a

-- Drafting the same request a second time hands back the order of the first call, and changes
-- nothing.
pub draft_po_twice :
    (n : NewOrder) (d : Db) {po : PurchaseOrder}
    → (draft_po n d).0 ≡ ok po
    → draft_po n (draft_po n d).1 ≡ (ok po, (draft_po n d).1)
draft_po_twice n d {po} e =
    redrafted n (draft_po n d).1 (redraft n d (draft_po n d) e (draft_po-Drafts n d))
