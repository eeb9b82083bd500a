-- ===== src/Orders/Drafts.antt =====
-- `draft_po` (apps/purchasing/services.py): it hands back an active order for the same request, or
-- appends a new draft, or raises and changes nothing.
use smart_stock_ai.Prelude.{
  ◌+◌, Bool, false, ◌&&◌, List, [], ◌∷◌, ◌++◌, ◌≡◌, refl, arith, Option, some, none, inl, inr, ◌⊎◌,
  select, All,
}
use smart_stock_ai.Prelude.Action.{Result, ok, err, atomic}
use smart_stock_ai.Database.{Db, PurchaseOrder, Status}
use smart_stock_ai.Orders.Repository.{NewOrder, create, latest, is_active_status}
use smart_stock_ai.Orders.Service.{draft_po, is_same_request, return_or_create, non_empty}
use smart_stock_ai.Orders.Active.{rivals, OneActive, OneActive-append, latest-select-none}

-- `po` was appended to the table of orders as a draft of the request `n`.
pub record Appended (n : NewOrder) (d : Db) (po : PurchaseOrder) (d' : Db) : Type 0 where
  pub appended : d'.orders.rows ≡ d.orders.rows ++ po ∷ []
  pub next : d'.orders.next_id ≡ d.orders.next_id + 1
  pub fresh_id : po.id ≡ d.orders.next_id
  pub is_draft : po.status ≡ Status.draft
  pub same_sku : po.sku_id ≡ n.sku_id
  pub same_supplier : po.supplier_id ≡ n.supplier_id
  pub same_quantity : po.quantity ≡ n.quantity

abbrev pub Creates : NewOrder → Db → Result PurchaseOrder × Db → Type 0
Creates n d (ok po, d') = Appended n d po d'
Creates n d (err e, d') = d' ≡ d

pub create-Creates : (n : NewOrder) (d : Db) → Creates n d (create n d)
unfolding create
create-Creates n d = ground arith

-- The outcome, from the order that is active for the same request.
abbrev pub DraftsFrom : NewOrder → Db → Option PurchaseOrder → Result PurchaseOrder × Db → Type 0
DraftsFrom n d found (ok po, d') =
    ((found ≡ some po) × (d' ≡ d)) ⊎ ((found ≡ none) × Appended n d po d')
DraftsFrom n d found (err e, d') = d' ≡ d

abbrev pub active_order : NewOrder → Db → Option PurchaseOrder
active_order n d = latest (select (is_same_request n) d.orders.rows)

abbrev pub Drafts : NewOrder → Db → Result PurchaseOrder × Db → Type 0
Drafts n d r = DraftsFrom n d (active_order n d) r

drafted :
    (n : NewOrder) (d : Db) (r : Result PurchaseOrder × Db)
    → Creates (record n { po_number = non_empty n.po_number }) d r
    → DraftsFrom n d none (elim r.0 [ ok a ↦ (ok a, r.1) | err e ↦ (err e, d) ])
drafted n d (ok po, t) c = inr (
  refl,
  record {
    appended = c.appended;
    next = c.next;
    fresh_id = c.fresh_id;
    is_draft = c.is_draft;
    same_sku = c.same_sku;
    same_supplier = c.same_supplier;
    same_quantity = c.same_quantity;
  },
)
drafted n d (err e, t) c = refl

return_or_create-Drafts :
    (found : Option PurchaseOrder) (n : NewOrder) (d : Db)
    → DraftsFrom n d found (atomic (return_or_create found n) d)
return_or_create-Drafts (some po) n d = inl (refl, refl)
return_or_create-Drafts none n d =
    let n' = record n { po_number = non_empty n.po_number } in
    drafted n d (create n' d) (create-Creates n' d)

pub draft_po-Drafts : (n : NewOrder) (d : Db) → Drafts n d (draft_po n d)
unfolding draft_po
draft_po-Drafts n d = return_or_create-Drafts (active_order n d) n d

and_swap : (k active b : Bool) → (k && active) ≡ false → (active && (b && k)) ≡ false
and_swap k active b h = ground arith

-- No row of the table is active for the request, so a new draft has no rival.
no_rival :
    (n : NewOrder) (po : PurchaseOrder) (rs : List PurchaseOrder)
    → po.sku_id ≡ n.sku_id
    → po.supplier_id ≡ n.supplier_id
    → po.quantity ≡ n.quantity
    → All (λ x. is_same_request n x ≡ false) rs
    → All (λ x. rivals x po ≡ false) rs
no_rival n po [] a b c h = tt
no_rival n po (x ∷ rs) a b c h = (
  rw (a, b, c) (and_swap _ (is_active_status x.status) (is_active_status po.status) h.0),
  no_rival n po rs a b c h.1,
)

pub Drafts-OneActive :
    (n : NewOrder) (d d' : Db) (po : PurchaseOrder)
    → Drafts n d (ok po, d')
    → OneActive d.orders.rows
    → OneActive d'.orders.rows
Drafts-OneActive n d d' po (inl (e, same)) h = rw same h
Drafts-OneActive n d d' po (inr (e, w)) h = rw w.appended (
    OneActive-append po d.orders.rows h (
      no_rival n po d.orders.rows w.same_sku w.same_supplier w.same_quantity
        (latest-select-none (is_same_request n) d.orders.rows e)))
