-- ===== src/Orders/Repository.antt =====
-- PurchasingRepository (apps/purchasing/repositories.py), with the constraints that the table
-- PurchaseOrder declares (apps/purchasing/models.py).
use text.Mathlib.Text.{◌==◌ as str_eq}
use smart_stock_ai.Prelude.{
  ℕ, ◌+◌, Bool, true, false, not, ◌&&◌, ◌||◌, Option, none, some, List, [], ◌∷◌, ◌++◌, String, ltb,
  ◌==◌, if◌then◌else◌, any, select, is_some,
}
use smart_stock_ai.Prelude.Int.{ℤ, eqb_ℤ}
use smart_stock_ai.Prelude.Action.{
  Action, ok, err, does_not_exist, integrity_error, ◌>>=◌, ◌>>◌, or_raise, gets, raise_if, modify,
  pure,
}
use smart_stock_ai.Prelude.Table.{find, update}
use smart_stock_ai.Database.{Db, PurchaseOrder, Product, Sku, Supplier, Status, same_status}

abbrev pub order_key : PurchaseOrder → ℕ
order_key r = r.id

abbrev pub sku_key : Sku → ℕ
sku_key r = r.id

abbrev pub product_key : Product → ℕ
product_key r = r.id

abbrev pub supplier_key : Supplier → ℕ
supplier_key r = r.id

abbrev pub with_orders : List PurchaseOrder → Db → Db
with_orders rows d = record d { orders = record { rows = rows; next_id = d.orders.next_id } }

-- The statuses of the constraint `uq_active_po_per_sku_supplier_qty`, and of `draft_po`.
abbrev pub is_active_status : Status → Bool
is_active_status Status.draft = true
is_active_status Status.pending_approval = true
is_active_status Status.approved = true
is_active_status _ = false

abbrev pub same_key : PurchaseOrder → PurchaseOrder → Bool
same_key r s =
    r.sku_id == s.sku_id && (r.supplier_id == s.supplier_id && eqb_ℤ r.quantity s.quantity)

-- Two rows that the constraint `uq_active_po_per_sku_supplier_qty` forbids.
abbrev pub clashes : PurchaseOrder → PurchaseOrder → Bool
clashes r s = is_active_status r.status && (same_status r.status s.status && same_key r s)

unfoldable pub uq_active_ok : List PurchaseOrder → Bool
uq_active_ok [] = true
uq_active_ok (r ∷ rs) = not (any (clashes r) rs) && uq_active_ok rs

-- `get(pk=id)`, also with `select_for_update`.
unfoldable pub get_by_id : ℕ → Action Db PurchaseOrder
get_by_id id = do or_raise (← gets (λ d. find order_key id d.orders.rows)) does_not_exist

-- `PurchaseOrder.objects.filter(pk=id).update(...)`; the database checks the constraint.
unfoldable pub update_where : ℕ → (PurchaseOrder → PurchaseOrder) → Action Db (Unit {0})
update_where id f d =
    let rows = update order_key id f d.orders.rows in
    if uq_active_ok rows then (ok tt, with_orders rows d) else (err integrity_error, d)

-- `update`
unfoldable pub update_order : ℕ → (PurchaseOrder → PurchaseOrder) → Action Db PurchaseOrder
unfolding get_by_id update_where
update_order id f = do update_where id f; get_by_id id

-- The `data` of `create`, the columns that `draft_po` fills.
pub record NewOrder : Type 0 where
  pub sku_id : ℕ
  pub quantity : ℤ
  pub supplier_id : ℕ
  pub requested_by : Option ℕ
  pub agent_reasoning : String
  pub notes : String
  pub created_by_agent : Bool
  pub agent_name : String
  pub po_number : Option String
  pub total_cost : Option ℤ

-- `exists_by_po_number`
abbrev pub exists_by_po_number : String → List PurchaseOrder → Bool
exists_by_po_number n [] = false
exists_by_po_number n (r ∷ rs) =
    (elim r.po_number [ none ↦ false | some m ↦ str_eq m n ]) || exists_by_po_number n rs

abbrev number_taken : Option String → List PurchaseOrder → Bool
number_taken none rs = false
number_taken (some n) rs = exists_by_po_number n rs

abbrev pub new_row : NewOrder → ℤ → ℕ → ℕ → PurchaseOrder
new_row n cost id time = record {
  id = id;
  sku_id = n.sku_id;
  supplier_id = n.supplier_id;
  quantity = n.quantity;
  total_cost = cost;
  status = Status.draft;
  requested_by = n.requested_by;
  approved_by = none;
  agent_reasoning = n.agent_reasoning;
  notes = n.notes;
  sent_at = none;
  message_id = none;
  confirmed_at = none;
  created_at = time;
  po_number = n.po_number;
  created_by_agent = n.created_by_agent;
  agent_name = n.agent_name;
}

abbrev insert_row : PurchaseOrder → Db → Db
insert_row r d = record d {
  orders = record { rows = d.orders.rows ++ r ∷ []; next_id = d.orders.next_id + 1 };
}

-- `create`: `total_cost` may not be null, the keys must exist, and the constraints must hold.
unfoldable pub create : NewOrder → Action Db PurchaseOrder
unfolding uq_active_ok
create n = do
  cost ← or_raise n.total_cost integrity_error
  known_sku ← gets (λ d. is_some (find sku_key n.sku_id d.skus.rows))
  raise_if (not known_sku) integrity_error
  known_supplier ← gets (λ d. is_some (find supplier_key n.supplier_id d.suppliers.rows))
  raise_if (not known_supplier) integrity_error
  raise_if (← gets (λ d. number_taken n.po_number d.orders.rows)) integrity_error
  row ← gets (λ d. new_row n cost d.orders.next_id d.now)
  raise_if (← gets (λ d. not (uq_active_ok (d.orders.rows ++ row ∷ [])))) integrity_error
  modify (insert_row row)
  pure row

-- The statuses of `get_open_for_product` and `get_open_for_sku`.
abbrev pub is_open_status : Status → Bool
is_open_status Status.draft = true
is_open_status Status.pending_approval = true
is_open_status Status.approved = true
is_open_status Status.sent = true
is_open_status Status.email_sent = true
is_open_status Status.waiting_confirmation = true
is_open_status _ = false

abbrev pub newer : PurchaseOrder → PurchaseOrder → Bool
newer a b = ltb b.created_at a.created_at || (a.created_at == b.created_at && ltb b.id a.id)

-- `order_by('-created_at', '-id').first()`, which is also the default order of the table.
unfoldable pub latest : List PurchaseOrder → Option PurchaseOrder
latest [] = none
latest (r ∷ rs) = elim (latest rs) [ none ↦ some r | some s ↦ some (if newer r s then r else s) ]

unfoldable pub get_open_for_sku : ℕ → Db → Option PurchaseOrder
get_open_for_sku sku d =
    latest (select (λ r. r.sku_id == sku && is_open_status r.status) d.orders.rows)

-- `sku__product_id=product_id`
abbrev pub is_of_product : Db → ℕ → PurchaseOrder → Bool
is_of_product d product r = elim (find sku_key r.sku_id d.skus.rows) [
  | none ↦ false
  | some s ↦ s.product == product
]

unfoldable pub get_open_for_product : ℕ → Db → Option PurchaseOrder
get_open_for_product product d =
    latest (select (λ r. is_of_product d product r && is_open_status r.status) d.orders.rows)
