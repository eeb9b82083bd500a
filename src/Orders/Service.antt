-- ===== src/Orders/Service.antt =====
-- PurchasingService (apps/purchasing/services.py). The receivers of the signals are not modelled:
-- a signal that is sent is put on record. The user that `reject_po` passes to its signal is left
-- out.
use text.Mathlib.Text.{◌==◌ as str_eq}
use smart_stock_ai.Prelude.{
  ℕ, Bool, true, false, not, ◌&&◌, Option, none, some, List, [], ◌∷◌, ◌++◌, String, if◌then◌else◌,
  ◌==◌, select, is_some,
}
use smart_stock_ai.Prelude.Int.{ℤ, eqb_ℤ}
use smart_stock_ai.Prelude.Action.{
  Action, validation_error, illegal_po_transition, does_not_exist, other_error, ◌>>=◌, ◌>>◌, pure,
  gets, or_raise, catch, atomic, raise_if, modify, when,
}
use smart_stock_ai.Prelude.Table.{find}
use smart_stock_ai.Database.{
  Db, PurchaseOrder, EmailTask, MessageId, approved_message, Signal, po_approved, po_rejected,
  po_sent, po_confirmed, po_email_sent, po_waiting_confirmation, po_failed, po_timeout,
  po_transitioned, Status, is_one_of, is_draft_or_pending, same_status,
}
use smart_stock_ai.Orders.Repository.{
  get_by_id, update_order, NewOrder, create, latest, is_active_status, get_open_for_sku,
  get_open_for_product, sku_key, product_key, supplier_key,
}

-- LEGAL_TRANSITIONS
abbrev pub legal_transitions : Status → List Status
legal_transitions Status.draft =
    Status.pending_approval ∷ Status.approved ∷ Status.rejected ∷ Status.cancelled ∷ []
legal_transitions Status.pending_approval =
    Status.approved ∷ Status.rejected ∷ Status.cancelled ∷ []
legal_transitions Status.approved = Status.sent ∷ Status.email_sent ∷ Status.cancelled ∷ []
legal_transitions Status.email_sent = Status.waiting_confirmation ∷ Status.cancelled ∷ []
legal_transitions Status.waiting_confirmation = Status.confirmed ∷ Status.cancelled ∷ []
legal_transitions Status.sent = Status.confirmed ∷ Status.cancelled ∷ []
legal_transitions Status.confirmed = []
legal_transitions Status.rejected = []
legal_transitions Status.cancelled = []
legal_transitions Status.failed = []
legal_transitions Status.timeout = []

abbrev pub send_signal : Signal → Action Db (Unit {0})
send_signal s = modify (λ d. record d { signals = d.signals ++ s ∷ [] })

-- `send_email_with_retry.delay(...)`, which raises when the broker cannot be reached.
unfoldable pub delay_email : EmailTask → Action Db (Unit {0})
delay_email t = do
  raise_if (← gets (λ d. not d.broker_up)) other_error
  modify (λ d. record d { outbox = d.outbox ++ t ∷ [] })

-- An empty text is false in Python.
abbrev pub non_empty : Option String → Option String
non_empty none = none
non_empty (some s) = if str_eq s "" then none else some s

abbrev pub is_same_request : NewOrder → PurchaseOrder → Bool
is_same_request n r =
    (r.sku_id == n.sku_id && (r.supplier_id == n.supplier_id && eqb_ℤ r.quantity n.quantity))
    && is_active_status r.status

abbrev pub return_or_create : Option PurchaseOrder → NewOrder → Action Db PurchaseOrder
return_or_create (some existing) n = pure existing
return_or_create none n = create (record n { po_number = non_empty n.po_number })

unfoldable pub draft_po : NewOrder → Action Db PurchaseOrder
draft_po n = atomic (do
  existing ← gets (λ d. latest (select (is_same_request n) d.orders.rows))
  return_or_create existing n)

pub record PoData : Type 0 where
  pub po_id : ℕ
  pub po_number : Option String
  pub sku_code : String
  pub product_name : String
  pub quantity : ℤ
  pub unit_cost : Option ℕ
  pub total_cost : ℤ
  pub supplier_email : String
  pub supplier_name : String

unfoldable pub get_po_with_supplier : ℕ → Action Db PoData
get_po_with_supplier po_id = do
  po ← get_by_id po_id
  sku ← or_raise (← gets (λ d. find sku_key po.sku_id d.skus.rows)) does_not_exist
  product ← or_raise (← gets (λ d. find product_key sku.product d.products.rows)) does_not_exist
  supplier ←
      or_raise (← gets (λ d. find supplier_key po.supplier_id d.suppliers.rows)) does_not_exist
  pure (record {
    po_id = po.id;
    po_number = po.po_number;
    sku_code = sku.code;
    product_name = product.name;
    quantity = po.quantity;
    unit_cost = product.unit_price;
    total_cost = po.total_cost;
    supplier_email = supplier.contact_email;
    supplier_name = supplier.name;
  })

-- `_dispatch_supplier_email`; rendering the template is taken not to fail.
unfoldable pub dispatch_supplier_email : PurchaseOrder → Action Db (Unit {0})
dispatch_supplier_email po = if is_some po.message_id then pure tt else do
  found ← gets (λ d. find supplier_key po.supplier_id d.suppliers.rows)
  elim found [
    | none ↦ pure tt
    | some supplier ↦ if str_eq supplier.contact_email "" then pure tt else do
      get_po_with_supplier po.id
      catch
          (delay_email (record {
            recipient = supplier.contact_email;
            po_id = po.id;
            message_id = approved_message po.id;
          }))
          (λ e. pure tt)
  ]

-- What `approve_po` does once the order is approved.
abbrev pub announce_approval : ℕ → Bool → PurchaseOrder → Action Db PurchaseOrder
announce_approval po_id skip_email po = do
  send_signal (po_approved po_id)
  when (not skip_email) (catch (dispatch_supplier_email po) (λ e. pure tt))
  pure po

-- `filter(pk=po_id).update(...)` with `refresh_from_db` is what `repo.update` does.
unfoldable pub approve_po : ℕ → ℕ → Bool → Action Db PurchaseOrder
approve_po po_id user skip_email = atomic (do
  po ← get_by_id po_id
  raise_if (not (is_draft_or_pending po.status)) illegal_po_transition
  fresh ← update_order po_id (λ r. record r { status = Status.approved; approved_by = some user })
  announce_approval po_id skip_email fresh)

unfoldable pub reject_po : ℕ → Action Db PurchaseOrder
reject_po po_id = atomic (do
  po ← get_by_id po_id
  raise_if (not (is_draft_or_pending po.status)) illegal_po_transition
  fresh ← update_order po_id (λ r. record r { status = Status.rejected })
  send_signal (po_rejected po_id)
  pure fresh)

unfoldable pub send_po : ℕ → Action Db PurchaseOrder
send_po po_id = atomic (do
  po ← get_by_id po_id
  raise_if (not (same_status po.status Status.approved)) validation_error
  now ← gets (λ d. d.now)
  fresh ← update_order po_id (λ r. record r { status = Status.sent; sent_at = some now })
  send_signal (po_sent po_id)
  pure fresh)

abbrev pub or_kept : Option MessageId → Option MessageId → Option MessageId
or_kept none old = old
or_kept (some m) old = some m

unfoldable pub mark_email_sent : ℕ → Option MessageId → Action Db PurchaseOrder
mark_email_sent po_id message_id = do
  po ← get_by_id po_id
  raise_if (not (is_one_of po.status (Status.approved ∷ Status.sent ∷ []))) validation_error
  now ← gets (λ d. d.now)
  updated ← update_order po_id (λ r. record r {
    status = Status.email_sent;
    sent_at = some now;
    message_id = or_kept message_id r.message_id;
  })
  send_signal (po_email_sent po_id)
  pure updated

unfoldable pub mark_waiting_confirmation : ℕ → Action Db PurchaseOrder
mark_waiting_confirmation po_id = do
  po ← get_by_id po_id
  raise_if (not (same_status po.status Status.email_sent)) validation_error
  updated ← update_order po_id (λ r. record r { status = Status.waiting_confirmation })
  send_signal (po_waiting_confirmation po_id)
  pure updated

unfoldable pub mark_confirmed : ℕ → Action Db PurchaseOrder
mark_confirmed po_id = do
  po ← get_by_id po_id
  raise_if (not (same_status po.status Status.waiting_confirmation)) validation_error
  now ← gets (λ d. d.now)
  updated ←
      update_order po_id (λ r. record r { status = Status.confirmed; confirmed_at = some now })
  send_signal (po_confirmed po_id)
  pure updated

-- `mark_failed` and `mark_timeout` test no status.
unfoldable pub mark_failed : ℕ → String → Action Db PurchaseOrder
mark_failed po_id error_message = do
  po ← get_by_id po_id
  updated ← update_order po_id (λ r. record r {
    status = Status.failed;
    notes = if str_eq error_message "" then po.notes else error_message;
  })
  send_signal (po_failed po_id)
  pure updated

unfoldable pub mark_timeout : ℕ → Action Db PurchaseOrder
mark_timeout po_id = do
  po ← get_by_id po_id
  updated ← update_order po_id (λ r. record r { status = Status.timeout })
  send_signal (po_timeout po_id)
  pure updated

unfoldable pub transition_po_status : ℕ → Status → Action Db PurchaseOrder
transition_po_status po_id new_status = do
  po ← get_by_id po_id
  raise_if (not (is_one_of new_status (legal_transitions po.status))) illegal_po_transition
  now ← gets (λ d. d.now)
  updated ← update_order po_id (λ r. record r {
    status = new_status;
    confirmed_at = if same_status new_status Status.confirmed then some now else r.confirmed_at;
  })
  send_signal (po_transitioned po_id po.status new_status)
  pure updated

-- `has_open_po` and `open_po_id`
abbrev pub open_status : Option PurchaseOrder → Bool × Option ℕ
open_status none = (false, none)
open_status (some po) = (true, some po.id)

unfoldable pub get_open_po_status : ℕ → Db → Bool × Option ℕ
get_open_po_status product_id d = open_status (get_open_for_product product_id d)

unfoldable pub get_open_po_status_by_sku : ℕ → Db → Bool × Option ℕ
get_open_po_status_by_sku sku_id d = open_status (get_open_for_sku sku_id d)

-- `confirmed`; `timed_out` is always false
unfoldable pub check_confirmation : ℕ → Action Db (Bool × Bool)
check_confirmation po_id = do
  po ← get_by_id po_id
  pure (same_status po.status Status.confirmed, false)
