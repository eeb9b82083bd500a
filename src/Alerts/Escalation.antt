-- ===== src/Alerts/Escalation.antt =====
-- Escalation notifications (apps/notifications/service.py, apps/notifications/models.py). The texts of
-- the messages are left out.
use text.Mathlib.Text.{◌==◌ as str_eq}
use smart_stock_ai.Prelude.{
  ℕ, ◌+◌, Bool, true, false, ◌&&◌, Option, none, some, List, [], ◌∷◌, ◌++◌, ◌==◌, leb, any,
  if◌then◌else◌, String,
}
use smart_stock_ai.Prelude.Table.{find}
use smart_stock_ai.Database.{Db, PurchaseOrder}
use smart_stock_ai.Orders.Repository.{supplier_key}

pub data Reason : Type 0 where
  email_delivery_failed supplier_timeout other : Reason

pub data Delivery : Type 0 where
  pending sent failed : Delivery

pub record Escalation : Type 0 where
  pub id : ℕ
  pub po : ℕ
  pub reason : Reason
  pub status : Delivery
  pub recipient_email : String
  pub created_at : ℕ
  pub sent_at : Option ℕ

-- The store, the escalations with their next key, the notices that users get of them, the recipients
-- of queued mail, and the orders of the audit log's entries.
pub record Desk : Type 0 where
  pub db : Db
  pub escalations : List Escalation
  pub next_escalation : ℕ
  pub notices : List (ℕ × Reason)
  pub mail : List String
  pub audit : List ℕ

abbrev pub same_reason : Reason → Reason → Bool
same_reason email_delivery_failed email_delivery_failed = true
same_reason supplier_timeout supplier_timeout = true
same_reason other other = true
same_reason _ _ = false

abbrev pub is_about : ℕ → Reason → Escalation → Bool
is_about po reason e = e.po == po && same_reason e.reason reason

-- Created in the last 24 hours.
abbrev pub is_recent : ℕ → Escalation → Bool
is_recent now e = leb now (e.created_at + 86400)

abbrev supplier_email : PurchaseOrder → Db → String
supplier_email po d = elim (find supplier_key po.supplier_id d.suppliers.rows) [
  | none ↦ ""
  | some s ↦ s.contact_email
]

abbrev pub recipient_of : List String → PurchaseOrder → Db → String
recipient_of [] po d = supplier_email po d
recipient_of (r ∷ rs) po d = r

-- `_send_escalation_email`: the row as it is saved, and whether mail was queued.
abbrev pub send_escalation_email : Bool → ℕ → Escalation → Escalation × List String
send_escalation_email broker_up now e =
    if str_eq e.recipient_email ""
    then (e, [])
    else if broker_up
    then (record e { status = Delivery.sent; sent_at = some now }, e.recipient_email ∷ [])
    else (record e { status = Delivery.failed }, [])

abbrev pub new_escalation : List String → PurchaseOrder → Reason → Desk → Escalation
new_escalation recipients po reason k = record {
  id = k.next_escalation;
  po = po.id;
  reason = reason;
  status = Delivery.pending;
  recipient_email = recipient_of recipients po k.db;
  created_at = k.db.now;
  sent_at = none;
}

abbrev pub add_escalation : List String → PurchaseOrder → Reason → Desk → Desk
add_escalation recipients po reason k =
    let (e, queued) =
      send_escalation_email k.db.broker_up k.db.now (new_escalation recipients po reason k) in
    record k {
      escalations = k.escalations ++ e ∷ [];
      next_escalation = k.next_escalation + 1;
      notices = k.notices ++ (po.id, reason) ∷ [];
      mail = k.mail ++ queued;
    }

-- Such an escalation was made in the last 24 hours.
abbrev pub is_duplicate : ℕ → Reason → Desk → Bool
is_duplicate po reason k = any (λ x. is_about po reason x && is_recent k.db.now x) k.escalations

unfoldable pub create_escalation_notification : List String → PurchaseOrder → Reason → Desk → Desk
create_escalation_notification recipients po reason k =
    if is_duplicate po.id reason k then k else add_escalation recipients po reason k
