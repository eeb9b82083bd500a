-- ===== src/Orders/Operations.antt =====
-- Each operation of PurchasingService (apps/purchasing/services.py) but `draft_po` writes the one
-- order that it names, or raises and changes nothing.
use text.Mathlib.Text.{◌==◌ as str_eq}
use smart_stock_ai.Prelude.{
  some, ℕ, Bool, true, false, Option, String, ◌||◌, ◌&&◌, [], ◌∷◌, ◌++◌, ◌≡◌, refl, arith,
  if◌then◌else◌,
}
use smart_stock_ai.Prelude.Action.{
  Action, Result, ok, err, ◌>>◌, pure, catch, >>=_ok, validation_error, illegal_po_transition,
}
use smart_stock_ai.Database.{
  Db, PurchaseOrder, Status, Signal, MessageId, po_approved, po_rejected, po_sent, po_confirmed,
  po_email_sent, po_waiting_confirmation, po_failed, po_timeout, po_transitioned, is_one_of,
  is_draft_or_pending, same_status,
}
use smart_stock_ai.Orders.Repository.{get_by_id}
use smart_stock_ai.Orders.Service.{
  legal_transitions, send_signal, or_kept, announce_approval, approve_po, reject_po, send_po,
  mark_email_sent, mark_waiting_confirmation, mark_confirmed, mark_failed, mark_timeout,
  transition_po_status, dispatch_supplier_email, get_po_with_supplier, delay_email,
}
use smart_stock_ai.Orders.Writes.{legal, Writes, step-Writes, Writes-atomic}

pub signalled :
    (s : Signal) (po : PurchaseOrder) (t : Db)
    → (u : Db) × ((send_signal s >> pure po) t ≡ (ok po, u)) × (u.orders ≡ t.orders)
signalled s po t = (record t { signals = t.signals ++ s ∷ [] }, refl, refl)

-- An edge to `failed` or to `timeout`, from any status at all.
abbrev pub ends_in : Status → Status → Status → Bool
ends_in t a b = same_status b t

-- The edges of LEGAL_TRANSITIONS, and `sent` to `email_sent`, which `mark_email_sent` takes too.
abbrev pub legal_or_resent : Status → Status → Bool
legal_or_resent a b = legal a b || (same_status a Status.sent && same_status b Status.email_sent)

-- `try: m except Exception: log` always returns, with the state that `m` left.
catch_lem : (m : Action Db (Unit {0})) (t : Db) → catch m (λ e. pure tt) t ≡ (ok tt, (m t).1)
catch_lem m t = go (m t)
  where
    go :
        (r : Result (Unit {0}) × Db)
        → ◌≡◌ {A = Result (Unit {0}) × Db}
            (elim r.0 [ ok a ↦ (ok a, r.1) | err e ↦ (ok tt, r.1) ])
            (ok tt, r.1)
    go (ok a, u) = refl
    go (err e, u) = refl

-- The e-mail of an approved order touches no order.
dispatch-orders : (po : PurchaseOrder) (t : Db) → (dispatch_supplier_email po t).1.orders ≡ t.orders
unfolding dispatch_supplier_email get_po_with_supplier delay_email get_by_id
dispatch-orders po t = ground arith

pub announced :
    (id : ℕ) (skip : Bool) (po : PurchaseOrder) (t : Db)
    → (u : Db) × (announce_approval id skip po t ≡ (ok po, u)) × (u.orders ≡ t.orders)
announced id true po t = (record t { signals = t.signals ++ po_approved id ∷ [] }, refl, refl)
announced id false po t =
    let u = record t { signals = t.signals ++ po_approved id ∷ [] } in
    (
      (dispatch_supplier_email po u).1,
      >>=_ok (catch (dispatch_supplier_email po) (λ e. pure tt)) (λ x. pure po) u
          (catch_lem (dispatch_supplier_email po) u),
      dispatch-orders po u,
    )

pub mark_waiting_confirmation-Writes :
    (id : ℕ) (d : Db) → Writes legal id d (mark_waiting_confirmation id d)
unfolding mark_waiting_confirmation
mark_waiting_confirmation-Writes id d =
    step-Writes legal id d (λ s. same_status s Status.email_sent) validation_error
      (λ po now r. record r { status = Status.waiting_confirmation })
      (λ r po. send_signal (po_waiting_confirmation id) >> pure po)
      (λ r po t. signalled (po_waiting_confirmation id) po t) (λ r. (refl, refl, refl, refl))
      (λ r h. ground arith)

pub mark_confirmed-Writes : (id : ℕ) (d : Db) → Writes legal id d (mark_confirmed id d)
unfolding mark_confirmed
mark_confirmed-Writes id d =
    step-Writes legal id d (λ s. same_status s Status.waiting_confirmation) validation_error
      (λ po now r. record r { status = Status.confirmed; confirmed_at = some now })
      (λ r po. send_signal (po_confirmed id) >> pure po)
      (λ r po t. signalled (po_confirmed id) po t) (λ r. (refl, refl, refl, refl))
      (λ r h. ground arith)

pub mark_email_sent-Writes :
    (id : ℕ) (m : Option MessageId) (d : Db) → Writes legal_or_resent id d (mark_email_sent id m d)
unfolding mark_email_sent
mark_email_sent-Writes id m d =
    step-Writes legal_or_resent id d (λ s. is_one_of s (Status.approved ∷ Status.sent ∷ []))
      validation_error
      (λ po now r. record r {
        status = Status.email_sent;
        sent_at = some now;
        message_id = or_kept m r.message_id;
      })
      (λ r po. send_signal (po_email_sent id) >> pure po)
      (λ r po t. signalled (po_email_sent id) po t) (λ r. (refl, refl, refl, refl))
      (λ r h. ground arith)

pub mark_failed-Writes :
    (id : ℕ) (text : String) (d : Db) → Writes (ends_in Status.failed) id d (mark_failed id text d)
unfolding mark_failed
mark_failed-Writes id text d =
    step-Writes (ends_in Status.failed) id d (λ s. true) validation_error
      (λ po now r. record r {
        status = Status.failed;
        notes = if str_eq text "" then po.notes else text;
      })
      (λ r po. send_signal (po_failed id) >> pure po) (λ r po t. signalled (po_failed id) po t)
      (λ r. (refl, refl, refl, refl)) (λ r h. refl)

pub mark_timeout-Writes :
    (id : ℕ) (d : Db) → Writes (ends_in Status.timeout) id d (mark_timeout id d)
unfolding mark_timeout
mark_timeout-Writes id d =
    step-Writes (ends_in Status.timeout) id d (λ s. true) validation_error
      (λ po now r. record r { status = Status.timeout })
      (λ r po. send_signal (po_timeout id) >> pure po) (λ r po t. signalled (po_timeout id) po t)
      (λ r. (refl, refl, refl, refl)) (λ r h. refl)

pub reject_po-Writes : (id : ℕ) (d : Db) → Writes legal id d (reject_po id d)
unfolding reject_po
reject_po-Writes id d = Writes-atomic legal id d _ (
    step-Writes legal id d is_draft_or_pending illegal_po_transition
      (λ po now r. record r { status = Status.rejected })
      (λ r po. send_signal (po_rejected id) >> pure po) (λ r po t. signalled (po_rejected id) po t)
      (λ r. (refl, refl, refl, refl)) (λ r h. ground arith))

pub send_po-Writes : (id : ℕ) (d : Db) → Writes legal id d (send_po id d)
unfolding send_po
send_po-Writes id d = Writes-atomic legal id d _ (
    step-Writes legal id d (λ s. same_status s Status.approved) validation_error
      (λ po now r. record r { status = Status.sent; sent_at = some now })
      (λ r po. send_signal (po_sent id) >> pure po) (λ r po t. signalled (po_sent id) po t)
      (λ r. (refl, refl, refl, refl)) (λ r h. ground arith))

pub approve_po-Writes :
    (id : ℕ) (user : ℕ) (skip : Bool) (d : Db) → Writes legal id d (approve_po id user skip d)
unfolding approve_po
approve_po-Writes id user skip d = Writes-atomic legal id d _ (
    step-Writes legal id d is_draft_or_pending illegal_po_transition
      (λ po now r. record r { status = Status.approved; approved_by = some user })
      (λ r po. announce_approval id skip po) (λ r po t. announced id skip po t)
      (λ r. (refl, refl, refl, refl)) (λ r h. ground arith))

pub transition_po_status-Writes :
    (id : ℕ) (new : Status) (d : Db) → Writes legal id d (transition_po_status id new d)
unfolding transition_po_status
transition_po_status-Writes id new d =
    step-Writes legal id d (λ s. is_one_of new (legal_transitions s)) illegal_po_transition
      (λ po now r. record r {
        status = new;
        confirmed_at = if same_status new Status.confirmed then some now else r.confirmed_at;
      })
      (λ r po. send_signal (po_transitioned id r.status new) >> pure po)
      (λ r po t. signalled (po_transitioned id r.status new) po t) (λ r. (refl, refl, refl, refl))
      (λ r h. h)
