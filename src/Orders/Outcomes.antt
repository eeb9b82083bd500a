-- ===== src/Orders/Outcomes.antt =====
-- What each call of PurchasingService (apps/purchasing/services.py) returns on a store that meets
-- the invariant: the order it writes, or which exception it raises.
use text.Mathlib.Text.{◌==◌ as str_eq}
use smart_stock_ai.Prelude.{
  arith, ℕ, Bool, true, false, not, ◌≡◌, inl, inr, refl, String, some, ap, ◌∙◌, Bool-cases,
  if◌then◌else◌,
}
use smart_stock_ai.Prelude.Action.{
  Result, Action, Error, ok, err, ◌>>=◌, ◌>>◌, pure, gets, raise_if, >>=_ok, illegal_po_transition,
  validation_error,
}
use smart_stock_ai.Prelude.Table.{find, update, update_const}
use smart_stock_ai.Database.{
  po_rejected, is_draft_or_pending, Db, PurchaseOrder, Status, po_failed, po_timeout,
  po_transitioned, is_one_of, same_status,
}
use smart_stock_ai.Orders.Repository.{
  order_key, get_by_id, update_order, with_orders, is_active_status, uq_active_ok,
}
use smart_stock_ai.Orders.Service.{
  announce_approval, approve_po, reject_po, legal_transitions, send_signal, mark_failed,
  mark_timeout, transition_po_status,
}
use smart_stock_ai.Orders.Active.{OneActive-uq_active_ok, OneActive-update}
use smart_stock_ai.Orders.Writes.{legal, Keeps, get_by_id-some, update_order_lem}
use smart_stock_ai.Orders.Operations.{announced, signalled}
use smart_stock_ai.Orders.History.{IsValid, legal_closed}

-- `atomic` returns what its body returns.
atomic_result :
    (d : Db) (o : Result PurchaseOrder × Db)
    → (elim o.0 as (λ x. Result PurchaseOrder × Db) [ ok a ↦ (ok a, o.1) | err x ↦ (err x, d) ]).0
      ≡ o.0
atomic_result d (ok a, t) = refl
atomic_result d (err x, t) = refl

approvable : (s : Status) → is_draft_or_pending s ≡ true → is_active_status s ≡ false → true ≡ false
approvable s passes closed = ground arith

module _ (id : ℕ) (d : Db) {r : PurchaseOrder} (v : IsValid d)
    (e : find order_key id d.orders.rows ≡ some r) where
  -- On such a store a write that opens nothing meets the constraint.
  pub update_order_valid :
      (f : PurchaseOrder → PurchaseOrder)
      → Keeps r (f r)
      → (is_active_status r.status ≡ false → is_active_status (f r).status ≡ false)
      → update_order id f d ≡ (ok (f r), with_orders (update order_key id f d.orders.rows) d)
  update_order_valid f (i, sku, supplier, quantity) closed = update_order_lem id f d e i ∙ (rw fits)
    where
      fits : uq_active_ok (update order_key id f d.orders.rows) ≡ true
      fits = rw (update_const order_key id f d.orders.rows e) (
          OneActive-uq_active_ok (update order_key id (λ y. f r) d.orders.rows) (
            OneActive-update (f r) id d.orders.rows e
              (record {
                same_sku = sku;
                same_supplier = supplier;
                same_quantity = quantity;
                stays_closed = closed;
              })
              v.one_active))

  step_lem :
      (test : Status → Bool) (x : Error) (f : PurchaseOrder → ℕ → PurchaseOrder → PurchaseOrder)
      (k : PurchaseOrder → PurchaseOrder → Action Db PurchaseOrder)
      → ((po : PurchaseOrder) (t : Db) → (u : Db) × (k r po t ≡ (ok po, u)) × (u.orders ≡ t.orders))
      → Keeps r (f r d.now r)
      → (test r.status ≡ true
          → is_active_status r.status ≡ false
          → is_active_status (f r d.now r).status ≡ false)
      → ((do
        po ← get_by_id id
        raise_if (not (test po.status)) x
        now ← gets (λ t. t.now)
        updated ← update_order id (f po now)
        k po updated)
          d).0
        ≡ (if test r.status then ok (f r d.now r) else err x)
  step_lem test x f k tail keeps closed =
      rw (>>=_ok (get_by_id id) body d (get_by_id-some id d e)) (elim (Bool-cases (test r.status)) [
        | inl passes ↦ rw passes (
            let after = with_orders (update order_key id (f r d.now) d.orders.rows) d in
            let (u, done, same) = tail (f r d.now r) after in
            ap (λ o. o.0)
              (>>=_ok (update_order id (f r d.now)) (k r) d
                  (update_order_valid (f r d.now) keeps (closed passes))
                ∙ done))
        | inr stops ↦ rw stops refl
      ])
    where
      body : PurchaseOrder → Action Db PurchaseOrder
      body po = do
        raise_if (not (test po.status)) x
        now ← gets (λ t. t.now)
        updated ← update_order id (f po now)
        k po updated

  -- An existing order takes a transition exactly if LEGAL_TRANSITIONS lists it; the time of
  -- confirmation is set when the new status is `confirmed`.
  pub transition_po_status_lem :
      (new : Status)
      → (transition_po_status id new d).0 ≡ (
          if legal r.status new
          then ok (record r {
            status = new;
            confirmed_at = if same_status new Status.confirmed then some d.now else r.confirmed_at;
          })
          else err illegal_po_transition)
  unfolding transition_po_status
  transition_po_status_lem new =
      step_lem (λ s. is_one_of new (legal_transitions s)) illegal_po_transition
        (λ po now y. record y {
          status = new;
          confirmed_at = if same_status new Status.confirmed then some now else y.confirmed_at;
        })
        (λ po y. send_signal (po_transitioned id po.status new) >> pure y)
        (λ po t. signalled (po_transitioned id r.status new) po t) (refl, refl, refl, refl)
        (λ h. legal_closed r.status new h)

  -- `mark_failed` and `mark_timeout` succeed on an order of any status, the final ones included.
  pub mark_failed_lem :
      (text : String)
      → (mark_failed id text d).0
        ≡ ok (record r { status = Status.failed; notes = if str_eq text "" then r.notes else text })
  unfolding mark_failed
  mark_failed_lem text =
      step_lem (λ s. true) validation_error
        (λ po now y. record y {
          status = Status.failed;
          notes = if str_eq text "" then po.notes else text;
        })
        (λ po y. send_signal (po_failed id) >> pure y) (λ po t. signalled (po_failed id) po t)
        (refl, refl, refl, refl) (λ h c. refl)

  pub mark_timeout_lem : (mark_timeout id d).0 ≡ ok (record r { status = Status.timeout })
  unfolding mark_timeout
  mark_timeout_lem =
      step_lem (λ s. true) validation_error (λ po now y. record y { status = Status.timeout })
        (λ po y. send_signal (po_timeout id) >> pure y) (λ po t. signalled (po_timeout id) po t)
        (refl, refl, refl, refl) (λ h c. refl)

  -- An existing order is approved exactly if it is a draft or awaits approval, whatever becomes of
  -- the e-mail to the supplier; the approver is put on record.
  pub approve_po_lem :
      (user : ℕ) (skip_email : Bool)
      → (approve_po id user skip_email d).0 ≡ (
          if is_draft_or_pending r.status
          then ok (record r { status = Status.approved; approved_by = some user })
          else err illegal_po_transition)
  unfolding approve_po
  approve_po_lem user skip =
      atomic_result d _
      ∙ step_lem is_draft_or_pending illegal_po_transition
          (λ po now y. record y { status = Status.approved; approved_by = some user })
          (λ po y. announce_approval id skip y) (λ po t. announced id skip po t)
          (refl, refl, refl, refl) (λ passes closed. approvable r.status passes closed)

  -- An existing order is rejected exactly if it is a draft or awaits approval.
  pub reject_po_lem : (reject_po id d).0 ≡ (
      if is_draft_or_pending r.status
      then ok (record r { status = Status.rejected })
      else err illegal_po_transition)
  unfolding reject_po
  reject_po_lem =
      atomic_result d _
      ∙ step_lem is_draft_or_pending illegal_po_transition
          (λ po now y. record y { status = Status.rejected })
          (λ po y. send_signal (po_rejected id) >> pure y) (λ po t. signalled (po_rejected id) po t)
          (refl, refl, refl, refl) (λ passes closed. refl)
