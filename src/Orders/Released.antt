-- ===== src/Orders/Released.antt =====
-- Orders that someone has approved, and the mail that is queued: what drafting an order and sending it to
-- approval (apps/purchasing/services.py) leave as they were.
use smart_stock_ai.Prelude.{
  ℕ, Bool, true, false, not, ◌&&◌, Option, none, some, List, [], ◌∷◌, ◌++◌, ◌≡◌, inl, inr, refl, ap,
  arith, select, if◌then◌else◌,
}
use smart_stock_ai.Prelude.Action.{
  Action, Result, Error, ok, err, raise_if, does_not_exist, illegal_po_transition, ◌>>=◌, ◌>>◌,
  pure, gets,
}
use smart_stock_ai.Prelude.Keeps.{Keeps, >>=-Keeps, atomic-Keeps, or_raise-Keeps}
use smart_stock_ai.Prelude.Table.{find, update}
use smart_stock_ai.Database.{
  Db, PurchaseOrder, EmailTask, Status, is_one_of, same_status, po_transitioned,
}
use smart_stock_ai.Orders.Repository.{
  NewOrder, create, order_key, get_by_id, update_order, update_where,
}
use smart_stock_ai.Orders.Service.{
  non_empty, draft_po, return_or_create, transition_po_status, legal_transitions, send_signal,
}
use smart_stock_ai.Orders.Writes.{Writes, step-Writes, legal}
use smart_stock_ai.Orders.Drafts.{draft_po-Drafts, DraftsFrom, active_order}

-- The statuses of an order that someone has approved.
abbrev pub is_released : Status → Bool
is_released Status.approved = true
is_released Status.sent = true
is_released Status.email_sent = true
is_released Status.waiting_confirmation = true
is_released Status.confirmed = true
is_released _ = false

-- The orders that are released, and the mail that is queued.
abbrev pub released : Db → List PurchaseOrder × List EmailTask
released d = (select (λ r. is_released r.status) d.orders.rows, d.outbox)

abbrev outbox : Db → List EmailTask
outbox d = d.outbox

create-outbox : (n : NewOrder) → Keeps outbox (create n)
unfolding create
create-outbox n d = ground arith

get_by_id-outbox : (id : ℕ) → Keeps outbox (get_by_id id)
unfolding get_by_id
get_by_id-outbox id d = or_raise-Keeps outbox (find order_key id d.orders.rows) does_not_exist d

update_where-outbox :
    (id : ℕ) (f : PurchaseOrder → PurchaseOrder) → Keeps outbox (update_where id f)
unfolding update_where
update_where-outbox id f d = ground arith

update_order-outbox :
    (id : ℕ) (f : PurchaseOrder → PurchaseOrder) → Keeps outbox (update_order id f)
unfolding update_order
update_order-outbox id f =
    >>=-Keeps outbox (update_where id f) (λ x. get_by_id id) (update_where-outbox id f)
      (λ x. get_by_id-outbox id)

raise_if-outbox : (b : Bool) (e : Error) → Keeps outbox (raise_if b e)
raise_if-outbox b e d = refl

-- The rest of `transition_po_status`, once the order is read and once it may move.
abbrev move_to : Status → ℕ → PurchaseOrder → Action Db PurchaseOrder
move_to new id po = do
  now ← gets (λ d. d.now)
  updated ← update_order id (λ r. record r {
    status = new;
    confirmed_at = if same_status new Status.confirmed then some now else r.confirmed_at;
  })
  send_signal (po_transitioned id po.status new)
  pure updated

move_to-outbox : (new : Status) (id : ℕ) (po : PurchaseOrder) → Keeps outbox (move_to new id po)
move_to-outbox new id po d =
    let f : PurchaseOrder → PurchaseOrder = λ r. record r {
      status = new;
      confirmed_at = if same_status new Status.confirmed then some d.now else r.confirmed_at;
    } in
    >>=-Keeps outbox (update_order id f) (signalled new id po) (update_order-outbox id f)
      (λ updated t. refl) d
  where
    signalled : Status → ℕ → PurchaseOrder → PurchaseOrder → Action Db PurchaseOrder
    signalled new id po updated = send_signal (po_transitioned id po.status new) >> pure updated

transition-outbox : (id : ℕ) (new : Status) → Keeps outbox (transition_po_status id new)
unfolding transition_po_status
transition-outbox id new =
    >>=-Keeps outbox (get_by_id id)
      (λ po.
        raise_if (not (is_one_of new (legal_transitions po.status))) illegal_po_transition
        >> move_to new id po)
      (get_by_id-outbox id)
      (λ po.
        >>=-Keeps outbox
          (raise_if (not (is_one_of new (legal_transitions po.status))) illegal_po_transition)
          (λ x. move_to new id po)
          (raise_if-outbox (not (is_one_of new (legal_transitions po.status)))
            illegal_po_transition)
          (λ x. move_to-outbox new id po))

-- A draft is not released, and neither is an order that awaits approval.
released-append :
    (rs : List PurchaseOrder) (po : PurchaseOrder)
    → po.status ≡ Status.draft
    → select (λ r. is_released r.status) (rs ++ po ∷ []) ≡ select (λ r. is_released r.status) rs
released-append [] po e = rw e refl
released-append (x ∷ xs) po e = rw (released-append xs po e) refl

released-update :
    (id : ℕ) (rs : List PurchaseOrder) (old po : PurchaseOrder)
    → find order_key id rs ≡ some old
    → is_released old.status ≡ false
    → is_released po.status ≡ false
    → select (λ r. is_released r.status) (update order_key id (λ y. po) rs)
      ≡ select (λ r. is_released r.status) rs
released-update id [] old po e a b = cc
released-update id (x ∷ xs) old po e a b = ground (arith, released-update id xs old po)

draft_po-outbox : (n : NewOrder) → Keeps outbox (draft_po n)
unfolding draft_po
draft_po-outbox n =
    atomic-Keeps outbox (λ d. return_or_create (active_order n d) n d)
      (λ d. found_or_created (active_order n d) d)
  where
    found_or_created :
        (o : Option PurchaseOrder) (d : Db) → (return_or_create o n d).1.outbox ≡ d.outbox
    found_or_created none d = create-outbox (record n { po_number = non_empty n.po_number }) d
    found_or_created (some po) d = refl

abbrev released_orders : Db → List PurchaseOrder
released_orders d = select (λ r. is_released r.status) d.orders.rows

Drafts-released :
    (n : NewOrder) (d : Db) (found : Option PurchaseOrder) (r : Result PurchaseOrder × Db)
    → DraftsFrom n d found r
    → released_orders r.1 ≡ released_orders d
Drafts-released n d found (ok po, t) (inl (e, same)) = ap released_orders same
Drafts-released n d found (ok po, t) (inr (e, w)) =
    rw w.appended (released-append d.orders.rows po w.is_draft)
Drafts-released n d found (err e, t) same = ap released_orders same

pub draft_po-released : (n : NewOrder) → Keeps released (draft_po n)
draft_po-released n d = cc (
  Drafts-released n d (active_order n d) (draft_po n d) (draft_po-Drafts n d),
  draft_po-outbox n d,
)

-- From a status of nobody's approval to another one.
abbrev to_pending : Status → Status → Bool
to_pending s t = same_status t Status.pending_approval && legal s t

to_pending_lem :
    (s t : Status) → to_pending s t ≡ true → (is_released s ≡ false) × (is_released t ≡ false)
to_pending_lem s t h = ground arith

transition-Writes :
    (id : ℕ) (d : Db) → Writes to_pending id d (transition_po_status id Status.pending_approval d)
unfolding transition_po_status
transition-Writes id d =
    step-Writes to_pending id d (λ s. is_one_of Status.pending_approval (legal_transitions s))
      illegal_po_transition
      (λ po now r. record r { status = Status.pending_approval; confirmed_at = r.confirmed_at })
      (λ r po. send_signal (po_transitioned id r.status Status.pending_approval) >> pure po)
      (λ r po t. (
        ((send_signal (po_transitioned id r.status Status.pending_approval) >> pure po) t).1,
        refl,
        refl,
      ))
      (λ r. (refl, refl, refl, refl)) (λ r h. h)

Writes-released :
    (id : ℕ) (d : Db) (r : Result PurchaseOrder × Db)
    → Writes to_pending id d r
    → released_orders r.1 ≡ released_orders d
Writes-released id d (ok po, t) w =
    let (before, after) = to_pending_lem w.old.status po.status w.moved in
    rw w.wrote (released-update id d.orders.rows w.old po w.found before after)
Writes-released id d (err e, t) w = ap released_orders w

pub pending-released : (id : ℕ) → Keeps released (transition_po_status id Status.pending_approval)
pending-released id d = cc (
  Writes-released id d (transition_po_status id Status.pending_approval d) (transition-Writes id d),
  transition-outbox id Status.pending_approval d,
)
