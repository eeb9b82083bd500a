-- ===== src/Orders/History.antt =====
-- Calls of PurchasingService in any order: the operations as data, and a run of a list of calls in
-- which one that raises leaves the store as it came back.
use smart_stock_ai.Prelude.{
  ℕ, Bool, true, false, List, [], ◌∷◌, ◌≡◌, inl, inr, String, Option, arith,
}
use smart_stock_ai.Prelude.Action.{Action, Result, ok, err}
use smart_stock_ai.Prelude.Table.{IsBelow, IsBelow-find, IsBelow-update, IsBelow-append}
use smart_stock_ai.Database.{Db, PurchaseOrder, Status, MessageId}
use smart_stock_ai.Orders.Repository.{order_key, NewOrder, is_active_status}
use smart_stock_ai.Orders.Service.{
  approve_po, reject_po, send_po, mark_email_sent, mark_waiting_confirmation, mark_confirmed,
  mark_failed, mark_timeout, transition_po_status, draft_po,
}
use smart_stock_ai.Orders.Active.{OneActive, OneActive-update}
use smart_stock_ai.Orders.Writes.{legal, Wrote, Writes}
use smart_stock_ai.Orders.Operations.{
  ends_in, legal_or_resent, approve_po-Writes, reject_po-Writes, send_po-Writes,
  mark_email_sent-Writes, mark_waiting_confirmation-Writes, mark_confirmed-Writes,
  mark_failed-Writes, mark_timeout-Writes, transition_po_status-Writes,
}
use smart_stock_ai.Orders.Drafts.{Drafts, draft_po-Drafts, Drafts-OneActive}

-- A call that moves an existing order.
pub data Move : Type 0 where
  approve : ℕ → Bool → Move
  reject send : Move
  email_sent : Option MessageId → Move
  waiting_confirmation confirmed : Move
  failed : String → Move
  timeout : Move
  transition : Status → Move

unfoldable pub perform : ℕ → Move → Action Db PurchaseOrder
perform id (approve user skip_email) = approve_po id user skip_email
perform id reject = reject_po id
perform id send = send_po id
perform id (email_sent m) = mark_email_sent id m
perform id waiting_confirmation = mark_waiting_confirmation id
perform id confirmed = mark_confirmed id
perform id (failed text) = mark_failed id text
perform id timeout = mark_timeout id
perform id (transition new) = transition_po_status id new

-- The status changes that a call may make when it succeeds.
abbrev pub edge_of : Move → Status → Status → Bool
edge_of (email_sent m) = legal_or_resent
edge_of (failed text) = ends_in Status.failed
edge_of timeout = ends_in Status.timeout
edge_of _ = legal

-- Each call raises and changes nothing, or it replaces the order that it names by one of the same
-- request: along an edge of LEGAL_TRANSITIONS, but for `mark_email_sent`, which also takes a sent
-- order, and for `mark_failed` and `mark_timeout`, which take an order of any status.
pub perform-Writes : (id : ℕ) (m : Move) (d : Db) → Writes (edge_of m) id d (perform id m d)
unfolding perform
perform-Writes id (approve user skip_email) d = approve_po-Writes id user skip_email d
perform-Writes id reject d = reject_po-Writes id d
perform-Writes id send d = send_po-Writes id d
perform-Writes id (email_sent m) d = mark_email_sent-Writes id m d
perform-Writes id waiting_confirmation d = mark_waiting_confirmation-Writes id d
perform-Writes id confirmed d = mark_confirmed-Writes id d
perform-Writes id (failed text) d = mark_failed-Writes id text d
perform-Writes id timeout d = mark_timeout-Writes id d
perform-Writes id (transition new) d = transition_po_status-Writes id new d

pub data Call : Type 0 where
  draft : NewOrder → Call
  move : ℕ → Move → Call

unfoldable pub call : Call → Action Db PurchaseOrder
call (draft n) = draft_po n
call (move id m) = perform id m

-- The store after a list of calls; an exception ends its call and no more.
unfoldable pub run : List Call → Db → Db
run [] d = d
run (c ∷ cs) d = run cs (call c d).1

-- What holds of the orders between two calls.
pub record IsValid (d : Db) : Type 0 where
  pub ids_below : IsBelow order_key d.orders.next_id d.orders.rows
  pub one_active : OneActive d.orders.rows

pub legal_closed :
    (a b : Status) → legal a b ≡ true → is_active_status a ≡ false → is_active_status b ≡ false
legal_closed a b e h = ground arith

resent_closed :
    (a b : Status)
    → legal_or_resent a b ≡ true
    → is_active_status a ≡ false
    → is_active_status b ≡ false
resent_closed a b e h = ground arith

-- No move opens a closed order again.
no_reopening :
    (m : Move) (a b : Status)
    → edge_of m a b ≡ true
    → is_active_status a ≡ false
    → is_active_status b ≡ false
no_reopening (email_sent m) a b e h = resent_closed a b e h
no_reopening (failed text) a b e h = ground arith
no_reopening timeout a b e h = ground arith
no_reopening _ a b e h = legal_closed a b e h

Wrote-IsValid :
    (m : Move) (id : ℕ) (d d' : Db) (po : PurchaseOrder)
    → Wrote (edge_of m) id d po d'
    → IsValid d
    → IsValid d'
Wrote-IsValid m id d d' po w v = record {
  ids_below =
      rw (w.wrote, w.same_next)
        (IsBelow-update order_key d.orders.next_id id po d.orders.rows
          (rw w.same_id
            (IsBelow-find order_key d.orders.next_id id d.orders.rows v.ids_below w.found))
          v.ids_below);
  one_active = rw w.wrote (
      OneActive-update po id d.orders.rows w.found
        (record {
          same_sku = w.same_sku;
          same_supplier = w.same_supplier;
          same_quantity = w.same_quantity;
          stays_closed = λ h. no_reopening m w.old.status po.status w.moved h;
        })
        v.one_active);
}

Writes-IsValid :
    (m : Move) (id : ℕ) (d : Db) (r : Result PurchaseOrder × Db)
    → Writes (edge_of m) id d r
    → IsValid d
    → IsValid r.1
Writes-IsValid m id d (ok po, d') w v = Wrote-IsValid m id d d' po w v
Writes-IsValid m id d (err e, d') same v = rw same v

Drafts-IsValid :
    (n : NewOrder) (d : Db) (r : Result PurchaseOrder × Db) → Drafts n d r → IsValid d → IsValid r.1
Drafts-IsValid n d (ok po, d') (inl found) v = rw found.1 v
Drafts-IsValid n d (ok po, d') (inr (new, w)) v = record {
  ids_below =
      rw (w.appended, w.next)
        (IsBelow-append order_key d.orders.next_id po d.orders.rows w.fresh_id v.ids_below);
  one_active = Drafts-OneActive n d d' po (inr (new, w)) v.one_active;
}
Drafts-IsValid n d (err e, d') same v = rw same v

pub call-IsValid : (c : Call) (d : Db) → IsValid d → IsValid (call c d).1
unfolding call
call-IsValid (draft n) d v = Drafts-IsValid n d (draft_po n d) (draft_po-Drafts n d) v
call-IsValid (move id m) d v = Writes-IsValid m id d (perform id m d) (perform-Writes id m d) v

-- Whatever calls are made, in any order and with any arguments, keys stay below the next key and at
-- most one order is active for a SKU, a supplier and a quantity.
pub run-IsValid : (cs : List Call) (d : Db) → IsValid d → IsValid (run cs d)
unfolding run
run-IsValid [] d v = v
run-IsValid (c ∷ cs) d v = run-IsValid cs (call c d).1 (call-IsValid c d v)
