-- ===== src/Agent/Listener.antt =====
-- The confirmation tool (ai/agents/tools/confirmation_listener.py) against `mark_confirmed`.
use smart_stock_ai.Prelude.{ℕ, none, some, ◌≡◌, ap, sym, ◌∙◌, inl, inr, arith, Option-cases}
use smart_stock_ai.Prelude.Action.{Result, ok, err, validation_error}
use smart_stock_ai.Prelude.Table.{find}
use smart_stock_ai.Database.{Db, PurchaseOrder, Status}
use smart_stock_ai.Orders.Repository.{order_key}
use smart_stock_ai.Orders.Service.{mark_confirmed}
use smart_stock_ai.Orders.Writes.{get_by_id-some, get_by_id-none}
use smart_stock_ai.Agent.Tools.{Poll, poll_confirmed, poll_error, poll_of, confirmation_tool}

-- The listener says `confirmed` only of an order that is confirmed already.
poll-confirmed : (s : Status) → poll_of s ≡ poll_confirmed → s ≡ Status.confirmed
poll-confirmed s h = ground arith

pub confirmation_tool-some :
    (po_id : ℕ) (d : Db) {r : PurchaseOrder}
    → find order_key po_id d.orders.rows ≡ some r
    → confirmation_tool po_id d ≡ (ok (poll_of r.status), d)
unfolding confirmation_tool
confirmation_tool-some po_id d {r} e = ground (arith, get_by_id-some po_id d {r = r} e)

confirmation_tool-none :
    (po_id : ℕ) (d : Db)
    → find order_key po_id d.orders.rows ≡ none
    → confirmation_tool po_id d ≡ (ok poll_error, d)
unfolding confirmation_tool
confirmation_tool-none po_id d e = ground (arith, get_by_id-none po_id d e)

pub mark_confirmed_again :
    (po_id : ℕ) (d : Db) {r : PurchaseOrder}
    → find order_key po_id d.orders.rows ≡ some r
    → r.status ≡ Status.confirmed
    → mark_confirmed po_id d ≡ (err validation_error, d)
unfolding mark_confirmed
mark_confirmed_again po_id d {r} e c = ground (arith, get_by_id-some po_id d {r = r} e)

ok-injective : {a b : Poll} {d t : Db} → ◌≡◌ {A = Result Poll × Db} (ok a, d) (ok b, t) → a ≡ b
ok-injective h = cc (ap (λ o. o.0) h)

-- So `mark_confirmed`, which wants an order that waits, raises at once.
pub confirmation_refused :
    (po_id : ℕ) (d t : Db)
    → confirmation_tool po_id d ≡ (ok poll_confirmed, t)
    → mark_confirmed po_id t ≡ (err validation_error, t)
confirmation_refused po_id d t h = elim (Option-cases (find order_key po_id d.orders.rows)) [
  | inl gone ↦ cc (ok-injective (sym (confirmation_tool-none po_id d gone) ∙ h))
  | inr (r, e) ↦
      let read = sym (confirmation_tool-some po_id d e) ∙ h in
      rw (sym (ap (λ o. o.1) read))
        (mark_confirmed_again po_id d e (poll-confirmed r.status (ok-injective read)))
]
