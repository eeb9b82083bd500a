-- ===== src/Orders/Lifecycle.antt =====
-- What the calls of PurchasingService (apps/purchasing/services.py) mean for one order.
use smart_stock_ai.Prelude.{
  ℕ, Bool, true, false, not, List, [], ◌∷◌, ◌≡◌, ◌≢◌, ap, inl, inr, refl, sym, some, arith, All,
  Bool-cases, ==_iff, ◌==◌,
}
use mathlib.Core.Path.{subst}
use smart_stock_ai.Prelude.Action.{Result, ok, err}
use smart_stock_ai.Prelude.Table.{find, find-update_ne, find-append}
use smart_stock_ai.Database.{Db, PurchaseOrder, Status}
use smart_stock_ai.Orders.Repository.{order_key}
use smart_stock_ai.Orders.Service.{draft_po}
use smart_stock_ai.Orders.Writes.{Writes}
use smart_stock_ai.Orders.Operations.{legal_or_resent}
use smart_stock_ai.Orders.Drafts.{Drafts, draft_po-Drafts}
use smart_stock_ai.Orders.History.{
  Move, failed, timeout, email_sent, perform, perform-Writes, edge_of, Call, draft, move, call, run,
}

Writes-others :
    (edge : Status → Status → Bool) (j id : ℕ) (d : Db) (r : Result PurchaseOrder × Db)
    → j ≢ id
    → Writes edge id d r
    → find order_key j r.1.orders.rows ≡ find order_key j d.orders.rows
Writes-others edge j id d (ok po, d') n w =
    rw w.wrote (find-update_ne order_key j id (λ y. po) d.orders.rows w.same_id w.found n)
Writes-others edge j id d (err e, d') n same = rw same refl

-- A move of one order leaves every other order as it was, whether or not it succeeds.
pub perform-others :
    (j id : ℕ) (m : Move) (d : Db)
    → j ≢ id
    → find order_key j (perform id m d).1.orders.rows ≡ find order_key j d.orders.rows
perform-others j id m d n =
    Writes-others (edge_of m) j id d (perform id m d) n (perform-Writes id m d)

-- LEGAL_TRANSITIONS has no edge from these.
abbrev pub is_final : Status → Bool
is_final Status.confirmed = true
is_final Status.rejected = true
is_final Status.cancelled = true
is_final Status.failed = true
is_final Status.timeout = true
is_final _ = false

-- The calls other than `mark_failed` and `mark_timeout` of the order `id`.
abbrev pub spares : ℕ → Call → Bool
spares id (move j (failed text)) = not (j == id)
spares id (move j timeout) = not (j == id)
spares id _ = true

abbrev pub is_guarded : Move → Bool
is_guarded (failed text) = false
is_guarded timeout = false
is_guarded _ = true

final_stuck : (a b : Status) → is_final a ≡ true → legal_or_resent a b ≡ false
final_stuck a b h = ground arith

pub edge-resent :
    (m : Move) (a b : Status)
    → is_guarded m ≡ true
    → edge_of m a b ≡ true
    → legal_or_resent a b ≡ true
edge-resent (failed text) a b g e = cc
edge-resent timeout a b g e = cc
edge-resent (email_sent m) a b g e = e
edge-resent _ a b g e = ground arith

Writes-final :
    (m : Move) (id : ℕ) (d : Db) (o : Result PurchaseOrder × Db) {r : PurchaseOrder}
    → is_guarded m ≡ true
    → find order_key id d.orders.rows ≡ some r
    → is_final r.status ≡ true
    → Writes (edge_of m) id d o
    → o.1 ≡ d
Writes-final m id d (ok po, d') {r} g e h w =
    let same : w.old ≡ r = cc (w.found, e) in
    let moved : legal_or_resent r.status po.status ≡ true =
      rw same at (edge-resent m w.old.status po.status g w.moved) in
    cc (moved, final_stuck r.status po.status h)
Writes-final m id d (err x, d') g e h same = same

spared : (j id : ℕ) (m : Move) → j ≡ id → spares id (move j m) ≡ true → is_guarded m ≡ true
spared j id (failed text) same g = ground arith
spared j id timeout same g = ground arith
spared j id _ same g = refl

call-final :
    (c : Call) (id : ℕ) (d : Db) {r : PurchaseOrder}
    → spares id c ≡ true
    → find order_key id d.orders.rows ≡ some r
    → is_final r.status ≡ true
    → find order_key id (call c d).1.orders.rows ≡ some r
unfolding call
call-final (draft n) id d {r} g e h = drafts (draft_po n d) (draft_po-Drafts n d)
  where
    drafts :
        (o : Result PurchaseOrder × Db) → Drafts n d o → find order_key id o.1.orders.rows ≡ some r
    drafts (ok po, d') (inl found) = rw found.1 e
    drafts (ok po, d') (inr new) =
        rw new.1.appended (rw (find-append order_key id d.orders.rows po) (rw e refl))
    drafts (err x, d') same = rw same e
call-final (move j m) id d {r} g e h = elim (Bool-cases (id == j)) [
  | inl here ↦
      rw
        (ap (λ t. t.orders)
          (Writes-final m id d (perform j m d) (spared j id m (sym ((==_iff id j).0 here)) g) e h (
            subst (λ k. Writes (edge_of m) k d (perform j m d)) (sym ((==_iff id j).0 here))
              (perform-Writes j m d))))
        e
  | inr away ↦ rw (perform-others id j m d (λ same. cc ((==_iff id j).1 same, away))) e
]

-- An order that is confirmed, rejected, cancelled, failed or timed out is never changed again by any
-- list of calls in which nobody calls `mark_failed` or `mark_timeout` on it.
pub run-final :
    (cs : List Call) (id : ℕ) (d : Db) {r : PurchaseOrder}
    → All (λ c. spares id c ≡ true) cs
    → find order_key id d.orders.rows ≡ some r
    → is_final r.status ≡ true
    → find order_key id (run cs d).orders.rows ≡ some r
unfolding run
run-final [] id d g e h = e
run-final (c ∷ cs) id d {r} g e h = run-final cs id (call c d).1 g.1 (call-final c id d g.0 e h) h
