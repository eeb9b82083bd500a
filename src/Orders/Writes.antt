-- ===== src/Orders/Writes.antt =====
-- What every operation of PurchasingService does to the table of orders: it raises and changes
-- nothing, or it replaces the one order that it names, along an edge of a transition table.
use smart_stock_ai.Prelude.{
  ℕ, Bool, true, false, not, ◌≡◌, refl, ◌∙◌, ap, some, none, inl, inr, Bool-cases, Option-cases,
  if◌then◌else◌,
}
use smart_stock_ai.Prelude.Action.{
  Action, Result, ok, err, integrity_error, does_not_exist, ◌>>=◌, >>=_ok, >>=_err, ◌>>◌, gets,
  raise_if, Error,
}
use smart_stock_ai.Prelude.Table.{find, update, find_key, find-update_self, update_const}
use smart_stock_ai.Database.{Db, PurchaseOrder, Status, is_one_of}
use smart_stock_ai.Orders.Repository.{
  order_key, get_by_id, update_where, update_order, with_orders, uq_active_ok,
}
use smart_stock_ai.Orders.Service.{legal_transitions}

-- `LEGAL_TRANSITIONS` has an edge from the first status to the second.
abbrev pub legal : Status → Status → Bool
legal a b = is_one_of b (legal_transitions a)

-- `po`, at the key `id`, took the place of `old`.
pub record Wrote (edge : Status → Status → Bool) (id : ℕ) (d : Db) (po : PurchaseOrder) (d' : Db)
    : Type 0 where
  pub old : PurchaseOrder
  pub found : find order_key id d.orders.rows ≡ some old
  pub wrote : d'.orders.rows ≡ update order_key id (λ y. po) d.orders.rows
  pub same_next : d'.orders.next_id ≡ d.orders.next_id
  pub same_id : po.id ≡ id
  pub same_sku : po.sku_id ≡ old.sku_id
  pub same_supplier : po.supplier_id ≡ old.supplier_id
  pub same_quantity : po.quantity ≡ old.quantity
  pub moved : edge old.status po.status ≡ true

abbrev pub Writes : (Status → Status → Bool) → ℕ → Db → Result PurchaseOrder × Db → Type 0
Writes edge id d (ok po, d') = Wrote edge id d po d'
Writes edge id d (err e, d') = d' ≡ d

pub get_by_id-some :
    (id : ℕ) (d : Db) {r : PurchaseOrder}
    → find order_key id d.orders.rows ≡ some r
    → get_by_id id d ≡ (ok r, d)
unfolding get_by_id
get_by_id-some id d e = rw e

pub get_by_id-none :
    (id : ℕ) (d : Db)
    → find order_key id d.orders.rows ≡ none
    → get_by_id id d ≡ (err does_not_exist, d)
unfolding get_by_id
get_by_id-none id d e = rw e

module _ (id : ℕ) (f : PurchaseOrder → PurchaseOrder) (d : Db) where
  update_where_ok :
      uq_active_ok (update order_key id f d.orders.rows) ≡ true
      → update_where id f d ≡ (ok tt, with_orders (update order_key id f d.orders.rows) d)
  unfolding update_where
  update_where_ok e = rw e

  update_where_clash :
      uq_active_ok (update order_key id f d.orders.rows) ≡ false
      → update_where id f d ≡ (err integrity_error, d)
  unfolding update_where
  update_where_clash e = rw e

-- An update and the read that follows it.
pub update_order_lem :
    (id : ℕ) (f : PurchaseOrder → PurchaseOrder) (d : Db) {r : PurchaseOrder}
    → find order_key id d.orders.rows ≡ some r
    → (f r).id ≡ r.id
    → let rows = update order_key id f d.orders.rows in
      update_order id f d
      ≡ (if uq_active_ok rows then (ok (f r), with_orders rows d) else (err integrity_error, d))
unfolding update_order
update_order_lem id f d {r} e k =
    let i : (f r).id ≡ id = k ∙ find_key order_key id d.orders.rows e in
    let read = find-update_self order_key id f d.orders.rows i e in
    elim (Bool-cases (uq_active_ok (update order_key id f d.orders.rows))) [
      | inl fits ↦ rw fits (
          >>=_ok (update_where id f) (λ x. get_by_id id) d (update_where_ok id f d fits)
          ∙ get_by_id-some id (with_orders (update order_key id f d.orders.rows) d) read)
      | inr clash ↦
          rw clash
            (>>=_err (update_where id f) (λ x. get_by_id id) d (update_where_clash id f d clash))
    ]

-- The columns that no operation writes.
abbrev pub Keeps : PurchaseOrder → PurchaseOrder → Type 0
Keeps r s =
    (s.id ≡ r.id)
    × (s.sku_id ≡ r.sku_id)
    × (s.supplier_id ≡ r.supplier_id)
    × (s.quantity ≡ r.quantity)

module _ (edge : Status → Status → Bool) (id : ℕ) (d : Db) where
  pub Writes-atomic :
      (r : Result PurchaseOrder × Db)
      → Writes edge id d r
      → Writes edge id d (elim r.0 [ ok a ↦ (ok a, r.1) | err e ↦ (err e, d) ])
  Writes-atomic (ok a, t) w = w
  Writes-atomic (err e, t) w = refl

  -- An update of the order that was found, and a tail that keeps the orders.
  commit-Writes :
      (f : PurchaseOrder → PurchaseOrder) (k : PurchaseOrder → Action Db PurchaseOrder)
      {r : PurchaseOrder}
      → find order_key id d.orders.rows ≡ some r
      → ((po : PurchaseOrder) (t : Db) → (u : Db) × (k po t ≡ (ok po, u)) × (u.orders ≡ t.orders))
      → Keeps r (f r)
      → edge r.status (f r).status ≡ true
      → Writes edge id d ((update_order id f >>= k) d)
  commit-Writes f k {r} e tail (i, sku, supplier, quantity) m =
      elim (Bool-cases (uq_active_ok (update order_key id f d.orders.rows))) [
        | inl fits ↦
            let went : update_order id f d
                ≡ (ok (f r), with_orders (update order_key id f d.orders.rows) d) =
              update_order_lem id f d e i ∙ (rw fits) in
            let (u, done, keeps) =
              tail (f r) (with_orders (update order_key id f d.orders.rows) d) in
            rw (>>=_ok (update_order id f) k d went) (
              rw done (record {
                old = r;
                found = e;
                wrote = ap (λ o. o.rows) keeps ∙ update_const order_key id f d.orders.rows e;
                same_next = ap (λ o. o.next_id) keeps;
                same_id = i ∙ find_key order_key id d.orders.rows e;
                same_sku = sku;
                same_supplier = supplier;
                same_quantity = quantity;
                moved = m;
              }))
        | inr clash ↦
            let stopped : update_order id f d ≡ (err integrity_error, d) =
              update_order_lem id f d e i ∙ (rw clash) in
            rw (>>=_err (update_order id f) k d stopped) refl
      ]

  -- The shape of all of them: read the order, test its status, write it, send a signal.
  pub step-Writes :
      (test : Status → Bool) (x : Error) (f : PurchaseOrder → ℕ → PurchaseOrder → PurchaseOrder)
      (k : PurchaseOrder → PurchaseOrder → Action Db PurchaseOrder)
      → ((r po : PurchaseOrder) (t : Db)
          → (u : Db) × (k r po t ≡ (ok po, u)) × (u.orders ≡ t.orders))
      → ((r : PurchaseOrder) → Keeps r (f r d.now r))
      → ((r : PurchaseOrder) → test r.status ≡ true → edge r.status (f r d.now r).status ≡ true)
      → Writes edge id d (
          (do
            po ← get_by_id id
            raise_if (not (test po.status)) x
            now ← gets (λ t. t.now)
            updated ← update_order id (f po now)
            k po updated)
            d)
  step-Writes test x f k tail keeps moves = elim (Option-cases (find order_key id d.orders.rows)) [
    | inl gone ↦ rw (>>=_err (get_by_id id) body d (get_by_id-none id d gone)) refl
    | inr (r, e) ↦
        rw (>>=_ok (get_by_id id) body d (get_by_id-some id d e))
          (elim (Bool-cases (test r.status)) [
            | inl passes ↦
                rw passes (commit-Writes (f r d.now) (k r) e (tail r) (keeps r) (moves r passes))
            | inr stops ↦ rw stops refl
          ])
  ]
    where
      body : PurchaseOrder → Action Db PurchaseOrder
      body po = do
        raise_if (not (test po.status)) x
        now ← gets (λ t. t.now)
        updated ← update_order id (f po now)
        k po updated
