-- ===== src/Alerts/Sweep.antt =====
-- What a sweep of `check_supplier_timeouts` (apps/purchasing/timeout_tasks.py) does to the orders.
use smart_stock_ai.Prelude.{
  ℕ, Bool, false, ◌≢◌, List, [], ◌∷◌, ◌≡◌, refl, ap, ◌∙◌, String, map, select, All, arith, ◌==◌,
  ==_iff, if◌then◌else◌, Bool-cases, inl, inr,
}
use smart_stock_ai.Prelude.Sorting.{sort, insert, sort-All}
use smart_stock_ai.Database.{PurchaseOrder}
use smart_stock_ai.Orders.Repository.{newer}
use smart_stock_ai.Alerts.Escalation.{Desk, Reason, create_escalation_notification}
use smart_stock_ai.Alerts.Timeouts.{
  recorded, is_stale, timed_out, save_timeout, time_out, time_out_all, check_supplier_timeouts,
}

-- The keys of the orders are distinct.
abbrev pub IsDistinct : List PurchaseOrder → Type 0
IsDistinct [] = Unit
IsDistinct (x ∷ xs) = All (λ y. y.id ≢ x.id) xs × IsDistinct xs

create-orders :
    (recipients : List String) (po : PurchaseOrder) (reason : Reason) (k : Desk)
    → (create_escalation_notification recipients po reason k).db ≡ k.db
unfolding create_escalation_notification
create-orders recipients po reason k = ground arith

module _ (recipients : List String) (note : ℕ → String) where
  -- The writes of a sweep, one after the other.
  abbrev save_all : ℕ → List PurchaseOrder → List PurchaseOrder → List PurchaseOrder
  save_all now [] rows = rows
  save_all now (po ∷ pos) rows = save_all now pos (save_timeout (timed_out note now po) rows)

  time_out_all-orders :
      (pos : List PurchaseOrder) (k : Desk)
      → (time_out_all recipients note pos k).db.orders.rows ≡ save_all k.db.now pos k.db.orders.rows
  unfolding time_out_all
  time_out_all-orders [] k = refl
  time_out_all-orders (po ∷ pos) k =
      let same =
        create-orders recipients (timed_out note k.db.now po) Reason.supplier_timeout
          (recorded (timed_out note k.db.now po) k) in
      time_out_all-orders pos (time_out recipients note po k) ∙ rw same refl

  save_all-skip :
      (now : ℕ) (x : PurchaseOrder) (pos rows : List PurchaseOrder)
      → All (λ y. y.id ≢ x.id) pos
      → save_all now pos (x ∷ rows) ≡ x ∷ save_all now pos rows
  save_all-skip now x [] rows n = refl
  save_all-skip now x (y ∷ pos) rows n =
      let away : (x.id == y.id) ≡ false = ground (arith, ==_iff x.id y.id) in
      rw away (save_all-skip now x pos (save_timeout (timed_out note now y) rows) n.1)

  select-All :
      (p : PurchaseOrder → Bool) (x : PurchaseOrder) (rows : List PurchaseOrder)
      → All (λ y. y.id ≢ x.id) rows
      → All (λ y. y.id ≢ x.id) (select p rows)
  select-All p x [] n = tt
  select-All p x (y ∷ rows) n = elim (Bool-cases (p y)) [
    | inl chosen ↦ rw chosen (n.0, select-All p x rows n.1)
    | inr left ↦ rw left (select-All p x rows n.1)
  ]

  -- What a sweep makes of one order.
  abbrev pub swept : ℕ → PurchaseOrder → PurchaseOrder
  swept now r = if is_stale now r then timed_out note now r else r

  save_timeout_self :
      (now : ℕ) (x : PurchaseOrder) (rows : List PurchaseOrder)
      → save_timeout (timed_out note now x) (x ∷ rows) ≡ timed_out note now x ∷ rows
  save_timeout_self now x rows = rw ((==_iff x.id x.id).1 refl) refl

  save_all-map :
      (now : ℕ) (rows : List PurchaseOrder)
      → IsDistinct rows
      → save_all now (select (is_stale now) rows) rows ≡ map (swept now) rows
  save_all-map now [] u = refl
  save_all-map now (x ∷ rows) u = elim (Bool-cases (is_stale now x)) [
    | inl stale ↦ rw stale (
        ap (save_all now (select (is_stale now) rows)) (save_timeout_self now x rows)
        ∙ save_all-skip now (timed_out note now x) (select (is_stale now) rows) rows
            (select-All (is_stale now) x rows u.0)
        ∙ ap (◌∷◌ (timed_out note now x)) (save_all-map now rows u.1))
    | inr fresh ↦ rw fresh (
        save_all-skip now x (select (is_stale now) rows) rows (select-All (is_stale now) x rows u.0)
        ∙ ap (◌∷◌ x) (save_all-map now rows u.1))
  ]

  save_twice :
      (now : ℕ) (x y : PurchaseOrder) (rows : List PurchaseOrder)
      → y.id ≢ x.id
      → save_timeout (timed_out note now x) (save_timeout (timed_out note now y) rows)
        ≡ save_timeout (timed_out note now y) (save_timeout (timed_out note now x) rows)
  save_twice now x y [] n = refl
  save_twice now x y (z ∷ rows) n = ground (arith, save_twice now x y rows n)

  -- Orders with different keys are saved in any order to the same effect.
  save_all-insert :
      (now : ℕ) (x : PurchaseOrder) (pos rows : List PurchaseOrder)
      → All (λ y. y.id ≢ x.id) pos
      → save_all now (insert newer x pos) rows ≡ save_all now (x ∷ pos) rows
  save_all-insert now x [] rows n = refl
  save_all-insert now x (y ∷ pos) rows n = elim (Bool-cases (newer y x)) [
    | inl first ↦ rw first (
        save_all-insert now x pos (save_timeout (timed_out note now y) rows) n.1
        ∙ ap (save_all now pos) (save_twice now x y rows n.0))
    | inr stays ↦ rw stays refl
  ]

  save_all-sort :
      (now : ℕ) (pos rows : List PurchaseOrder)
      → IsDistinct pos
      → save_all now (sort newer pos) rows ≡ save_all now pos rows
  save_all-sort now [] rows u = refl
  save_all-sort now (x ∷ pos) rows u =
      save_all-insert now x (sort newer pos) rows (sort-All newer (λ y. y.id ≢ x.id) pos u.0)
      ∙ save_all-sort now pos (save_timeout (timed_out note now x) rows) u.1

  select-IsDistinct :
      (p : PurchaseOrder → Bool) (rows : List PurchaseOrder)
      → IsDistinct rows
      → IsDistinct (select p rows)
  select-IsDistinct p [] u = tt
  select-IsDistinct p (x ∷ rows) u = elim (Bool-cases (p x)) [
    | inl chosen ↦ rw chosen (select-All p x rows u.0, select-IsDistinct p rows u.1)
    | inr left ↦ rw left (select-IsDistinct p rows u.1)
  ]

  swept_fresh :
      (now : ℕ) (rows : List PurchaseOrder) → select (is_stale now) (map (swept now) rows) ≡ []
  swept_fresh now [] = refl
  swept_fresh now (x ∷ rows) = elim (Bool-cases (is_stale now x)) [
    | inl stale ↦ rw stale (swept_fresh now rows)
    | inr fresh ↦ rw fresh (rw fresh (swept_fresh now rows))
  ]

  -- If the keys of the orders are distinct, a sweep sets exactly the stale orders to `timeout`, with
  -- the note added, and leaves every other one as it was; after it no order is stale at that time.
  pub check_supplier_timeouts-orders :
      (k : Desk)
      → IsDistinct k.db.orders.rows
      → let after = (check_supplier_timeouts recipients note k).1.db.orders.rows in
        (after ≡ map (swept k.db.now) k.db.orders.rows) × (select (is_stale k.db.now) after ≡ [])
  unfolding check_supplier_timeouts
  check_supplier_timeouts-orders k u =
      let now = k.db.now in
      let rows = k.db.orders.rows in
      let stale = select (is_stale now) rows in
      let saved =
        time_out_all-orders (sort newer stale) k
        ∙ save_all-sort now stale rows (select-IsDistinct (is_stale now) rows u)
        ∙ save_all-map now rows u in
      (saved, ap (select (is_stale now)) saved ∙ swept_fresh now rows)
