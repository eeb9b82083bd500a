-- ===== src/Orders/Active.antt =====
-- At most one order is active (draft, pending approval or approved) for a SKU, a supplier and a
-- quantity: what `draft_po` and the constraint of the table are for.
use smart_stock_ai.Prelude.{
  ℕ, Bool, true, false, ◌&&◌, List, [], ◌∷◌, ◌++◌, ◌≡◌, refl, arith, none, some, ◌==◌, any, All,
  inl, inr, Bool-cases, select,
}
use smart_stock_ai.Prelude.Table.{find, update}
use smart_stock_ai.Database.{PurchaseOrder, Status, same_status}
use smart_stock_ai.Orders.Repository.{
  order_key, is_active_status, same_key, clashes, uq_active_ok, latest,
}

abbrev pub rivals : PurchaseOrder → PurchaseOrder → Bool
rivals r s = is_active_status r.status && (is_active_status s.status && same_key r s)

abbrev pub NoRival : PurchaseOrder → List PurchaseOrder → Type 0
NoRival r rs = All (λ s. rivals r s ≡ false) rs

abbrev pub OneActive : List PurchaseOrder → Type 0
OneActive [] = Unit
OneActive (r ∷ rs) = NoRival r rs × OneActive rs

-- `s` stands where `r` stood: the same request, and active only if `r` was.
pub record Succeeds (r s : PurchaseOrder) : Type 0 where
  pub same_sku : s.sku_id ≡ r.sku_id
  pub same_supplier : s.supplier_id ≡ r.supplier_id
  pub same_quantity : s.quantity ≡ r.quantity
  pub stays_closed : is_active_status r.status ≡ false → is_active_status s.status ≡ false

active_same :
    (a b : Status) → is_active_status a ≡ true → same_status a b ≡ true → is_active_status b ≡ true
active_same a b h e = ground arith

rivals-clashes : (r s : PurchaseOrder) → rivals r s ≡ false → clashes r s ≡ false
rivals-clashes r s h = ground (arith, active_same r.status s.status)

NoRival-clashes :
    (r : PurchaseOrder) (rs : List PurchaseOrder) → NoRival r rs → any (clashes r) rs ≡ false
NoRival-clashes r [] h = refl
NoRival-clashes r (s ∷ rs) h = ground (arith, rivals-clashes r s h.0, NoRival-clashes r rs h.1)

-- The constraint of the table cannot fail.
pub OneActive-uq_active_ok : (rs : List PurchaseOrder) → OneActive rs → uq_active_ok rs ≡ true
unfolding uq_active_ok
OneActive-uq_active_ok [] h = refl
OneActive-uq_active_ok (r ∷ rs) h =
    ground (arith, NoRival-clashes r rs h.0, OneActive-uq_active_ok rs h.1)

and_mono :
    (a b c k : Bool) → (b ≡ false → c ≡ false) → (a && (b && k)) ≡ false → (a && (c && k)) ≡ false
and_mono a b c k h e = ground arith

rivals_right : (x r s : PurchaseOrder) → Succeeds r s → rivals x r ≡ false → rivals x s ≡ false
rivals_right x r s m h =
    rw (m.same_sku, m.same_supplier, m.same_quantity)
      (and_mono (is_active_status x.status) (is_active_status r.status) (is_active_status s.status)
        (same_key x r) m.stays_closed h)

rivals_left : (x r s : PurchaseOrder) → Succeeds r s → rivals r x ≡ false → rivals s x ≡ false
rivals_left x r s m h =
    rw (m.same_sku, m.same_supplier, m.same_quantity)
      (and_mono true (is_active_status r.status) (is_active_status s.status)
        (is_active_status x.status && same_key r x) m.stays_closed h)

NoRival-left :
    (r s : PurchaseOrder) (rs : List PurchaseOrder) → Succeeds r s → NoRival r rs → NoRival s rs
NoRival-left r s [] m h = tt
NoRival-left r s (x ∷ rs) m h = (rivals_left x r s m h.0, NoRival-left r s rs m h.1)

head-eq :
    (y : PurchaseOrder) (k : ℕ) (rs : List PurchaseOrder) {r : PurchaseOrder}
    → (order_key y == k) ≡ true
    → find order_key k (y ∷ rs) ≡ some r
    → y ≡ r
head-eq y k rs here e = cc (rw here at e)

NoRival-update :
    (x s : PurchaseOrder) (k : ℕ) (rs : List PurchaseOrder) {r : PurchaseOrder}
    → find order_key k rs ≡ some r
    → Succeeds r s
    → NoRival x rs
    → NoRival x (update order_key k (λ y. s) rs)
NoRival-update x s k [] e m h = tt
NoRival-update x s k (y ∷ rs) {r} e m h = elim (Bool-cases (order_key y == k)) [
  | inl here ↦ rw here (rivals_right x r s m (rw (head-eq y k rs here e) at h.0), h.1)
  | inr later ↦ rw later (h.0, NoRival-update x s k rs (rw later at e) m h.1)
]

pub OneActive-update :
    (s : PurchaseOrder) (k : ℕ) (rs : List PurchaseOrder) {r : PurchaseOrder}
    → find order_key k rs ≡ some r
    → Succeeds r s
    → OneActive rs
    → OneActive (update order_key k (λ y. s) rs)
OneActive-update s k [] e m h = tt
OneActive-update s k (y ∷ rs) {r} e m h = elim (Bool-cases (order_key y == k)) [
  | inl here ↦ rw here (NoRival-left r s rs m (rw (head-eq y k rs here e) at h.0), h.1)
  | inr later ↦
      rw later (
        NoRival-update y s k rs (rw later at e) m h.0,
        OneActive-update s k rs (rw later at e) m h.1,
      )
]

NoRival-last :
    (r s : PurchaseOrder) (rs : List PurchaseOrder)
    → NoRival r rs
    → rivals r s ≡ false
    → NoRival r (rs ++ s ∷ [])
NoRival-last r s [] n e = (e, tt)
NoRival-last r s (x ∷ rs) n e = (n.0, NoRival-last r s rs n.1 e)

pub OneActive-append :
    (s : PurchaseOrder) (rs : List PurchaseOrder)
    → OneActive rs
    → All (λ x. rivals x s ≡ false) rs
    → OneActive (rs ++ s ∷ [])
OneActive-append s [] h a = (tt, tt)
OneActive-append s (r ∷ rs) h a = (NoRival-last r s rs h.0 a.0, OneActive-append s rs h.1 a.1)

-- Only the empty list has no latest element.
latest_nil : (xs : List PurchaseOrder) → latest xs ≡ none → xs ≡ []
unfolding latest
latest_nil [] h = refl
latest_nil (x ∷ xs) h = ground arith

select_nil :
    (p : PurchaseOrder → Bool) (xs : List PurchaseOrder)
    → select p xs ≡ []
    → All (λ x. p x ≡ false) xs
select_nil p [] h = tt
select_nil p (x ∷ xs) h = elim (Bool-cases (p x)) [
  | inl yes_x ↦ cc (rw yes_x at h)
  | inr no_x ↦ (no_x, select_nil p xs (rw no_x at h))
]

pub latest-select-none :
    (p : PurchaseOrder → Bool) (xs : List PurchaseOrder)
    → latest (select p xs) ≡ none
    → All (λ x. p x ≡ false) xs
latest-select-none p xs h = select_nil p xs (latest_nil (select p xs) h)
