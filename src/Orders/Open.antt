-- ===== src/Orders/Open.antt =====
-- `get_open_for_sku` and `get_open_for_product` (apps/purchasing/repositories.py): the newest open
-- order, if there is one.
use smart_stock_ai.Prelude.{
  if◌then◌else◌, ℕ, Bool, true, false, ◌&&◌, List, [], ◌∷◌, ◌≡◌, ◌⊎◌, inl, inr, refl, Option, some,
  none, arith, All, select, ◌==◌, Bool-cases,
}
use smart_stock_ai.Database.{Db, PurchaseOrder}
use smart_stock_ai.Orders.Repository.{
  latest, newer, is_open_status, get_open_for_sku, get_open_for_product, is_of_product,
}

abbrev pub Has : PurchaseOrder → List PurchaseOrder → Type 0
Has r [] = ⊥
Has r (x ∷ xs) = (x ≡ r) ⊎ Has r xs

-- `found` is the newest of the rows that pass the test: none if none passes, and otherwise a row of
-- the list that passes, with none newer among those that do.
abbrev pub IsNewest : (PurchaseOrder → Bool) → List PurchaseOrder → Option PurchaseOrder → Type 0
IsNewest p rs none = All (λ x. p x ≡ false) rs
IsNewest p rs (some r) = (p r ≡ true) × Has r rs × All (λ x. (p x ≡ false) ⊎ (newer x r ≡ false)) rs

newer_self : (r : PurchaseOrder) → newer r r ≡ false
newer_self r = ground arith

newer_trans : (x s y : PurchaseOrder) → newer x s ≡ true → newer y s ≡ false → newer y x ≡ false
newer_trans x s y h k = ground arith

none_newer :
    (p : PurchaseOrder → Bool) (x s : PurchaseOrder) (rs : List PurchaseOrder)
    → newer x s ≡ true
    → All (λ y. (p y ≡ false) ⊎ (newer y s ≡ false)) rs
    → All (λ y. (p y ≡ false) ⊎ (newer y x ≡ false)) rs
none_newer p x s [] h a = tt
none_newer p x s (y ∷ rs) h (inl skip, a) = (inl skip, none_newer p x s rs h a)
none_newer p x s (y ∷ rs) h (inr old, a) = (inr (newer_trans x s y h old), none_newer p x s rs h a)

skipped :
    (p : PurchaseOrder → Bool) (x : PurchaseOrder) (rs : List PurchaseOrder)
    → All (λ y. p y ≡ false) rs
    → All (λ y. (p y ≡ false) ⊎ (newer y x ≡ false)) rs
skipped p x [] a = tt
skipped p x (y ∷ rs) a = (inl a.0, skipped p x rs a.1)

-- One more row that passes.
put-IsNewest :
    (p : PurchaseOrder → Bool) (x : PurchaseOrder) (rs : List PurchaseOrder)
    (found : Option PurchaseOrder)
    → p x ≡ true
    → IsNewest p rs found
    → IsNewest p
        (x ∷ rs)
        (elim found [ none ↦ some x | some s ↦ some (if newer x s then x else s) ])
put-IsNewest p x rs none e h = (e, inl refl, (inr (newer_self x), skipped p x rs h))
put-IsNewest p x rs (some s) e h = by_age (newer x s) refl
  where
    by_age : (b : Bool) → newer x s ≡ b → IsNewest p (x ∷ rs) (some (if b then x else s))
    by_age true wins = (e, inl refl, (inr (newer_self x), none_newer p x s rs wins h.2))
    by_age false loses = (h.0, inr h.1, (inr loses, h.2))

latest-select :
    (p : PurchaseOrder → Bool) (rs : List PurchaseOrder) → IsNewest p rs (latest (select p rs))
unfolding latest
latest-select p [] = tt
latest-select p (x ∷ rs) = elim (Bool-cases (p x)) [
  | inl passes ↦ rw passes (put-IsNewest p x rs (latest (select p rs)) passes (latest-select p rs))
  | inr fails ↦ rw fails (skip_row p x rs (latest (select p rs)) fails (latest-select p rs))
]
  where
    skip_row :
        (p : PurchaseOrder → Bool) (x : PurchaseOrder) (rs : List PurchaseOrder)
        (found : Option PurchaseOrder)
        → p x ≡ false
        → IsNewest p rs found
        → IsNewest p (x ∷ rs) found
    skip_row p x rs none e h = (e, h)
    skip_row p x rs (some s) e h = (h.0, inr h.1, (inl e, h.2))

abbrev pub is_open_for_sku : ℕ → PurchaseOrder → Bool
is_open_for_sku sku r = r.sku_id == sku && is_open_status r.status

-- The open order of a SKU that the repository reports is the newest one, by time of creation and
-- then by key; it reports none exactly if no order of the SKU is open.
pub get_open_for_sku_lem :
    (sku : ℕ) (d : Db) → IsNewest (is_open_for_sku sku) d.orders.rows (get_open_for_sku sku d)
unfolding get_open_for_sku
get_open_for_sku_lem sku d = latest-select (is_open_for_sku sku) d.orders.rows

-- The same for a product, over the orders of all its SKUs.
pub get_open_for_product_lem :
    (product : ℕ) (d : Db)
    → IsNewest
        (λ r. is_of_product d product r && is_open_status r.status)
        d.orders.rows
        (get_open_for_product product d)
unfolding get_open_for_product
get_open_for_product_lem product d =
    latest-select (λ r. is_of_product d product r && is_open_status r.status) d.orders.rows
