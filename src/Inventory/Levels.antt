-- ===== src/Inventory/Levels.antt =====
-- No operation of InventoryService (apps/inventory/services.py) makes more units reserved than are on
-- hand.
use smart_stock_ai.Prelude.{ℕ, Option, none, some, List, [], ◌∷◌, ◌++◌, ◌≡◌, refl, arith, All}
use smart_stock_ai.Prelude.Int.{ℤ, pos, ◌≤ℤ◌}
use smart_stock_ai.Prelude.Action.{catch, Action, Result, Error, ok, err, ◌>>=◌, or_raise}
use smart_stock_ai.Prelude.Table.{find, update, IsBelow, find-append, IsBelow-append}
use smart_stock_ai.Database.{Db, StockLevel}
use smart_stock_ai.Inventory.Stock.{with_levels, stock_key, transaction}
use smart_stock_ai.Inventory.Invoices.{create_level, create_level_row, level_of_sku}

abbrev pub Covers : StockLevel → Type 0
Covers s = s.quantity_reserved ≤ℤ s.quantity_on_hand

abbrev pub IsDistinct : List StockLevel → Type 0
IsDistinct [] = Unit
IsDistinct (x ∷ xs) = (find stock_key x.id xs ≡ none) × IsDistinct xs

-- Every stock level has the units that are reserved on it, and the keys are distinct and below the
-- next key.
abbrev pub AllCovered : Db → Type 0
AllCovered d =
    All Covers d.stock_levels.rows
    × IsDistinct d.stock_levels.rows
    × IsBelow stock_key d.stock_levels.next_id d.stock_levels.rows

-- An action after which the levels are covered if they were before.
abbrev pub Covering : {A : Type 0} → Action Db A → Type 0
Covering m = (d : Db) → AllCovered d → AllCovered (m d).1

module _ {A B : Type 0} where
  pub bind-Covering :
      (m : Action Db A) (f : A → Action Db B)
      → Covering m
      → ((a : A) → Covering (f a))
      → Covering (m >>= f)
  bind-Covering m f h k d c = go (m d) (h d c)
    where
      go :
          (p : Result A × Db)
          → AllCovered p.1
          → AllCovered
              (elim p.0 as (λ x. Result B × Db) [ ok a ↦ f a p.1 | err e ↦ (err e, p.1) ]).1
      go (ok a, t) c' = k a t c'
      go (err e, t) c' = c'

module _ {A : Type 0} where
  pub transaction-Covering : (m : Action Db A) → Covering m → Covering (transaction m)
  transaction-Covering m h d c = go (m d) (h d c)
    where
      go :
          (p : Result A × Db)
          → AllCovered p.1
          → AllCovered
              (elim p.0 as (λ x. Result A × Db) [
                | ok a ↦ (ok a, p.1)
                | err e ↦ (err e, record d { cache_version = p.1.cache_version })
              ]).1
      go (ok a, t) c' = c'
      go (err e, t) c' = c

  pub catch-Covering :
      (m : Action Db A) (k : Error → Action Db A)
      → Covering m
      → ((e : Error) → Covering (k e))
      → Covering (catch m k)
  catch-Covering m k h g d c = go (m d) (h d c)
    where
      go :
          (p : Result A × Db)
          → AllCovered p.1
          → AllCovered (elim p.0 as (λ x. Result A × Db) [ ok a ↦ (ok a, p.1) | err e ↦ k e p.1 ]).1
      go (ok a, t) c' = c'
      go (err e, t) c' = g e t c'

  pub or_raise-Covering : (o : Option A) (e : Error) → Covering (or_raise {S = Db} o e)
  or_raise-Covering none e d c = c
  or_raise-Covering (some a) e d c = c

-- A write of the units on hand.
abbrev put : ℕ → ℤ → List StockLevel → List StockLevel
put id q rs = update stock_key id (λ s. record s { quantity_on_hand = q }) rs

update-Covers :
    (id : ℕ) (q : ℤ) (rs : List StockLevel) {r : StockLevel}
    → All Covers rs
    → find stock_key id rs ≡ some r
    → r.quantity_reserved ≤ℤ q
    → All Covers (put id q rs)
update-Covers id q [] c e h = tt
update-Covers id q (x ∷ rs) {r} c e h = ground (arith, update-Covers id q rs {r = r} c.1)

find-update :
    (k id : ℕ) (q : ℤ) (rs : List StockLevel)
    → find stock_key k rs ≡ none
    → find stock_key k (put id q rs) ≡ none
find-update k id q [] e = refl
find-update k id q (x ∷ rs) e = ground (arith, find-update k id q rs)

update-IsDistinct :
    (id : ℕ) (q : ℤ) (rs : List StockLevel) → IsDistinct rs → IsDistinct (put id q rs)
update-IsDistinct id q [] h = tt
update-IsDistinct id q (x ∷ rs) h =
    ground (arith, find-update x.id id q rs h.0, update-IsDistinct id q rs h.1)

update-IsBelow :
    (n id : ℕ) (q : ℤ) (rs : List StockLevel)
    → IsBelow stock_key n rs
    → IsBelow stock_key n (put id q rs)
update-IsBelow n id q [] h = tt
update-IsBelow n id q (x ∷ rs) h = ground (arith, update-IsBelow n id q rs h.1)

pub put-AllCovered :
    (id : ℕ) (q : ℤ) (d : Db) {r : StockLevel}
    → AllCovered d
    → find stock_key id d.stock_levels.rows ≡ some r
    → r.quantity_reserved ≤ℤ q
    → AllCovered (with_levels (put id q d.stock_levels.rows) d)
put-AllCovered id q d (c, u, b) e h = (
  update-Covers id q d.stock_levels.rows c e h,
  update-IsDistinct id q d.stock_levels.rows u,
  update-IsBelow d.stock_levels.next_id id q d.stock_levels.rows b,
)

append-IsDistinct :
    (n : ℕ) (s : StockLevel) (rs : List StockLevel)
    → s.id ≡ n
    → IsDistinct rs
    → IsBelow stock_key n rs
    → IsDistinct (rs ++ s ∷ [])
append-IsDistinct n s [] e u b = (refl, tt)
append-IsDistinct n s (x ∷ rs) e u b =
    (rw (find-append stock_key x.id rs s, u.0) (ground arith), append-IsDistinct n s rs e u.1 b.1)

append-Covers :
    (s : StockLevel) (rs : List StockLevel) → Covers s → All Covers rs → All Covers (rs ++ s ∷ [])
append-Covers s [] h c = (h, tt)
append-Covers s (x ∷ rs) h c = (c.0, append-Covers s rs h c.1)

pub create_level-Covering : (sku : ℕ) (q : ℤ) → pos 0 ≤ℤ q → Covering (create_level sku q)
create_level-Covering sku q h d (c, u, b) =
    let s = (create_level_row sku q d) in
    (
      append-Covers s d.stock_levels.rows h c,
      append-IsDistinct d.stock_levels.next_id s d.stock_levels.rows refl u b,
      IsBelow-append stock_key d.stock_levels.next_id s d.stock_levels.rows refl b,
    )

-- The level of a SKU is the one that its key finds.
pub find-level :
    (sku : ℕ) (rs : List StockLevel) {s : StockLevel}
    → IsDistinct rs
    → find level_of_sku sku rs ≡ some s
    → find stock_key s.id rs ≡ some s
find-level sku [] u e = cc e
find-level sku (x ∷ rs) {s} u e = ground (arith, find-level sku rs {s = s} u.1)

pub find-Covers :
    (k : ℕ) (rs : List StockLevel) {s : StockLevel}
    → All Covers rs
    → find stock_key k rs ≡ some s
    → Covers s
find-Covers k [] c e = cc e
find-Covers k (x ∷ rs) {s} c e = ground (arith, find-Covers k rs {s = s} c.1)
