-- ===== src/Inventory/Adjust.antt =====
-- What `adjust_stock` (apps/inventory/services.py) does to a stock level.
use smart_stock_ai.Prelude.{
  ℕ, Option, none, some, ◌≡◌, refl, arith, Bool-cases, inl, inr, if◌then◌else◌,
}
use smart_stock_ai.Prelude.Int.{ℤ, ◌+ℤ◌, ltb_ℤ}
use smart_stock_ai.Prelude.Action.{
  does_not_exist, insufficient_stock, Action, ok, err, ◌>>=◌, or_raise,
}
use smart_stock_ai.Prelude.Table.{find_key, find-update_self, find}
use smart_stock_ai.Database.{Db, StockLevel}
use smart_stock_ai.Inventory.Stock.{
  change_level, announce_adjustment, repo_adjust_stock, adjust_stock, stock_key, get_stock_level,
}
use smart_stock_ai.Inventory.Levels.{
  AllCovered, Covering, bind-Covering, transaction-Covering, put-AllCovered,
}

-- One adjustment of the level `r`, which is found.
change_level-Covering :
    (id : ℕ) (delta : ℤ) (d : Db) (r : StockLevel)
    → AllCovered d
    → find stock_key id d.stock_levels.rows ≡ some r
    → AllCovered (change_level id delta r d).1
change_level-Covering id delta d r c e =
    elim (Bool-cases (ltb_ℤ (r.quantity_on_hand +ℤ delta) r.quantity_reserved)) [
      | inl short ↦ rw short c
      | inr fits ↦ rw fits (put-AllCovered id (r.quantity_on_hand +ℤ delta) d c e (ground arith))
    ]

-- Reading a level before the rest of an action.
pub read-Covering :
    {A : Type 0} (id : ℕ) (f : StockLevel → Action Db A) (d : Db)
    → ((r : StockLevel) → find stock_key id d.stock_levels.rows ≡ some r → AllCovered (f r d).1)
    → AllCovered d
    → AllCovered ((get_stock_level id >>= f) d).1
read-Covering {A} id f d h c = found (find stock_key id d.stock_levels.rows) refl
  where
    found :
        (o : Option StockLevel)
        → find stock_key id d.stock_levels.rows ≡ o
        → AllCovered ((or_raise o does_not_exist >>= f) d).1
    found none e = c
    found (some r) e = h r e

repo_adjust_stock-Covering : (id : ℕ) (delta : ℤ) → Covering (repo_adjust_stock id delta)
unfolding repo_adjust_stock
repo_adjust_stock-Covering id delta =
    transaction-Covering (get_stock_level id >>= change_level id delta) (λ d c.
      read-Covering id (change_level id delta) d (λ r e. change_level-Covering id delta d r c e) c)

pub adjust_stock-Covering : (id : ℕ) (delta : ℤ) → Covering (adjust_stock id delta)
unfolding adjust_stock
adjust_stock-Covering id delta =
    bind-Covering (repo_adjust_stock id delta) (announce_adjustment id delta)
      (repo_adjust_stock-Covering id delta) (λ stock d c. c)

-- An adjustment of an existing level raises InsufficientStockError and leaves the level as it was if
-- fewer units would be on hand than are reserved; otherwise it returns and stores the level with the
-- sum.
pub adjust_stock_lem :
    (id : ℕ) (delta : ℤ) (d : Db) {r : StockLevel}
    → find stock_key id d.stock_levels.rows ≡ some r
    → let short = ltb_ℤ (r.quantity_on_hand +ℤ delta) r.quantity_reserved in
      let s = record r { quantity_on_hand = r.quantity_on_hand +ℤ delta } in
      ((adjust_stock id delta d).0 ≡ (if short then err insufficient_stock else ok s))
      × (find stock_key id (adjust_stock id delta d).1.stock_levels.rows
          ≡ some (if short then r else s))
unfolding adjust_stock repo_adjust_stock
adjust_stock_lem id delta d {r} e =
    let s : StockLevel = record r { quantity_on_hand = r.quantity_on_hand +ℤ delta } in
    ground (
      arith,
      e,
      find_key stock_key id d.stock_levels.rows {r = r},
      find-update_self stock_key id
          (λ x. record x { quantity_on_hand = r.quantity_on_hand +ℤ delta }) d.stock_levels.rows
          {r = r},
    )
