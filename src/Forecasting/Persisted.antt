-- ===== src/Forecasting/Persisted.antt =====
-- `persist_reorder_flag` (apps/forecasting/services.py): the flag that it writes.
use mathlib.Core.Path.{subst}
use smart_stock_ai.Prelude.{
  select, ℕ, ◌<◌, Bool, true, false, Option, none, some, List, [], ◌∷◌, ◌≡◌, refl, arith, String,
  if◌then◌else◌, ◌==◌,
}
use smart_stock_ai.Prelude.Action.{Result, Error, ok, err, does_not_exist, or_raise, bind_ind}
use smart_stock_ai.Prelude.Table.{find, find_key}
use smart_stock_ai.Database.{Sku}
use smart_stock_ai.Orders.Repository.{sku_key}
use smart_stock_ai.Inventory.Invoices.{sku_by_code}
use smart_stock_ai.Forecasting.{ReorderFlag, Store}
use smart_stock_ai.Forecasting.Repository.{
  write_or_insert, is_open_for, FlagData, get_sku, get_sku_by_code, upsert_open_reorder_flag,
}
use smart_stock_ai.Forecasting.Service.{persist_reorder_flag, sku_of_decision}
use smart_stock_ai.Forecasting.Flags.{
  IsValid, Upserted, upsert_open_reorder_flag-Upserted, upsert_open_reorder_flag-IsValid,
}

-- A lookup of a SKU leaves the store; by key it finds the SKU with that key.
abbrev Looked : (Sku → Type 0) → Store → Result Sku × Store → Type 0
Looked P w (ok s, t) = P s × (t ≡ w)
Looked P w (err e, t) = t ≡ w

or_raise-Looked :
    (P : Sku → Type 0) (e : Error) (o : Option Sku) (w : Store)
    → ((s : Sku) → o ≡ some s → P s)
    → Looked P w (or_raise {S = Store} o e w)
or_raise-Looked P e none w h = refl
or_raise-Looked P e (some s) w h = (h s refl, refl)

sku_of_decision-Looked :
    (k : Option ℕ) (code : String) (w : Store) → Looked (λ s. Unit {0}) w (sku_of_decision k code w)
unfolding get_sku get_sku_by_code
sku_of_decision-Looked none code w =
    or_raise-Looked (λ s. Unit {0}) does_not_exist (sku_by_code code w.db.skus.rows) w (λ s e. tt)
sku_of_decision-Looked (some sku) code w = by_key (sku == 0)
  where
    by_key :
        (b : Bool) → Looked (λ s. Unit {0}) w ((if b then get_sku_by_code code else get_sku sku) w)
    by_key true =
        or_raise-Looked (λ s. Unit {0}) does_not_exist (sku_by_code code w.db.skus.rows) w
          (λ s e. tt)
    by_key false =
        or_raise-Looked (λ s. Unit {0}) does_not_exist (find sku_key sku w.db.skus.rows) w
          (λ s e. tt)

get_sku-Looked :
    (sku : ℕ) (code : String) (w : Store)
    → 0 < sku
    → Looked (λ s. s.id ≡ sku) w (sku_of_decision (some sku) code w)
unfolding get_sku
get_sku-Looked sku code w p =
    let found = (λ (s : Sku) (e : find sku_key sku w.db.skus.rows ≡ some s).
      find_key sku_key sku w.db.skus.rows e) in
    let b : (sku == 0) ≡ false = ground arith in
    rw b
      (or_raise-Looked (λ s. s.id ≡ sku) does_not_exist (find sku_key sku w.db.skus.rows) w found)

-- The flag that is written, or an exception that leaves the store.
abbrev pub Persisted : ℕ → FlagData → Store → Result ReorderFlag × Store → Type 0
Persisted sku c w (err e, t) = t ≡ w
Persisted sku c w (ok f, t) = Upserted sku c w (ok f, t)

Persisted-of :
    (sku : ℕ) (c : FlagData) (w : Store) (r : Result ReorderFlag × Store)
    → Upserted sku c w r
    → Persisted sku c w r
Persisted-of sku c w (ok f, t) u = u
Persisted-of sku c w (err e, t) u = elim u [ ]

pub persist_reorder_flag-Persisted :
    (sku : ℕ) (code : String) (c : FlagData) (w : Store)
    → 0 < sku
    → IsValid w
    → Persisted sku c w (persist_reorder_flag (some sku) code c w)
unfolding persist_reorder_flag
persist_reorder_flag-Persisted sku code c w p v =
    bind_ind (Persisted sku c w) (sku_of_decision (some sku) code)
      (λ s. upsert_open_reorder_flag s.id c) w
      (λ s t e.
        let (k, same) = subst (Looked (λ s. s.id ≡ sku) w) e (get_sku-Looked sku code w p) in
        rw (k, same)
          (Persisted-of sku c w (upsert_open_reorder_flag sku c w)
            (upsert_open_reorder_flag-Upserted sku c w v)))
      (λ x t e. subst (Looked (λ s. s.id ≡ sku) w) e (get_sku-Looked sku code w p))

pub persist_reorder_flag-IsValid :
    (k : Option ℕ) (code : String) (c : FlagData) (w : Store)
    → (c.reorder_required ≡ true) × (c.has_open_po ≡ false)
    → IsValid w
    → IsValid (persist_reorder_flag k code c w).1
unfolding persist_reorder_flag
persist_reorder_flag-IsValid k code c w h v =
    let looked = sku_of_decision-Looked k code w in
    bind_ind (λ r. IsValid r.1) (sku_of_decision k code) (λ s. upsert_open_reorder_flag s.id c) w
      (λ s t e.
        rw ((subst (Looked (λ s. Unit {0}) w) e looked).1)
          (upsert_open_reorder_flag-IsValid s.id c w h v))
      (λ x t e. rw (subst (Looked (λ s. Unit {0}) w) e looked) v)

-- What an action leaves if it raises.
abbrev pub Undone : {A : Type 0} → Store → Result A × Store → Type 0
Undone w (ok a, t) = Unit
Undone w (err e, t) = t ≡ w

write_or_insert-Undone :
    (sku : ℕ) (c : FlagData) (fs : List ReorderFlag) (w : Store)
    → Undone w (write_or_insert sku c fs w)
write_or_insert-Undone sku c [] w = tt
write_or_insert-Undone sku c (f ∷ []) w = tt
write_or_insert-Undone sku c (f ∷ (g ∷ gs)) w = refl

pub persist_reorder_flag-Undone :
    (k : Option ℕ) (code : String) (c : FlagData) (w : Store)
    → Undone w (persist_reorder_flag k code c w)
unfolding persist_reorder_flag upsert_open_reorder_flag
persist_reorder_flag-Undone k code c w =
    let looked = sku_of_decision-Looked k code w in
    bind_ind (Undone w) (sku_of_decision k code) (λ sku. upsert_open_reorder_flag sku.id c) w
      (λ sku t e.
        rw ((subst (Looked (λ s. Unit {0}) w) e looked).1)
          (write_or_insert-Undone sku.id c (select (is_open_for sku.id) w.flags.rows) w))
      (λ x t e. subst (Looked (λ s. Unit {0}) w) e looked)

-- Looking up the SKU of a decision changes nothing.
pub sku_of_decision-same :
    (k : Option ℕ) (code : String) (w : Store) → (sku_of_decision k code w).1 ≡ w
sku_of_decision-same k code w = same (sku_of_decision k code w) (sku_of_decision-Looked k code w)
  where
    same : (r : Result Sku × Store) → Looked (λ s. Unit {0}) w r → r.1 ≡ w
    same (ok s, t) h = h.1
    same (err e, t) h = h
